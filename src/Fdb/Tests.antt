-- ===== src/Fdb/Tests.antt =====
-- Runs of infra/pulumi/modules/sdn_fdb.py against a small cluster.
use rke2_lab.Base.{
  ℕ, Option, arith, String, ◌≡◌, refl, ◌↔◌, ◌⊎◌, true, false, some, none, List, [], ◌∷◌, All,
}
use mathlib.Core.List.{Memᴰ}
use rke2_lab.Base.Dict.{Dict}
use rke2_lab.Fake.{fake, runtime}
use rke2_lab.Py.Text.{last_number}
use rke2_lab.Py.Result.{index_error}
use rke2_lab.Py.Effect.{ok, err}
use rke2_lab.Cleanup.Client.{make_client}
use rke2_lab.Fdb.Run.{client_settings, ensure_sdn_fdb}
use rke2_lab.Fdb.Run.Effects.{Installs, ensure_sdn_fdb-Installs}
use rke2_lab.Fdb.Settings.{SdnFdbSettings, position, underlay_for}
use rke2_lab.Fdb.Ssh.{ssh_exit_marker, outcome, outcome-success}
use rke2_lab.Fdb.Lines.{macs_of, remote_lines, lines_for_each, fdb_lines_for}
use rke2_lab.Fdb.Lines.Total.{fdb_lines_for_total}
use rke2_lab.Fdb.Lines.Remotes.{Covered, Directed, fdb_lines_for-Covered, fdb_lines_for-Directed}

abbrev settings : SdnFdbSettings
settings = record {
  endpoint = "https://pve";
  username = "root@pam";
  password = "pw";
  insecure = true;
  node_names = "pve01" ∷ "pve02" ∷ [];
  peers = "192.168.1.21" ∷ "192.168.1.22" ∷ [];
  vxlan_device = "vxlan_vlab";
  data_file = "/etc/sdn-vlab-fdb/sdn-vlab-fdb.txt";
  data_dir = "/etc/sdn-vlab-fdb";
  hook_file = "/etc/network/if-up.d/sdn-vlab-fdb";
  fallback_password_file = "~/.proxmoxpass";
  node_ssh_hosts = [];
  sdn_nic_index = (2001, 1) ∷ (2002, 0) ∷ [];
}

abbrev macs : Dict (List String)
macs = ("pve01", "bc:24:11:00:aa:01" ∷ []) ∷ ("pve02", []) ∷ []

abbrev lines : List String
lines =
    "bc:24:11:00:aa:01 192.168.1.21" ∷ "33:33:00:00:01 192.168.1.21"
    ∷ "ff:ff:ff:ff:ff:ff 192.168.1.21" ∷ []

program : Unit {0}
unfolding runtime position underlay_for macs_of remote_lines lines_for_each fdb_lines_for
program = tt

-- The multicast address has five octets, and so the line for it names no MAC.
lines_of : fdb_lines_for "pve02" settings macs ≡ ok lines
unfolding program
lines_of = refl

-- A node without an address of its own.
no_peer :
    fdb_lines_for "pve01" (record settings { peers = "192.168.1.21" ∷ [] }) macs ≡ err index_error
unfolding program
no_peer = refl

-- No marker in the output, and yet a success.
unmarked : (outcome "pve01" "Connection closed" false none).0 ≡ true
unfolding runtime outcome
unmarked = refl

fdb_lines_for-Covered_example : Covered settings macs lines "pve01"
fdb_lines_for-Covered_example =
    fdb_lines_for-Covered "pve02" settings macs lines lines_of "pve01" (Memᴰ.head refl) refl

fdb_lines_for-Directed_example : All (Directed "pve02" settings macs ("pve01" ∷ "pve02" ∷ [])) lines
fdb_lines_for-Directed_example = fdb_lines_for-Directed "pve02" settings macs lines lines_of

outcome-success_example : ((outcome "pve01" "Connection closed" false none).0 ≡ true) ↔ (
    (last_number ssh_exit_marker "Connection closed" ≡ some 0)
    ⊎ ((last_number ssh_exit_marker "Connection closed" ≡ none)
        × (false ≡ false)
        × ((◌≡◌ {A = Option ℕ} none none) ⊎ (◌≡◌ {A = Option ℕ} none (some 0)))))
outcome-success_example = outcome-success "pve01" "Connection closed" false none

fdb_lines_for_total_example : (ls : List String) × (fdb_lines_for "pve02" settings macs ≡ ok ls)
fdb_lines_for_total_example = fdb_lines_for_total "pve02" settings macs (omega arith)

ensure_sdn_fdb-Installs_example :
    All
      (Installs settings (make_client fake (client_settings settings)))
      (ensure_sdn_fdb fake settings false []).1
ensure_sdn_fdb-Installs_example = ensure_sdn_fdb-Installs fake settings false
