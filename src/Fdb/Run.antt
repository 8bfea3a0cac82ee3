-- ===== src/Fdb/Run.antt =====
-- infra/pulumi/modules/sdn_fdb.py: `ensure_sdn_fdb` and `run_standalone`.
pub mod Effects
use rke2_lab.Base.{
  ℕ, String, ◌<>◌, Bool, not, Option, none, some, List, [], ◌∷◌, ◌++◌, map, join, length, contains,
  if◌then◌else◌,
}
use rke2_lab.Base.Dict.{Dict}
use rke2_lab.Py.Text.{show_ℕ, split_on, lower}
use rke2_lab.Py.Effect.{Env, Io, printed, pure, emit, for_each, ◌>>=◌}
use rke2_lab.Cleanup.Settings.{CleanupSettings, configured}
use rke2_lab.Cleanup.Client.{make_client, auth}
use rke2_lab.Cleanup.Run.{names_in}
use rke2_lab.Fdb.Settings.{SdnFdbSettings}
use rke2_lab.Fdb.Lines.{macs_of}
use rke2_lab.Fdb.Discover.{discover_sdn_macs}
use rke2_lab.Fdb.Install.{install_node}

unfoldable pub client_settings : SdnFdbSettings → CleanupSettings
client_settings settings = record {
  endpoint = settings.endpoint;
  username = settings.username;
  password = settings.password;
  node_names = settings.node_names;
  datastore_ids = [];
  insecure = settings.insecure;
  fallback_password_file = none;
  node_ssh_hosts = none;
}

found_line : SdnFdbSettings → Dict (List String) → String
found_line settings macs =
    "sdn-fdb: discovered MACs "
    <> join ", " (map (λ n. n <> ("=" <> show_ℕ (length (macs_of n macs)))) settings.node_names)

concat : List (List String) → List String
concat [] = []
concat (ls ∷ rest) = ls ++ concat rest

unfoldable pub install_all : Env → SdnFdbSettings → Io (List String)
unfolding client_settings found_line concat make_client auth discover_sdn_macs install_node for_each
    pure ◌>>=◌
install_all env settings = do
  let client = make_client env (client_settings settings)
  (ticket, csrf) ← auth env client
  macs ← discover_sdn_macs env client ticket settings
  lines ← for_each (λ node. install_node env settings node macs) settings.node_names
  pure (found_line settings macs ∷ concat lines)

unfoldable pub ensure_sdn_fdb : Env → SdnFdbSettings → Bool → Io (List String)
unfolding install_all pure
ensure_sdn_fdb env settings dry_run =
    if dry_run then pure ("sdn-fdb: skipped (dry run / preview)" ∷ []) else install_all env settings

abbrev or_default : Option String → String → String
or_default none default = default
or_default (some value) default = value

unfoldable pub build_settings_from_env : Env → SdnFdbSettings
unfolding names_in
build_settings_from_env env = record {
  endpoint = or_default (env.getenv "PROXMOX_VE_ENDPOINT") "";
  username = or_default (env.getenv "PROXMOX_VE_USERNAME") "root@pam";
  password = or_default (env.getenv "PROXMOX_VE_PASSWORD") "";
  insecure =
      contains (lower (or_default (env.getenv "PROXMOX_VE_INSECURE") "true"))
        ("1" ∷ "true" ∷ "yes" ∷ "on" ∷ []);
  node_names =
      names_in (split_on 44 (or_default (env.getenv "PROXMOX_VE_NODES") "pve01,pve02,pve03"));
  peers = names_in (
      split_on 44
        (or_default (env.getenv "PROXMOX_VE_SDN_PEERS") "192.168.1.21,192.168.1.22,192.168.1.23"));
  vxlan_device = "vxlan_vlab";
  data_file = "/etc/sdn-vlab-fdb/sdn-vlab-fdb.txt";
  data_dir = "/etc/sdn-vlab-fdb";
  hook_file = "/etc/network/if-up.d/sdn-vlab-fdb";
  fallback_password_file =
      or_default (configured (env.getenv "PROXMOX_HOST_PASSWORD_FILE")) "~/.proxmoxpass";
  node_ssh_hosts =
      ("pve01", "192.168.1.21") ∷ ("pve02", "192.168.1.22") ∷ ("pve03", "192.168.1.23") ∷ [];
  sdn_nic_index =
      (2001, 1)
      ∷ (2002, 0)
      ∷ (2101, 0)
      ∷ (2102, 0)
      ∷ (2103, 0)
      ∷ (2201, 0)
      ∷ (2202, 0)
      ∷ (2203, 0)
      ∷ [];
}

unfoldable pub run_standalone : Env → List String → Io ℕ
unfolding build_settings_from_env ensure_sdn_fdb emit for_each pure ◌>>=◌
run_standalone env argv = do
  lines ← ensure_sdn_fdb env (build_settings_from_env env) (not (contains "--apply" argv))
  _ ← for_each (λ line. emit (printed line)) lines
  pure 0
