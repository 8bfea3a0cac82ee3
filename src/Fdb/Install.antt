-- ===== src/Fdb/Install.antt =====
-- infra/pulumi/modules/sdn_fdb.py: `_hook_script` and `_install_node`. A count has no leading zeros,
-- and the lines of a host's output end in a newline.
use rke2_lab.Base.{
  ℕ, String, ◌<>◌, Bool, ◌||◌, Option, none, some, List, [], ◌∷◌, ◌++◌, map, join, length, ◌==◌,
  if◌then◌else◌,
}
use rke2_lab.Base.Dict.{Dict}
use rke2_lab.Py.Text.{show_ℕ, last_text, words, first_number, has_part, split_on}
use rke2_lab.Py.Effect.{Env, Io, pure, lift, ◌>>=◌}
use rke2_lab.Fdb.Settings.{SdnFdbSettings}
use rke2_lab.Fdb.Ssh.{host_ssh}
use rke2_lab.Fdb.Lines.{multicast_vrrp_mac, broadcast_mac, fdb_lines_for}

unfoldable pub hook_script : SdnFdbSettings → String
hook_script settings =
    let dev = settings.vxlan_device in
    let path = settings.data_file in
    join "\n" (
      "#!/bin/sh"
      ∷ "# hook"
      ∷ "# Durable SDN vxlan remote-FDB dst bindings (see modules/sdn_fdb.py)."
      ∷ "# PVE 9.2 has no daemon to program the kernel FDB from vxlan_remoteip, so"
      ∷ "# without this the cross-node overlay is dead until someone runs it by"
      ∷ "# hand. Runs on every if-up of the vxlan device: boot and pve-sdn-commit."
      ∷ ("if [ \"${IFACE:-$1}\" != \"" <> (dev <> "\" ] && [ \"${IFACE:-$1}\" != \"vlab\" ]; then"))
      ∷ "    exit 0"
      ∷ "fi"
      ∷ ("[ -r \"" <> (path <> "\" ] || exit 0"))
      ∷ "# ``|| [ -n \"$mac\" ]`` guards a final line that lacks a trailing newline"
      ∷ "# (a bare ``while read`` would silently drop it, losing that peer's dst)."
      ∷ "while read -r mac peer _ || [ -n \"$mac\" ]; do"
      ∷ "    [ -n \"$mac\" ] || continue"
      ∷ "    case \"$mac\" in \\#*) continue ;; esac"
      ∷ "    [ -n \"$peer\" ] || continue"
      ∷ "    # static dst entry; append is idempotent (a duplicate is a no-op warning)."
      ∷ ("    bridge fdb append \"$mac\" dev " <> (dev <> " dst \"$peer\" 2>/dev/null || true"))
      ∷ ("done < \"" <> (path <> "\""))
      ∷ "exit 0"
      ∷ ""
      ∷ [])

-- The command that writes both files, moves them into place and fires the hook.
unfoldable pub install_script : Env → SdnFdbSettings → List String → String
unfolding hook_script
install_script env settings fdb_lines =
    let data_b64 = env.base64 (join "\n" fdb_lines <> "\n") in
    let hook_b64 = env.base64 (hook_script settings) in
    let data_file = settings.data_file in
    let hook_file = settings.hook_file in
    let dev = settings.vxlan_device in
    join "" (
      "set -e; "
      ∷ ("mkdir -p " <> (settings.data_dir <> "; "))
      ∷ ("echo " <> (data_b64 <> (" | base64 -d > " <> (data_file <> ".new; "))))
      ∷ ("mv " <> (data_file <> (".new " <> (data_file <> "; "))))
      ∷ ("echo " <> (hook_b64 <> (" | base64 -d > " <> (hook_file <> ".new; "))))
      ∷ ("chmod 755 " <> (hook_file <> ".new; "))
      ∷ ("mv " <> (hook_file <> (".new " <> (hook_file <> "; "))))
      ∷ ("IFACE=" <> (dev <> (" " <> (hook_file <> " || true; "))))
      ∷ "sleep 1; "
      ∷ ("echo FDB_COUNT=$(bridge fdb show dev " <> (dev <> " 2>/dev/null | wc -l)"))
      ∷ [])

-- `ln.split()[0]` of the lines that have a word
first_words : List String → List String
unfolding words
first_words [] = []
first_words (l ∷ ls) = elim (words l) [ [] ↦ first_words ls | w ∷ _ ↦ w ∷ first_words ls ]

-- The MACs of VMs among the lines' first words.
select_expected : List String → List String
select_expected [] = []
select_expected (w ∷ ws) =
    if w == multicast_vrrp_mac || w == broadcast_mac
    then select_expected ws
    else w ∷ select_expected ws

unfoldable pub expected_macs : List String → List String
unfolding first_words select_expected
expected_macs fdb_lines = select_expected (first_words fdb_lines)

probe_for : String → String
probe_for m =
    "grep -qi \"^"
    <> (m
        <> (" \" /tmp/.fdb_show && echo \""
            <> (m <> (" present\" || echo \"" <> (m <> " missing\"")))))

unfoldable pub probe_script : SdnFdbSettings → List String → String
unfolding probe_for
probe_script settings expected =
    "bridge fdb show dev "
    <> (settings.vxlan_device
        <> (" 2>/dev/null > /tmp/.fdb_show; " <> join " " (map probe_for expected)))

with_missing : List String → List String
with_missing [] = []
with_missing (l ∷ ls) = if has_part "missing" l then l ∷ with_missing ls else with_missing ls

missing_line : String → List String → List String
missing_line node [] = []
missing_line node (m ∷ ms) =
    (node <> (": MISSING dst (hook will heal on next if-up): " <> join ", " (m ∷ ms))) ∷ []

-- The advisory check, where there is something to expect.
unfoldable pub verify_node : Env → SdnFdbSettings → String → List String → Io (List String)
unfolding host_ssh probe_script with_missing first_words missing_line split_on pure ◌>>=◌
verify_node env settings node [] = pure []
verify_node env settings node (m ∷ ms) = do
  (ok2, out2) ← host_ssh env settings node (probe_script settings (m ∷ ms))
  pure (missing_line node (first_words (with_missing (split_on 10 out2))))

count_text : String → Option ℕ → String
count_text out none = "apply FAILED: " <> last_text 300 out
count_text out (some count) = "FDB entries now " <> show_ℕ count

apply_lines : String → List String → Bool × String → List String
unfolding count_text first_number
apply_lines node fdb_lines (good, out) =
    (node
      <> (": "
          <> (show_ℕ (length fdb_lines)
              <> (" dst line(s); " <> count_text out (first_number "FDB_COUNT=" out)))))
    ∷ (if good then [] else (node <> (": host-ssh reported failure: " <> last_text 300 out)) ∷ [])

unfoldable pub install_node : Env → SdnFdbSettings → String → Dict (List String) → Io (List String)
unfolding fdb_lines_for install_script apply_lines host_ssh verify_node expected_macs pure lift
    ◌>>=◌
install_node env settings node macs = do
  fdb_lines ← lift (fdb_lines_for node settings macs)
  result ← host_ssh env settings node (install_script env settings fdb_lines)
  verified ← verify_node env settings node (expected_macs fdb_lines)
  pure (apply_lines node fdb_lines result ++ verified)
