-- ===== src/Cleanup/Run.antt =====
-- infra/pulumi/modules/pve_cleanup.py: `clean_orphans` and `run_standalone`.
pub mod Effects
pub mod Safety
use rke2_lab.Base.{
  ℕ, String, ◌<>◌, Bool, true, false, ◌||◌, Option, none, some, List, [], ◌∷◌, ◌++◌, map, join,
  length, contains, ◌==◌, if◌then◌else◌,
}
use rke2_lab.Base.Sorted.{sorted}
use rke2_lab.Py.Text.{show_ℕ, strip, split_on}
use rke2_lab.Py.Result.{key_error}
use rke2_lab.Py.Effect.{
  Result, ok, err, Env, Io, printed, pure, raise, lift, emit, for_each, try_except, except_runtime,
  except_import, ◌>>=◌, ◌>>◌,
}
use rke2_lab.Cleanup.Settings.{CleanupSettings, configured, ssh_host_for}
use rke2_lab.Cleanup.Client.{PveClient, make_client, auth, delete_content}
use rke2_lab.Cleanup.Orphans.{Orphan, same_orphan, find_orphans}
use rke2_lab.Cleanup.Remove.{remove_volume_via_ssh}

-- `api_errors`, in insertion order.
abbrev pub Errors : Type 0
Errors = List (Orphan × String)

unfoldable pub put_error : Orphan → String → Errors → Errors
put_error key error [] = (key, error) ∷ []
put_error key error ((o, held) ∷ rest) =
    if same_orphan o key then (o, error) ∷ rest else (o, held) ∷ put_error key error rest

-- `api_errors[key]`
unfoldable pub error_of : Orphan → Errors → Result String
error_of key [] = err (key_error key.volume)
error_of key ((o, error) ∷ rest) = if same_orphan o key then ok error else error_of key rest

abbrev pub label_of : Orphan → String
label_of o = o.datastore <> (":" <> o.volume)

-- The first attempt at each orphan, over the API.
unfoldable pub delete_each :
    Env → PveClient → (ticket csrf : String) → List Orphan → Errors → Io Errors
unfolding put_error delete_content pure ◌>>=◌
delete_each env c ticket csrf [] errors = pure errors
delete_each env c ticket csrf (o ∷ os) errors = do
  error ← delete_content env c ticket csrf o.datastore o.volume o.node
  delete_each env c ticket csrf os (put_error o error errors)

-- `[k for k, error in api_errors.items() if error]`
unfoldable pub failed : Errors → List Orphan
failed [] = []
failed ((o, error) ∷ rest) = if error == "" then failed rest else o ∷ failed rest

-- `{k[0] for k in failed}`
unfoldable pub nodes_of : List Orphan → List String
nodes_of [] = []
nodes_of (o ∷ os) = let rest = nodes_of os in if contains o.node rest then rest else o.node ∷ rest

-- The removal of one volume, or `none` where pexpect is missing and the loop breaks.
unfoldable pub attempt : Env → CleanupSettings → Orphan → Io (Option String)
unfolding remove_volume_via_ssh try_except emit pure ◌>>=◌
attempt env settings o =
    try_except
      (do error ← remove_volume_via_ssh env settings (label_of o) o.node; pure (some error))
      (except_import (do
        emit (printed "[pve_cleanup] host fallback unavailable: pexpect is not installed")
        pure none))

unfoldable pub combined : String → String → String
combined api error = if error == "" then "" else "API: " <> (api <> ("; host fallback: " <> error))

abbrev pub after_attempt : Orphan → Option String → Errors → (Errors → Io Errors) → Io Errors
after_attempt o none errors next = pure errors
after_attempt o (some error) errors next = do
  api ← lift (error_of o errors)
  next (put_error o (combined api error) errors)

unfoldable pub retry_each : Env → CleanupSettings → List Orphan → Errors → Io Errors
unfolding attempt put_error error_of combined pure lift ◌>>=◌
retry_each env settings [] errors = pure errors
retry_each env settings (o ∷ os) errors = do
  tried ← attempt env settings o
  after_attempt o tried errors (retry_each env settings os)

unfoldable pub announce : CleanupSettings → List Orphan → Io (Unit {0})
unfolding nodes_of sorted emit
announce settings os = emit (
    printed (
      "[pve_cleanup] host fallback: ssh to "
      <> (join ", " (map (ssh_host_for settings) (sorted (nodes_of os)))
          <> (" for " <> (show_ℕ (length os) <> " volume(s)")))))

-- The second attempt, where one failed and a password file is configured.
unfoldable pub fall_back : Env → CleanupSettings → Option String → List Orphan → Errors → Io Errors
unfolding announce retry_each pure ◌>>=◌
fall_back env settings file [] errors = pure errors
fall_back env settings none (o ∷ os) errors = pure errors
fall_back env settings (some path) (o ∷ os) errors = do
  announce settings (o ∷ os)
  retry_each env settings (o ∷ os) errors

abbrev pub place_of : Orphan → String
place_of o = o.node <> (":" <> (o.datastore <> (":" <> o.volume)))

-- The line of one orphan when deletion was asked for.
unfoldable pub outcome_line : Orphan → String → String
outcome_line o error =
    if error == ""
    then "  removed " <> place_of o
    else "  could not remove " <> (place_of o <> (": " <> error))

unfoldable pub result_lines : Errors → List Orphan → Io (List String)
unfolding error_of outcome_line pure lift ◌>>=◌
result_lines errors [] = pure []
result_lines errors (o ∷ os) = do
  error ← lift (error_of o errors)
  rest ← result_lines errors os
  pure (outcome_line o error ∷ rest)

abbrev pub found_line : String → List Orphan → String
found_line node os =
    "Proxmox preflight: "
    <> (show_ℕ (length os) <> (" orphan storage volume(s) found on node '" <> (node <> "'.")))

unfoldable pub apply_orphans :
    Env → PveClient → (ticket csrf : String) → List Orphan → Io (List String)
unfolding delete_each failed fall_back result_lines ◌>>=◌
apply_orphans env c ticket csrf orphans = do
  tried ← delete_each env c ticket csrf orphans []
  errors ←
      fall_back env c.settings (configured c.settings.fallback_password_file) (failed tried) tried
  result_lines errors orphans

abbrev pub preview_line : Orphan → String
preview_line o = "  would remove " <> place_of o

unfoldable pub clean_node :
    Env → PveClient → (ticket csrf : String) → Bool → String → Io (List String)
unfolding find_orphans apply_orphans pure ◌>>=◌
clean_node env c ticket csrf apply node = do
  orphans ← find_orphans env c ticket node
  lines ←
      (if apply then apply_orphans env c ticket csrf orphans else pure (map preview_line orphans))
  pure (found_line node orphans ∷ lines)

concat : List (List String) → List String
concat [] = []
concat (ls ∷ rest) = ls ++ concat rest

unfoldable pub clean_orphans : Env → CleanupSettings → Bool → Io (List String)
unfolding make_client auth clean_node concat for_each pure ◌>>=◌
clean_orphans env settings apply = do
  (ticket, csrf) ← auth env (make_client env settings)
  lines ← for_each (clean_node env (make_client env settings) ticket csrf apply) settings.node_names
  pure (concat lines)

abbrev or_default : Option String → String → String
or_default none default = default
or_default (some value) default = value

-- `tuple(n.strip() for n in names.split(",") if n.strip())`
unfoldable pub names_in : List String → List String
names_in [] = []
names_in (n ∷ ns) = if strip n == "" then names_in ns else strip n ∷ names_in ns

unfoldable pub settings_from_env : Env → CleanupSettings
unfolding names_in
settings_from_env env = record {
  endpoint = or_default (env.getenv "PROXMOX_VE_ENDPOINT") "";
  username = or_default (env.getenv "PROXMOX_VE_USERNAME") "root@pam";
  password = or_default (env.getenv "PROXMOX_VE_PASSWORD") "";
  node_names =
      names_in (split_on 44 (or_default (env.getenv "PROXMOX_VE_NODES") "pve01,pve02,pve03"));
  datastore_ids = or_default (env.getenv "PROXMOX_VE_DATASTORE") "local-lvm" ∷ [];
  insecure = true;
  fallback_password_file = some (
      or_default (configured (env.getenv "PROXMOX_HOST_PASSWORD_FILE"))
        (env.expanduser "~/.proxmoxpass"));
  node_ssh_hosts =
      some (("pve01", "192.168.1.21") ∷ ("pve02", "192.168.1.22") ∷ ("pve03", "192.168.1.23") ∷ []);
}

print_lines : List String → Io ℕ
unfolding emit for_each pure ◌>>=◌
print_lines lines = do _ ← for_each (λ line. emit (printed line)) lines; pure 0

unfoldable pub run_standalone : Env → List String → Io ℕ
unfolding settings_from_env print_lines clean_orphans try_except emit pure ◌>>=◌
run_standalone env argv =
    let settings = settings_from_env env in
    if settings.endpoint == "" || settings.password == ""
    then (do emit (printed "PROXMOX_VE_ENDPOINT and PROXMOX_VE_PASSWORD must be set"); pure 2)
    else try_except
        (do lines ← clean_orphans env settings (contains "--apply" argv); print_lines lines)
        (except_runtime λ text. do emit (printed ("preflight cleanup failed: " <> text)); pure 1)
