-- ===== src/Cleanup/Settings.antt =====
-- infra/pulumi/modules/pve_cleanup.py: `CleanupSettings` and the fallback password.
use rke2_lab.Base.{String, Bool, Option, none, some, List, ◌==◌, if◌then◌else◌}
use rke2_lab.Base.Dict.{Dict, lookup}
use rke2_lab.Py.Text.{strip}
use rke2_lab.Py.Result.{runtime_error}
use rke2_lab.Py.Effect.{Env, Io, pure, raise, ◌>>=◌, read_file}

pub record CleanupSettings : Type 0 where
  pub endpoint : String
  pub username : String
  pub password : String
  pub node_names : List String
  pub datastore_ids : List String
  pub insecure : Bool
  pub fallback_password_file : Option String
  pub node_ssh_hosts : Option (Dict String)

abbrev or_node : String → Option String → String
or_node node none = node
or_node node (some host) = host

-- An empty map is as good as none.
unfoldable pub ssh_host_for : CleanupSettings → String → String
unfolding lookup
ssh_host_for settings node = elim settings.node_ssh_hosts [
  | none ↦ node
  | some hosts ↦ or_node node (lookup node hosts)
]

-- An optional text that `if` takes for true.
abbrev pub configured : Option String → Option String
configured none = none
configured (some path) = if path == "" then none else some path

unfoldable pub checked_password : Option String → Io String
unfolding strip
checked_password none = raise (runtime_error "fallback password file unreadable")
checked_password (some text) =
    let password = strip text in
    if password == ""
    then raise (runtime_error "fallback password file is empty")
    else pure password

-- The message of the OSError is left out of the second exception's text.
unfoldable pub read_configured : Env → Option String → Io String
unfolding checked_password ◌>>=◌
read_configured env none = raise (runtime_error "no fallback password file configured")
read_configured env (some path) = do text ← read_file env path; checked_password text

unfoldable pub read_fallback_password : Env → CleanupSettings → Io String
unfolding read_configured
read_fallback_password env settings =
    read_configured env (configured settings.fallback_password_file)
