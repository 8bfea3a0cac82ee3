-- ===== src/Fdb/Settings.antt =====
-- infra/pulumi/modules/sdn_fdb.py: `SdnFdbSettings` and the host password.
use rke2_lab.Base.{
  ℕ, suc, String, ◌<>◌, Bool, Option, none, some, List, [], ◌∷◌, get_elem?, ◌==◌, if◌then◌else◌,
}
use rke2_lab.Base.Dict.{Dict, lookup}
use rke2_lab.Py.Text.{strip}
use rke2_lab.Py.Result.{runtime_error, value_error, index_error}
use rke2_lab.Py.Effect.{Result, ok, err, Env, Io, pure, raise, ◌>>=◌, read_file}

pub record SdnFdbSettings : Type 0 where
  pub endpoint : String
  pub username : String
  pub password : String
  pub insecure : Bool
  pub node_names : List String
  pub peers : List String
  pub vxlan_device : String
  pub data_file : String
  pub data_dir : String
  pub hook_file : String
  pub fallback_password_file : String
  pub node_ssh_hosts : Dict String
  pub sdn_nic_index : List (ℕ × ℕ)

abbrev next : Option ℕ → Option ℕ
next none = none
next (some i) = some (suc i)

-- `names.index(name)`
unfoldable pub position : String → List String → Option ℕ
position name [] = none
position name (n ∷ ns) = if n == name then some 0 else next (position name ns)

abbrev element : Option String → Result String
element none = err index_error
element (some peer) = ok peer

abbrev pub peer_at : List String → Option ℕ → Result String
peer_at peers none = err (value_error "tuple.index(x): x not in tuple")
peer_at peers (some i) = element (get_elem? peers i)

unfoldable pub underlay_for : SdnFdbSettings → String → Result String
unfolding position
underlay_for settings node = peer_at settings.peers (position node settings.node_names)

abbrev or_node : String → Option String → String
or_node node none = node
or_node node (some host) = host

-- An empty map gives the node too.
unfoldable pub ssh_host_for : SdnFdbSettings → String → String
unfolding lookup
ssh_host_for settings node = or_node node (lookup node settings.node_ssh_hosts)

unfoldable pub checked_password : String → Option String → Io String
unfolding strip
checked_password path none = raise (runtime_error ("host password file unreadable: " <> path))
checked_password path (some text) =
    let password = strip text in
    if password == ""
    then raise (runtime_error ("host password file is empty: " <> path))
    else pure password

unfoldable pub read_fallback_password : Env → SdnFdbSettings → Io String
unfolding checked_password ◌>>=◌
read_fallback_password env settings =
    let path = settings.fallback_password_file in
    if path == ""
    then raise (runtime_error "no host password file configured")
    else (do text ← read_file env (env.expanduser path); checked_password path text)
