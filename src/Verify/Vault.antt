-- ===== src/Verify/Vault.antt =====
-- verify/test_openbao.py: the checks of what the vault holds.
pub mod Scoped
use rke2_lab.Base.{String, ◌<>◌, Bool, true, false, not, none, List, [], ◌∷◌, ◌==◌, if◌then◌else◌}
use rke2_lab.Base.Dict.{Dict}
use rke2_lab.Py.Value.{Value, str}
use rke2_lab.Py.Text.{strip}
use rke2_lab.Py.Result.{Result, ok, err, attribute_error}
use rke2_lab.Py.Effect.{Env, Io, pure, raise, lift, ◌>>=◌, ◌>>◌}
use rke2_lab.Pve.Reading.{text_of}
use rke2_lab.Verify.Session.{bao_api, json_of, item_of}
use rke2_lab.Verify.Kv.{value_has, bao_kv_keys_present}
use rke2_lab.Verify.Cluster.{check}

abbrev pub expected_kv : Dict (List String)
expected_kv =
    ("keycloak", "admin-password" ∷ "db-password" ∷ [])
    ∷ ("garage-cluster", "admin-token" ∷ "metrics-token" ∷ "rpc-secret" ∷ [])
    ∷ ("grafana", "username" ∷ "password" ∷ [])
    ∷ ("oidc-grafana", "client-secret" ∷ [])
    ∷ ("oidc-longhorn", "client-secret" ∷ "cookie-secret" ∷ [])
    ∷ []

unfoldable pub test_expected_secrets_present : Env → Io (Unit {0})
unfolding bao_kv_keys_present
test_expected_secrets_present env = bao_kv_keys_present env expected_kv

unfoldable pub test_garage_s3_secret_present : Env → Io (Unit {0})
unfolding bao_kv_keys_present
test_garage_s3_secret_present env =
    bao_kv_keys_present env (("garage", "access_key" ∷ "secret_key" ∷ []) ∷ [])

-- `resp.json()["data"][key]` of an answer of the vault
unfoldable pub vault_field : Env → (path key : String) → Io Value
unfolding bao_api json_of item_of lift ◌>>=◌
vault_field env path key = do
  resp ← bao_api env path none "GET" none (200 ∷ [])
  payload ← lift (json_of resp)
  held ← lift (item_of "data" payload)
  lift (item_of key held)

-- `v.strip()`
unfoldable pub stripped : Value → Result String
unfolding strip
stripped (str s) = ok (strip s)
stripped _ = err attribute_error

unfoldable pub check_policies : Env → List String → Io (Unit {0})
unfolding vault_field stripped lift pure raise ◌>>=◌
check_policies env [] = pure tt
check_policies env (policy ∷ policies) = do
  text ← vault_field env ("/v1/sys/policies/acl/" <> policy) "policy"
  body ← lift (stripped text)
  check (not (body == "")) ("policy " <> (env.repr policy <> " is empty"))
  check_policies env policies

unfoldable pub test_sso_policies_defined : Env → Io (Unit {0})
unfolding check_policies
test_sso_policies_defined env = check_policies env ("sso-admins" ∷ "sso-users" ∷ [])

abbrev pub forbidden_paths : List String
forbidden_paths =
    "sys/seal" ∷ "sys/unseal" ∷ "sys/rekey" ∷ "sys/step-down" ∷ "\"auth/*\"" ∷ "\"sudo\"" ∷ []

unfoldable pub check_forbidden : Value → List String → Io (Unit {0})
unfolding value_has lift pure raise ◌>>=◌
check_forbidden text [] = pure tt
check_forbidden text (forbidden ∷ more) = do
  present ← lift (value_has forbidden text)
  check (not present) (
      "sso-admins grants "
      <> (forbidden
          <> " — the OIDC tier can seal or rekey the vault it holds break-glass credentials for"))
  check_forbidden text more

unfoldable pub test_admin_policy_is_scoped : Env → Io (Unit {0})
unfolding vault_field check_forbidden ◌>>=◌
test_admin_policy_is_scoped env = do
  text ← vault_field env "/v1/sys/policies/acl/sso-admins" "policy"
  check_forbidden text forbidden_paths

unfoldable pub test_root_token_still_has_root_policy : Env → Io (Unit {0})
unfolding vault_field value_has lift pure raise ◌>>=◌
test_root_token_still_has_root_policy env = do
  policies ← vault_field env "/v1/auth/token/lookup-self" "policies"
  present ← lift (value_has "root" policies)
  check present (
      "root token carries "
      <> (text_of env policies
          <> " — the root policy is missing and the vault has no offline access path"))
