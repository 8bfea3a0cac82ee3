-- ===== src/Verify/Session.antt =====
-- verify/helpers.py: the environment, requests to Keycloak and OpenBao, and their replies. The
-- domain CA is checked for its presence; TLS itself is left out.
use rke2_lab.Base.{
  ℕ, String, ◌<>◌, Bool, false, ◌&&◌, ◌||◌, not, Option, none, some, List, [], ◌∷◌, eqb, leb, ltb,
  if◌then◌else◌,
}
use rke2_lab.Py.Value.{Value, obj, get}
use rke2_lab.Py.Text.{show_ℕ, take_text}
use rke2_lab.Py.Result.{
  runtime_error, os_error, value_error, key_error, type_error, assertion_error,
}
use rke2_lab.Py.Effect.{
  Exception, Result, ok, err, Body, Reply, response, http_error, unreachable, HttpRequest, sent,
  Env, Io, pure, raise, lift, path_exists, ◌>>=◌, ◌>>◌,
}
use rke2_lab.Pve.Reading.{text_of}
use rke2_lab.Cleanup.Settings.{configured}

-- `requests.Response`: an error status raises nothing by itself.
pub record Response : Type 0 where
  pub status_code : ℕ
  pub body : Body

answered : Reply → Result Response
answered (response status body) = ok (record { status_code = status; body = body })
answered (http_error status body) = ok (record { status_code = status; body = body })
answered (unreachable reason) = err (os_error reason)

unfoldable pub call : Env → HttpRequest → Io Response
unfolding answered
call env r h = (answered (env.http h r), sent r ∷ h)

-- `resp.json()`
unfoldable pub json_of : Response → Result Value
json_of r = elim r.body [
  | Body.empty ↦ err (value_error "JSONDecodeError")
  | Body.json v ↦ ok v
  | Body.not_json text ↦ err (value_error "JSONDecodeError")
]

-- `resp.text`
unfoldable pub text_of_reply : Env → Response → String
text_of_reply env r = elim r.body [
  | Body.empty ↦ ""
  | Body.json v ↦ env.show_value v
  | Body.not_json text ↦ text
]

-- `json.loads` of a text
abbrev pub decoded : Option Value → Result Value
decoded none = err (value_error "JSONDecodeError")
decoded (some v) = ok v

abbrev found_item : String → Option Value → Result Value
found_item key none = err (key_error key)
found_item key (some v) = ok v

-- `v[key]`
unfoldable pub item_of : String → Value → Result Value
item_of key (obj fs) = found_item key (get key fs)
item_of key _ = err type_error

-- `resp.raise_for_status()` for this status: the HTTPError is a kind of OSError.
unfoldable pub raise_for_status : ℕ → Io (Unit {0})
unfolding pure raise
raise_for_status status =
    if leb 400 status && ltb status 600 then raise (os_error "HTTPError") else pure tt

abbrev required : String → Option String → Io String
required name none = raise (
    runtime_error
      (name <> " is not set; run `source ~/.config/rke2lab/env.sh` before starting the suite."))
required name (some value) = pure value

unfoldable pub env_var : Env → String → Io String
unfolding pure raise
env_var env name = required name (configured (env.getenv name))

unfoldable pub ca : Env → String
ca env = elim (env.getenv "DEVLO_CA_FILE") [
  | none ↦ "/usr/local/share/ca-certificates/dev.lo-ca.crt"
  | some path ↦ path
]

-- `ca_file`, and the same check in `make_session`
unfoldable pub ca_file : Env → Io String
unfolding ca path_exists pure raise ◌>>=◌
ca_file env = do
  found ← path_exists env (ca env)
  if found
      then pure (ca env)
      else raise (
          runtime_error (
            "domain CA file "
            <> (ca env <> " not found; export DEVLO_CA_FILE if it lives elsewhere on this host")))

unfoldable pub make_session : Env → Io (Unit {0})
unfolding ca_file pure ◌>>=◌
make_session env = do _ ← ca_file env; pure tt

abbrev pub kc_base : String
kc_base = "https://sso.k8s.dev.lo"

abbrev pub kc_admin_api : String
kc_admin_api = kc_base <> "/admin/realms/dev-lo"

unfoldable pub token_request : String → HttpRequest
token_request password = record {
  method = "POST";
  url = kc_base <> "/realms/master/protocol/openid-connect/token";
  headers = [];
  form = some (
      ("grant_type", "password")
      ∷ ("client_id", "admin-cli")
      ∷ ("username", "admin")
      ∷ ("password", password)
      ∷ []);
  payload = none;
}

unfoldable pub keycloak_admin_token : Env → Io String
unfolding env_var token_request call json_of item_of text_of_reply raise lift pure ◌>>=◌
keycloak_admin_token env = do
  password ← env_var env "KEYCLOAK_ADMIN_PASSWORD"
  resp ← call env (token_request password)
  if not (eqb resp.status_code 200)
      then raise (
          runtime_error (
            "admin token grant failed ("
            <> (show_ℕ resp.status_code <> ("): " <> take_text 300 (text_of_reply env resp)))))
      else (do
        payload ← lift (json_of resp)
        token ← lift (item_of "access_token" payload)
        pure (text_of env token))

unfoldable pub admin_request : String → String → String → HttpRequest
admin_request method path token = record {
  method = method;
  url = kc_admin_api <> path;
  headers = ("Authorization", "Bearer " <> token) ∷ [];
  form = none;
  payload = none;
}

unfoldable pub keycloak_admin_get : Env → String → Io Response
unfolding make_session keycloak_admin_token admin_request call ◌>>=◌
keycloak_admin_get env path = do
  make_session env
  token ← keycloak_admin_token env
  call env (admin_request "GET" path token)

unfoldable pub keycloak_clear_user_cache : Env → Io (Unit {0})
unfolding make_session keycloak_admin_token admin_request call text_of_reply raise pure ◌>>=◌
keycloak_clear_user_cache env = do
  make_session env
  token ← keycloak_admin_token env
  resp ← call env (admin_request "POST" "/clear-user-cache" token)
  if eqb resp.status_code 204
      then pure tt
      else raise (
          assertion_error (
            "clear-user-cache gave "
            <> (show_ℕ resp.status_code <> (": " <> take_text 200 (text_of_reply env resp)))))

-- `token or env_var(...)`
abbrev key_or : Env → Option String → Io String
key_or env none = env_var env "OPENBAO_ROOT_TOKEN"
key_or env (some token) = pure token

abbrev is_one_of : ℕ → List ℕ → Bool
is_one_of n [] = false
is_one_of n (m ∷ ms) = eqb n m || is_one_of n ms

abbrev pub bao_base : String
bao_base = "https://bao.k8s.dev.lo"

unfoldable pub bao_error : (method path : String) → Env → Response → Exception
unfolding text_of_reply
bao_error method path env resp = runtime_error (
    "OpenBao "
    <> (method
        <> (" "
            <> (path
                <> (" gave "
                    <> (show_ℕ resp.status_code
                        <> (" (" <> (take_text 200 (text_of_reply env resp) <> ")"))))))))

unfoldable pub bao_api :
    Env
    → (path : String) → Option String
    → (method : String) → (json_body : Option Value) → (expect : List ℕ) → Io Response
unfolding make_session env_var call bao_error raise pure ◌>>=◌
bao_api env path token method json_body expect = do
  make_session env
  key ← key_or env (configured token)
  resp ← call env (record {
    method = method;
    url = bao_base <> path;
    headers = ("X-Vault-Token", key) ∷ [];
    form = none;
    payload = json_body;
  })
  if is_one_of resp.status_code expect then pure resp else raise (bao_error method path env resp)
