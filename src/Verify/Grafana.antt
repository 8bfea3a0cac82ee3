-- ===== src/Verify/Grafana.antt =====
-- verify/helpers.py: Grafana's break-glass account, its single sign-on, and the role of a member.
pub mod Roles
mod Tests
use rke2_lab.Base.{
  String, ◌<>◌, Bool, true, false, ◌||◌, not, Option, none, some, List, [], ◌∷◌, eqb, if◌then◌else◌,
}
use rke2_lab.Py.Value.{Value, null, str, equals_text, truthy}
use rke2_lab.Py.Text.{show_ℕ}
use rke2_lab.Py.Result.{runtime_error, key_error, assertion_error}
use rke2_lab.Py.Effect.{
  Result, ok, err, Env, Io, Page, pure, raise, lift, visit, for_each, ◌>>=◌, ◌>>◌,
}
use rke2_lab.Pve.Reading.{get_of, iterate, text_of}
use rke2_lab.Verify.Session.{
  Response, env_var, make_session, call, json_of, item_of, decoded, raise_for_status, bao_base,
}
use rke2_lab.Verify.Login.{KeycloakResult, get_page, is_redirect, keycloak_login}
use rke2_lab.Verify.Proxy.{follow_page}

abbrev pub grafana_base : String
grafana_base = "https://grafana.k8s.dev.lo"

unfoldable pub grafana_credentials : Env → Io (Value × Value)
unfolding env_var make_session call json_of item_of raise_for_status lift pure ◌>>=◌
grafana_credentials env = do
  root ← env_var env "OPENBAO_ROOT_TOKEN"
  make_session env
  resp ← call env (record {
    method = "GET";
    url = bao_base <> "/v1/kv/data/grafana";
    headers = ("X-Vault-Token", root) ∷ [];
    form = none;
    payload = none;
  })
  raise_for_status resp.status_code
  payload ← lift (json_of resp)
  outer ← lift (item_of "data" payload)
  held ← lift (item_of "data" outer)
  username ← lift (item_of "username" held)
  password ← lift (item_of "password" held)
  pure (username, password)

-- `page.headers["Location"]`
abbrev pub header_location : Page → Result String
header_location page = elim page.location [ none ↦ err (key_error "location") | some url ↦ ok url ]

-- `str(text)` for a text that may be missing
abbrev or_none_text : Option String → String
or_none_text none = "None"
or_none_text (some text) = text

-- The login that rides a service's own authorization request, and the service's callback behind it.
unfoldable pub ride_login : Env → (username password auth_url : String) → Io (Unit {0})
unfolding keycloak_login follow_page raise pure ◌>>=◌
ride_login env username password auth_url = do
  result ← keycloak_login env username password auth_url
  if not result.is_ok
      then raise (
          assertion_error (
            "Keycloak login failed: "
            <> (result.detail <> (" (loc=" <> (or_none_text result.location <> ")")))))
      else (do
        final ← follow_page env result.location
        if eqb final.status_code 200
            then pure tt
            else raise (assertion_error ("post-login page gave " <> show_ℕ final.status_code)))

-- `grafana_sso_session`; the session is the history.
unfoldable pub grafana_sso_session : Env → (username password : String) → Io Value
unfolding make_session ride_login follow_page raise_for_status raise lift visit ◌>>=◌
grafana_sso_session env username password = do
  make_session env
  resp ← get_page env (grafana_base <> "/login/generic_oauth") []
  if not (is_redirect resp)
      then raise (
          assertion_error (
            "generic_oauth gave "
            <> (show_ℕ resp.status_code
                <> ", expected a redirect to Keycloak — Grafana's OAuth entry point is not configured")))
      else (do
        location ← lift (header_location resp)
        ride_login env username password (env.urljoin resp.url location)
        api ← follow_page env (some (grafana_base <> "/api/user"))
        if eqb api.status_code 401
            then raise (
                runtime_error
                  "Grafana rejected the SSO session (grafana_session cookie not established or the OAuth callback misfired)")
            else (do raise_for_status api.status_code; lift (decoded (env.decode api.text))))

-- `row.get(first) or row.get(second)`
unfoldable pub either_of : (first second : String) → Value → Result Value
unfolding get_of truthy
either_of first second row = elim (get_of first null row) [
  | err e ↦ err e
  | ok v ↦ if truthy v then ok v else get_of second null row
]

-- The role of the first row of this login or address.
unfoldable pub find_role : String → List Value → Io (Option Value)
unfolding either_of equals_text item_of lift pure ◌>>=◌
find_role target [] = pure none
find_role target (row ∷ rows) = do
  login ← lift (either_of "userLogin" "login" row)
  email ← lift (either_of "userEmail" "email" row)
  if equals_text target login || equals_text target email
      then (do role ← lift (item_of "role" row); pure (some role))
      else find_role target rows

-- What the message shows of a row.
unfoldable pub member : Value → Io (Value × Value)
unfolding either_of item_of lift pure ◌>>=◌
member row = do
  login ← lift (either_of "userLogin" "login" row)
  role ← lift (item_of "role" row)
  pure (login, role)

unfoldable pub role_or_raise : Env → String → List Value → Option Value → Io Value
unfolding member for_each raise pure ◌>>=◌
role_or_raise env target rows (some role) = pure role
role_or_raise env target rows none = do
  shown ← for_each member rows
  raise (
      runtime_error (
        "no /api/org/users row for "
        <> (env.repr target <> ("; members: " <> env.show_pairs shown))))

unfoldable pub grafana_org_role :
    Env → (admin_username admin_password target_login : String) → Io Value
unfolding grafana_sso_session follow_page raise_for_status iterate find_role role_or_raise raise
    lift ◌>>=◌
grafana_org_role env admin_username admin_password target_login = do
  _ ← grafana_sso_session env admin_username admin_password
  members ← follow_page env (some (grafana_base <> "/api/org/users"))
  if eqb members.status_code 403
      then raise (
          runtime_error (
            admin_username
            <> " cannot list /api/org/users (403) — the admin-tier SSO session did not map to the Admin org role"))
      else (do
        raise_for_status members.status_code
        decoded_members ← lift (decoded (env.decode members.text))
        rows ← lift (iterate decoded_members)
        found ← find_role target_login rows
        role_or_raise env target_login rows found)
