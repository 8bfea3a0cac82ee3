-- ===== src/Verify/Login.antt =====
-- verify/helpers.py: Keycloak's login flow in a browser session.
pub mod Codes
use rke2_lab.Base.{
  ℕ, zero, suc, String, ◌<>◌, Bool, true, false, ◌&&◌, ◌||◌, not, Option, none, some, List, [], ◌∷◌,
  ◌++◌, eqb, ◌==◌, if◌then◌else◌,
}
use rke2_lab.Base.Dict.{Dict, insert, lookup}
use rke2_lab.Py.Text.{has_prefix, has_part}
use rke2_lab.Py.Result.{index_error}
use rke2_lab.Py.Effect.{Result, ok, err, Env, Io, Page, Visit, pure, lift, visit, ◌>>=◌, ◌>>◌}
use rke2_lab.Verify.Session.{kc_base}
use rke2_lab.Verify.Browser.{parse_form}

pub record KeycloakResult : Type 0 where
  pub is_ok : Bool
  pub code : Option String
  pub state : Option String
  pub location : Option String
  pub detail : String

abbrev pub get_page : Env → String → Dict String → Io Page
get_page env url params =
    visit env (record { method = "GET"; url = url; fields = params; follow = false })

-- `page.headers.get("Location", "")`
abbrev pub location_of : Page → String
location_of page = elim page.location [ none ↦ "" | some url ↦ url ]

abbrev pub is_redirect : Page → Bool
is_redirect page = eqb page.status_code 302 || eqb page.status_code 303

-- `qs.get(key, [default])[0]`
abbrev first_of : Option (List String) → Option String → Result (Option String)
first_of none default = ok default
first_of (some []) default = err index_error
first_of (some (v ∷ vs)) default = ok (some v)

-- A text that counts as true.
abbrev pub is_set : Option String → Bool
is_set none = false
is_set (some text) = not (text == "")

unfoldable pub arrived : (code state : Option String) → (loc : String) → KeycloakResult
arrived code state loc = record {
  is_ok = true;
  code = code;
  state = state;
  location = some loc;
  detail = "";
}

unfoldable pub stayed : (loc detail : String) → KeycloakResult
stayed loc detail = record {
  is_ok = false;
  code = none;
  state = none;
  location = some loc;
  detail = detail;
}

-- The end of the flow at a redirect: a code in its query, or the reason for the failure.
unfoldable pub out_redirect : Env → String → String → Io KeycloakResult
unfolding lookup arrived stayed lift pure ◌>>=◌
out_redirect env loc reason = do
  code ← lift (first_of (lookup "code" (env.query loc)) (some ""))
  if is_set code
      then (do
        state ← lift (first_of (lookup "state" (env.query loc)) none)
        pure (arrived code state loc))
      else pure (stayed loc reason)

-- A result, or the next page with a form.
pub data Submitted : Type 0 where
  ended : KeycloakResult → Submitted
  next_page : Page → Submitted

abbrev or_empty : Option String → String
or_empty none = ""
or_empty (some value) = value

unfoldable pub login_body : Dict String → (username password : String) → Dict String
unfolding insert lookup
login_body hidden username password =
    insert "credentialId" (or_empty (lookup "credentialId" hidden))
      (insert "password" password (insert "username" username hidden))

-- What follows the reply to the form.
unfoldable pub after_submit : Env → Page → Page → Io Submitted
unfolding out_redirect has_part visit pure ◌>>=◌
after_submit env page nxt =
    if is_redirect nxt
    then if has_part "login-actions" (location_of nxt)
      then (do
        following ← get_page env (env.urljoin page.url (location_of nxt)) []
        pure (next_page following))
      else (do
        result ←
            out_redirect env (location_of nxt) "redirect out of Keycloak without a code parameter"
        pure (ended result))
    else pure (next_page nxt)

-- `_submit_login_form`
unfoldable pub submit_login_form : Env → Page → (username password : String) → Io Submitted
unfolding parse_form login_body after_submit visit ◌>>=◌
submit_login_form env page username password = do
  nxt ← visit env (record {
    method = "POST";
    url = env.urljoin page.url (parse_form env page).0;
    fields = login_body (parse_form env page).1 username password;
    follow = false;
  })
  after_submit env page nxt

abbrev pub after_form : Submitted → (Page → Io KeycloakResult) → Io KeycloakResult
after_form (ended result) again = pure result
after_form (next_page page) again = again page

-- The `for` loop over the forms, with the rounds that are left.
unfoldable pub submit_forms : Env → (username password : String) → ℕ → Page → Io KeycloakResult
unfolding submit_login_form stayed pure ◌>>=◌
submit_forms env username password zero page =
    pure (stayed page.url "flow stayed on a Keycloak login page")
submit_forms env username password (suc rounds) page = do
  submitted ← submit_login_form env page username password
  after_form submitted (submit_forms env username password rounds)

-- The one hop from the authorization request to the login page.
unfoldable pub login_page : Env → Page → Io Page
unfolding has_part has_prefix visit pure
login_page env resp =
    let hop = location_of resp in
    if is_redirect resp && (has_part "login" hop || has_prefix "/" hop)
    then get_page env (if has_prefix "/" hop then env.urljoin kc_base hop else hop) []
    else pure resp

unfoldable pub from_page : Env → (username password : String) → Page → Io KeycloakResult
unfolding out_redirect submit_forms
from_page env username password resp =
    if is_redirect resp
    then out_redirect env (location_of resp) "redirected away from the login flow without a code"
    else submit_forms env username password 2 resp

-- `keycloak_login` with the `auth_url` that a service issued.
unfoldable pub keycloak_login : Env → (username password auth_url : String) → Io KeycloakResult
unfolding login_page from_page visit ◌>>=◌
keycloak_login env username password auth_url = do
  resp ← get_page env auth_url []
  page ← login_page env resp
  from_page env username password page

-- `keycloak_login` with an authorization request of its own.
unfoldable pub keycloak_login_client :
    Env → (username password client_id redirect_uri : String) → Io KeycloakResult
unfolding login_page from_page visit ◌>>=◌
keycloak_login_client env username password client_id redirect_uri = do
  resp ← get_page env (kc_base <> "/realms/dev-lo/protocol/openid-connect/auth") (
      ("client_id", client_id)
      ∷ ("response_type", "code")
      ∷ ("redirect_uri", redirect_uri)
      ∷ ("scope", "openid profile email")
      ∷ ("state", "verify-state")
      ∷ [])
  page ← login_page env resp
  from_page env username password page
