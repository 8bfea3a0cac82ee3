-- ===== src/Verify/Proxy.antt =====
-- verify/helpers.py: the flows through the proxies of the Hubble UI and of the Traefik dashboard.
pub mod Verdict
mod Tests
use rke2_lab.Base.{
  ℕ, String, ◌<>◌, Bool, true, false, ◌&&◌, ◌||◌, not, Option, none, some, List, [], ◌∷◌, eqb, ◌==◌,
  if◌then◌else◌,
}
use rke2_lab.Base.Int.{pos}
use rke2_lab.Py.Value.{Value, int, obj, end}
use rke2_lab.Py.Text.{show_ℕ, take_text, has_part, strip_prefix}
use rke2_lab.Py.Result.{value_error}
use rke2_lab.Py.Effect.{
  Result, ok, err, Env, Io, Page, Visit, pure, raise, lift, visit, ◌>>=◌, ◌>>◌,
}
use rke2_lab.Pve.Reading.{get_of}
use rke2_lab.Verify.Session.{make_session, decoded}
use rke2_lab.Verify.Login.{KeycloakResult, get_page, location_of, is_redirect, keycloak_login}

-- `session.get(url, allow_redirects=True)`; a missing URL is refused.
unfoldable pub follow_page : Env → Option String → Io Page
unfolding raise visit
follow_page env none = raise (value_error "Invalid URL 'None'")
follow_page env (some url) =
    visit env (record { method = "GET"; url = url; fields = []; follow = true })

-- The text from the first `part` on, without it.
unfoldable pub after_part : String → String → Option String
unfolding strip_prefix
after_part part String.[] = strip_prefix part ""
after_part part (String.◌∷◌ c s) = elim (strip_prefix part (String.◌∷◌ c s)) [
  | none ↦ after_part part s
  | some rest ↦ some rest
]

-- The text before the first `part`, or all of it.
unfoldable pub before_part : String → String → String
unfolding strip_prefix
before_part part String.[] = ""
before_part part (String.◌∷◌ c s) = elim (strip_prefix part (String.◌∷◌ c s)) [
  | none ↦ String.◌∷◌ c (before_part part s)
  | some rest ↦ ""
]

unfoldable pub page_title : String → String
unfolding after_part before_part
page_title text = elim (after_part "<title>" text) [
  | none ↦ ""
  | some rest ↦ before_part "</title>" rest
]

-- The report of a flow; what it does not say is `none`.
pub record Report : Type 0 where
  pub admitted : Bool
  pub denied : Bool
  pub stage : String
  pub detail : Option String
  pub callback_status : Option ℕ
  pub page_status : Option ℕ
  pub page_title : Option String
  pub api_status : Option ℕ
  pub api_totals : Option (Value × Value)
  pub re_bounced : Option Bool

unfoldable pub stopped : (stage detail : String) → Report
stopped stage detail = record {
  admitted = false;
  denied = false;
  stage = stage;
  detail = some detail;
  callback_status = none;
  page_status = none;
  page_title = none;
  api_status = none;
  api_totals = none;
  re_bounced = none;
}

-- Whether an anonymous request is sent to this client of Keycloak.
abbrev pub is_bounced : String → Page → Bool
is_bounced client page = is_redirect page && has_part ("client_id=" <> client) (location_of page)

abbrev pub is_admitted : (callback page : Page) → Bool
is_admitted callback page = eqb callback.status_code 200 && eqb page.status_code 200

unfoldable pub hubble_report : (callback page : Page) → Report
unfolding page_title has_part
hubble_report callback page = record {
  admitted = is_admitted callback page;
  denied = eqb callback.status_code 403;
  stage = "done";
  detail = none;
  callback_status = some callback.status_code;
  page_status = some page.status_code;
  page_title = some (page_title page.text);
  api_status = none;
  api_totals = none;
  re_bounced = some (has_part "client_id=hubble" (location_of page));
}

unfoldable pub hubble_sso_flow : Env → (username password : String) → Io Report
unfolding make_session keycloak_login follow_page stopped hubble_report visit pure ◌>>=◌
hubble_sso_flow env username password = do
  make_session env
  anon ← get_page env "https://hubble.k8s.dev.lo/" []
  if not (is_bounced "hubble" anon)
      then pure (
          stopped "unauthenticated" (
            "GET / gave "
            <> (show_ℕ anon.status_code
                <> (" loc="
                    <> (take_text 160 (location_of anon)
                        <> ": the proxy is not redirecting an anonymous request to the hubble Keycloak client")))))
      else (do
        result ← keycloak_login env username password (location_of anon)
        if not result.is_ok then pure (stopped "login" result.detail) else (do
          callback ← follow_page env result.location
          page ← get_page env "https://hubble.k8s.dev.lo/" []
          pure (hubble_report callback page)))

abbrev zero_value : Value
zero_value = int (pos 0)

-- `data.get("http", {}).get(kind, {}).get("total", 0)`
unfoldable pub total_of : String → Value → Result Value
unfolding get_of
total_of kind v = elim (get_of "http" (obj end) v) [
  | err e ↦ err e
  | ok http ↦ elim (get_of kind (obj end) http) [
    | err e ↦ err e
    | ok entry ↦ get_of "total" zero_value entry
  ]
]

-- The status of the overview, with the totals of routers and services.
unfoldable pub api_overview : Env → Bool → Io (Option ℕ × Value × Value)
unfolding total_of lift visit pure ◌>>=◌
api_overview env admitted = if not admitted then pure (none, zero_value, zero_value) else (do
  overview ← get_page env "https://traefik.k8s.dev.lo/api/overview" []
  if not (eqb overview.status_code 200)
      then pure (some overview.status_code, zero_value, zero_value)
      else (do
        held ← lift (decoded (env.decode overview.text))
        routers ← lift (total_of "routers" held)
        services ← lift (total_of "services" held)
        pure (some overview.status_code, routers, services)))

unfoldable pub traefik_report :
    (callback page : Page) → Option ℕ → (routers services : Value) → Report
unfolding page_title has_part
traefik_report callback page api_status routers services = record {
  admitted = is_admitted callback page;
  denied = eqb callback.status_code 403;
  stage = "done";
  detail = none;
  callback_status = some callback.status_code;
  page_status = some page.status_code;
  page_title = some (page_title page.text);
  api_status = api_status;
  api_totals = some (routers, services);
  re_bounced = some (has_part "client_id=traefik" (location_of page));
}

unfoldable pub traefik_sso_flow : Env → (username password : String) → Io Report
unfolding make_session keycloak_login follow_page stopped api_overview traefik_report visit pure
    ◌>>=◌
traefik_sso_flow env username password = do
  make_session env
  anon ← get_page env "https://traefik.k8s.dev.lo/dashboard/" []
  if not (is_bounced "traefik" anon)
      then pure (
          stopped "unauthenticated" (
            "GET /dashboard/ gave "
            <> (show_ℕ anon.status_code
                <> (" loc="
                    <> (take_text 160 (location_of anon)
                        <> ": the proxy is not redirecting an anonymous request to the traefik Keycloak client")))))
      else (do
        result ← keycloak_login env username password (location_of anon)
        if not result.is_ok then pure (stopped "login" result.detail) else (do
          callback ← follow_page env result.location
          page ← get_page env "https://traefik.k8s.dev.lo/dashboard/" []
          (api_status, routers, services) ← api_overview env (is_admitted callback page)
          pure (traefik_report callback page api_status routers services)))
