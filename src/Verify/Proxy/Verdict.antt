-- ===== src/Verify/Proxy/Verdict.antt =====
-- verify/helpers.py: the verdicts of the flows through the proxies.
use rke2_lab.Base.{
  ℕ, String, ◌<>◌, ◌≡◌, ◌⊎◌, inl, inr, ◌↔◌, refl, Bool, true, false, not, ◌&&◌, eqb, eqb_iff,
  Option, none, some, [], ◌∷◌, arith, Bool-cases, if◌then◌else◌,
}
use rke2_lab.Py.Text.{has_part}
use rke2_lab.Py.Effect.{
  Env, Io, Page, Visit, visited, visit, History, ok, pure, raise, path_exists, ◌>>=◌,
}
use rke2_lab.Py.Effect.Ends.{Ends, Ends-pure, Ends-bind, Ends-bind_raise, Ends-visit}
use rke2_lab.Verify.Session.{ca_file, make_session}
use rke2_lab.Verify.Login.{KeycloakResult, location_of, keycloak_login}
use rke2_lab.Verify.Proxy.{
  Report, is_bounced, is_admitted, follow_page, stopped, hubble_report, hubble_sso_flow,
  api_overview, traefik_report, traefik_sso_flow,
}

-- A page that sends to this client of Keycloak.
abbrev pub SendsTo : String → Page → Type 0
SendsTo client page =
    ((page.status_code ≡ 302) ⊎ (page.status_code ≡ 303))
    × (has_part ("client_id=" <> client) (location_of page) ≡ true)

abbrev pub asks : (url : String) → (follow : Bool) → Visit
asks url follow = record { method = "GET"; url = url; fields = []; follow = follow }

-- No verdict: the user is neither admitted nor denied.
abbrev pub IsOpen : Report → Type 0
IsOpen r = (r.admitted ≡ false) × (r.denied ≡ false)

-- The verdict on what the callback and the UI answered.
abbrev pub Decides : (callback page : Page) → Report → Type 0
Decides callback page r =
    ((r.admitted ≡ true) ↔ ((callback.status_code ≡ 200) × (page.status_code ≡ 200)))
    × ((r.denied ≡ true) ↔ (callback.status_code ≡ 403))

sends_lem :
    (client : String) (page : Page) (b : Bool)
    → is_bounced client page ≡ b
    → if b then SendsTo client page else ¬ SendsTo client page
sends_lem client page true e =
    let redirects = eqb_iff page.status_code 302 in
    ground (arith, e, redirects, eqb_iff page.status_code 303)
sends_lem client page false e = λ (s, part).
    ground (arith, e, part, s, eqb_iff page.status_code 302, eqb_iff page.status_code 303)

stopped-IsOpen :
    (stage detail : String) (h : History) → Ends (λ r _. IsOpen r) h (pure (stopped stage detail))
unfolding stopped
stopped-IsOpen stage detail h = Ends-pure (stopped stage detail) (refl, refl)

make_session-silent : (env : Env) (h : History) → (make_session env h).1 ≡ h
unfolding make_session ca_file path_exists pure raise ◌>>=◌
make_session-silent env h = ground arith

module _ (env : Env) (username password client ui : String) (h : History) where
  -- The history of the login, and what the login at the location of this page comes to.
  abbrev asked : History
  asked = visited (asks ui false) ∷ h

  abbrev login_at : Page → Io KeycloakResult
  login_at anon = keycloak_login env username password (location_of anon)

  -- How a flow can end that began at `h`: an anonymous request is not sent to the client; or it is,
  -- and the login fails; or the login succeeds, its location is followed, and the UI is asked again.
  pub data Judged (r : Report) : Type 0 where
    unbounced :
        (anon : Page)
        → env.browse h (asks ui false) ≡ some anon
        → ¬ SendsTo client anon
        → IsOpen r
        → Judged r
    failed :
        (anon : Page)
        → env.browse h (asks ui false) ≡ some anon
        → SendsTo client anon
        → (login : KeycloakResult) → (login_at anon asked).0 ≡ ok login
        → login.is_ok ≡ false
        → IsOpen r
        → Judged r
    finished :
        (anon : Page)
        → env.browse h (asks ui false) ≡ some anon
        → SendsTo client anon
        → (login : KeycloakResult) → (login_at anon asked).0 ≡ ok login
        → login.is_ok ≡ true
        → (location : String) → login.location ≡ some location
        → (callback : Page)
        → env.browse (login_at anon asked).1 (asks location true) ≡ some callback
        → (page : Page)
        → env.browse (visited (asks location true) ∷ (login_at anon asked).1) (asks ui false)
          ≡ some page
        → Decides callback page r
        → Judged r

  module _ (finish : (callback page : Page) → Io Report)
      (decides : (callback page : Page) (h' : History)
        → Ends (λ r _. Decides callback page r) h' (finish callback page)) where
    follow_up : Option String → Io Report
    follow_up location = do
      callback ← follow_page env location
      page ← visit env (asks ui false)
      finish callback page

    module _ (anon : Page) (came : env.browse h (asks ui false) ≡ some anon)
        (sends : SendsTo client anon) (login : KeycloakResult)
        (logged_in : (login_at anon asked).0 ≡ ok login) where
      follow_up-Judged :
          login.is_ok ≡ true
          → (location : Option String) → login.location ≡ location
          → Ends (λ r _. Judged r) (login_at anon asked).1 (follow_up location)
      unfolding follow_up follow_page
      follow_up-Judged good none at_none = Ends-bind_raise _ _ _
      follow_up-Judged good (some location) there = Ends-visit env _ _ _ (λ callback followed.
          Ends-visit env _ _ _ (λ page shown. record {
            at = λ r e.
                finished anon came sends login logged_in good location there callback followed page
                  shown ((decides callback page _).at r e);
          }))

      login_over :
          (detail : String)
          → Ends
              (λ r _. Judged r)
              (login_at anon asked).1
              (if not login.is_ok then pure (stopped "login" detail) else follow_up login.location)
      login_over detail = elim (Bool-cases login.is_ok) [
        | inl good ↦ rw good (follow_up-Judged good login.location refl)
        | inr bad ↦ rw bad (record {
          at = λ r e.
              failed anon came sends login logged_in bad ((stopped-IsOpen "login" detail _).at r e);
        })
      ]

    flow-Judged :
        (text : Page → String)
        → Ends
            (λ r _. Judged r)
            h
            (do
              anon ← visit env (asks ui false)
              if not (is_bounced client anon)
                  then pure (stopped "unauthenticated" (text anon))
                  else (do
                    result ← login_at anon
                    if not result.is_ok
                        then pure (stopped "login" result.detail)
                        else follow_up result.location))
    flow-Judged text = Ends-visit env _ _ h (λ anon came.
        elim (Bool-cases (is_bounced client anon)) [
          | inl yes_it ↦ rw yes_it (
              Ends-bind (login_at anon) _ asked (λ login logged_in.
                login_over anon came (sends_lem client anon true yes_it) login logged_in
                  login.detail))
          | inr no_it ↦ rw no_it (record {
            at = λ r e.
                unbounced anon came (sends_lem client anon false no_it)
                  ((stopped-IsOpen "unauthenticated" (text anon) _).at r e);
          })
        ])

admitted_iff : (a b : ℕ) → ((eqb a 200 && eqb b 200) ≡ true) ↔ ((a ≡ 200) × (b ≡ 200))
admitted_iff a b = (
  λ e. (ground (arith, e, eqb_iff a 200), ground (arith, e, eqb_iff b 200)),
  λ (p, q). ground (arith, p, q, eqb_iff a 200, eqb_iff b 200),
)

hubble_report-Decides :
    (callback page : Page) (h : History)
    → Ends (λ r _. Decides callback page r) h (pure (hubble_report callback page))
unfolding hubble_report
hubble_report-Decides callback page h =
    Ends-pure (hubble_report callback page)
      (admitted_iff callback.status_code page.status_code, eqb_iff callback.status_code 403)

traefik_report-Decides :
    (env : Env) (callback page : Page) (h : History)
    → Ends
        (λ r _. Decides callback page r)
        h
        (do
          (api_status, routers, services) ← api_overview env (is_admitted callback page)
          pure (traefik_report callback page api_status routers services))
unfolding traefik_report
traefik_report-Decides env callback page h = Ends-bind _ _ h (λ (api_status, routers, services) got.
    Ends-pure (traefik_report callback page api_status routers services)
      (admitted_iff callback.status_code page.status_code, eqb_iff callback.status_code 403))

Ends-session {ℓ} :
    {A : Type ℓ} {Q : A → History → Type 0} (env : Env) (m : Io A) (h : History)
    → Ends Q h m
    → Ends Q h (make_session env >>= λ _. m)
Ends-session {Q = Q} env m h k =
    Ends-bind (make_session env) _ h (λ _ _. rw (make_session-silent env h) k)

-- Whatever Keycloak and the proxy answer, a report of the flow through Hubble's proxy follows from
-- these answers. Without a redirect to the client at the start, or without a login, it neither
-- admits nor denies. Else the location of the login was followed, and the UI was asked again: it
-- admits exactly where both were answered with 200, and denies exactly where the first was answered
-- with 403.
pub hubble_sso_flow-Judged :
    (env : Env) (username password : String) (h : History) (r : Report)
    → (hubble_sso_flow env username password h).0 ≡ ok r
    → Judged env username password "hubble" "https://hubble.k8s.dev.lo/" h r
unfolding hubble_sso_flow follow_up
hubble_sso_flow-Judged env username password h r =
    (Ends-session env _ h (
        flow-Judged env username password "hubble" "https://hubble.k8s.dev.lo/" h
          (λ callback page. pure (hubble_report callback page)) hubble_report-Decides _)).at
      r

-- The same holds for a report of the flow through the proxy of the Traefik dashboard: it admits
-- exactly where the callback and the dashboard both answered with 200, and denies exactly where the
-- callback answered with 403.
pub traefik_sso_flow-Judged :
    (env : Env) (username password : String) (h : History) (r : Report)
    → (traefik_sso_flow env username password h).0 ≡ ok r
    → Judged env username password "traefik" "https://traefik.k8s.dev.lo/dashboard/" h r
unfolding traefik_sso_flow follow_up
traefik_sso_flow-Judged env username password h r =
    (Ends-session env _ h (
        flow-Judged env username password "traefik" "https://traefik.k8s.dev.lo/dashboard/" h _
          (traefik_report-Decides env) _)).at
      r
