-- ===== src/Verify/Proxy/Tests.antt =====
-- Runs of the flows of verify/helpers.py for a user whom the proxies refuse.
use rke2_lab.Base.{ℕ, String, ◌≡◌, refl, true, Option, none, some, [], ◌∷◌, ◌==◌, if◌then◌else◌}
use rke2_lab.Py.Effect.{Visit, Page, ok, Env}
use rke2_lab.Fake.{fake, runtime}
use rke2_lab.Verify.Session.{ca, ca_file, make_session}
use rke2_lab.Verify.Browser.{
  attribute, input_at, input_tags, fields_of_tags, hidden_fields, last_action, form_action,
  parse_form,
}
use rke2_lab.Verify.Login.{
  KeycloakResult, arrived, stayed, out_redirect, login_body, after_submit, submit_login_form,
  submit_forms, login_page, from_page, keycloak_login,
}
use rke2_lab.Verify.Login.Codes.{HasCode, keycloak_login-HasCode}
use rke2_lab.Verify.Proxy.{
  Report, follow_page, after_part, before_part, page_title, stopped, hubble_report, hubble_sso_flow,
  total_of, api_overview, traefik_report, traefik_sso_flow,
}
use rke2_lab.Verify.Proxy.Verdict.{Judged, hubble_sso_flow-Judged}

abbrev page : ℕ → Option String → String → Option Page
page status location text = some (record {
  status_code = status;
  url = "https://sso.k8s.dev.lo/";
  location = location;
  text = text;
})

abbrev login_form : String
login_form =
    "<form id=\"kc\" action=\"go?a=1&amp;b=2\"><input type=\"hidden\" name=\"credentialId\" value=\"c\"/></form>"

abbrev refusing : Visit → Option Page
refusing v =
    if v.method == "POST"
    then page 302 (some "callback") ""
    else if v.url == "callback"
    then page 403 none "<title>Forbidden</title>"
    else if v.url == "https://hubble.k8s.dev.lo/"
    then page 302 (some "auth?client_id=hubble") ""
    else if v.url == "https://traefik.k8s.dev.lo/dashboard/"
    then page 302 (some "auth?client_id=traefik") ""
    else page 200 none login_form

abbrev site : Env
site = record fake {
  browse = λ h v. refusing v;
  query = λ url. if url == "callback" then ("code", "abc" ∷ []) ∷ [] else [];
}

opened : Unit {0}
unfolding runtime ca ca_file make_session attribute input_at input_tags fields_of_tags hidden_fields
    last_action form_action parse_form arrived stayed out_redirect login_body after_submit
    submit_login_form submit_forms login_page from_page keycloak_login follow_page after_part
    before_part page_title stopped hubble_report hubble_sso_flow total_of api_overview
    traefik_report traefik_sso_flow
opened = tt

parsed :
    parse_form site (record {
      status_code = 200;
      url = "https://sso.k8s.dev.lo/";
      location = none;
      text = login_form;
    })
    ≡ ("go?a=1&amp;b=2", ("credentialId", "c") ∷ [])
unfolding opened
parsed = refl

logs_in :
    (r : KeycloakResult) × ((keycloak_login site "test" "pw" "auth?client_id=hubble" []).0 ≡ ok r)
    × (r.is_ok ≡ true)
unfolding opened
logs_in = (_, refl, refl)

keycloak_login-HasCode_example :
    HasCode site logs_in.0 (keycloak_login site "test" "pw" "auth?client_id=hubble" []).1
keycloak_login-HasCode_example =
    keycloak_login-HasCode site "test" "pw" "auth?client_id=hubble" [] logs_in.0 logs_in.1 logs_in.2

refused : (r : Report) × ((hubble_sso_flow site "test" "pw" []).0 ≡ ok r) × (r.denied ≡ true)
unfolding opened
refused = (_, refl, refl)

hubble_sso_flow-Judged_example :
    Judged site "test" "pw" "hubble" "https://hubble.k8s.dev.lo/" [] refused.0
hubble_sso_flow-Judged_example = hubble_sso_flow-Judged site "test" "pw" [] refused.0 refused.1

refused_too : (r : Report) × ((traefik_sso_flow site "test" "pw" []).0 ≡ ok r) × (r.denied ≡ true)
unfolding opened
refused_too = (_, refl, refl)
