-- ===== src/Verify/Grafana/Tests.antt =====
-- Runs of the single sign-on of Grafana and of GitLab in verify/helpers.py.
use rke2_lab.Base.{
  ℕ, String, ◌<>◌, ◌≡◌, refl, Option, none, some, List, [], ◌∷◌, ◌==◌, if◌then◌else◌,
}
use rke2_lab.Py.Value.{Value, str, obj, arr, nil, cons, field, end}
use rke2_lab.Py.Effect.{Visit, Page, ok, Env}
use rke2_lab.Pve.Reading.{iterate}
use rke2_lab.Fake.{fake, runtime}
use rke2_lab.Verify.Session.{ca, ca_file, make_session, item_of, decoded, raise_for_status}
use rke2_lab.Verify.Browser.{
  attribute, input_at, input_tags, fields_of_tags, hidden_fields, last_action, form_action,
  parse_form,
}
use rke2_lab.Verify.Login.{
  arrived, stayed, out_redirect, login_body, after_submit, submit_login_form, submit_forms,
  login_page, from_page, keycloak_login,
}
use rke2_lab.Verify.Proxy.{follow_page}
use rke2_lab.Verify.Grafana.{
  grafana_base, ride_login, grafana_sso_session, either_of, find_role, member, role_or_raise,
  grafana_org_role,
}
use rke2_lab.Verify.Grafana.Roles.{IsFirst, grafana_org_role-IsFirst}
use rke2_lab.Verify.Gitlab.{
  last_openid, openid_action, last_value, authenticity_token, sign_in_page, gitlab_sso_login,
}

abbrev page : ℕ → Option String → String → Option Page
page status location text =
    some (record { status_code = status; url = ""; location = location; text = text })

abbrev sign_in : String
sign_in =
    "<form id=\"a\" action=\"/users/sign_in\"></form><form class=\"b\" action=\"/users/auth/openid_connect\"><input type=\"hidden\" name=\"authenticity_token\" value=\"t\"/></form>"

abbrev answering : Visit → Option Page
answering v =
    if v.method == "POST"
    then page 302
        (some (
          if v.url == "https://gitlab.dev.lo/users/auth/openid_connect"
          then "auth"
          else "callback"))
        ""
    else if v.url == "callback"
    then page 200 none "welcome"
    else if v.url == "https://grafana.k8s.dev.lo/login/generic_oauth"
    then page 302 (some "auth") ""
    else if v.url == "https://grafana.k8s.dev.lo/api/user"
    then page 200 none "user"
    else if v.url == "https://grafana.k8s.dev.lo/api/org/users"
    then page 200 none "members"
    else if v.url == "https://gitlab.dev.lo/users/sign_in"
    then page 200 none sign_in
    else if v.url == "https://gitlab.dev.lo/api/v4/user"
    then page 200 none "user"
    else page 200 none "<form id=\"kc\" action=\"go\"></form>"

abbrev member_row : (login role : String) → Value
member_row login role = obj (field "login" (str login) (field "role" (str role) end))

abbrev user : Value
user = obj (field "login" (str "test") end)

abbrev members : Value
members = arr (cons (member_row "test.adm" "Admin") (cons (member_row "test" "Viewer") nil))

abbrev site : Env
site = record fake {
  browse = λ h v. answering v;
  decode = λ text. if text == "members" then some members else some user;
  query = λ url. if url == "callback" then ("code", "abc" ∷ []) ∷ [] else [];
}

opened : Unit {0}
unfolding runtime ca ca_file make_session item_of raise_for_status attribute input_at input_tags
    fields_of_tags hidden_fields last_action form_action parse_form arrived stayed out_redirect
    login_body after_submit submit_login_form submit_forms login_page from_page keycloak_login
    follow_page ride_login grafana_sso_session either_of find_role member role_or_raise
    grafana_org_role last_openid openid_action last_value authenticity_token sign_in_page
    gitlab_sso_login
opened = tt

form_found : openid_action sign_in ≡ some "/users/auth/openid_connect"
unfolding opened
form_found = refl

token_found : authenticity_token sign_in ≡ some "t"
unfolding opened
token_found = refl

signs_in : (gitlab_sso_login site "test" "pw" []).0 ≡ ok user
unfolding opened
signs_in = refl

is_viewer : (grafana_org_role site "test.adm" "pw" "test" []).0 ≡ ok (str "Viewer")
unfolding opened
is_viewer = refl

grafana_org_role-IsFirst_example :
    (info listed : Value) × (members : Page) × (rows : List Value) × ((grafana_sso_session site
        "test.adm" "pw" []).0
      ≡ ok info)
    × ((follow_page site
          (some (grafana_base <> "/api/org/users"))
          (grafana_sso_session site "test.adm" "pw" []).1).0
        ≡ ok members)
    × (decoded (site.decode members.text) ≡ ok listed)
    × (iterate listed ≡ ok rows)
    × IsFirst "test" rows (str "Viewer")
grafana_org_role-IsFirst_example =
    grafana_org_role-IsFirst site "test.adm" "pw" "test" [] (str "Viewer") is_viewer
