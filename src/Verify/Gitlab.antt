-- ===== src/Verify/Gitlab.antt =====
-- verify/helpers.py: GitLab's single sign-on.
use Prim.Native.Char.{code}
use rke2_lab.Base.{String, ◌<>◌, false, not, Option, none, some, [], ◌∷◌, eqb, if◌then◌else◌}
use rke2_lab.Py.Value.{Value}
use rke2_lab.Py.Text.{show_ℕ, take_text, has_part, strip_prefix, break_at}
use rke2_lab.Py.Result.{assertion_error}
use rke2_lab.Py.Effect.{Env, Io, Page, pure, raise, lift, visit, ◌>>=◌, ◌>>◌}
use rke2_lab.Verify.Session.{make_session, decoded, raise_for_status}
use rke2_lab.Verify.Browser.{or_else, quoted_after}
use rke2_lab.Verify.Login.{get_page, is_redirect}
use rke2_lab.Verify.Proxy.{follow_page}
use rke2_lab.Verify.Grafana.{header_location, ride_login}

abbrev pub gitlab_base : String
gitlab_base = "https://gitlab.dev.lo"

abbrev for_openid : Option String → Option String
for_openid none = none
for_openid (some action) = if has_part "openid_connect" action then some action else none

-- The last `action` of the tag that names the provider: `[^>]+` takes as much as it can.
unfoldable pub last_openid : String → Option String
unfolding strip_prefix break_at has_part
last_openid String.[] = none
last_openid (String.◌∷◌ c s) =
    let later = or_else (last_openid s) (for_openid (quoted_after (strip_prefix "action=\"" s))) in
    if eqb (code c) 62 then none else later

abbrev after_form_tag : Option String → Option String
after_form_tag none = none
after_form_tag (some rest) = last_openid rest

-- `re.search(r'<form[^>]+action="([^"]*openid_connect[^"]*)"', text)`
unfoldable pub openid_action : String → Option String
unfolding last_openid strip_prefix
openid_action String.[] = none
openid_action (String.◌∷◌ c s) =
    or_else (after_form_tag (strip_prefix "<form" (String.◌∷◌ c s))) (openid_action s)

-- The last `value` before the end of the tag.
unfoldable pub last_value : String → Option String
unfolding strip_prefix break_at
last_value String.[] = none
last_value (String.◌∷◌ c s) =
    let later = last_value s in
    or_else (if eqb (code c) 62 then none else later)
      (quoted_after (strip_prefix "value=\"" (String.◌∷◌ c s)))

abbrev after_name : Option String → Option String
after_name none = none
after_name (some rest) = last_value rest

-- `re.search(r'name="authenticity_token"[^>]*value="([^"]*)"', text)`
unfoldable pub authenticity_token : String → Option String
unfolding last_value strip_prefix
authenticity_token String.[] = none
authenticity_token (String.◌∷◌ c s) =
    or_else (after_name (strip_prefix "name=\"authenticity_token\"" (String.◌∷◌ c s)))
      (authenticity_token s)

-- The page of the sign-in form, behind at most one redirect.
unfoldable pub sign_in_page : Env → Io Page
unfolding lift visit pure ◌>>=◌
sign_in_page env = do
  resp ← get_page env (gitlab_base <> "/users/sign_in") []
  if is_redirect resp
      then (do location ← lift (header_location resp); get_page env location [])
      else pure resp

-- The action and the token of the form for the provider.
abbrev openid_form : Option String → Option String → Io (String × String)
openid_form (some action) (some token) = pure (action, token)
openid_form _ _ = raise (assertion_error "GitLab sign-in form has no openid_connect form")

unfoldable pub gitlab_sso_login : Env → (username password : String) → Io Value
unfolding make_session sign_in_page openid_action authenticity_token ride_login follow_page
    raise_for_status raise lift visit pure ◌>>=◌
gitlab_sso_login env username password = do
  make_session env
  resp ← sign_in_page env
  if not (eqb resp.status_code 200)
      then raise (assertion_error ("sign_in gave " <> show_ℕ resp.status_code))
      else (do
        (action, token) ← openid_form (openid_action resp.text) (authenticity_token resp.text)
        resp2 ← visit env (record {
          method = "POST";
          url = env.urljoin gitlab_base action;
          fields = ("authenticity_token", env.unescape token) ∷ [];
          follow = false;
        })
        if not (is_redirect resp2)
            then raise (
                assertion_error (
                  "openid_connect POST gave "
                  <> (show_ℕ resp2.status_code <> (": " <> take_text 200 resp2.text))))
            else (do
              location ← lift (header_location resp2)
              ride_login env username password (env.urljoin resp2.url location)
              api ← follow_page env (some (gitlab_base <> "/api/v4/user"))
              raise_for_status api.status_code
              lift (decoded (env.decode api.text))))
