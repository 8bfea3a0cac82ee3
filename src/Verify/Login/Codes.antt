-- ===== src/Verify/Login/Codes.antt =====
-- verify/helpers.py: what a login that succeeded returns.
use rke2_lab.Base.{
  ℕ, zero, suc, String, ◌≡◌, ◌≢◌, ◌⊎◌, refl, true, Option, none, some, List, [], ◌∷◌, eq_iff,
  eq_refl, eqb_iff, arith,
}
use rke2_lab.Base.Dict.{lookup}
use rke2_lab.Py.Text.{has_part}
use rke2_lab.Py.Effect.{Env, Io, Page, Visit, visited, visit, History, ok, pure}
use rke2_lab.Py.Effect.Ends.{Ends, Ends-pure, Ends-bind_lift, Ends-if, Ends-after, visit-answered}
use rke2_lab.Verify.Login.{
  KeycloakResult, location_of, first_of, is_set, is_redirect, arrived, stayed, out_redirect,
  Submitted, ended, next_page, after_submit, submit_login_form, after_form, submit_forms,
  login_page, from_page, keycloak_login,
}

-- The last request of the history, and the page that it was answered with.
pub record Visited (env : Env) (page : Page) (h : History) : Type 0 where
  pub request : Visit
  pub before : History
  pub last : h ≡ visited request ∷ before
  pub answer : env.browse before request ≡ some page

-- The last page is a redirect; the result has its location, and the first code of the location's
-- query, which is not empty.
pub record HasCode (env : Env) (r : KeycloakResult) (h : History) : Type 0 where
  pub page : Page
  pub came : Visited env page h
  pub redirects : (page.status_code ≡ 302) ⊎ (page.status_code ≡ 303)
  pub has_location : r.location ≡ some (location_of page)
  pub code : String
  pub more : List String
  pub queried : lookup "code" (env.query (location_of page)) ≡ some (code ∷ more)
  pub has_code : r.code ≡ some code
  pub ne_empty : code ≢ ""

pub record IsFirst (found : Option (List String)) (code : Option String) : Type 0 where
  text : String
  more : List String
  there : found ≡ some (text ∷ more)
  same : code ≡ some text
  ne_empty : text ≢ ""

first-IsFirst :
    (found : Option (List String)) (code : Option String)
    → first_of found (some "") ≡ ok code
    → is_set code ≡ true
    → IsFirst found code
first-IsFirst none code e set = ground (arith, e, set, eq_refl "")
first-IsFirst (some []) code e set = ground (arith, e)
first-IsFirst (some (v ∷ vs)) code e set = record {
  text = v;
  more = vs;
  there = refl;
  same = ground (arith, e);
  ne_empty = λ empty. ground (arith, e, set, (eq_iff v "").1 empty);
}

redirect_status :
    (page : Page) → is_redirect page ≡ true → (page.status_code ≡ 302) ⊎ (page.status_code ≡ 303)
redirect_status page e =
    ground (arith, e, eqb_iff page.status_code 302, eqb_iff page.status_code 303)

module _ (env : Env) where
  abbrev pub Arrives : KeycloakResult → History → Type 0
  Arrives r h = r.is_ok ≡ true → HasCode env r h

  visit-Visited : (v : Visit) (h : History) → Ends (Visited env) h (visit env v)
  unfolding visit
  visit-Visited v h = record {
    at = λ page e. record {
      request = v;
      before = h;
      last = refl;
      answer = visit-answered env v h page e;
    };
  }

  stayed-Arrives : (loc detail : String) (h : History) → Ends Arrives h (pure (stayed loc detail))
  unfolding stayed
  stayed-Arrives loc detail h = Ends-pure (stayed loc detail) (λ bad. ground (arith, bad))

  arrived-Arrives :
      (page : Page) (h : History) (code state : Option String)
      → Visited env page h
      → is_redirect page ≡ true
      → IsFirst (lookup "code" (env.query (location_of page))) code
      → Ends Arrives h (pure (arrived code state (location_of page)))
  unfolding arrived
  arrived-Arrives page h code state came redirects first =
      Ends-pure (arrived code state (location_of page)) (λ good. record {
        page = page;
        came = came;
        redirects = redirect_status page redirects;
        has_location = refl;
        code = first.text;
        more = first.more;
        queried = first.there;
        has_code = first.same;
        ne_empty = first.ne_empty;
      })

  out_redirect-Arrives :
      (page : Page) (h : History) (reason : String)
      → Visited env page h
      → is_redirect page ≡ true
      → Ends Arrives h (out_redirect env (location_of page) reason)
  unfolding out_redirect
  out_redirect-Arrives page h reason came redirects =
      let found = lookup "code" (env.query (location_of page)) in
      Ends-bind_lift (first_of found (some "")) _ h (λ code got.
        Ends-if (is_set code) _ _
          (λ set. Ends-bind_lift _ _ h (λ state there.
            arrived-Arrives page h code state came redirects (first-IsFirst found code got set)))
          (λ unset. stayed-Arrives (location_of page) reason h))

  -- After a form either the flow has ended, or the next page is there.
  abbrev Submits : Submitted → History → Type 0
  Submits (ended r) h = Arrives r h
  Submits (next_page page) h = Visited env page h

  after_submit-Submits :
      (page nxt : Page) (h : History)
      → Visited env nxt h
      → Ends Submits h (after_submit env page nxt)
  unfolding after_submit
  after_submit-Submits page nxt h came =
      Ends-if (is_redirect nxt) _ _
        (λ redirects.
          Ends-if (has_part "login-actions" (location_of nxt)) _ _
            (λ _.
              Ends-after _ _ h (visit-Visited _ h)
                (λ following h' p. Ends-pure {Q = Submits} (next_page following) p))
            (λ _.
              Ends-after _ _ h (out_redirect-Arrives nxt h _ came redirects)
                (λ r h' p. Ends-pure {Q = Submits} (ended r) p)))
        (λ _. Ends-pure {Q = Submits} (next_page nxt) came)

  submit_login_form-Submits :
      (page : Page) (username password : String) (h : History)
      → Ends Submits h (submit_login_form env page username password)
  unfolding submit_login_form
  submit_login_form-Submits page username password h =
      Ends-after _ _ h (visit-Visited _ h) (λ nxt h' came. after_submit-Submits page nxt h' came)

  after_form-Arrives :
      (s : Submitted) (again : Page → Io KeycloakResult) (h : History)
      → ((page : Page) → Ends Arrives h (again page))
      → Submits s h
      → Ends Arrives h (after_form s again)
  after_form-Arrives (ended r) again h k p = Ends-pure r p
  after_form-Arrives (next_page page) again h k p = k page

  submit_forms-Arrives :
      (username password : String) (rounds : ℕ) (page : Page) (h : History)
      → Ends Arrives h (submit_forms env username password rounds page)
  unfolding submit_forms
  submit_forms-Arrives username password zero page h = stayed-Arrives page.url _ h
  submit_forms-Arrives username password (suc rounds) page h =
      Ends-after _ _ h (submit_login_form-Submits page username password h) (λ s h' p.
        after_form-Arrives s (submit_forms env username password rounds) h'
          (λ next. submit_forms-Arrives username password rounds next h') p)

  login_page-Visited :
      (resp : Page) (h : History) → Visited env resp h → Ends (Visited env) h (login_page env resp)
  unfolding login_page
  login_page-Visited resp h came =
      let same : Ends (Visited env) h (pure resp) = Ends-pure resp came in
      search (Ends-if, visit-Visited, same)

  from_page-Arrives :
      (username password : String) (page : Page) (h : History)
      → Visited env page h
      → Ends Arrives h (from_page env username password page)
  unfolding from_page
  from_page-Arrives username password page h came =
      Ends-if (is_redirect page) _ _ (λ redirects. out_redirect-Arrives page h _ came redirects)
        (λ _. submit_forms-Arrives username password 2 page h)

  keycloak_login-Arrives :
      (username password auth_url : String) (h : History)
      → Ends Arrives h (keycloak_login env username password auth_url)
  unfolding keycloak_login
  keycloak_login-Arrives username password auth_url h =
      Ends-after _ _ h (visit-Visited _ h) (λ resp h1 came.
        Ends-after _ _ h1 (login_page-Visited resp h1 came)
          (λ page h2 there. from_page-Arrives username password page h2 there))

-- Whatever Keycloak answers, a login that counts as a success ended at a redirect: the last page
-- that it was answered with has the status 302 or 303, the result has the location of that page,
-- and its code is the first one in the query of that location, and is not empty.
pub keycloak_login-HasCode :
    (env : Env) (username password auth_url : String) (h : History) (r : KeycloakResult)
    → (keycloak_login env username password auth_url h).0 ≡ ok r
    → r.is_ok ≡ true
    → HasCode env r (keycloak_login env username password auth_url h).1
keycloak_login-HasCode env username password auth_url h r =
    (keycloak_login-Arrives env username password auth_url h).at r
