-- ===== src/Verify/Grafana/Roles.antt =====
-- verify/helpers.py: whose role `grafana_org_role` returns.
use rke2_lab.Base.{
  String, ◌<>◌, ◌≡◌, refl, ap, ◌∙◌, Bool, true, false, ◌||◌, Option, none, some, List, [], ◌∷◌,
  ◌++◌, All, arith, eqb, if◌then◌else◌,
}
use rke2_lab.Py.Value.{Value, equals_text}
use rke2_lab.Py.Effect.{ok, History, Env, Io, Page, raise, lift, pure, for_each, ◌>>=◌}
use rke2_lab.Py.Effect.Returns.{bind-returned, pure-returned, guard-returned, lift-returned}
use rke2_lab.Pve.Reading.{iterate}
use rke2_lab.Verify.Session.{item_of, decoded, raise_for_status}
use rke2_lab.Verify.Proxy.{follow_page}
use rke2_lab.Verify.Grafana.{
  grafana_base, either_of, find_role, member, role_or_raise, grafana_sso_session, grafana_org_role,
}

-- Whether the row is that of the target, by its login or its address.
pub record IsAnswer (target : String) (row : Value) (answer : Bool) : Type 0 where
  pub login : Value
  pub email : Value
  pub has_login : either_of "userLogin" "login" row ≡ ok login
  pub has_email : either_of "userEmail" "email" row ≡ ok email
  pub compared : (equals_text target login || equals_text target email) ≡ answer

-- The first row of the target has this role.
pub record IsFirst (target : String) (rows : List Value) (role : Value) : Type 0 where
  pub earlier : List Value
  pub row : Value
  pub later : List Value
  pub split : rows ≡ earlier ++ row ∷ later
  pub others : All (λ r. IsAnswer target r false) earlier
  pub named : IsAnswer target row true
  pub has_role : item_of "role" row ≡ ok role

module _ (target : String) where
  IsFirst-cons :
      (row : Value) (rows : List Value) (role : Value)
      → IsAnswer target row false
      → IsFirst target rows role
      → IsFirst target (row ∷ rows) role
  IsFirst-cons row rows role a f = record {
    earlier = row ∷ f.earlier;
    row = f.row;
    later = f.later;
    split = ap (λ l. row ∷ l) f.split;
    others = (a, f.others);
    named = f.named;
    has_role = f.has_role;
  }

  role_here : (row : Value) → Io (Option Value)
  unfolding pure lift ◌>>=◌
  role_here row = do role ← lift (item_of "role" row); pure (some role)

  answered :
      (b : Bool) (row : Value) (rows : List Value) (h : History) (role : Value)
      → IsAnswer target row b
      → ((if b then role_here row else find_role target rows) h).0 ≡ ok (some role)
      → ((find_role target rows h).0 ≡ ok (some role) → IsFirst target rows role)
      → IsFirst target (row ∷ rows) role
  unfolding role_here
  answered true row rows h role a e rest =
      let (found, f, e1) = bind-returned (lift (item_of "role" row)) _ h (some role) e in
      let same : some found ≡ some role = pure-returned (some found) (some role) h e1 in
      record {
        earlier = [];
        row = row;
        later = rows;
        split = refl;
        others = tt;
        named = a;
        has_role = lift-returned (item_of "role" row) found h f ∙ ground (arith, same);
      }
  answered false row rows h role a e rest = IsFirst-cons row rows role a (rest e)

  find_role-IsFirst :
      (rows : List Value) (h : History) (role : Value)
      → (find_role target rows h).0 ≡ ok (some role)
      → IsFirst target rows role
  unfolding find_role role_here
  find_role-IsFirst [] h role e = ground (arith, pure-returned none (some role) h e)
  find_role-IsFirst (row ∷ rows) h role e =
      let (login, l, e1) =
        bind-returned (lift (either_of "userLogin" "login" row)) _ h (some role) e in
      let (email, m, e2) =
        bind-returned (lift (either_of "userEmail" "email" row)) _ h (some role) e1 in
      answered (equals_text target login || equals_text target email) row rows h role
        (record {
          login = login;
          email = email;
          has_login = lift-returned (either_of "userLogin" "login" row) login h l;
          has_email = lift-returned (either_of "userEmail" "email" row) email h m;
          compared = refl;
        })
        e2 (find_role-IsFirst rows h role)

module _ (env : Env) (target : String) (rows : List Value) where
  -- Where no row is that of the target, no role is returned.
  role_or_raise-returned :
      (found : Option Value) (h : History) (role : Value)
      → (role_or_raise env target rows found h).0 ≡ ok role
      → found ≡ some role
  unfolding role_or_raise raise
  role_or_raise-returned none h role e =
      let (shown, _, e1) = bind-returned (for_each member rows) _ h role e in ground (arith, e1)
  role_or_raise-returned (some r) h role e = ap (λ v. some v) (pure-returned r role h e)

-- A role that is returned was read in an authenticated session of the administrator, from the list of
-- members that was answered there: it is the role of the first row whose login or address is the
-- target's.
pub grafana_org_role-IsFirst :
    (env : Env) (admin_username admin_password target : String) (h : History) (role : Value)
    → (grafana_org_role env admin_username admin_password target h).0 ≡ ok role
    → (info listed : Value) × (members : Page) × (rows : List Value) × ((grafana_sso_session env
          admin_username admin_password h).0
        ≡ ok info)
      × ((follow_page env
            (some (grafana_base <> "/api/org/users"))
            (grafana_sso_session env admin_username admin_password h).1).0
          ≡ ok members)
      × (decoded (env.decode members.text) ≡ ok listed)
      × (iterate listed ≡ ok rows)
      × IsFirst target rows role
unfolding grafana_org_role
grafana_org_role-IsFirst env admin_username admin_password target h role e =
    let session = grafana_sso_session env admin_username admin_password in
    let (info, i, e1) = bind-returned session _ h role e in
    let h1 = (session h).1 in
    let ask = follow_page env (some (grafana_base <> "/api/org/users")) in
    let (members, m, e2) = bind-returned ask _ h1 role e1 in
    let h2 = (ask h1).1 in
    let e3 = guard-returned (eqb members.status_code 403) _ _ h2 role e2 in
    let (_, _, e4) = bind-returned (raise_for_status members.status_code) _ h2 role e3 in
    let h3 = (raise_for_status members.status_code h2).1 in
    let (listed, l, e5) = bind-returned (lift (decoded (env.decode members.text))) _ h3 role e4 in
    let h4 = (lift (decoded (env.decode members.text)) h3).1 in
    let (rows, r, e6) = bind-returned (lift (iterate listed)) _ h4 role e5 in
    let h5 = (lift (iterate listed) h4).1 in
    let (found, f, e7) = bind-returned (find_role target rows) _ h5 role e6 in
    let h6 = (find_role target rows h5).1 in
    let same = role_or_raise-returned env target rows found h6 role e7 in
    (
      info,
      listed,
      members,
      rows,
      i,
      m,
      lift-returned (decoded (env.decode members.text)) listed h3 l,
      lift-returned (iterate listed) rows h4 r,
      find_role-IsFirst target rows h5 role (f ∙ ap ok same),
    )
