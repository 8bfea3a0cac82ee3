-- ===== src/Verify/Fixtures.antt =====
-- verify/conftest.py: the fixtures of a session. What a test does with the users between the two
-- halves of a fixture is the argument `body`.
pub mod Teardown
use rke2_lab.Base.{ℕ, String, ◌<>◌, List, [], ◌∷◌}
use rke2_lab.Py.Effect.{
  Exception, Env, Io, printed, pure, emit, token_urlsafe, for_each, try_except, try_finally, ◌>>=◌,
  ◌>>◌,
}
use rke2_lab.Verify.Session.{keycloak_clear_user_cache}
use rke2_lab.Verify.Ipa.{
  TestUser, add_groups, make_test_users, provision_user, remove_user, wait_for_keycloak_sync,
}

-- The warning for a user; names have no quotes in them.
abbrev pub warn : TestUser → Exception → Io (Unit {0})
warn u e = emit (printed ("WARNING: teardown for '" <> (u.name <> "' failed")))

-- The `for` loop of a `finally`.
unfoldable pub tear_down : Env → List TestUser → Io (Unit {0})
unfolding remove_user try_except emit pure ◌>>=◌
tear_down env [] = pure tt
tear_down env (u ∷ us) = do try_except (remove_user env u) (warn u); tear_down env us

-- The part of a fixture before its `try`.
unfoldable pub set_up : Env → List TestUser → Io (Unit {0})
unfolding provision_user wait_for_keycloak_sync keycloak_clear_user_cache for_each ◌>>=◌
set_up env users = do
  _ ← for_each (provision_user env) users
  wait_for_keycloak_sync
  keycloak_clear_user_cache env

-- Users are provisioned, handed to `body`, and removed, each in its order.
unfoldable pub with_users {ℓ} :
    {A : Type ℓ} → Env → (provisioned removed : List TestUser) → Io A → Io A
unfolding set_up tear_down try_finally ◌>>=◌
with_users env provisioned removed body = do
  set_up env provisioned
  try_finally body (tear_down env removed)

unfoldable pub test_users {ℓ} : {A : Type ℓ} → Env → (TestUser → TestUser → Io A) → Io A
unfolding make_test_users with_users ◌>>=◌
test_users env body = do
  (user, adm) ← make_test_users env
  with_users env (user ∷ adm ∷ []) (adm ∷ user ∷ []) (body user adm)

-- A user of SSO who is in no group of the service.
abbrev pub nobody : (name email password : String) → TestUser
nobody name email password =
    add_groups (record { name = name; email = email; password = password; groups = [] })
      ("gitlab-users" ∷ [])

unfoldable pub hubble_tiers {ℓ} :
    {A : Type ℓ} → Env → (TestUser → TestUser → TestUser → Io A) → Io A
unfolding make_test_users token_urlsafe add_groups with_users ◌>>=◌
hubble_tiers env body = do
  (user, adm) ← make_test_users env
  let user = add_groups user ("hubble-users" ∷ [])
  let adm = add_groups adm ("hubble-admins" ∷ [])
  secret ← token_urlsafe env 24
  let third = nobody "hub-sso-none-test" "hub-sso-none@dev.lo" secret
  with_users env (user ∷ adm ∷ third ∷ []) (third ∷ adm ∷ user ∷ []) (body user adm third)

unfoldable pub traefik_tiers {ℓ} :
    {A : Type ℓ} → Env → (TestUser → TestUser → TestUser → Io A) → Io A
unfolding make_test_users token_urlsafe with_users ◌>>=◌
traefik_tiers env body = do
  (user, adm) ← make_test_users env
  secret ← token_urlsafe env 24
  let third = nobody "traefik-sso-none-test" "traefik-sso-none@dev.lo" secret
  with_users env (user ∷ adm ∷ third ∷ []) (third ∷ adm ∷ user ∷ []) (body user adm third)
