-- ===== src/Verify/Fixtures/Teardown/Tiers.antt =====
-- verify/conftest.py: the users that each fixture provisions are the ones that its teardown removes.
use rke2_lab.Base.{String, ◌≡◌, refl, ap, ◌∙◌, List, [], ◌∷◌}
use rke2_lab.Py.Effect.{ok, Env, Io, History, drew, token_urlsafe, ◌>>=◌}
use rke2_lab.Py.Effect.Returns.{bind_pair}
use rke2_lab.Verify.Ipa.{TestUser, add_groups, make_test_users}
use rke2_lab.Verify.Fixtures.{set_up, with_users, nobody, test_users, hubble_tiers, traefik_tiers}
use rke2_lab.Verify.Fixtures.Teardown.{IsUp, without_users, with_users-removed}

module _ (env : Env) (password : String) (up : IsUp env password) (h drawn : History)
    (user adm : TestUser) (made : make_test_users env h ≡ (ok (user, adm), drawn)) where
  -- Where the admin channel works and the two users could be provisioned, `test_users` hands these
  -- two to the tests, and afterwards, whatever the tests did and however they ended, it sends for
  -- the administrator and then for the user the commands that take the user out of each group and
  -- delete it, and does nothing else. (A command that fails for one user is not noticed.)
  pub test_users-removed {ℓ} :
      {A : Type ℓ} (body : TestUser → TestUser → Io A)
      → (set_up env (user ∷ adm ∷ []) drawn).0 ≡ ok tt
      → (test_users env body h).1
        ≡ without_users env password
            (adm ∷ user ∷ [])
            (body user adm (set_up env (user ∷ adm ∷ []) drawn).1).1
  unfolding test_users
  test_users-removed body ready =
      let run : test_users env body h
          ≡ with_users env (user ∷ adm ∷ []) (adm ∷ user ∷ []) (body user adm) drawn =
        bind_pair (make_test_users env)
          (λ (u : TestUser × TestUser).
            with_users env (u.0 ∷ u.1 ∷ []) (u.1 ∷ u.0 ∷ []) (body u.0 u.1))
          h drawn (user, adm) made in
      ap (λ p. p.1) run
      ∙ with_users-removed env password up (user ∷ adm ∷ []) (adm ∷ user ∷ []) (body user adm) drawn
          ready

  module _ {ℓ} {A : Type ℓ} (user' adm' third : TestUser)
      (body : TestUser → TestUser → TestUser → Io A) where
    -- The three, in the order in which they are removed.
    abbrev backwards : List TestUser
    backwards = third ∷ adm' ∷ user' ∷ []

    abbrev later : History
    later = (set_up env (user' ∷ adm' ∷ third ∷ []) (drew 24 ∷ drawn)).1

    -- What follows the drawing of the third user's password.
    abbrev handing : (first second : TestUser) → (name email secret : String) → Io A
    handing first second name email secret =
        let last = nobody name email secret in
        with_users env (first ∷ second ∷ last ∷ []) (last ∷ second ∷ first ∷ [])
          (body first second last)

    -- Where the admin channel works and the three users could be provisioned, `hubble_tiers` hands
    -- them to the tests, the first two with their groups of Hubble. Afterwards, whatever the tests
    -- did and however they ended, it sends for each of the three, the last first, the commands that
    -- take the user out of each group and delete it, and does nothing else. (A command that fails
    -- for one user is not noticed.)
    pub hubble_tiers-removed :
        user' ≡ add_groups user ("hubble-users" ∷ [])
        → adm' ≡ add_groups adm ("hubble-admins" ∷ [])
        → third ≡ nobody "hub-sso-none-test" "hub-sso-none@dev.lo" (env.token drawn 24)
        → (set_up env (user' ∷ adm' ∷ third ∷ []) (drew 24 ∷ drawn)).0 ≡ ok tt
        → (hubble_tiers env body h).1
          ≡ without_users env password backwards (body user' adm' third later).1
    unfolding hubble_tiers token_urlsafe
    hubble_tiers-removed is_user is_adm is_third ready =
        let run : hubble_tiers env body h
            ≡ with_users env (user' ∷ adm' ∷ third ∷ []) backwards (body user' adm' third)
                (drew 24 ∷ drawn) =
          rw (is_user, is_adm, is_third)
            (bind_pair (make_test_users env)
                (λ (u : TestUser × TestUser).
                  token_urlsafe env 24
                  >>= handing (add_groups u.0 ("hubble-users" ∷ []))
                      (add_groups u.1 ("hubble-admins" ∷ [])) "hub-sso-none-test"
                      "hub-sso-none@dev.lo")
                h drawn (user, adm) made
              ∙ bind_pair (token_urlsafe env 24)
                  (handing (add_groups user ("hubble-users" ∷ []))
                    (add_groups adm ("hubble-admins" ∷ [])) "hub-sso-none-test"
                    "hub-sso-none@dev.lo")
                  drawn (drew 24 ∷ drawn) (env.token drawn 24) refl) in
        ap (λ p. p.1) run
        ∙ with_users-removed env password up (user' ∷ adm' ∷ third ∷ []) backwards
            (body user' adm' third) (drew 24 ∷ drawn) ready

    -- The same for `traefik_tiers`, whose first two users are those of `test_users`.
    pub traefik_tiers-removed :
        user' ≡ user
        → adm' ≡ adm
        → third ≡ nobody "traefik-sso-none-test" "traefik-sso-none@dev.lo" (env.token drawn 24)
        → (set_up env (user' ∷ adm' ∷ third ∷ []) (drew 24 ∷ drawn)).0 ≡ ok tt
        → (traefik_tiers env body h).1
          ≡ without_users env password backwards (body user' adm' third later).1
    unfolding traefik_tiers token_urlsafe
    traefik_tiers-removed is_user is_adm is_third ready =
        let run : traefik_tiers env body h
            ≡ with_users env (user' ∷ adm' ∷ third ∷ []) backwards (body user' adm' third)
                (drew 24 ∷ drawn) =
          rw (is_user, is_adm, is_third)
            (bind_pair (make_test_users env)
                (λ (u : TestUser × TestUser).
                  token_urlsafe env 24
                  >>= handing u.0 u.1 "traefik-sso-none-test" "traefik-sso-none@dev.lo")
                h drawn (user, adm) made
              ∙ bind_pair (token_urlsafe env 24)
                  (handing user adm "traefik-sso-none-test" "traefik-sso-none@dev.lo") drawn
                  (drew 24 ∷ drawn) (env.token drawn 24) refl) in
        ap (λ p. p.1) run
        ∙ with_users-removed env password up (user' ∷ adm' ∷ third ∷ []) backwards
            (body user' adm' third) (drew 24 ∷ drawn) ready
