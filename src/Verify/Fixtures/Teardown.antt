-- ===== src/Verify/Fixtures/Teardown.antt =====
-- verify/conftest.py: what a fixture's teardown does, and what it cannot do to the outcome.
pub mod Tiers
use rke2_lab.Base.{map, String, ◌<>◌, ◌≡◌, refl, ap, ◌∙◌, true, false, some, List, [], ◌∷◌}
use rke2_lab.Py.Effect.{
  Result, ok, err, Env, Io, History, Event, ran, printed, Command, Completed, pure, raise, lift,
  emit, run_process, for_each, try_except, try_finally, after_final, ◌>>=◌,
}
use rke2_lab.Py.Effect.Returns.{bind_run, bind_pair, try_run}
use rke2_lab.Cleanup.Settings.{configured}
use rke2_lab.Verify.Session.{env_var}
use rke2_lab.Verify.Ipa.{
  is_zero, remote_command, ansible_command, ipa_admin, ipa_group_remove_member, ipa_user_del,
  TestUser, remove_user,
}
use rke2_lab.Verify.Fixtures.{warn, tear_down, set_up, with_users}

-- A warning instead of an exception.
caught :
    (r : Result (Unit {0})) (text : String) (next : Io (Unit {0})) (h : History)
    → ((h' : History) → (next h').0 ≡ ok tt)
    → ((try_except (lift r) (λ e. emit (printed text)) >>= λ _. next) h).0 ≡ ok tt
unfolding try_except lift emit ◌>>=◌
caught (ok tt) text next h k = k h
caught (err e) text next h k = k (printed text ∷ h)

tear_down-ok : (env : Env) (us : List TestUser) (h : History) → (tear_down env us h).0 ≡ ok tt
unfolding tear_down ◌>>=◌ pure try_except lift
tear_down-ok env [] h = refl
tear_down-ok env (u ∷ us) h =
    let (r, h') = remove_user env u h in caught r _ (tear_down env us) h' (tear_down-ok env us)

finished {ℓ} :
    {A : Type ℓ} (m : Io A) (final : Io (Unit {0})) (h : History)
    → ((h' : History) → (final h').0 ≡ ok tt)
    → (try_finally m final h).0 ≡ (m h).0
unfolding try_finally
finished m final h k = ap (λ s. after_final s (m h).0) (k (m h).1)

-- Where the users could be provisioned, a fixture's outcome is that of the tests, whatever goes
-- wrong in the teardown: an exception there never replaces theirs.
pub with_users-outcome {ℓ} :
    {A : Type ℓ} (env : Env) (provisioned removed : List TestUser) (body : Io A) (h : History)
    → (set_up env provisioned h).0 ≡ ok tt
    → (with_users env provisioned removed body h).0 ≡ (body (set_up env provisioned h).1).0
unfolding with_users
with_users-outcome env provisioned removed body h up =
    ap (λ p. p.0) (bind_run (set_up env provisioned) _ h tt up)
    ∙ finished body (tear_down env removed) (set_up env provisioned h).1 (tear_down-ok env removed)

-- The admin password is set, and every command over the channel succeeds.
pub record IsUp (env : Env) (password : String) : Type 0 where
  pub has_password : configured (env.getenv "FREEIPA_ADMIN_PASSWORD") ≡ some password
  pub exits :
      (h : History) (command : Command)
      → (proc : Completed) × (env.process h command ≡ some proc) × (is_zero proc.returncode ≡ true)

-- The process for these commands, in which a failure of one of them does not count.
abbrev pub tolerant : Env → String → String → Event
tolerant env password command =
    ran (ansible_command (remote_command false (command ∷ []) (env.base64 password)))

-- The history after each group was left, and after each user was removed.
abbrev pub without_groups : Env → String → TestUser → List String → History → History
without_groups env password u [] h = h
without_groups env password u (g ∷ gs) h =
    without_groups env password u gs
      (tolerant env password ("ipa group-remove-member " <> (g <> (" --users=" <> u.name))) ∷ h)

abbrev pub without_users : Env → String → List TestUser → History → History
without_users env password [] h = h
without_users env password (u ∷ us) h =
    without_users env password us
      (tolerant env password ("ipa user-del " <> u.name) ∷ without_groups env password u u.groups h)

module _ (env : Env) (password : String) (up : IsUp env password) where
  ipa_admin-ok :
      (command : String) (h : History)
      → ipa_admin env false (command ∷ []) h ≡ (ok tt, tolerant env password command ∷ h)
  unfolding ipa_admin env_var run_process pure raise ◌>>=◌
  ipa_admin-ok command h =
      let args = ansible_command (remote_command false (command ∷ []) (env.base64 password)) in
      let (proc, found, zero) = up.exits h args in rw (up.has_password, found, zero) refl

  remove_from-ok :
      (u : TestUser) (gs : List String) (h : History)
      → for_each (λ g. ipa_group_remove_member env g u.name) gs h
        ≡ (ok (map (λ _. tt) gs), without_groups env password u gs h)
  unfolding for_each ipa_group_remove_member pure
  remove_from-ok u [] h = refl
  remove_from-ok u (g ∷ gs) h =
      bind_pair (ipa_group_remove_member env g u.name) _ h _ tt (ipa_admin-ok _ h)
      ∙ bind_pair (for_each (λ g. ipa_group_remove_member env g u.name) gs) _ _ _ _
          (remove_from-ok u gs _)

  remove_user-ok :
      (u : TestUser) (h : History)
      → remove_user env u h ≡ (
        ok tt,
        tolerant env password ("ipa user-del " <> u.name)
            ∷ without_groups env password u u.groups h,
      )
  unfolding remove_user ipa_user_del
  remove_user-ok u h =
      bind_pair (for_each (λ g. ipa_group_remove_member env g u.name) u.groups) _ h _ _
        (remove_from-ok u u.groups h)
      ∙ ipa_admin-ok _ _

  tear_down-removed :
      (us : List TestUser) (h : History)
      → tear_down env us h ≡ (ok tt, without_users env password us h)
  unfolding tear_down pure
  tear_down-removed [] h = refl
  tear_down-removed (u ∷ us) h =
      let removed = remove_user-ok u h in
      bind_pair (try_except (remove_user env u) (warn u)) (λ _. tear_down env us) h _ tt
        (try_run (remove_user env u) (warn u) h tt (ap (λ p. p.0) removed)
          ∙ ap (λ p. (ok tt, p.1)) removed)
      ∙ tear_down-removed us _

  -- Where the users could be provisioned and the admin channel works, the teardown sends, after the
  -- tests, whatever these did and however they ended, the commands that take each of its users out
  -- of all groups and delete the user, in the order of the teardown, and nothing else.
  pub with_users-removed {ℓ} :
      {A : Type ℓ} (provisioned removed : List TestUser) (body : Io A) (h : History)
      → (set_up env provisioned h).0 ≡ ok tt
      → (with_users env provisioned removed body h).1
        ≡ without_users env password removed (body (set_up env provisioned h).1).1
  unfolding with_users try_finally
  with_users-removed provisioned removed body h ready =
      ap (λ p. p.1) (bind_run (set_up env provisioned) _ h tt ready)
      ∙ ap (λ p. p.1) (tear_down-removed removed (body (set_up env provisioned h).1).1)
