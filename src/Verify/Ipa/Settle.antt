-- ===== src/Verify/Ipa/Settle.antt =====
-- verify/helpers.py: the retries of `ipa_group_add_member`.
use rke2_lab.Base.{ℕ, zero, suc, String, ◌≤◌, ◌≡◌, ap, ◌∙◌, true, ◌∷◌, arith}
use rke2_lab.Py.Text.{has_part}
use rke2_lab.Py.Result.{runtime_error}
use rke2_lab.Py.Effect.{ok, err, Env, Io, History, slept, raise, emit, except_runtime, ◌>>=◌}
use rke2_lab.Py.Effect.Returns.{try_run, try_raised}
use rke2_lab.Verify.Ipa.{
  retry_on, ipa_admin, add_command, add_attempts, ipa_group_add_member, settle_s, settle_retries,
}

module _ (env : Env) (group user : String) where
  abbrev pub add_once : Io (Unit {0})
  add_once = ipa_admin env true (add_command group user)

  -- This many attempts meet the user before it is visible, and the next one succeeds.
  abbrev pub SettlesAfter : ℕ → History → Type 0
  SettlesAfter zero h = (add_once h).0 ≡ ok tt
  SettlesAfter (suc n) h =
      (text : String) × ((add_once h).0 ≡ err (runtime_error text))
      × (has_part "no such entry" text ≡ true)
      × SettlesAfter n (slept settle_s ∷ (add_once h).1)

  attempted :
      (left n : ℕ) (h : History)
      → n ≤ left
      → SettlesAfter n h
      → (add_attempts env group user left h).0 ≡ ok tt
  unfolding add_attempts emit ◌>>=◌
  attempted zero zero h le s =
      ap (λ p. p.0) (try_run add_once (except_runtime λ text. raise (runtime_error text)) h tt s)
  attempted (suc left) zero h le s =
      ap (λ p. p.0)
        (try_run add_once (except_runtime (retry_on (add_attempts env group user left))) h tt s)
  attempted zero (suc n) h le s = ground arith
  attempted (suc left) (suc n) h le (text, failed, transient, later) =
      ap (λ p. p.0)
        (try_raised add_once (except_runtime (retry_on (add_attempts env group user left))) h
          (runtime_error text) failed)
      ∙ rw transient (attempted left n (slept settle_s ∷ (add_once h).1) (omega (arith, le)) later)

  -- A user that becomes visible within the first three attempts is added to the group: where at most
  -- three attempts meet a missing entry and the next succeeds, the call returns.
  pub ipa_group_add_member-settles :
      (n : ℕ) (h : History)
      → n ≤ settle_retries
      → SettlesAfter n h
      → (ipa_group_add_member env group user h).0 ≡ ok tt
  unfolding ipa_group_add_member
  ipa_group_add_member-settles n h le s = attempted settle_retries n h le s
