-- ===== src/Fdb/Ssh.antt =====
-- infra/pulumi/modules/sdn_fdb.py: `_host_ssh`. An exit marker has no leading zeros.
use rke2_lab.Base.{
  ℕ, String, ◌<>◌, Bool, true, false, Option, none, some, eqb, if◌then◌else◌, ◌≡◌, ◌↔◌, ◌⊎◌, inl,
  inr, refl, ap, arith, eqb_iff,
}
use rke2_lab.Py.Text.{show_ℕ, last_text, replace, last_number}
use rke2_lab.Py.Result.{import_error}
use rke2_lab.Py.Effect.{Env, Session, Io, pure, raise, ◌>>=◌, ssh_session}
use rke2_lab.Cleanup.Remove.{dialogue}
use rke2_lab.Fdb.Settings.{SdnFdbSettings, ssh_host_for, read_fallback_password}

abbrev pub ssh_exit_marker : String
ssh_exit_marker = "SDN_FDB_SSH_EXIT="

-- `code in (0, None)`
abbrev pub exited_well : Option ℕ → Bool
exited_well none = true
exited_well (some code) = eqb code 0

abbrev marked : ℕ → String → Bool × String
marked code out = (
  eqb code 0,
  if eqb code 0 then out else "remote shell exit " <> (show_ℕ code <> (": " <> last_text 400 out)),
)

abbrev unmarked : String → Bool → Option ℕ → String → Bool × String
unmarked host true exitstatus out = (false, "ssh to " <> (host <> " timed out after 120s"))
unmarked host false exitstatus out = (exited_well exitstatus, out)

abbrev by_marker : Option ℕ → String → Bool → Option ℕ → String → Bool × String
by_marker (some code) host timed_out exitstatus out = marked code out
by_marker none host timed_out exitstatus out = unmarked host timed_out exitstatus out

-- What the session's redacted output comes to: a marker decides before a timeout.
unfoldable pub outcome : (host out : String) (timed_out : Bool) → Option ℕ → Bool × String
unfolding last_number
outcome host out timed_out exitstatus =
    by_marker (last_number ssh_exit_marker out) host timed_out exitstatus out

unfoldable pub session_outcome : (host password : String) → Session → Bool × String
unfolding dialogue replace outcome
session_outcome host password s =
    let (output, timed_out) = dialogue s in
    outcome host (replace password "<redacted>" output) timed_out s.exitstatus

unfoldable pub remote_command : Env → String → String
remote_command env remote =
    "bash -lc " <> env.quote (remote <> (" 2>&1; echo " <> (ssh_exit_marker <> "$?")))

unfoldable pub host_ssh : Env → SdnFdbSettings → String → String → Io (Bool × String)
unfolding remote_command session_outcome read_fallback_password ssh_host_for pure ◌>>=◌
host_ssh env settings node remote =
    if env.has_pexpect
    then (do
      password ← read_fallback_password env settings
      session ← ssh_session env (ssh_host_for settings node) (remote_command env remote)
      pure (session_outcome (ssh_host_for settings node) password session))
    else raise import_error

exited_well_iff : (code : Option ℕ) → (exited_well code ≡ true) ↔ ((code ≡ none) ⊎ (code ≡ some 0))
exited_well_iff none = (λ e. inl refl, λ e. refl)
exited_well_iff (some code) = (
  λ e. inr (ap some ((eqb_iff code 0).0 e)),
  λ e. elim e [ inl m ↦ ground (arith, m) | inr m ↦ ground (arith, m, eqb_iff code 0) ],
)

-- `_host_ssh` reports success exactly when the last exit marker is 0, or when there is no marker at
-- all, nothing timed out, and the exit status of `ssh` is 0 or is not known.
pub outcome-success :
    (host out : String) (timed_out : Bool) (exitstatus : Option ℕ)
    → ((outcome host out timed_out exitstatus).0 ≡ true) ↔ (
        (last_number ssh_exit_marker out ≡ some 0)
        ⊎ ((last_number ssh_exit_marker out ≡ none)
            × (timed_out ≡ false)
            × ((exitstatus ≡ none) ⊎ (exitstatus ≡ some 0))))
unfolding outcome
outcome-success host out timed_out exitstatus = by_marker_lem (last_number ssh_exit_marker out)
  where
    unmarked_lem :
        (t : Bool)
        → (unmarked host t exitstatus out).0 ≡ true
        → (t ≡ false) × ((exitstatus ≡ none) ⊎ (exitstatus ≡ some 0))
    unmarked_lem true e = ground (arith, e)
    unmarked_lem false e = (refl, (exited_well_iff exitstatus).0 e)

    by_marker_lem :
        (m : Option ℕ)
        → ((by_marker m host timed_out exitstatus out).0 ≡ true) ↔ (
            (m ≡ some 0)
            ⊎ ((m ≡ none) × (timed_out ≡ false) × ((exitstatus ≡ none) ⊎ (exitstatus ≡ some 0))))
    by_marker_lem (some code) = (
      λ e. inl (ap some ((eqb_iff code 0).0 e)),
      λ e. elim e [ inl m ↦ ground (arith, m) | inr (m, t, x) ↦ ground (arith, m) ],
    )
    by_marker_lem none = (
      λ e. let (early, well) = unmarked_lem timed_out e in inr (refl, early, well),
      λ e. elim e [
        | inl m ↦ ground (arith, m)
        | inr (m, t, x) ↦ rw t ((exited_well_iff exitstatus).1 x)
      ],
    )
