-- ===== src/Cleanup/Remove/Verdict.antt =====
-- infra/pulumi/modules/pve_cleanup.py: when `_remove_volume_via_ssh` reports success.
use rke2_lab.Base.{
  ℕ, zero, suc, String, Bool, true, false, ◌≡◌, ◌≢◌, ◌↔◌, refl, ap, Option, none, some,
  append-nonempty, arith,
}
use rke2_lab.Py.Text.{last_number}
use rke2_lab.Cleanup.Remove.{
  ssh_exit_marker, tail_of, exit_text, unmarked_text, finished_text, verdict,
}

exit_text-empty :
    (label : String) (code : ℕ) (tail : String) → (exit_text label code tail ≡ "") ↔ (code ≡ 0)
exit_text-empty label zero tail = (λ e. refl, λ e. refl)
exit_text-empty label (suc n) tail =
    (λ e. elim (append-nonempty "pvesm free " _ refl e) [ ], λ e. ground (arith, e))

unmarked_text-nonempty :
    (host : String) (status : Option ℕ) (tail : String) → unmarked_text host status tail ≢ ""
unmarked_text-nonempty host none tail e = append-nonempty "ssh to " _ refl e
unmarked_text-nonempty host (some zero) tail e = append-nonempty "ssh to " _ refl e
unmarked_text-nonempty host (some (suc n)) tail e = append-nonempty "ssh to " _ refl e

finished_text-empty :
    (host label : String) (marked status : Option ℕ) (tail : String)
    → (finished_text host label marked status tail ≡ "") ↔ (marked ≡ some 0)
finished_text-empty host label none status tail =
    (λ e. elim (unmarked_text-nonempty host status tail e) [ ], λ e. ground (arith, e))
finished_text-empty host label (some code) status tail = (
  λ e. ap some ((exit_text-empty label code tail).0 e),
  λ e. (exit_text-empty label code tail).1 (ground (arith, e)),
)

-- An attempt counts as success exactly when nothing timed out and the last exit marker in the
-- output is 0, whatever the exit status of `ssh` itself.
pub verdict-success :
    (host label out : String) (timed_out : Bool) (status : Option ℕ)
    → (verdict host label out timed_out status ≡ "")
      ↔ ((timed_out ≡ false) × (last_number ssh_exit_marker out ≡ some 0))
unfolding verdict
verdict-success host label out true status =
    (λ e. elim (append-nonempty "ssh to " _ refl e) [ ], λ e. ground (arith, e))
verdict-success host label out false status =
    let both =
      finished_text-empty host label (last_number ssh_exit_marker out) status (tail_of out) in
    (λ e. (refl, both.0 e), λ e. both.1 e.1)
