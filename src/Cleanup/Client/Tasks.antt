-- ===== src/Cleanup/Client/Tasks.antt =====
-- infra/pulumi/modules/pve_cleanup.py: how often `wait_task` polls, and when it reports success.
use rke2_lab.Base.{
  ℕ, zero, suc, String, ◌<>◌, ◌+◌, ◌≤◌, append-nonempty, Bool, ◌≡◌, ◌≢◌, refl, ap, ◌⊎◌, inl, inr,
  true, false, not, Option, none, some, ◌∷◌, length, arith, eqb, if◌then◌else◌, Bool-cases, eqb_iff,
  ◌==◌, eq_iff,
}
use rke2_lab.Base.Int.{pos}
use rke2_lab.Py.Value.{
  Value, null, obj, str, int, bool, arr, Fields, get_default, equals_text, equals_int,
}
use rke2_lab.Py.Effect.{HttpRequest, sent, Env, History, Result, ok, err, Io, lift, pure, ◌>>=◌}
use rke2_lab.Pve.Http.{request, read_reply}
use rke2_lab.Pve.Reading.{text_of}
use rke2_lab.Cleanup.Client.{
  PveClient, send, task_path, data_of, is_success, exit_text, read_task, task_outcome, or_poll,
  poll_task, wait_task,
}

-- An exit status that says that all went well; `False` counts as 0.
abbrev pub IsWell : Value → Type 0
IsWell v = (v ≡ str "OK") ⊎ ((v ≡ int (pos 0)) ⊎ ((v ≡ bool false) ⊎ (v ≡ str "0")))

is_success-IsWell : (v : Value) → is_success v ≡ true → IsWell v
unfolding equals_text equals_int
is_success-IsWell (str s) e = elim (Bool-cases (s == "OK")) [
  | inl it ↦ inl (ap str ((eq_iff s "OK").0 it))
  | inr not_ok ↦ inr (inr (inr (ap str ((eq_iff s "0").0 (ground (arith, e, not_ok))))))
]
is_success-IsWell (int (pos n)) e = inr (inl (ground (arith, e, eqb_iff n 0, eqb_iff 0 n)))
is_success-IsWell (bool false) e = inr (inr (inl refl))
is_success-IsWell v e = ground (arith, e)

-- The data of a task that stopped well.
abbrev pub StoppedWell : Env → Value → Type 0
StoppedWell env v =
    (fs : Fields) × (v ≡ obj fs)
    × (equals_text "stopped" (get_default "status" null fs) ≡ true)
    × (IsWell (get_default "exitstatus" null fs)
        ⊎ (text_of env (get_default "exitstatus" null fs) ≡ ""))

exit_text-success : (env : Env) (v : Value) → exit_text env v ≡ "" → IsWell v ⊎ (text_of env v ≡ "")
unfolding exit_text
exit_text-success env v h = elim (Bool-cases (is_success v)) [
  | inl good ↦ inl (is_success-IsWell v good)
  | inr bad ↦ inr (ground (arith, bad, h))
]

read_task-StoppedWell : (env : Env) (v : Value) → read_task env v ≡ ok (some "") → StoppedWell env v
unfolding read_task
read_task-StoppedWell env (obj fs) h =
    elim (Bool-cases (equals_text "stopped" (get_default "status" null fs))) [
      | inl stopped ↦ (
        fs,
        refl,
        stopped,
        exit_text-success env (get_default "exitstatus" null fs) (ground (arith, h, stopped)),
      )
      | inr running ↦ ground (arith, h, running)
    ]
read_task-StoppedWell env (str s) h = ground (arith, h)
read_task-StoppedWell env (int n) h = ground (arith, h)
read_task-StoppedWell env (bool b) h = ground (arith, h)
read_task-StoppedWell env null h = ground (arith, h)
read_task-StoppedWell env (arr vs) h = ground (arith, h)

-- A reply of status 200 with such data.
abbrev pub Succeeded : Env → Result (ℕ × Value) → Type 0
Succeeded env reply =
    (payload : Value) × (reply ≡ ok (200, payload)) × StoppedWell env (data_of payload)

kept : Result String → Result (Option String)
kept (ok t) = ok (some t)
kept (err e) = err e

text_in : Result (Option String) → String
text_in (ok (some t)) = t
text_in _ = "-"

refused : (t : String) → ok (some ("task poll " <> t)) ≢ ok (some "")
unfolding text_in
refused t h = append-nonempty "task poll " t refl (ap text_in h)

gated :
    (b : Bool) (t : String) (q : Result (Option String))
    → (if not b then ok (some ("task poll " <> t)) else q) ≡ ok (some "")
    → (b ≡ true) × (q ≡ ok (some ""))
gated true t q h = (refl, h)
gated false t q h = elim (refused t h) [ ]

task_outcome-Succeeded :
    (env : Env) (status : ℕ) (payload : Value)
    → task_outcome env (status, payload) ≡ ok (some "")
    → Succeeded env (ok (status, payload))
unfolding task_outcome
task_outcome-Succeeded env status payload h =
    let (good, told) = gated (eqb status 200) _ (read_task env (data_of payload)) h in
    (
      payload,
      ap (λ n. ok (n, payload)) ((eqb_iff status 200).0 good),
      read_task-StoppedWell env (data_of payload) told,
    )

abbrev ok_text : String → Result String
ok_text t = ok t

window_closed : ok_text "task still running after poll window" ≢ ok ""
unfolding text_in kept
window_closed h =
    append-nonempty "task still running" " after poll window" refl (ap (λ r. text_in (kept r)) h)

-- What follows a poll's reply.
abbrev after_reply : Env → Io String → ℕ × Value → Io String
after_reply env again reply = lift (task_outcome env reply) >>= λ outcome. or_poll outcome again

module _ (again : Io String) (h : History) (n : ℕ)
    (bounded : length (again h).1 ≤ length h + n) where
  outcome_bounded :
      (q : Result (Option String))
      → length (((lift q) >>= λ outcome. or_poll outcome again) h).1 ≤ length h + n
  unfolding ◌>>=◌ lift pure
  outcome_bounded (err e) = omega arith
  outcome_bounded (ok (some outcome)) = omega arith
  outcome_bounded (ok none) = bounded

  reply_bounded :
      (env : Env) (r : Result (ℕ × Value))
      → length ((lift r >>= after_reply env again) h).1 ≤ length h + n
  unfolding ◌>>=◌ lift
  reply_bounded env (err e) = omega arith
  reply_bounded env (ok reply) = outcome_bounded (task_outcome env reply)

polls_bounded :
    (env : Env) (c : PveClient) (ticket upid node : String) (polls : ℕ) (h : History)
    → length (poll_task env c ticket upid node polls h).1 ≤ length h + polls
unfolding poll_task send request ◌>>=◌ lift pure
polls_bounded env c ticket upid node zero h = omega arith
polls_bounded env c ticket upid node (suc polls) h =
    let (r, h') = send env c "GET" (task_path node upid) ticket "" none h in
    let within =
      reply_bounded (poll_task env c ticket upid node polls) h' polls
        (polls_bounded env c ticket upid node polls h') env r in
    omega (arith, within)

-- `wait_task` adds at most 60 events to the history, the requests of its polls, on every server.
pub wait_task_bounded :
    (env : Env) (c : PveClient) (ticket upid node : String) (h : History)
    → length (wait_task env c ticket upid node h).1 ≤ length h + 60
unfolding wait_task
wait_task_bounded env c ticket upid node h = polls_bounded env c ticket upid node 60 h

-- The newest event is a request whose reply tells of success.
abbrev pub EndsWell : Env → History → Type 0
EndsWell env h =
    (r : HttpRequest) × (older : History) × (h ≡ sent r ∷ older)
    × Succeeded env (read_reply (env.http older r))

module _ (env : Env) (again : Io String) (h : History)
    (good : (again h).0 ≡ ok "" → EndsWell env (again h).1) where
  outcome_success :
      (q : Result (Option String))
      → (q ≡ ok (some "") → EndsWell env h)
      → (((lift q) >>= λ outcome. or_poll outcome again) h).0 ≡ ok ""
      → EndsWell env (((lift q) >>= λ outcome. or_poll outcome again) h).1
  unfolding ◌>>=◌ lift pure
  outcome_success (err e) now f = ground (arith, f)
  outcome_success (ok (some outcome)) now f = now (ground (arith, f))
  outcome_success (ok none) now f = good f

  reply_success :
      (r : Result (ℕ × Value))
      → (Succeeded env r → EndsWell env h)
      → ((lift r >>= after_reply env again) h).0 ≡ ok ""
      → EndsWell env ((lift r >>= after_reply env again) h).1
  unfolding ◌>>=◌ lift
  reply_success (err e) now f = ground (arith, f)
  reply_success (ok (status, payload)) now f =
      outcome_success (task_outcome env (status, payload))
        (λ q. now (task_outcome-Succeeded env status payload q)) f

polls_success :
    (env : Env) (c : PveClient) (ticket upid node : String) (polls : ℕ) (h : History)
    → (poll_task env c ticket upid node polls h).0 ≡ ok ""
    → EndsWell env (poll_task env c ticket upid node polls h).1
unfolding poll_task send request ◌>>=◌ lift pure
polls_success env c ticket upid node zero h f = elim (window_closed f) [ ]
polls_success env c ticket upid node (suc polls) h f =
    let (r, h') = send env c "GET" (task_path node upid) ticket "" none h in
    reply_success env (poll_task env c ticket upid node polls) h'
      (polls_success env c ticket upid node polls h') r (λ s. (_, h, refl, s)) f

-- When `wait_task` returns the empty text, its last request was answered with status 200 and a task
-- that has stopped, whose exit status is "OK", 0 (or False, which equals it) or "0", or shows as the
-- empty text.
pub wait_task-EndsWell :
    (env : Env) (c : PveClient) (ticket upid node : String) (h : History)
    → (wait_task env c ticket upid node h).0 ≡ ok ""
    → EndsWell env (wait_task env c ticket upid node h).1
unfolding wait_task
wait_task-EndsWell env c ticket upid node h f = polls_success env c ticket upid node 60 h f
