-- ===== src/Sdn/Wait.antt =====
-- infra/pulumi/modules/sdn.py: the rounds of the wait for the reload are enough.
use rke2_lab.Base.{
  ℕ, zero, suc, String, ◌<>◌, ◌+◌, ◌*◌, ◌≤◌, ◌≡◌, ◌≢◌, refl, Bool, true, false, Option, none, some,
  ◌∷◌, ltb, ltb→lt, eqb, not, if◌then◌else◌, Bool-cases, inl, inr, arith,
}
use rke2_lab.Py.Value.{Value}
use rke2_lab.Py.Effect.{
  Event, slept, Result, ok, err, Env, History, Io, pure, raise, emit, lift, now, ◌>>=◌,
}
use rke2_lab.Py.Effect.Returns.{bind-returned}
use rke2_lab.Py.Result.{runtime_error}
use rke2_lab.Py.Text.{show_ℕ}
use rke2_lab.Pve.Reading.{text_of}
use rke2_lab.Pve.Http.{request}
use rke2_lab.Sdn.Poll.{poll_once_history}
use rke2_lab.Sdn.{
  Applied, out_of_rounds, Progress, waiting, finished, failed, base_of, get_ticket, data_or_none,
  poll_once, after_poll, timed_out, await_task, task_of, await_reload, apply_at, apply_once,
  task_timeout_s,
}

-- The clock never goes back, and a sleep takes as long as it says.
pub record IsTicking (env : Env) : Type 0 where
  pub monotone : (e : Event) (h : History) → env.clock h ≤ env.clock (e ∷ h)
  pub sleeps : (n : ℕ) (h : History) → env.clock h + n ≤ env.clock (slept n ∷ h)

-- The result is not that of the model's missing rounds.
abbrev pub Ends : Result Applied → Type 0
Ends r = r ≢ ok out_of_rounds

module _ (env : Env) (ticking : IsTicking env) (base ticket upid : String) (deadline : ℕ) where
  after_poll-Ends :
      (r : Result Progress) (again : Io Applied) (h : History)
      → Ends (again (slept 5 ∷ h)).0
      → Ends ((lift r >>= λ progress. after_poll upid progress again) h).0
  unfolding ◌>>=◌ lift pure raise emit
  after_poll-Ends (err e) again h k p = ground (arith, p)
  after_poll-Ends (ok waiting) again h k p = k p
  after_poll-Ends (ok finished) again h k p = ground (arith, p)
  after_poll-Ends (ok (failed text)) again h k p = ground (arith, p)

  -- One round: past the deadline, or a poll and the rounds after it.
  round-Ends :
      (b : Bool) (again : Io Applied) (h : History)
      → (b ≡ true → Ends (again (slept 5 ∷ (poll_once env base ticket upid h).1)).0)
      → Ends
          ((if b
              then (poll_once env base ticket upid >>= λ progress. after_poll upid progress again)
              else timed_out upid)
            h).0
  unfolding ◌>>=◌ raise
  round-Ends true again h k p =
      let (r, h1) = poll_once env base ticket upid h in after_poll-Ends r again h1 (k refl) p
  round-Ends false again h k p = ground (arith, p)

  -- A poll takes no time that the clock could lose.
  poll_once_clock : (h : History) → env.clock h ≤ env.clock (poll_once env base ticket upid h).1
  poll_once_clock h = rw (poll_once_history env base ticket upid h) (ticking.monotone _ h)

  later :
      (h : History) → env.clock h + 5 ≤ env.clock (slept 5 ∷ (poll_once env base ticket upid h).1)
  later h = omega (arith, poll_once_clock h, ticking.sleeps 5 (poll_once env base ticket upid h).1)

  rounds-Ends :
      (rounds : ℕ) (h : History)
      → deadline ≤ env.clock h + 5 * rounds
      → Ends (await_task env base ticket upid deadline (suc rounds) h).0
  unfolding await_task ◌>>=◌ now
  rounds-Ends zero h l =
      round-Ends (ltb (env.clock h) deadline) (await_task env base ticket upid deadline zero) h
        (λ early. let never : ⊥ = omega (arith, ltb→lt _ _ early, l) in elim never [ ])
  rounds-Ends (suc rounds) h l =
      round-Ends (ltb (env.clock h) deadline)
        (await_task env base ticket upid deadline (suc rounds)) h
        (λ early.
          rounds-Ends rounds (slept 5 ∷ (poll_once env base ticket upid h).1)
            (omega (arith, later h, l)))

await_reload-Ends :
    (env : Env) (base ticket : String) (upid : Option String) (h : History)
    → IsTicking env
    → Ends (await_reload env base ticket upid h).0
unfolding await_reload ◌>>=◌ now pure
await_reload-Ends env base ticket none h ticking p = ground (arith, p)
await_reload-Ends env base ticket (some upid) h ticking p =
    rounds-Ends env ticking base ticket upid (env.clock h + task_timeout_s) 60 h (omega arith) p

checked :
    (env : Env) (base ticket : String) (status : ℕ) (payload : Value) (h : History)
    → IsTicking env
    → Ends
        ((if not (eqb status 200)
            then raise (
                runtime_error
                  ("SDN apply failed (" <> (show_ℕ status <> ("): " <> text_of env payload))))
            else await_reload env base ticket (task_of env (data_or_none payload)))
          h).0
unfolding raise
checked env base ticket status payload h ticking = elim (Bool-cases (eqb status 200)) [
  | inl good ↦ rw good (await_reload-Ends env base ticket _ h ticking)
  | inr bad ↦ rw bad (λ p. ground (arith, p))
]

-- On every server, where the clock never goes back and a sleep of five seconds takes that long, the
-- 61 rounds of the wait are enough: `_apply_once` returns a UPID or None, or it raises.
pub apply_once-Ends :
    (env : Env) (endpoint username password : String) (h : History)
    → IsTicking env
    → Ends (apply_once env endpoint username password h).0
unfolding apply_once apply_at
apply_once-Ends env endpoint username password h ticking e =
    let base = base_of env endpoint in
    let m = get_ticket env base username password in
    let (ticket, got, rest) = bind-returned m _ h out_of_rounds e in
    let put = request env "PUT" (base <> "/cluster/sdn/") ticket.0 ticket.1 none in
    let (reply, sent_it, last) = bind-returned put _ (m h).1 out_of_rounds rest in
    checked env base ticket.0 reply.0 reply.1 (put (m h).1).1 ticking last
