-- ===== src/Sdn/Poll.antt =====
-- infra/pulumi/modules/sdn.py: when the wait for the reload's task reports its end.
use rke2_lab.Base.{
  ℕ, zero, suc, String, ◌<>◌, ◌≡◌, ◌⊎◌, refl, Bool, true, false, none, List, [], ◌∷◌, ltb,
  if◌then◌else◌, Bool-cases, inl, inr, arith,
}
use mathlib.Core.List.{Memᴰ}
use rke2_lab.Py.Value.{Value, null, str, int, bool, arr, obj, Fields, get_default, equals_text}
use rke2_lab.Py.Effect.{
  HttpRequest, sent, slept, Result, ok, err, Env, History, Io, pure, raise, emit, lift, now, ◌>>=◌,
}
use rke2_lab.Py.Effect.Returns.{bind-returned, pure-returned}
use rke2_lab.Pve.Http.{request, headers_for, read_reply}
use rke2_lab.Pve.Reading.{iterate_or_nil}
use rke2_lab.Sdn.{
  Applied, by_task, Progress, waiting, finished, failed, data_or_none, entry_of, progress_or,
  task_progress, scan_tasks, poll_once, after_poll, timed_out, await_task,
}

-- An entry for this task with the status "OK".
abbrev pub IsDone : String → Value → Type 0
IsDone upid v =
    (fs : Fields) × (v ≡ obj fs)
    × (equals_text upid (get_default "upid" null fs) ≡ true)
    × (equals_text "OK" (get_default "status" null fs) ≡ true)

task_progress-finished :
    (env : Env) (upid : String) (fs : Fields)
    → task_progress env upid fs ≡ finished
    → equals_text "OK" (get_default "status" null fs) ≡ true
unfolding task_progress
task_progress-finished env upid fs e = ground (arith, e)

progress_or-finished :
    (env : Env) (upid : String) (v : Value) (rest : Progress)
    → progress_or env upid (entry_of upid v) rest ≡ finished
    → IsDone upid v ⊎ (rest ≡ finished)
progress_or-finished env upid (obj fs) rest e =
    elim (Bool-cases (equals_text upid (get_default "upid" null fs))) [
      | inl same ↦
          inl (fs, refl, same, task_progress-finished env upid fs (ground (arith, e, same)))
      | inr other ↦ inr (ground (arith, e, other))
    ]
progress_or-finished env upid (str s) rest e = inr e
progress_or-finished env upid (int n) rest e = inr e
progress_or-finished env upid (bool b) rest e = inr e
progress_or-finished env upid null rest e = inr e
progress_or-finished env upid (arr vs) rest e = inr e

scan_tasks-finished :
    (env : Env) (upid : String) (vs : List Value)
    → scan_tasks env upid vs ≡ finished
    → (v : Value) × Memᴰ v vs × IsDone upid v
unfolding scan_tasks
scan_tasks-finished env upid [] e = ground (arith, e)
scan_tasks-finished env upid (v ∷ vs) e =
    elim (progress_or-finished env upid v (scan_tasks env upid vs) e) [
      | inl d ↦ (v, Memᴰ.head refl, d)
      | inr later ↦ let (w, m, d) = scan_tasks-finished env upid vs later in (w, Memᴰ.tail m, d)
    ]

-- A reply whose list of tasks has such an entry.
abbrev pub Reports : String → Result (ℕ × Value) → Type 0
Reports upid r =
    (status : ℕ) × (payload : Value) × (tasks : List Value) × (r ≡ ok (status, payload))
    × (iterate_or_nil (data_or_none payload) ≡ ok tasks)
    × (v : Value) × Memᴰ v tasks
    × IsDone upid v

-- The newest event is a request with such a reply.
abbrev pub EndsDone : Env → String → History → Type 0
EndsDone env upid h =
    (r : HttpRequest) × (older : History) × (h ≡ sent r ∷ older)
    × Reports upid (read_reply (env.http older r))

abbrev pub poll_request : (base ticket : String) → HttpRequest
poll_request base ticket = record {
  method = "GET";
  url = base <> "/cluster/tasks";
  headers = headers_for "GET" ticket "" none;
  form = none;
  payload = none;
}

quiet :
    (env : Env) (upid : String) (tasks : ℕ × Value → Result (List Value)) (r : Result (ℕ × Value))
    (h : History)
    → ((lift r >>= λ reply. lift (tasks reply) >>= λ ts. pure (scan_tasks env upid ts)) h).1 ≡ h
unfolding ◌>>=◌ lift pure
quiet env upid tasks (err e) h = refl
quiet env upid tasks (ok reply) h = listed (tasks reply)
  where
    listed : (t : Result (List Value)) → ((lift t >>= λ ts. pure (scan_tasks env upid ts)) h).1 ≡ h
    listed (err e) = refl
    listed (ok ts) = refl

module _ (env : Env) (base ticket upid : String) where
  -- A poll is one request.
  pub poll_once_history :
      (h : History) → (poll_once env base ticket upid h).1 ≡ sent (poll_request base ticket) ∷ h
  unfolding poll_once request ◌>>=◌ lift pure
  poll_once_history h =
      quiet env upid (λ reply. iterate_or_nil (data_or_none reply.1))
        (read_reply (env.http h (poll_request base ticket))) (sent (poll_request base ticket) ∷ h)

  poll_once-finished :
      (h : History)
      → (poll_once env base ticket upid h).0 ≡ ok finished
      → Reports upid (read_reply (env.http h (poll_request base ticket)))
  unfolding poll_once
  poll_once-finished h e =
      let get = request env "GET" (base <> "/cluster/tasks") ticket "" none in
      let (reply, got, rest) = bind-returned get _ h finished e in
      let (tasks, listed, last) =
        bind-returned (lift (iterate_or_nil (data_or_none reply.1))) _ (get h).1 finished rest in
      let scanned = pure-returned (scan_tasks env upid tasks) finished (get h).1 last in
      let (v, m, d) = scan_tasks-finished env upid tasks scanned in
      (reply.0, reply.1, tasks, got, listed, v, m, d)

  -- The end of a wait that returns `u`.
  abbrev pub Waited : Result Applied × History → Type 0
  Waited (r, h) = (u : String) → r ≡ ok (by_task u) → (u ≡ upid) × EndsDone env upid h

  after_poll-Waited :
      (r : Result Progress) (again : Io Applied) (h : History)
      → (r ≡ ok finished → EndsDone env upid h)
      → Waited (again (slept 5 ∷ h))
      → Waited ((lift r >>= λ progress. after_poll upid progress again) h)
  unfolding ◌>>=◌ lift pure raise emit
  after_poll-Waited (err e) again h done k u p = ground (arith, p)
  after_poll-Waited (ok waiting) again h done k u p = k u p
  after_poll-Waited (ok finished) again h done k u p = (ground (arith, p), done refl)
  after_poll-Waited (ok (failed text)) again h done k u p = ground (arith, p)

  round-Waited :
      (b : Bool) (again : Io Applied) (h : History)
      → Waited (again (slept 5 ∷ (poll_once env base ticket upid h).1))
      → Waited (
          (if b
              then (poll_once env base ticket upid >>= λ progress. after_poll upid progress again)
              else timed_out upid)
            h)
  unfolding ◌>>=◌ raise
  round-Waited true again h k u p =
      let (r, h1) = poll_once env base ticket upid h in
      after_poll-Waited r again h1
        (λ e. (poll_request base ticket, h, poll_once_history h, poll_once-finished h e)) k u p
  round-Waited false again h k u p = ground (arith, p)

  await_task-Waited :
      (deadline rounds : ℕ) (h : History)
      → Waited (await_task env base ticket upid deadline rounds h)
  unfolding await_task ◌>>=◌ now pure
  await_task-Waited deadline zero h u p = ground (arith, p)
  await_task-Waited deadline (suc rounds) h u p =
      round-Waited (ltb (env.clock h) deadline) (await_task env base ticket upid deadline rounds) h
        (await_task-Waited deadline rounds (slept 5 ∷ (poll_once env base ticket upid h).1)) u p

  -- When the wait for the reload returns a UPID, it is that of the task, and the last request was
  -- answered with a list of tasks in which an entry of this UPID has the status "OK".
  pub await_task-EndsDone :
      (deadline rounds : ℕ) (h : History) (u : String)
      → (await_task env base ticket upid deadline rounds h).0 ≡ ok (by_task u)
      → (u ≡ upid) × EndsDone env upid (await_task env base ticket upid deadline rounds h).1
  await_task-EndsDone = await_task-Waited
