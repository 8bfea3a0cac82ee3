-- ===== src/Sdn/Tests.antt =====
-- Runs of infra/pulumi/modules/sdn.py against a small cluster.
use rke2_lab.Base.{ℕ, String, ◌+◌, ◌≤◌, ◌≡◌, refl, true, [], ◌∷◌, All, ◌==◌, arith, if◌then◌else◌}
use rke2_lab.Py.Value.{Value, obj, str, arr, cons, nil, end, field}
use rke2_lab.Py.Effect.{Event, slept, History, ok, Env, now}
use rke2_lab.Fake.{fake, runtime, answer}
use rke2_lab.Sdn.{
  by_task, base_of, get_ticket, data_or_none, task_progress, scan_tasks, poll_once, await_task,
  await_reload, apply_at, apply_once, apply_sdn,
}
use rke2_lab.Sdn.Poll.{EndsDone, await_task-EndsDone}
use rke2_lab.Sdn.Wait.{IsTicking, Ends, apply_once-Ends}
use rke2_lab.Sdn.Effects.{Reloads, apply_sdn-Reloads}

abbrev ticket : Value
ticket = obj (field "ticket" (str "PVE:t") (field "CSRFPreventionToken" (str "csrf") end))

abbrev task : Value → Value
task status = arr (
    cons (obj (field "upid" (str "UPID:other") (field "status" (str "ERROR") end)))
      (cons (obj (field "upid" (str "UPID:1") (field "status" status end))) nil))

-- Seconds that were slept.
elapsed : History → ℕ
elapsed [] = 0
elapsed (slept n ∷ h) = elapsed h + n
elapsed (_ ∷ h) = elapsed h

-- A cluster whose reload ends with this status.
abbrev reloading : Value → Env
reloading status = record fake {
  clock = elapsed;
  http = λ h r.
      if r.method == "POST"
      then answer ticket
      else if r.method == "PUT"
      then answer (str "UPID:1")
      else answer (task status);
}

run : Unit {0}
unfolding runtime now base_of get_ticket data_or_none task_progress scan_tasks poll_once await_task
    await_reload apply_at apply_once apply_sdn elapsed
run = tt

applies :
    (apply_once (reloading (str "OK")) "https://pve" "root@pam" "pw" []).0 ≡ ok (by_task "UPID:1")
unfolding run
applies = refl

waits :
    (await_task (reloading (str "OK")) "https://pve/api2/json" "PVE:t" "UPID:1" 300 3 []).0
    ≡ ok (by_task "UPID:1")
unfolding run
waits = refl

elapsed-ticking : (e : Event) (h : History) → elapsed h ≤ elapsed (e ∷ h)
unfolding elapsed
elapsed-ticking (slept n) h = omega arith
elapsed-ticking (Event.sent r) h = omega arith
elapsed-ticking (Event.ssh_ran s c) h = omega arith
elapsed-ticking (Event.wrote p d) h = omega arith
elapsed-ticking (Event.printed t) h = omega arith
elapsed-ticking (Event.registered n r) h = omega arith
elapsed-ticking (Event.ran args) h = omega arith
elapsed-ticking (Event.started args) h = omega arith
elapsed-ticking (Event.drew n) h = omega arith
elapsed-ticking (Event.visited v) h = omega arith

-- A task that never ends.
reloading-IsTicking : IsTicking (reloading Value.null)
unfolding elapsed
reloading-IsTicking = record { monotone = elapsed-ticking; sleeps = λ n h. omega arith }

apply_once-Ends_example :
    Ends (apply_once (reloading Value.null) "https://pve" "root@pam" "pw" []).0
apply_once-Ends_example =
    apply_once-Ends (reloading Value.null) "https://pve" "root@pam" "pw" [] reloading-IsTicking

await_task-EndsDone_example :
    (◌≡◌ {A = String} "UPID:1" "UPID:1")
    × EndsDone
        (reloading (str "OK"))
        "UPID:1"
        (await_task (reloading (str "OK")) "https://pve/api2/json" "PVE:t" "UPID:1" 300 3 []).1
await_task-EndsDone_example =
    await_task-EndsDone (reloading (str "OK")) "https://pve/api2/json" "PVE:t" "UPID:1" 300 3 []
      "UPID:1" waits

apply_sdn-Reloads_example :
    All
      (Reloads (base_of fake "https://pve") true)
      (apply_sdn fake "https://pve" "root@pam" "pw" true []).1
apply_sdn-Reloads_example = apply_sdn-Reloads fake "https://pve" "root@pam" "pw" true
