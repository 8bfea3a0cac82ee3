-- ===== src/Sdn/Effects.antt =====
-- infra/pulumi/modules/sdn.py: what the reload may do to the cluster.
use rke2_lab.Base.{
  ℕ, zero, suc, String, ◌<>◌, ◌≡◌, refl, ◌⊎◌, inl, inr, Bool, false, Option, none, some, [], All,
  ltb, ◌+◌,
}
use rke2_lab.Base.Dict.{Dict}
use rke2_lab.Py.Effect.{HttpRequest, Event, sent, printed, slept, Env, Io, emit}
use rke2_lab.Py.Effect.Rules.{
  Emits, Emits-pure, Emits-raise, Emits-bind, Emits-emit, Emits-if, Emits-now, emits_rules,
}
use rke2_lab.Pve.Http.{request}
use rke2_lab.Pve.Http.Rules.{Emits-request}
use rke2_lab.Sdn.{
  Applied, Progress, waiting, finished, failed, base_of, get_ticket, poll_once, after_poll,
  timed_out, await_task, await_reload, apply_at, apply_once, apply_sdn, max_rounds, task_timeout_s,
}

-- A read, the ticket's request, or the reload itself.
abbrev pub IsReload : String → HttpRequest → Type 0
IsReload base r =
    (r.method ≡ "GET")
    ⊎ ((r.method ≡ "POST") × (r.url ≡ base <> "/access/ticket"))
    ⊎ ((r.method ≡ "PUT") × (r.url ≡ base <> "/cluster/sdn/"))

module _ {P : Event → Type 0} (env : Env) (base : String)
    (sends : (r : HttpRequest) → IsReload base r → P (sent r)) (sleeps : P (slept 5)) where
  get-Emits :
      (path ticket csrf : String) (form : Option (Dict String))
      → Emits P (request env "GET" (base <> path) ticket csrf form)
  get-Emits path ticket csrf form =
      Emits-request env "GET" _ ticket csrf form (λ r m u. sends r (inl m))

  post-Emits :
      (form : Option (Dict String))
      → Emits P (request env "POST" (base <> "/access/ticket") "" "" form)
  post-Emits form = Emits-request env "POST" _ "" "" form (λ r m u. sends r (inr (inl (m, u))))

  put-Emits :
      (ticket csrf : String) (form : Option (Dict String))
      → Emits P (request env "PUT" (base <> "/cluster/sdn/") ticket csrf form)
  put-Emits ticket csrf form =
      Emits-request env "PUT" _ ticket csrf form (λ r m u. sends r (inr (inr (m, u))))

  get_ticket-Emits : (username password : String) → Emits P (get_ticket env base username password)
  unfolding get_ticket
  get_ticket-Emits username password = search (emits_rules, post-Emits) depth 12

  poll_once-Emits : (ticket upid : String) → Emits P (poll_once env base ticket upid)
  unfolding poll_once
  poll_once-Emits ticket upid = search (emits_rules, get-Emits) depth 12

  after_poll-Emits :
      (upid : String) (p : Progress) (again : Io Applied)
      → Emits P again
      → Emits P (after_poll upid p again)
  after_poll-Emits upid waiting again k = Emits-bind _ _ (Emits-emit (slept 5) sleeps) (λ _. k)
  after_poll-Emits upid finished again k = Emits-pure _
  after_poll-Emits upid (failed text) again k = Emits-raise _

  await_task-Emits :
      (ticket upid : String) (deadline rounds : ℕ)
      → Emits P (await_task env base ticket upid deadline rounds)
  unfolding await_task
  await_task-Emits ticket upid deadline zero = Emits-pure _
  await_task-Emits ticket upid deadline (suc rounds) = Emits-bind _ _ (Emits-now env) (λ time.
      Emits-if (ltb time deadline) _ (timed_out upid)
        (λ _. Emits-bind _ _ (poll_once-Emits ticket upid) (λ progress.
          after_poll-Emits upid progress _ (await_task-Emits ticket upid deadline rounds)))
        (λ _. Emits-raise _))

  await_reload-Emits :
      (ticket : String) (upid : Option String) → Emits P (await_reload env base ticket upid)
  unfolding await_reload
  await_reload-Emits ticket none = Emits-pure _
  await_reload-Emits ticket (some upid) =
      Emits-bind _ _ (Emits-now env)
        (λ time. await_task-Emits ticket upid (time + task_timeout_s) max_rounds)

  pub apply_at-Emits : (username password : String) → Emits P (apply_at env base username password)
  unfolding apply_at
  apply_at-Emits username password =
      search (emits_rules, get_ticket-Emits, put-Emits, await_reload-Emits) depth 16

-- A reload in a real run, and nothing but messages in a preview.
abbrev pub Reloads : String → Bool → Event → Type 0
Reloads base dry_run (sent r) = (dry_run ≡ false) × IsReload base r
Reloads base dry_run (slept n) = (dry_run ≡ false) × (n ≡ 5)
Reloads base dry_run (printed text) = Unit
Reloads base dry_run _ = ⊥

-- Whatever the server answers, and whether it returns or raises, `apply_sdn` sends only GET requests,
-- the POST for the ticket and the PUT that reloads the network, sleeps five seconds at a time, runs
-- nothing over SSH and writes no file; on a preview it sends nothing at all.
pub apply_sdn-Reloads :
    (env : Env) (endpoint username password : String) (dry_run : Bool)
    → All
        (Reloads (base_of env endpoint) dry_run)
        (apply_sdn env endpoint username password dry_run []).1
unfolding apply_sdn apply_once
apply_sdn-Reloads env endpoint username password dry_run =
    let P = Reloads (base_of env endpoint) dry_run in
    let say : (text : String) → Emits P (emit (printed text)) =
      λ text. Emits-emit (printed text) tt in
    let whole : Emits P (apply_sdn env endpoint username password dry_run) =
      Emits-if dry_run _ _ (λ _. Emits-bind _ _ (say _) (λ _. Emits-pure none))
        (λ live.
          Emits-bind _ _
            (apply_at-Emits {P = P} env (base_of env endpoint) (λ r q. (live, q)) (live, refl)
              username password)
            (λ applied. Emits-bind _ _ (say _) (λ _. Emits-pure (some applied)))) in
    whole.at [] tt
