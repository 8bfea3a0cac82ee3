-- ===== src/Cleanup/Run/Effects.antt =====
-- infra/pulumi/modules/pve_cleanup.py: what `clean_orphans` may do to the cluster.
use rke2_lab.Base.{
  ℕ, zero, suc, String, ◌<>◌, ◌≡◌, Option, none, some, List, [], ◌∷◌, All, Bool-cases, inl, inr,
  ◌==◌,
}
use rke2_lab.Base.Dict.{Dict}
use rke2_lab.Py.Effect.{HttpRequest, Event, sent, ssh_ran, printed, Env, Io}
use rke2_lab.Py.Effect.Rules.{
  Emits, Emits-pure, Emits-raise, Emits-bind, Emits-lift, Emits-emit, Emits-try, Emits-if,
  Emits-ssh_session, Emits-except_import, emits_rules,
}
use rke2_lab.Pve.Http.Rules.{Emits-request}
use rke2_lab.Cleanup.Settings.{ssh_host_for}
use rke2_lab.Cleanup.Client.{
  PveClient, send, content_path, task_outcome, or_poll, poll_task, wait_task, delete_content,
}
use rke2_lab.Cleanup.Client.Effects.{IsRead, send-get, read_fallback_password-Emits}
use rke2_lab.Cleanup.Orphans.{Orphan, same_orphan}
use rke2_lab.Cleanup.Remove.{remote_command, remove_volume_via_ssh}
use rke2_lab.Cleanup.Run.{
  Errors, put_error, error_of, label_of, delete_each, failed, attempt, after_attempt, retry_each,
  announce, fall_back, result_lines,
}

-- A request that deletes this volume.
abbrev pub IsDeletion : PveClient → Orphan → HttpRequest → Type 0
IsDeletion c o r =
    (r.method ≡ "DELETE")
    × (r.url ≡ "https://" <> (c.host <> (content_path o.node o.datastore <> ("/" <> o.volume))))

-- An event property that the removal of `o` has.
abbrev pub Allows : Env → PveClient → (Event → Type 0) → Orphan → Type 0
Allows env c P o =
    ((r : HttpRequest) → IsDeletion c o r → P (sent r))
    × P (ssh_ran (ssh_host_for c.settings o.node) (remote_command env (label_of o)))

module _ (Q : Orphan → Type 0) where
  abbrev pub Keys : Errors → Type 0
  Keys = All λ e. Q e.0

  pub put_error-Keys :
      (o : Orphan) (error : String) (errors : Errors)
      → Q o
      → Keys errors
      → Keys (put_error o error errors)
  unfolding put_error
  put_error-Keys o error [] q qs = (q, tt)
  put_error-Keys o error ((p, held) ∷ rest) q (k, ks) = elim (Bool-cases (same_orphan p o)) [
    | inl same ↦ rw same (k, ks)
    | inr other ↦ rw other (k, put_error-Keys o error rest q ks)
  ]

  pub failed-All : (errors : Errors) → Keys errors → All Q (failed errors)
  unfolding failed
  failed-All [] ks = tt
  failed-All ((o, error) ∷ rest) (k, ks) = elim (Bool-cases (error == "")) [
    | inl good ↦ rw good (failed-All rest ks)
    | inr bad ↦ rw bad (k, failed-All rest ks)
  ]

module _ {P : Event → Type 0} (env : Env) (c : PveClient)
    (reads : (r : HttpRequest) → IsRead c r → P (sent r))
    (prints : (text : String) → P (printed text)) where
  or_poll-Emits :
      (o : Option String) (again : Io String) → Emits P again → Emits P (or_poll o again)
  or_poll-Emits none again k = k
  or_poll-Emits (some outcome) again k = Emits-pure outcome

  poll_task-Emits :
      (ticket upid node : String) (polls : ℕ) → Emits P (poll_task env c ticket upid node polls)
  unfolding poll_task
  poll_task-Emits ticket upid node zero = Emits-pure _
  poll_task-Emits ticket upid node (suc polls) =
      Emits-bind _ _ (send-get env c reads _ ticket "" none) (λ reply.
        Emits-bind _ _ (Emits-lift (task_outcome env reply))
          (λ outcome. or_poll-Emits outcome _ (poll_task-Emits ticket upid node polls)))

  wait_task-Emits : (ticket upid node : String) → Emits P (wait_task env c ticket upid node)
  unfolding wait_task
  wait_task-Emits ticket upid node = poll_task-Emits ticket upid node 60

  module _ (o : Orphan) (deletes : (r : HttpRequest) → IsDeletion c o r → P (sent r)) where
    send-delete :
        (ticket csrf : String) (form : Option (Dict String))
        → Emits P (
            send env c "DELETE"
              (content_path o.node o.datastore <> ("/" <> o.volume))
              ticket
              csrf
              form)
    unfolding send
    send-delete ticket csrf form =
        Emits-request env "DELETE" _ ticket csrf form (λ r m u. deletes r (m, u))

    delete_content-Emits :
        (ticket csrf : String)
        → Emits P (delete_content env c ticket csrf o.datastore o.volume o.node)
    unfolding delete_content
    delete_content-Emits ticket csrf = search (emits_rules, send-delete, wait_task-Emits) depth 12

  pub delete_each-Emits :
      (ticket csrf : String) (os : List Orphan) (errors : Errors)
      → All (Allows env c P) os
      → Emits P (delete_each env c ticket csrf os errors)
  unfolding delete_each
  delete_each-Emits ticket csrf [] errors a = Emits-pure errors
  delete_each-Emits ticket csrf (o ∷ os) errors ((deletes, runs), a) =
      Emits-bind _ _ (delete_content-Emits o deletes ticket csrf)
        (λ error. delete_each-Emits ticket csrf os (put_error o error errors) a)

  remove-Emits :
      (o : Orphan)
      → Allows env c P o
      → Emits P (remove_volume_via_ssh env c.settings (label_of o) o.node)
  unfolding remove_volume_via_ssh
  remove-Emits o (deletes, runs) =
      Emits-if env.has_pexpect _ _
        (λ _.
          Emits-bind _ _ (read_fallback_password-Emits env c.settings)
            (λ password. Emits-bind _ _ (Emits-ssh_session env _ _ runs) (λ session. Emits-pure _)))
        (λ _. Emits-raise _)

  attempt-Emits : (o : Orphan) → Allows env c P o → Emits P (attempt env c.settings o)
  unfolding attempt
  attempt-Emits o a =
      Emits-try _ _ (Emits-bind _ _ (remove-Emits o a) (λ error. Emits-pure (some error))) (λ e.
        Emits-except_import _ e (Emits-bind _ _ (Emits-emit _ (prints _)) (λ _. Emits-pure none)))

  after_attempt-Emits :
      (o : Orphan) (tried : Option String) (errors : Errors) (next : Errors → Io Errors)
      → ((more : Errors) → Emits P (next more))
      → Emits P (after_attempt o tried errors next)
  after_attempt-Emits o none errors next k = Emits-pure errors
  after_attempt-Emits o (some error) errors next k =
      Emits-bind _ _ (Emits-lift (error_of o errors)) (λ api. k _)

  retry_each-Emits :
      (os : List Orphan) (errors : Errors)
      → All (Allows env c P) os
      → Emits P (retry_each env c.settings os errors)
  unfolding retry_each
  retry_each-Emits [] errors a = Emits-pure errors
  retry_each-Emits (o ∷ os) errors (a, rest) =
      Emits-bind _ _ (attempt-Emits o a)
        (λ tried. after_attempt-Emits o tried errors _ (λ more. retry_each-Emits os more rest))

  pub fall_back-Emits :
      (file : Option String) (os : List Orphan) (errors : Errors)
      → All (Allows env c P) os
      → Emits P (fall_back env c.settings file os errors)
  unfolding fall_back announce
  fall_back-Emits file [] errors a = Emits-pure errors
  fall_back-Emits none (o ∷ os) errors a = Emits-pure errors
  fall_back-Emits (some path) (o ∷ os) errors a =
      Emits-bind _ _ (Emits-emit _ (prints _)) (λ _. retry_each-Emits (o ∷ os) errors a)

  pub result_lines-Emits : (errors : Errors) (os : List Orphan) → Emits P (result_lines errors os)
  unfolding result_lines
  result_lines-Emits errors [] = Emits-pure []
  result_lines-Emits errors (o ∷ os) =
      Emits-bind _ _ (Emits-lift (error_of o errors))
        (λ error. Emits-bind _ _ (result_lines-Emits errors os) (λ rest. Emits-pure _))
