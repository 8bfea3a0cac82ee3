-- ===== src/Cleanup/Run/Safety.antt =====
-- infra/pulumi/modules/pve_cleanup.py: a preview changes nothing, and a run removes only what the
-- search found.
use rke2_lab.Base.{
  String, ◌≡◌, refl, sym, ◌⊎◌, inl, inr, false, Bool, if◌then◌else◌, List, [], ◌∷◌, All, map,
}
use mathlib.Core.List.{Memᴰ}
use rke2_lab.Py.Effect.{HttpRequest, Event, sent, ssh_ran, printed, ok, Env, History, pure, ◌>>=◌}
use rke2_lab.Py.Effect.Rules.{
  Emits, Emits-pure, Emits-bind, Emits-if, Emits-bind_after, bind_at, Emits-for_each, emits_rules,
}
use rke2_lab.Cleanup.Settings.{CleanupSettings, ssh_host_for}
use rke2_lab.Cleanup.Client.{PveClient, make_client, delete_content}
use rke2_lab.Cleanup.Client.Effects.{IsRead, auth-Emits, find_orphans-Emits}
use rke2_lab.Cleanup.Orphans.{Orphan, find_orphans}
use rke2_lab.Cleanup.Remove.{remote_command}
use rke2_lab.Py.Effect.Returns.{bind-returned, pure-returned}
use rke2_lab.Cleanup.Run.{
  found_line, preview_line, put_error, put_error, Errors, label_of, delete_each, failed,
  apply_orphans, clean_node, clean_orphans,
}
use rke2_lab.Cleanup.Run.Effects.{
  IsDeletion, Allows, Keys, put_error-Keys, failed-All, delete_each-Emits, fall_back-Emits,
  result_lines-Emits,
}

-- A read, the ticket's request, or a message.
abbrev pub IsHarmless : PveClient → Event → Type 0
IsHarmless c (sent r) = IsRead c r
IsHarmless c (printed text) = Unit
IsHarmless c _ = ⊥

clean_node_preview :
    (env : Env) (c : PveClient) (ticket csrf node : String)
    → Emits (IsHarmless c) (clean_node env c ticket csrf false node)
unfolding clean_node
clean_node_preview env c ticket csrf node =
    let found = find_orphans-Emits {P = IsHarmless c} env c (λ r q. q) in
    search (emits_rules, found) depth 8

-- Without `apply`, `clean_orphans` sends only GET requests and the POST for the ticket, runs nothing
-- over SSH and writes no file, whatever the servers answer and whether it returns or raises.
pub clean_orphans_preview :
    (env : Env) (settings : CleanupSettings)
    → All (IsHarmless (make_client env settings)) (clean_orphans env settings false []).1
unfolding clean_orphans
clean_orphans_preview env settings =
    let c = make_client env settings in
    let whole : Emits (IsHarmless c) (clean_orphans env settings false) =
      Emits-bind _ _ (auth-Emits env c (λ r q. q) (λ text. tt)) (λ ticket.
        Emits-bind _ _
          (Emits-for_each _ settings.node_names (clean_node_preview env c ticket.0 ticket.1))
          (λ lines. Emits-pure _)) in
    whole.at [] tt

-- A removal of one of `os`: its DELETE request, or its command over SSH to the
-- host of its node.
abbrev pub Removes : Env → PveClient → List Orphan → Event → Type 0
Removes env c os (sent r) = (o : Orphan) × Memᴰ o os × IsDeletion c o r
Removes env c os (ssh_ran host command) =
    (o : Orphan) × Memᴰ o os
    × (host ≡ ssh_host_for c.settings o.node)
    × (command ≡ remote_command env (label_of o))
Removes env c os _ = ⊥

delete_each-Keys :
    (Q : Orphan → Type 0) (env : Env) (c : PveClient) (ticket csrf : String) (os : List Orphan)
    (errors more : Errors) (h : History)
    → (delete_each env c ticket csrf os errors h).0 ≡ ok more
    → All Q os
    → Keys Q errors
    → Keys Q more
unfolding delete_each
delete_each-Keys Q env c ticket csrf [] errors more h e a k =
    rw (sym (pure-returned errors more h e)) k
delete_each-Keys Q env c ticket csrf (o ∷ os) errors more h e (q, a) k =
    let m = delete_content env c ticket csrf o.datastore o.volume o.node in
    let (error, got, rest) = bind-returned m _ h more e in
    delete_each-Keys Q env c ticket csrf os (put_error o error errors) more (m h).1 rest a
      (put_error-Keys Q o error errors q k)

module _ {P : Event → Type 0} (env : Env) (c : PveClient)
    (reads : (r : HttpRequest) → IsRead c r → P (sent r))
    (prints : (text : String) → P (printed text)) where
  apply_orphans-Emits :
      (ticket csrf : String) (os : List Orphan)
      → All (Allows env c P) os
      → Emits P (apply_orphans env c ticket csrf os)
  unfolding apply_orphans
  apply_orphans-Emits ticket csrf os allowed =
      let Q = Allows env c P in
      Emits-bind_after _ _ (delete_each-Emits env c reads prints ticket csrf os [] allowed)
        (λ h tried got.
          Emits-bind _ _
            (fall_back-Emits env c reads prints _ (failed tried) tried (
              failed-All Q tried
                (delete_each-Keys Q env c ticket csrf os [] tried h got allowed tt)))
            (λ errors. result_lines-Emits env c reads prints errors os))

  clean_found-Emits :
      (ticket csrf node : String) (apply : Bool) (os : List Orphan)
      → All (Allows env c P) os
      → Emits P (
          (if apply then apply_orphans env c ticket csrf os else pure (map preview_line os))
          >>= λ lines. pure (found_line node os ∷ lines))
  clean_found-Emits ticket csrf node apply os allowed =
      Emits-bind _ _
        (Emits-if apply _ _ (λ _. apply_orphans-Emits ticket csrf os allowed) (λ _. Emits-pure _))
        (λ lines. Emits-pure _)

-- An event from before, a harmless one, or a removal of an orphan that the search returned at `h`.
abbrev pub RemovesFound : Env → PveClient → (ticket node : String) → History → Event → Type 0
RemovesFound env c ticket node h e =
    Memᴰ e h
    ⊎ IsHarmless c e
    ⊎ ((os : List Orphan) × ((find_orphans env c ticket node h).0 ≡ ok os) × Removes env c os e)

each_before : {P : Event → Type 0} (h : History) → ((e : Event) → Memᴰ e h → P e) → All P h
each_before [] k = tt
each_before (e ∷ h) k = (k e (Memᴰ.head refl), each_before h (λ d m. k d (Memᴰ.tail m)))

each_allowed :
    (env : Env) (c : PveClient) (ticket node : String) (h : History) (os some_of : List Orphan)
    → (find_orphans env c ticket node h).0 ≡ ok os
    → ((o : Orphan) → Memᴰ o some_of → Memᴰ o os)
    → All (Allows env c (RemovesFound env c ticket node h)) some_of
each_allowed env c ticket node h os [] found k = tt
each_allowed env c ticket node h os (o ∷ rest) found k =
    let here = k o (Memᴰ.head refl) in
    (
      (λ r d. inr (inr (os, found, (o, here, d))), inr (inr (os, found, (o, here, refl, refl)))),
      each_allowed env c ticket node h os rest found (λ p m. k p (Memᴰ.tail m)),
    )

-- Whatever the servers answer, and whether it returns or raises, `clean_node` adds to the history
-- only reads, messages, and DELETE requests and SSH commands that each remove a volume which its
-- own search for orphans of that node returned.
pub clean_node-RemovesFound :
    (env : Env) (c : PveClient) (ticket csrf node : String) (apply : Bool) (h : History)
    → All (RemovesFound env c ticket node h) (clean_node env c ticket csrf apply node h).1
unfolding clean_node
clean_node-RemovesFound env c ticket csrf node apply h =
    let P = RemovesFound env c ticket node h in
    let reads : (r : HttpRequest) → IsRead c r → P (sent r) = λ r q. inr (inl q) in
    let prints : (text : String) → P (printed text) = λ text. inr (inl tt) in
    bind_at {P = P} (find_orphans env c ticket node) _ h
      ((find_orphans-Emits {P = P} env c reads ticket node).at h (each_before h (λ e m. inl m)))
      (λ os found.
        clean_found-Emits env c reads prints ticket csrf node apply os
          (each_allowed env c ticket node h os os found (λ o m. m)))

permitted :
    (P : Event → Type 0) (env : Env) (c : PveClient)
    → ((r : HttpRequest) → P (sent r))
    → ((host command : String) → P (ssh_ran host command))
    → (os : List Orphan) → All (Allows env c P) os
permitted P env c sends runs [] = tt
permitted P env c sends runs (o ∷ os) =
    ((λ r d. sends r, runs _ _), permitted P env c sends runs os)

-- A property of events that all requests, commands and messages have.
module _ {P : Event → Type 0} (env : Env) (settings : CleanupSettings)
    (sends : (r : HttpRequest) → P (sent r))
    (runs : (host command : String) → P (ssh_ran host command))
    (prints : (text : String) → P (printed text)) where
  node-Emits :
      (c : PveClient) (ticket csrf : String) (apply : Bool) (node : String)
      → Emits P (clean_node env c ticket csrf apply node)
  unfolding clean_node
  node-Emits c ticket csrf apply node =
      Emits-bind _ _ (find_orphans-Emits env c (λ r q. sends r) ticket node) (λ os.
        clean_found-Emits env c (λ r q. sends r) prints ticket csrf node apply os
          (permitted P env c sends runs os))

  pub clean_orphans-Emits : (apply : Bool) → Emits P (clean_orphans env settings apply)
  unfolding clean_orphans
  clean_orphans-Emits apply =
      let c = make_client env settings in
      Emits-bind _ _ (auth-Emits env c (λ r q. sends r) prints) (λ ticket.
        Emits-bind _ _ (Emits-for_each _ settings.node_names (node-Emits c ticket.0 ticket.1 apply))
          (λ lines. Emits-pure _))
