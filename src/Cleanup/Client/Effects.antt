-- ===== src/Cleanup/Client/Effects.antt =====
-- infra/pulumi/modules/pve_cleanup.py: what the client and the search for orphans send, for every
-- property of events that reads and messages have.
use rke2_lab.Base.{String, ◌<>◌, ◌≡◌, ◌⊎◌, inl, inr, Option, none, some, List, [], ◌∷◌}
use rke2_lab.Base.Dict.{Dict}
use rke2_lab.Py.Value.{Value}
use rke2_lab.Py.Effect.{HttpRequest, Event, sent, printed, Env, pure, lift, ◌>>=◌}
use rke2_lab.Py.Effect.Rules.{
  Emits, Emits-pure, Emits-raise, Emits-bind, Emits-lift, Emits-emit, Emits-read_file, Emits-try,
  Emits-except_runtime, emits_rules,
}
use rke2_lab.Pve.Http.Rules.{Emits-request}
use rke2_lab.Cleanup.Settings.{
  CleanupSettings, configured, checked_password, read_configured, read_fallback_password,
}
use rke2_lab.Cleanup.Client.{
  PveClient, Content, send, try_ticket, auth_fallback, auth, hashed, vmid_of, collect_vmids,
  node_vmids, read_content, select_content, node_content,
}
use rke2_lab.Cleanup.Orphans.{
  Orphan, owner_of, scan_entry, scan_content, listed_content, scan_stores, find_orphans,
}

-- A request that changes nothing on the cluster: a read, or the ticket's acquisition.
abbrev pub IsRead : PveClient → HttpRequest → Type 0
IsRead c r =
    (r.method ≡ "GET")
    ⊎ ((r.method ≡ "POST") × (r.url ≡ "https://" <> (c.host <> "/api2/json/access/ticket")))

module _ {P : Event → Type 0} where
  password_checked : (text : Option String) → Emits P (checked_password text)
  unfolding checked_password
  password_checked none = Emits-raise _
  password_checked (some text) = search emits_rules depth 4

  read_configured-Emits : (env : Env) (file : Option String) → Emits P (read_configured env file)
  unfolding read_configured
  read_configured-Emits env none = Emits-raise _
  read_configured-Emits env (some path) = Emits-bind _ _ (Emits-read_file env path) password_checked

  pub read_fallback_password-Emits :
      (env : Env) (settings : CleanupSettings) → Emits P (read_fallback_password env settings)
  unfolding read_fallback_password
  read_fallback_password-Emits env settings =
      read_configured-Emits env (configured settings.fallback_password_file)

  module _ (env : Env) (c : PveClient) (reads : (r : HttpRequest) → IsRead c r → P (sent r)) where
    pub send-get :
        (path ticket csrf : String) (form : Option (Dict String))
        → Emits P (send env c "GET" path ticket csrf form)
    unfolding send
    send-get path ticket csrf form =
        Emits-request env "GET" _ ticket csrf form (λ r m u. reads r (inl m))

    send-ticket :
        (form : Option (Dict String))
        → Emits P (send env c "POST" "/api2/json/access/ticket" "" "" form)
    unfolding send
    send-ticket form = Emits-request env "POST" _ "" "" form (λ r m u. reads r (inr (m, u)))

    try_ticket-Emits : (username password : String) → Emits P (try_ticket env c username password)
    unfolding try_ticket
    try_ticket-Emits username password = search (emits_rules, send-ticket) depth 12

    module _ (prints : (text : String) → P (printed text)) where
      auth_fallback-Emits :
          (text : String) (file : Option String) → Emits P (auth_fallback env c text file)
      unfolding auth_fallback
      auth_fallback-Emits text none = Emits-raise _
      auth_fallback-Emits text (some path) = Emits-bind _ _ (Emits-emit _ (prints _)) (λ _.
          Emits-bind _ _ (read_fallback_password-Emits env c.settings)
            (try_ticket-Emits c.settings.username))

      pub auth-Emits : Emits P (auth env c)
      unfolding auth
      auth-Emits =
          Emits-try _ _ (try_ticket-Emits c.settings.username c.settings.password)
            (λ e. Emits-except_runtime _ e (λ text. auth_fallback-Emits text _))

    collect_vmids-Emits : (vs : List Value) → Emits P (collect_vmids vs)
    unfolding collect_vmids
    collect_vmids-Emits [] = Emits-pure []
    collect_vmids-Emits (v ∷ vs) = go (vmid_of v) (collect_vmids-Emits vs)
      where
        go :
            (o : Option Value)
            → Emits P (collect_vmids vs)
            → Emits P (elim o [
              | none ↦ collect_vmids vs
              | some w ↦ (do k ← lift (hashed w); ks ← collect_vmids vs; pure (k ∷ ks))
            ])
        go none rest = rest
        go (some w) rest = search emits_rules depth 8

    pub node_vmids-Emits : (ticket node : String) → Emits P (node_vmids env c ticket node)
    unfolding node_vmids
    node_vmids-Emits ticket node = search (emits_rules, send-get, collect_vmids-Emits) depth 12

    select_content-Emits :
        (datastore : String) (vs : List Value) → Emits P (select_content datastore vs)
    unfolding select_content
    select_content-Emits datastore [] = Emits-pure []
    select_content-Emits datastore (v ∷ vs) =
        Emits-bind _ _ (Emits-lift (read_content v))
          (λ entry. Emits-bind _ _ (select_content-Emits datastore vs) (λ entries. Emits-pure _))

    node_content-Emits :
        (ticket datastore node : String) → Emits P (node_content env c ticket datastore node)
    unfolding node_content
    node_content-Emits ticket datastore node =
        search (emits_rules, send-get, select_content-Emits) depth 12

    scan_content-Emits :
        (node datastore : String) (existing : List Value) (cs : List Content) (os : List Orphan)
        → Emits P (scan_content node datastore existing cs os)
    unfolding scan_content
    scan_content-Emits node datastore existing [] os = Emits-pure os
    scan_content-Emits node datastore existing (entry ∷ cs) os =
        Emits-bind _ _ (Emits-lift (scan_entry node datastore existing entry (owner_of entry) os))
          (scan_content-Emits node datastore existing cs)

    listed_content-Emits :
        (ticket datastore node : String) → Emits P (listed_content env c ticket datastore node)
    unfolding listed_content
    listed_content-Emits ticket datastore node =
        Emits-try _ _ (node_content-Emits ticket datastore node)
          (λ e. Emits-except_runtime _ e (λ text. Emits-pure []))

    scan_stores-Emits :
        (ticket node : String) (existing : List Value) (stores : List String) (os : List Orphan)
        → Emits P (scan_stores env c ticket node existing stores os)
    unfolding scan_stores
    scan_stores-Emits ticket node existing [] os = Emits-pure os
    scan_stores-Emits ticket node existing (datastore ∷ rest) os =
        Emits-bind _ _ (listed_content-Emits ticket datastore node) (λ entries.
          Emits-bind _ _ (scan_content-Emits node datastore existing entries os)
            (scan_stores-Emits ticket node existing rest))

    pub find_orphans-Emits : (ticket node : String) → Emits P (find_orphans env c ticket node)
    unfolding find_orphans
    find_orphans-Emits ticket node =
        Emits-bind _ _ (node_vmids-Emits ticket node)
          (λ existing. scan_stores-Emits ticket node existing c.settings.datastore_ids [])
