-- ===== src/Placement/Client/Effects.antt =====
-- The usage client only reads, for every property of events that reads have.
use rke2_lab.Base.{
  String, ◌<>◌, ◌≡◌, ◌⊎◌, inl, inr, Option, none, some, List, [], ◌∷◌, if◌then◌else◌,
}
use rke2_lab.Base.Int.{ℤ}
use rke2_lab.Base.Dict.{Dict}
use rke2_lab.Py.Value.{Value, null, Fields, get_default, truthy}
use rke2_lab.Py.Effect.{HttpRequest, Event, sent, Env, pure, lift, ◌>>=◌}
use rke2_lab.Py.Effect.Rules.{Emits, Emits-pure, Emits-bind, emits_rules}
use rke2_lab.Pve.Http.Rules.{Emits-request}
use rke2_lab.Placement.Client.{
  UsageClient, send, auth, cluster_status, name_of, online_names, online_nodes, add_avail,
  free_disk_of, free_ram_of, node_capacity, active_store, node_entry,
}

-- A request that changes nothing on the cluster: a read, or the ticket's acquisition.
abbrev pub IsRead : HttpRequest → Type 0
IsRead r =
    (r.method ≡ "GET")
    ⊎ ((r.method ≡ "POST") × (base : String) × (r.url ≡ base <> "/access/ticket"))

module _ {P : Event → Type 0} (reads : (r : HttpRequest) → IsRead r → P (sent r)) (env : Env) where
  send-get : (c : UsageClient) (path : String) → Emits P (send env c "GET" path none)
  unfolding send
  send-get c path = Emits-request env "GET" _ c.ticket c.csrf none (λ r m u. reads r (inl m))

  send-ticket :
      (c : UsageClient) (form : Option (Dict String))
      → Emits P (send env c "POST" "/access/ticket" form)
  unfolding send
  send-ticket c form =
      Emits-request env "POST" _ c.ticket c.csrf form (λ r m u. reads r (inr (m, c.base, u)))

  pub auth-Emits : (c : UsageClient) → Emits P (auth env c)
  unfolding auth
  auth-Emits c = search (emits_rules, send-ticket) depth 12

  cluster_status-Emits : (c : UsageClient) → Emits P (cluster_status env c)
  unfolding cluster_status
  cluster_status-Emits c = search (emits_rules, send-get) depth 12

  online_names-Emits : (vs : List Value) → Emits P (online_names env vs)
  unfolding online_names
  online_names-Emits [] = Emits-pure []
  online_names-Emits (v ∷ vs) = go (node_entry v) (online_names-Emits vs)
    where
      go :
          (e : Option Fields)
          → Emits P (online_names env vs)
          → Emits P (elim e [
            | none ↦ online_names env vs
            | some fs ↦
                if truthy (get_default "online" null fs)
                then (do
                  name ← lift (name_of env fs)
                  names ← online_names env vs
                  pure (name ∷ names))
                else online_names env vs
          ])
      go none rest = rest
      go (some fs) rest = search emits_rules depth 12

  pub online_nodes-Emits : (c : UsageClient) → Emits P (online_nodes env c)
  unfolding online_nodes
  online_nodes-Emits c =
      search (emits_rules, auth-Emits, cluster_status-Emits, online_names-Emits) depth 12

  add_avail-Emits : (e : Option Fields) (free : ℤ) → Emits P (add_avail env e free)
  unfolding add_avail
  add_avail-Emits none free = Emits-pure free
  add_avail-Emits (some fs) free = search emits_rules depth 12

  free_disk_of-Emits : (stores : List Value) (free : ℤ) → Emits P (free_disk_of env stores free)
  unfolding free_disk_of
  free_disk_of-Emits [] free = Emits-pure free
  free_disk_of-Emits (store ∷ stores) free =
      Emits-bind _ _ (add_avail-Emits (active_store store) free) (free_disk_of-Emits stores)

  free_ram_of-Emits : (payload : Value) → Emits P (free_ram_of payload)
  unfolding free_ram_of
  free_ram_of-Emits payload = search emits_rules depth 12

  pub node_capacity-Emits : (c : UsageClient) (node : String) → Emits P (node_capacity env c node)
  unfolding node_capacity
  node_capacity-Emits c node =
      search (emits_rules, send-get, free_ram_of-Emits, free_disk_of-Emits) depth 16
