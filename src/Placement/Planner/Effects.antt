-- ===== src/Placement/Planner/Effects.antt =====
-- What `plan_placement` does to the outside: it reads the API, and writes the record only.
use rke2_lab.Base.{
  ℕ, String, ◌≡◌, refl, Bool, true, false, ◌&&◌, not, List, [], ◌∷◌, All, Bool-cases, inl, inr,
  if◌then◌else◌, arith,
}
use rke2_lab.Base.Dict.{Dict, keys, insert}
use rke2_lab.Base.Sorted.{sorted}
use rke2_lab.Py.Result.{index}
use rke2_lab.Py.Effect.{
  HttpRequest, Event, sent, ssh_ran, wrote, printed, slept, registered, ran, started, drew, visited,
  Env, pure, lift,
}
use rke2_lab.Py.Effect.Rules.{
  Emits, Emits-pure, Emits-lift, Emits-emit, Emits-bind, Emits-if, emits_rules,
}
use rke2_lab.Placement.Plan.{NodeCapacity}
use rke2_lab.Placement.Client.{UsageClient}
use rke2_lab.Placement.Client.Effects.{IsRead, auth-Emits, online_nodes-Emits, node_capacity-Emits}
use rke2_lab.Placement.Planner.{
  load_record, save_record, in_key_order, candidate_set, read_capacities, requests_for, announce,
  is_empty, plan_placement,
}

module _ {P : Event → Type 0} where
  load_record-Emits : (env : Env) (path : String) → Emits P (load_record env path)
  unfolding load_record
  load_record-Emits env path = record { at = λ h p. p; keeps = λ e h m. m }

  in_key_order-Emits : (ks : List String) (d : Dict String) → Emits P (in_key_order ks d)
  unfolding in_key_order
  in_key_order-Emits [] d = Emits-pure []
  in_key_order-Emits (k ∷ ks) d =
      Emits-bind (lift (index k d)) _ (Emits-lift _)
        (λ v. Emits-bind (in_key_order ks d) _ (in_key_order-Emits ks d) (λ rest. Emits-pure _))

  save_record-Emits :
      (path : String) (d : Dict String)
      → ((written : Dict String) → P (wrote path written))
      → Emits P (save_record path d)
  unfolding save_record
  save_record-Emits path d k =
      Emits-bind _ _ (in_key_order-Emits (sorted (keys d)) d) (λ payload. Emits-emit _ (k payload))

  requests_for-Emits : (sizes : Dict (ℕ × ℕ)) (ks : List String) → Emits P (requests_for sizes ks)
  unfolding requests_for
  requests_for-Emits sizes [] = Emits-pure []
  requests_for-Emits sizes (k ∷ ks) = Emits-bind (lift (index k sizes)) _ (Emits-lift _) (λ size.
      Emits-bind (requests_for sizes ks) _ (requests_for-Emits sizes ks) (λ rest. Emits-pure _))

  announce-Emits :
      ((text : String) → P (printed text))
      → (choices : Dict String) (key : String) → Emits P (announce choices key)
  unfolding announce
  announce-Emits prints choices key =
      Emits-bind _ _ (Emits-lift _) (λ node. Emits-emit _ (prints _))

module _ {P : Event → Type 0} (reads : (r : HttpRequest) → IsRead r → P (sent r)) (env : Env) where
  read_capacities-Emits :
      (c : UsageClient) (names : List String) (caps : Dict NodeCapacity)
      → Emits P (read_capacities env c names caps)
  unfolding read_capacities
  read_capacities-Emits c [] caps = Emits-pure caps
  read_capacities-Emits c (name ∷ names) caps =
      Emits-bind _ _ (node_capacity-Emits reads env c name)
        (λ capacity. read_capacities-Emits c names (insert name capacity caps))

  candidate_set-Emits :
      (c : UsageClient) (names : List String) → Emits P (candidate_set env c names)
  unfolding candidate_set
  candidate_set-Emits c [] = online_nodes-Emits reads env c
  candidate_set-Emits c (n ∷ ns) =
      Emits-bind _ _ (auth-Emits reads env c) (λ c'. Emits-pure (n ∷ ns, c'))

  module _ (prints : (text : String) → P (printed text)) (path : String) (persist : Bool)
      (writes : persist ≡ true → (written : Dict String) → P (wrote path written)) where
    persisted-Emits :
        (fresh : List String) (d : Dict String)
        → Emits P (if persist && not (is_empty fresh) then save_record path d else pure tt)
    persisted-Emits fresh d = elim (Bool-cases persist) [
      | inl yes_persist ↦
          Emits-if _ _ _ (λ _. save_record-Emits path d (writes yes_persist)) (λ _. Emits-pure tt)
      | inr no_persist ↦ rw no_persist (Emits-pure tt)
    ]

    pub plan_placement-Emits :
        (endpoint username password : String) (sizes : Dict (ℕ × ℕ)) (overrides : Dict String)
        (candidates : List String)
        → Emits P
            (plan_placement env endpoint username password sizes path overrides candidates persist)
    unfolding plan_placement
    plan_placement-Emits endpoint username password sizes overrides candidates =
        search
          (
            emits_rules,
            load_record-Emits,
            candidate_set-Emits,
            read_capacities-Emits,
            requests_for-Emits,
            persisted-Emits,
            announce-Emits {P = P} prints,
          )
          depth 24

-- What a build may do while it plans: read the API, write the one record file, and print.
abbrev pub Touches : String → Event → Type 0
Touches path (sent r) = IsRead r
Touches path (wrote p _) = p ≡ path
Touches path (printed _) = Unit
Touches path (ssh_ran _ _) = ⊥
Touches path (slept _) = ⊥
Touches path (registered _ _) = ⊥
Touches path (ran _) = ⊥
Touches path (started _) = ⊥
Touches path (drew _) = ⊥
Touches path (visited _) = ⊥

abbrev pub Unwritten : Event → Type 0
Unwritten (wrote _ _) = ⊥
Unwritten _ = Unit

module _ (env : Env) (endpoint username password : String) (sizes : Dict (ℕ × ℕ)) (path : String)
    (overrides : Dict String) (candidates : List String) where
  -- Whatever the servers and the files answer, and whether it returns or raises, `plan_placement`
  -- sends only GET requests and the POST for the ticket, writes no file but the record, and runs
  -- nothing over SSH.
  pub plan_placement-Touches :
      (persist : Bool)
      → All
          (Touches path)
          (plan_placement env endpoint username password sizes path overrides candidates persist
            []).1
  plan_placement-Touches persist =
      (plan_placement-Emits {P = Touches path} (λ r q. q) env (λ text. tt) path persist
          (λ _ written. refl) endpoint username password sizes overrides candidates).at
        [] tt

  -- A preview, `persist` false, writes no file, whatever it meets.
  pub plan_placement_preview :
      All Unwritten
        (plan_placement env endpoint username password sizes path overrides candidates false []).1
  plan_placement_preview =
      (plan_placement-Emits {P = Unwritten} (λ r q. tt) env (λ text. tt) path false
          (λ p written. ground (arith, p)) endpoint username password sizes overrides candidates).at
        [] tt
