-- ===== src/Placement/Planner/Trace.antt =====
-- A run of `plan_placement` that returned: what it read, what it asked the planner, and the plan.
use mathlib.Core.Path.{subst}
use rke2_lab.Base.{
  ℕ, String, ◌≡◌, refl, ap, ◌∙◌, Bool, ◌&&◌, not, some, List, [], ◌∷◌, ◌++◌, arith, if◌then◌else◌,
}
use rke2_lab.Base.Dict.{Dict, lookup, keys}
use rke2_lab.Base.Sorted.{sorted}
use rke2_lab.Py.Result.{index}
use rke2_lab.Py.Effect.{History, ok, Env, Io, pure, lift, for_each}
use rke2_lab.Py.Effect.Returns.{bind-returned, pure-returned, guard-returned, lift-returned}
use rke2_lab.Placement.Plan.{NodeCapacity, PlacementRequest, plan}
use rke2_lab.Placement.Client.{UsageClient, make_client}
use rke2_lab.Placement.Planner.{
  load_record, candidate_set, read_capacities, requests_for, select, is_known, announce, is_empty,
  save_record, plan_placement,
}

-- The request of this key, with the footprint that the key stands for.
pub record IsAsk (sizes : Dict (ℕ × ℕ)) (key : String) (req : PlacementRequest) : Type 0 where
  pub same_key : req.key ≡ key
  pub footprint : lookup key sizes ≡ some (req.ram_bytes, req.disk_bytes)

-- One request for each key, in order.
abbrev pub Asks : Dict (ℕ × ℕ) → List String → List PlacementRequest → Type 0
Asks sizes [] [] = Unit
Asks sizes [] (req ∷ reqs) = ⊥
Asks sizes (key ∷ keys) [] = ⊥
Asks sizes (key ∷ keys) (req ∷ reqs) = IsAsk sizes key req × Asks sizes keys reqs

index-lookup :
    (key : String) (sizes : Dict (ℕ × ℕ)) (size : ℕ × ℕ)
    → index key sizes ≡ ok size
    → lookup key sizes ≡ some size
unfolding index
index-lookup key sizes size e = ground (arith, e)

requests_for-Asks :
    (sizes : Dict (ℕ × ℕ)) (ks : List String) (h : History) (reqs : List PlacementRequest)
    → (requests_for sizes ks h).0 ≡ ok reqs
    → Asks sizes ks reqs
unfolding requests_for
requests_for-Asks sizes [] h reqs e = subst (Asks sizes []) (pure-returned [] reqs h e) tt
requests_for-Asks sizes (k ∷ ks) h reqs e =
    let (size, found, e1) = bind-returned (lift (index k sizes)) _ h reqs e in
    let h1 = (lift (index k sizes) h).1 in
    let (rest, e2, e3) = bind-returned (requests_for sizes ks) _ h1 reqs e1 in
    let request : PlacementRequest = record { key = k; ram_bytes = size.0; disk_bytes = size.1 } in
    let same : request ∷ rest ≡ reqs =
      pure-returned (request ∷ rest) reqs (requests_for sizes ks h1).1 e3 in
    let ask : IsAsk sizes k request = record {
      same_key = refl;
      footprint = index-lookup k sizes size (lift-returned (index k sizes) size h found);
    } in
    subst (Asks sizes (k ∷ ks)) same (ask, requests_for-Asks sizes ks h1 rest e2)

-- The known keys, and then the fresh ones, each in order.
abbrev pub known_first : (String → Bool) → List String → List String
known_first known ks = sorted (select known ks) ++ sorted (select (λ k. not (known k)) ks)

module _ (env : Env) (endpoint username password : String) (sizes : Dict (ℕ × ℕ)) (path : String)
    (overrides : Dict String) (candidate_nodes : List String) where
  -- The history when the candidate nodes are asked for, and after this.
  abbrev pub loaded_at : History → History
  loaded_at h = (load_record env path h).1

  abbrev pub chosen_at : History → History
  chosen_at h =
      (candidate_set env (make_client env endpoint username password) candidate_nodes
        (loaded_at h)).1

  pub record Trace (h : History) (choices : Dict String) : Type 0 where
    pub placements : Dict String
    pub nodes : List String
    pub client : UsageClient
    pub capacities : Dict NodeCapacity
    pub requests : List PlacementRequest
    pub written : Dict String
    pub loaded : (load_record env path h).0 ≡ ok placements
    pub nodes_found :
        (candidate_set env
          (make_client env endpoint username password)
          candidate_nodes
          (loaded_at h)).0
        ≡ ok (nodes, client)
    pub read : (read_capacities env client nodes [] (chosen_at h)).0 ≡ ok capacities
    pub asked : Asks sizes (known_first (is_known overrides placements) (keys sizes)) requests
    pub planned : plan requests capacities placements overrides ≡ ok (choices, written)

  pub plan_placement-Trace :
      (persist : Bool) (h : History) (choices : Dict String)
      → (plan_placement env endpoint username password sizes path overrides candidate_nodes persist
          h).0
        ≡ ok choices
      → Trace h choices
  unfolding plan_placement
  plan_placement-Trace persist h choices e =
      let (placements, loaded, e1) = bind-returned (load_record env path) _ h choices e in
      let h1 = (load_record env path h).1 in
      let client = make_client env endpoint username password in
      let ((nodes, c), chosen, e2) =
        bind-returned (candidate_set env client candidate_nodes) _ h1 choices e1 in
      let h2 = (candidate_set env client candidate_nodes h1).1 in
      let e3 = guard-returned (is_empty nodes) _ _ h2 choices e2 in
      let (capacities, read, e4) = bind-returned (read_capacities env c nodes []) _ h2 choices e3 in
      let h3 = (read_capacities env c nodes [] h2).1 in
      let known = is_known overrides placements in
      let ks =
        sorted (select known (keys sizes)) ++ sorted (select (λ k. not (known k)) (keys sizes)) in
      let (reqs, asked, e5) = bind-returned (requests_for sizes ks) _ h3 choices e4 in
      let h4 = (requests_for sizes ks h3).1 in
      let ((found, written), planned, e6) =
        bind-returned (lift (plan reqs capacities placements overrides)) _ h4 choices e5 in
      let new = sorted (select (λ k. not (known k)) (keys sizes)) in
      let saves : Io (Unit {0}) =
        if persist && not (is_empty new) then save_record path written else pure tt in
      let (_, _, e7) = bind-returned saves _ h4 choices e6 in
      let h5 = (saves h4).1 in
      let (_, _, e8) = bind-returned (for_each (announce found) new) _ h5 choices e7 in
      let h6 = (for_each (announce found) new h5).1 in
      let same : found ≡ choices = pure-returned found choices h6 e8 in
      let result : plan reqs capacities placements overrides ≡ ok (found, written) =
        lift-returned (plan reqs capacities placements overrides) (found, written) h4 planned in
      record {
        placements = placements;
        nodes = nodes;
        client = c;
        capacities = capacities;
        requests = reqs;
        written = written;
        loaded = loaded;
        nodes_found = chosen;
        read = read;
        asked = requests_for-Asks sizes ks h3 reqs asked;
        planned = result ∙ ap (λ d. ok (d, written)) same;
      }
