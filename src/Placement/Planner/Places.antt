-- ===== src/Placement/Planner/Places.antt =====
-- `plan_placement` returns a node for every VM that it is asked about.
use mathlib.Core.Path.{subst}
use rke2_lab.Base.{
  ℕ, String, ◌≡◌, refl, sym, ◌∙◌, Bool, true, ◌&&◌, not, Bool-cases, inl, inr, some, List, [], ◌∷◌,
  All, All-map, contains, arith, eq_iff, ◌==◌,
}
use rke2_lab.Base.Contains.{contains-append, contains-sorted, contains-keys}
use rke2_lab.Base.Dict.{Dict, lookup, has_key, keys}
use rke2_lab.Base.Sorted.{sorted}
use rke2_lab.Py.Effect.{History, ok, Env}
use rke2_lab.Placement.Plan.{PlacementRequest}
use rke2_lab.Placement.Plan.Replan.{plan_precedence}
use rke2_lab.Placement.Planner.{select, is_known, plan_placement}
use rke2_lab.Placement.Planner.Trace.{Asks, known_first, plan_placement-Trace}

pub contains-select :
    (test : String → Bool) (k : String) (l : List String)
    → contains k (select test l) ≡ (contains k l && test k)
unfolding select
contains-select test k [] = refl
contains-select test k (x ∷ l) = ground (arith, contains-select test k l, eq_iff k x)

-- The known keys and the fresh ones are all of them.
contains-split :
    (test : String → Bool) (k : String) (l : List String)
    → contains k (known_first test l) ≡ contains k l
contains-split test k l = ground (
  arith,
  contains-append k (sorted (select test l)) (sorted (select (λ j. not (test j)) l)),
  contains-sorted k (select test l),
  contains-sorted k (select (λ j. not (test j)) l),
  contains-select test k l,
  contains-select (λ j. not (test j)) k l,
)

All-contains :
    (P : String → Type 0) (k : String) (l : List String) → contains k l ≡ true → All P l → P k
All-contains P k [] c h = ground arith
All-contains P k (x ∷ l) c (p, h) = elim (Bool-cases (k == x)) [
  | inl same ↦ subst P (sym ((eq_iff k x).0 same)) p
  | inr other ↦ All-contains P k l (ground (arith, c, other)) h
]

-- What holds for the requests holds for their keys.
Asks-keys :
    (P : String → Type 0) (sizes : Dict (ℕ × ℕ)) (ks : List String) (reqs : List PlacementRequest)
    → Asks sizes ks reqs
    → All (λ r. P r.key) reqs
    → All P ks
Asks-keys P sizes [] reqs a h = tt
Asks-keys P sizes (k ∷ ks) [] a h = elim a [ ]
Asks-keys P sizes (k ∷ ks) (r ∷ reqs) (ask, a) (p, h) =
    (subst P ask.same_key p, Asks-keys P sizes ks reqs a h)

abbrev pub HasNode : Dict String → String → Type 0
HasNode d key = (n : String) × (lookup key d ≡ some n)

module _ (env : Env) (endpoint username password : String) (sizes : Dict (ℕ × ℕ)) (path : String)
    (overrides : Dict String) (candidate_nodes : List String) (persist : Bool) where
  -- What the planner returns names a node for each key that it was given.
  pub plan_placement-HasNode :
      (h : History) (choices : Dict String) (key : String)
      → (plan_placement env endpoint username password sizes path overrides candidate_nodes persist
          h).0
        ≡ ok choices
      → has_key key sizes ≡ true
      → HasNode choices key
  plan_placement-HasNode h choices key e there =
      let t =
        plan_placement-Trace env endpoint username password sizes path overrides candidate_nodes
          persist h choices e in
      let known = is_known overrides t.placements in
      let placed = (plan_precedence t.requests t.capacities t.placements overrides t.planned).0 in
      let nodes_of : All (λ r. HasNode choices r.key) t.requests =
        All-map _ (λ r. HasNode choices r.key) t.requests (λ r (n, p, _). (n, p)) placed in
      All-contains (HasNode choices) key (known_first known (keys sizes))
        (contains-split known key (keys sizes) ∙ contains-keys key sizes ∙ there)
        (Asks-keys (HasNode choices) sizes (known_first known (keys sizes)) t.requests t.asked
          nodes_of)
