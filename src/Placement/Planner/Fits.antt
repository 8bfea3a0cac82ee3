-- ===== src/Placement/Planner/Fits.antt =====
-- Whatever the cluster reports, the VMs that `plan_placement` places anew fit into their nodes.
use mathlib.Core.Path.{subst}
use rke2_lab.Base.{
  ℕ, String, ◌≡◌, refl, sym, ap, ◌∙◌, ◌≢◌, Bool, true, false, not, none, some, Option-cases, inl,
  inr, List, [], ◌∷◌, ◌++◌, All, contains, arith, eq_iff, eq_refl,
}
use rke2_lab.Base.Contains.{contains-sorted, unique, unique-sorted, unique-append}
use rke2_lab.Base.Dict.{Dict, lookup, has_key, keys}
use rke2_lab.Base.Sorted.{sorted}
use rke2_lab.Py.Effect.{History, ok, Env}
use rke2_lab.Placement.Plan.{PlacementRequest, plan}
use rke2_lab.Placement.Plan.Decided.{decided}
use rke2_lab.Placement.Plan.Load.{Distinct}
use rke2_lab.Placement.Plan.Outcome.{IsKnown, WithinLoad, plan_capacity}
use rke2_lab.Placement.Planner.{select, is_known, plan_placement}
use rke2_lab.Placement.Planner.Trace.{Asks, known_first, Trace, plan_placement-Trace}
use rke2_lab.Placement.Planner.Places.{contains-select}

unique-select :
    (test : String → Bool) (l : List String) → unique l ≡ true → unique (select test l) ≡ true
unfolding select
unique-select test [] u = refl
unique-select test (x ∷ l) u =
    ground (arith, u, unique-select test l (ground (arith, u)), contains-select test x l)

module _ (test : String → Bool) (l : List String) where
  selected : (k : String) → contains k (sorted (select test l)) ≡ true → test k ≡ true
  selected k m = ground (arith, m, contains-sorted k (select test l), contains-select test k l)

unique-known_first :
    (test : String → Bool) (l : List String) → unique l ≡ true → unique (known_first test l) ≡ true
unique-known_first test l u =
    let other = λ (k : String). not (test k) in
    unique-append (sorted (select test l)) (sorted (select other l))
      (unique-sorted (select test l) ∙ unique-select test l u)
      (unique-sorted (select other l) ∙ unique-select other l u)
      (λ k m.
        ground (
          arith,
          selected test l k m,
          contains-sorted k (select other l),
          contains-select other k l,
        ))

All-of_contains :
    (P : String → Type 0) (l : List String) → ((k : String) → contains k l ≡ true → P k) → All P l
All-of_contains P [] f = tt
All-of_contains P (x ∷ l) f =
    (f x (ground (arith, eq_refl x)), All-of_contains P l (λ k m. f k (ground (arith, m))))

module _ (sizes : Dict (ℕ × ℕ)) where
  Asks-All :
      (P : String → Type 0) (ks : List String) (reqs : List PlacementRequest)
      → Asks sizes ks reqs
      → All P ks
      → All (λ r. P r.key) reqs
  Asks-All P [] [] a h = tt
  Asks-All P [] (r ∷ reqs) a h = elim a [ ]
  Asks-All P (k ∷ ks) [] a h = elim a [ ]
  Asks-All P (k ∷ ks) (r ∷ reqs) (ask, a) (p, h) =
      (subst P (sym ask.same_key) p, Asks-All P ks reqs a h)

  Asks-differ :
      (k : String) (ks : List String) (reqs : List PlacementRequest)
      → contains k ks ≡ false
      → Asks sizes ks reqs
      → All (λ q. q.key ≢ k) reqs
  Asks-differ k [] [] out a = tt
  Asks-differ k [] (r ∷ reqs) out a = elim a [ ]
  Asks-differ k (j ∷ ks) [] out a = elim a [ ]
  Asks-differ k (j ∷ ks) (r ∷ reqs) out (ask, a) = (
    λ p. ground (arith, out, p, ask.same_key, eq_iff k j),
    Asks-differ k ks reqs (ground (arith, out)) a,
  )

  Asks-Distinct :
      (ks : List String) (reqs : List PlacementRequest)
      → unique ks ≡ true
      → Asks sizes ks reqs
      → Distinct reqs
  Asks-Distinct [] [] u a = tt
  Asks-Distinct [] (r ∷ reqs) u a = elim a [ ]
  Asks-Distinct (k ∷ ks) [] u a = elim a [ ]
  Asks-Distinct (k ∷ ks) (r ∷ reqs) u (ask, a) = (
    subst (λ j. All (λ q. q.key ≢ j) reqs) (sym ask.same_key)
        (Asks-differ k ks reqs (ground (arith, u)) a),
    Asks-Distinct ks reqs (ground (arith, u)) a,
  )

  Asks-split :
      (xs ys : List String) (reqs : List PlacementRequest)
      → Asks sizes (xs ++ ys) reqs
      → (first last : List PlacementRequest) × (reqs ≡ first ++ last)
        × Asks sizes xs first
        × Asks sizes ys last
  Asks-split [] ys reqs a = ([], reqs, refl, tt, a)
  Asks-split (x ∷ xs) ys [] a = elim a [ ]
  Asks-split (x ∷ xs) ys (r ∷ reqs) (ask, a) =
      let (first, last, e, b, c) = Asks-split xs ys reqs a in
      (r ∷ first, last, ap (λ l. r ∷ l) e, (ask, b), c)

module _ (overrides placements : Dict String) (k : String) where
  known-decided :
      is_known overrides placements k ≡ true
      → (n : String) × (decided overrides placements k ≡ some n)
  unfolding decided has_key
  known-decided h = elim (Option-cases (lookup k overrides)) [
    | inr (n, e) ↦ (n, ground (arith, e))
    | inl e ↦ elim (Option-cases (lookup k placements)) [
      | inr (n, d) ↦ (n, ground (arith, e, d))
      | inl d ↦ ground (arith, h, e, d)
    ]
  ]

  unknown-undecided :
      not (is_known overrides placements k) ≡ true → decided overrides placements k ≡ none
  unfolding decided has_key
  unknown-undecided h = ground arith

module _ (env : Env) (endpoint username password : String) (sizes : Dict (ℕ × ℕ)) (path : String)
    (overrides : Dict String) (candidate_nodes : List String) where
  -- The requests of a run: those with a known node, and the fresh ones, which fit.
  pub record Fitting (h : History) (choices : Dict String) : Type 0 where
    pub trace : Trace env endpoint username password sizes path overrides candidate_nodes h choices
    pub known : List PlacementRequest
    pub fresh : List PlacementRequest
    pub split : trace.requests ≡ known ++ fresh
    pub are_known : All (IsKnown overrides trace.placements) known
    pub are_fresh : All (λ r. decided overrides trace.placements r.key ≡ none) fresh
    pub fit : All (WithinLoad trace.capacities choices trace.requests) fresh

  -- Where the footprints stand under keys that differ, as those of a dict do, and `plan_placement`
  -- returns: it asked the planner for each key once, with the footprint of that key, the known ones
  -- first. Each node that it gives to a fresh request is one whose usage it had just read, and all
  -- that it gives to this node, known requests included, fits into the free RAM and the free disk
  -- that were read.
  pub plan_placement-Fitting :
      (persist : Bool) (h : History) (choices : Dict String)
      → unique (keys sizes) ≡ true
      → (plan_placement env endpoint username password sizes path overrides candidate_nodes persist
          h).0
        ≡ ok choices
      → Fitting h choices
  plan_placement-Fitting persist h choices apart e =
      let t =
        plan_placement-Trace env endpoint username password sizes path overrides candidate_nodes
          persist h choices e in
      let test = is_known overrides t.placements in
      let other = λ (k : String). not (test k) in
      let ks = sorted (select test (keys sizes)) in
      let js = sorted (select other (keys sizes)) in
      let (known, fresh, split, a, b) = Asks-split sizes ks js t.requests t.asked in
      let are_known : All (IsKnown overrides t.placements) known =
        Asks-All sizes (λ k. (n : String) × (decided overrides t.placements k ≡ some n)) ks known a
          (All-of_contains (λ k. (n : String) × (decided overrides t.placements k ≡ some n)) ks
            (λ k m. known-decided overrides t.placements k (selected test (keys sizes) k m))) in
      let are_fresh : All (λ r. decided overrides t.placements r.key ≡ none) fresh =
        Asks-All sizes (λ k. decided overrides t.placements k ≡ none) js fresh b
          (All-of_contains (λ k. decided overrides t.placements k ≡ none) js
            (λ k m.
              unknown-undecided overrides t.placements k (selected other (keys sizes) k m))) in
      let distinct : Distinct (known ++ fresh) = subst Distinct split (
        Asks-Distinct sizes (ks ++ js) t.requests (unique-known_first test (keys sizes) apart)
          t.asked) in
      let planned : plan (known ++ fresh) t.capacities t.placements overrides
          ≡ ok (choices, t.written) =
        subst (λ l. plan l t.capacities t.placements overrides ≡ ok (choices, t.written)) split
          t.planned in
      record {
        trace = t;
        known = known;
        fresh = fresh;
        split = split;
        are_known = are_known;
        are_fresh = are_fresh;
        fit =
            subst (λ l. All (WithinLoad t.capacities choices l) fresh) (sym split)
              (plan_capacity known fresh t.capacities t.placements overrides planned distinct
                are_known are_fresh);
      }
