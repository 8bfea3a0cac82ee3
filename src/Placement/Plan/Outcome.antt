-- ===== src/Placement/Plan/Outcome.antt =====
-- What `_plan` guarantees of a whole build.
use mathlib.Core.Path.{subst}
use rke2_lab.Base.{
  ℕ, String, ◌≡◌, refl, ap, sym, ◌∙◌, ◌⊎◌, inl, inr, none, some, Option-cases, List, [], ◌∷◌, ◌++◌,
  All, All-mem, All-map, arith,
}
use rke2_lab.Base.Dict.{Dict, lookup}
use rke2_lab.Py.Result.{Exception, ok, err, >>=-eq-ok}
use rke2_lab.Placement.Plan.{
  NodeCapacity, PlacementRequest, PlanState, plan_one, plan_loop, plan, start, zeros,
  no_feasible_node,
}
use rke2_lab.Placement.Plan.Fit.{used, Counted, Fits, remaining}
use rke2_lab.Placement.Plan.Fresh.{place_fresh_total}
use rke2_lab.Placement.Plan.Steps.{Aligned, pin-ok}
use rke2_lab.Placement.Plan.Decided.{decided, plan_one-pin, plan_one-fresh}
use rke2_lab.Placement.Plan.Replan.{plan_one-Step, plan_loop_known, start-Aligned}
use rke2_lab.Placement.Plan.Start.{plan_loop-append, start-Counted, used-zeros}
use rke2_lab.Placement.Plan.Load.{plan_one-Use, load, Distinct, plan_loop-Loaded, HasCounters}
use rke2_lab.Placement.Plan.Capacity.{Counted-use, Within, fresh-Packed, Counted-loop}

abbrev pub IsKnown : Dict String → Dict String → PlacementRequest → Type 0
IsKnown overrides placements r = (n : String) × (decided overrides placements r.key ≡ some n)

abbrev pub WithinLoad :
    Dict NodeCapacity → Dict String → List PlacementRequest → PlacementRequest → Type 0
WithinLoad caps choices requests r =
    (n : String) × (lookup r.key choices ≡ some n)
    × Within caps n (load (λ q. q.ram_bytes) n choices requests)
        (load (λ q. q.disk_bytes) n choices requests)

Distinct-right : (xs ys : List PlacementRequest) → Distinct (xs ++ ys) → Distinct ys
Distinct-right [] ys h = h
Distinct-right (x ∷ xs) ys (_, h) = Distinct-right xs ys h

module _ (known fresh : List PlacementRequest) (caps : Dict NodeCapacity)
    (placements overrides : Dict String) where
  in_total :
      (s : PlanState)
      → plan_loop caps overrides (known ++ fresh) (start caps placements) ≡ ok s
      → Distinct (known ++ fresh)
      → (n : String) → Within caps n (used n s.occupied_ram) (used n s.occupied_disk)
      → Within caps n
          (load (λ q. q.ram_bytes) n s.choices (known ++ fresh))
          (load (λ q. q.disk_bytes) n s.choices (known ++ fresh))
  in_total s e distinct n w =
      let counters : HasCounters n (start caps placements) =
        All-mem
          (λ (node, _).
            ((x : ℕ) × (lookup node (zeros caps) ≡ some x))
            × ((x : ℕ) × (lookup node (zeros caps) ≡ some x)))
          caps (start-Counted caps placements) w.listed in
      let l =
        plan_loop-Loaded caps overrides (known ++ fresh) (start caps placements) n distinct e
          counters in
      record {
        capacity = w.capacity;
        listed = w.listed;
        ram_fits = omega (arith, l.ram, w.ram_fits, used-zeros caps n);
        disk_fits = omega (arith, l.disk, w.disk_fits, used-zeros caps n);
      }

  -- Where the requests with an override or a record entry come before the fresh ones, and no two
  -- have one key: each node that a fresh request is given to is a node of the cluster, and all that
  -- the build gives to it, known requests included, fits into its free RAM and its free disk.
  pub plan_capacity :
      {choices placements' : Dict String}
      → plan (known ++ fresh) caps placements overrides ≡ ok (choices, placements')
      → Distinct (known ++ fresh)
      → All (IsKnown overrides placements) known
      → All (λ r. decided overrides placements r.key ≡ none) fresh
      → All (WithinLoad caps choices (known ++ fresh)) fresh
  unfolding plan
  plan_capacity {choices} planned distinct are_known are_fresh =
      let s0 = start caps placements in
      let (s2, e, r) = >>=-eq-ok (plan_loop caps overrides (known ++ fresh) s0) _ planned in
      let (s1, e1, c1, p1) =
        plan_loop_known caps overrides known s0 (start-Aligned caps placements) are_known in
      let e2 : plan_loop caps overrides fresh s1 ≡ ok s2 =
        ground (arith, e, e1, plan_loop-append caps overrides known fresh s0) in
      let c : s2.choices ≡ choices = ground (arith, r) in
      let packed =
        fresh-Packed caps overrides fresh s1
          (Counted-loop caps overrides known s0 (start-Counted caps placements) e1)
          (Distinct-right known fresh distinct)
          (subst (λ pl. All (λ q. decided overrides pl q.key ≡ none) fresh) (sym p1) are_fresh)
          e2 in
      All-map _ (WithinLoad caps choices (known ++ fresh)) fresh
        (λ q (n, chosen, w). (n, rw c at chosen, rw c at (in_total s2 e distinct n w))) packed.each

-- Where a build stops: the requests before it were placed, and the footprint fits into no node.
pub record Stuck (caps : Dict NodeCapacity) (overrides : Dict String) (reqs : List PlacementRequest)
    (s : PlanState) (e : Exception) : Type 0 where
  pub before : List PlacementRequest
  pub req : PlacementRequest
  pub after : List PlacementRequest
  pub state : PlanState
  pub split : reqs ≡ before ++ req ∷ after
  pub reached : plan_loop caps overrides before s ≡ ok state
  pub undecided : decided overrides state.placements req.key ≡ none
  pub none_fits : All (λ entry. ¬ Fits req (remaining state entry)) caps
  pub error : e ≡ no_feasible_node req

module _ (caps : Dict NodeCapacity) (overrides : Dict String) where
  Stuck-later :
      (req : PlacementRequest) (reqs : List PlacementRequest) (s s1 : PlanState) (e : Exception)
      → plan_one caps overrides req s ≡ ok s1
      → Stuck caps overrides reqs s1 e
      → Stuck caps overrides (req ∷ reqs) s e
  unfolding plan_loop
  Stuck-later req reqs s s1 e one k = record {
    before = req ∷ k.before;
    req = k.req;
    after = k.after;
    state = k.state;
    split = ap (◌∷◌ req) k.split;
    reached = rw one k.reached;
    undecided = k.undecided;
    none_fits = k.none_fits;
    error = k.error;
  }

  -- One request is placed, or its footprint fits into no node.
  plan_one_total :
      (req : PlacementRequest) (s : PlanState)
      → Aligned s
      → Counted s caps
      → ((s1 : PlanState) × (plan_one caps overrides req s ≡ ok s1))
        ⊎ ((plan_one caps overrides req s ≡ err (no_feasible_node req))
            × (decided overrides s.placements req.key ≡ none)
            × All (λ entry. ¬ Fits req (remaining s entry)) caps)
  plan_one_total req s a counters = elim (Option-cases (decided overrides s.placements req.key)) [
    | inr (node, d) ↦
        let (s1, e, _, _, _) = pin-ok node req s a in
        inl (s1, plan_one-pin caps overrides req s node d ∙ e)
    | inl d ↦ elim (place_fresh_total caps req s counters) [
      | inl (s1, e) ↦ inl (s1, plan_one-fresh caps overrides req s d ∙ e)
      | inr (e, k) ↦ inr (plan_one-fresh caps overrides req s d ∙ e, d, k)
    ]
  ]

  plan_loop_total :
      (reqs : List PlacementRequest) (s : PlanState)
      → Aligned s
      → Counted s caps
      → ((s' : PlanState) × (plan_loop caps overrides reqs s ≡ ok s'))
        ⊎ ((e : Exception) × (plan_loop caps overrides reqs s ≡ err e)
            × Stuck caps overrides reqs s e)
  unfolding plan_loop
  plan_loop_total [] s a c = inl (s, refl)
  plan_loop_total (req ∷ reqs) s a c = elim (plan_one_total req s a c) [
    | inr (e, d, k) ↦ inr (
      no_feasible_node req,
      rw e refl,
      record {
        before = [];
        req = req;
        after = reqs;
        state = s;
        split = refl;
        reached = refl;
        undecided = d;
        none_fits = k;
        error = refl;
      },
    )
    | inl (s1, e) ↦
        elim (plan_loop_total reqs s1 (plan_one-Step caps overrides req s a e).aligned
          (Counted-use caps overrides caps (plan_one-Use caps overrides req s e) c)) [
            | inl (s', t) ↦ inl (s', rw e t)
            | inr (x, t, k) ↦ inr (x, rw e t, Stuck-later req reqs s s1 x e k)
          ]
  ]

  -- A build either places every request, or raises the RuntimeError of the first fresh request whose
  -- footprint fits into no node at that point, where an exact fit is a fit. It never raises anything
  -- else.
  pub plan_total :
      (reqs : List PlacementRequest) (placements : Dict String)
      → ((r : Dict String × Dict String) × (plan reqs caps placements overrides ≡ ok r))
        ⊎ ((e : Exception) × (plan reqs caps placements overrides ≡ err e)
            × Stuck caps overrides reqs (start caps placements) e)
  unfolding plan
  plan_total reqs placements =
      elim (plan_loop_total reqs (start caps placements) (start-Aligned caps placements)
        (start-Counted caps placements)) [
          | inl (s, e) ↦ inl ((s.choices, s.placements), rw e)
          | inr (x, e, k) ↦ inr (x, rw e, k)
        ]
