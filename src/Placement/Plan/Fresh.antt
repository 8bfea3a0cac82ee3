-- ===== src/Placement/Plan/Fresh.antt =====
-- A fresh pick in one statement: what it chooses, and when it raises.
use rke2_lab.Base.{ℕ, ◌≡◌, refl, ◌⊎◌, inl, inr, some, List, [], ◌∷◌, All, All-mem, arith}
use rke2_lab.Base.Dict.{Dict, lookup}
use rke2_lab.Py.Result.{ok, err}
use rke2_lab.Placement.Plan.{
  NodeCapacity, PlacementRequest, PlanState, Candidate, best, take_best, place_fresh,
  no_feasible_node,
}
use rke2_lab.Placement.Plan.Best.{IsNoWorse, best-IsNoWorse, best-mem}
use rke2_lab.Placement.Plan.Fit.{
  Counted, Fits, remaining, Considered, Complete, fitting, candidates-eq-fitting,
  fitting-Considered, fitting-Complete,
}
use rke2_lab.Placement.Plan.Steps.{counted, picked, place_fresh-eq-ok}

module _ (caps : Dict NodeCapacity) (req : PlacementRequest) (s : PlanState)
    (counters : Counted s caps) where
  -- What a fresh pick returns.
  pub record Pick (s' : PlanState) : Type 0 where
    pub chosen : Candidate
    pub considered : Considered s req caps chosen
    pub best_fit :
        All (λ entry. Fits req (remaining s entry) → IsNoWorse chosen (remaining s entry)) caps
    pub ram : ℕ
    pub disk : ℕ
    pub used_ram : lookup chosen.name s.occupied_ram ≡ some ram
    pub used_disk : lookup chosen.name s.occupied_disk ≡ some disk
    pub after : s' ≡ picked req chosen.name ram disk s

  Complete-best :
      (entries : Dict NodeCapacity) (c : Candidate) (cs : List Candidate)
      → Complete s req entries (c ∷ cs)
      → All
          (λ entry. Fits req (remaining s entry) → IsNoWorse (best c cs) (remaining s entry))
          entries
  Complete-best [] c cs h = tt
  Complete-best (entry ∷ entries) c cs (k, h) = (
    λ f. All-mem (IsNoWorse (best c cs)) (c ∷ cs) (best-IsNoWorse c cs) (k f),
    Complete-best entries c cs h,
  )

  -- A fresh pick that returns chose a node that the footprint fits into, and no other node that it
  -- fits into is better; it adds the footprint to that node and writes the choice down.
  pub place_fresh-Pick : {s' : PlanState} → place_fresh caps req s ≡ ok s' → Pick s'
  place_fresh-Pick h =
      let (c, cs, ram, disk, e, er, ed, q) = place_fresh-eq-ok req caps s h in
      let same : fitting s req caps ≡ c ∷ cs =
        ground (arith, e, candidates-eq-fitting s req caps counters) in
      let sound : All (Considered s req caps) (c ∷ cs) =
        rw same at (fitting-Considered s req caps) in
      let complete : Complete s req caps (c ∷ cs) = rw same at (fitting-Complete s req caps) in
      record {
        chosen = best c cs;
        considered = All-mem (Considered s req caps) (c ∷ cs) sound (best-mem c cs);
        best_fit = Complete-best caps c cs complete;
        ram = ram;
        disk = disk;
        used_ram = er;
        used_disk = ed;
        after = q;
      }

  abbrev NoneFits : Dict NodeCapacity → Type 0
  NoneFits entries = All (λ entry. ¬ Fits req (remaining s entry)) entries

  Complete-nil : (entries : Dict NodeCapacity) → Complete s req entries [] → NoneFits entries
  Complete-nil [] h = tt
  Complete-nil (entry ∷ entries) (k, h) = (λ f. elim (k f) [ ], Complete-nil entries h)

  -- The counters that a pick reads are there.
  Considered-counted :
      (entries : Dict NodeCapacity) (c : Candidate)
      → Counted s entries
      → Considered s req entries c
      → ((n : ℕ) × (lookup c.name s.occupied_ram ≡ some n))
        × ((n : ℕ) × (lookup c.name s.occupied_disk ≡ some n))
  Considered-counted entries c counted (entry, m, e, f) = rw e (
      All-mem
        (λ (node, _).
          ((n : ℕ) × (lookup node s.occupied_ram ≡ some n))
          × ((n : ℕ) × (lookup node s.occupied_disk ≡ some n)))
        entries counted m)

  take_best-ok :
      (c : Candidate) (cs : List Candidate)
      → All (Considered s req caps) (c ∷ cs)
      → (s' : PlanState) × (take_best req (c ∷ cs) s ≡ ok s')
  unfolding take_best
  take_best-ok c cs sound =
      let ((ram, er), (disk, ed)) =
        Considered-counted caps (best c cs) counters
          (All-mem (Considered s req caps) (c ∷ cs) sound (best-mem c cs)) in
      (picked req (best c cs).name ram disk s, ground (arith, er, ed))

  -- A fresh pick raises exactly where the footprint fits into no node, and then it is the
  -- RuntimeError that names the request.
  pub place_fresh_total :
      ((s' : PlanState) × (place_fresh caps req s ≡ ok s'))
      ⊎ ((place_fresh caps req s ≡ err (no_feasible_node req)) × NoneFits caps)
  unfolding place_fresh
  place_fresh_total = go (fitting s req caps) refl
    where
      go :
          (found : List Candidate)
          → fitting s req caps ≡ found
          → ((s' : PlanState) × (place_fresh caps req s ≡ ok s'))
            ⊎ ((place_fresh caps req s ≡ err (no_feasible_node req)) × NoneFits caps)
      go [] e = inr (
        rw (candidates-eq-fitting s req caps counters, e) refl,
        Complete-nil caps (rw e at (fitting-Complete s req caps)),
      )
      go (c ∷ cs) e =
          let (s', t) = take_best-ok c cs (rw e at (fitting-Considered s req caps)) in
          inl (s', rw (candidates-eq-fitting s req caps counters, e) t)
