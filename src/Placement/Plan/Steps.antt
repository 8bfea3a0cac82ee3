-- ===== src/Placement/Plan/Steps.antt =====
-- What one request changes in the state of `_plan`, by its branch.
use rke2_lab.Base.{
  ℕ, ◌+◌, String, ◌≡◌, refl, none, some, Option-cases, ◌⊎◌, inl, inr, List, [], ◌∷◌, arith,
}
use rke2_lab.Base.Dict.{Dict, lookup, insert, has_key, has_key-insert}
use rke2_lab.Py.Result.{ok, >>=-eq-ok}
use rke2_lab.Placement.Plan.{
  NodeCapacity, PlacementRequest, PlanState, Candidate, occupy, pin, candidates, best, take_best,
  place_fresh,
}

-- Each node has counters of both kinds, or of none.
abbrev pub Aligned : PlanState → Type 0
Aligned s = (n : String) → has_key n s.occupied_ram ≡ has_key n s.occupied_disk

-- The state after `node` was chosen for `req`, where it has counters.
abbrev pub counted : String → PlacementRequest → ℕ → ℕ → PlanState → PlanState
counted node req ram disk s = record s {
  occupied_ram = insert node (ram + req.ram_bytes) s.occupied_ram;
  occupied_disk = insert node (disk + req.disk_bytes) s.occupied_disk;
}

module _ (node : String) (req : PlacementRequest) where
  pub occupy-eq-ok :
      (s : PlanState) {s' : PlanState}
      → occupy node req s ≡ ok s'
      → (ram disk : ℕ) × (lookup node s.occupied_ram ≡ some ram)
        × (lookup node s.occupied_disk ≡ some disk)
        × (s' ≡ counted node req ram disk s)
  unfolding occupy
  occupy-eq-ok s h = elim (Option-cases (lookup node s.occupied_ram)) [
    | inl e ↦ ground (arith, e)
    | inr (ram, e) ↦ elim (Option-cases (lookup node s.occupied_disk)) [
      | inl d ↦ ground (arith, d, e)
      | inr (disk, d) ↦ (ram, disk, e, d, ground (arith, d, e))
    ]
  ]

  pub counted-Aligned :
      (ram disk : ℕ) (s : PlanState) → Aligned s → Aligned (counted node req ram disk s)
  counted-Aligned ram disk s a n = ground (
    arith,
    a n,
    has_key-insert node n (ram + req.ram_bytes) s.occupied_ram,
    has_key-insert node n (disk + req.disk_bytes) s.occupied_disk,
  )

  -- A known placement never raises, and is written down nowhere but in the choices.
  pub pin-ok :
      (s : PlanState)
      → Aligned s
      → (s' : PlanState) × (pin node req s ≡ ok s')
        × (s'.choices ≡ insert req.key node s.choices)
        × (s'.placements ≡ s.placements)
        × Aligned s'
  unfolding pin has_key
  pin-ok s a =
      let s' = record s { choices = insert req.key node s.choices } in
      elim (Option-cases (lookup node s.occupied_ram)) [
        | inl e ↦ (s', ground (arith, e), refl, refl, a)
        | inr (ram, e) ↦ elim (Option-cases (lookup node s.occupied_disk)) [
          | inl d ↦ ground (arith, d, e, a node)
          | inr (disk, d) ↦ (
            counted node req ram disk s',
            ground (arith, d, e),
            refl,
            refl,
            counted-Aligned ram disk s' a,
          )
        ]
      ]

module _ (req : PlacementRequest) where
  -- A fresh pick of `node` is written down in the choices and in the record.
  abbrev pub noted : String → PlanState → PlanState
  noted node s = record s {
    choices = insert req.key node s.choices;
    placements = insert req.key node s.placements;
  }

  abbrev pub picked : String → ℕ → ℕ → PlanState → PlanState
  picked node ram disk s = counted node req ram disk (noted node s)

  pub take_best-eq-ok :
      (found : List Candidate) (s : PlanState) {s' : PlanState}
      → take_best req found s ≡ ok s'
      → (c : Candidate) × (cs : List Candidate) × (ram disk : ℕ) × (found ≡ c ∷ cs)
        × (lookup (best c cs).name s.occupied_ram ≡ some ram)
        × (lookup (best c cs).name s.occupied_disk ≡ some disk)
        × (s' ≡ picked (best c cs).name ram disk s)
  unfolding take_best
  take_best-eq-ok [] s h = ground arith
  take_best-eq-ok (c ∷ cs) s h =
      let (ram, disk, e, d, q) = occupy-eq-ok (best c cs).name req _ h in
      (c, cs, ram, disk, refl, e, d, q)

  pub place_fresh-eq-ok :
      (caps : Dict NodeCapacity) (s : PlanState) {s' : PlanState}
      → place_fresh caps req s ≡ ok s'
      → (c : Candidate) × (cs : List Candidate) × (ram disk : ℕ) × (candidates s req caps
          ≡ ok (c ∷ cs))
        × (lookup (best c cs).name s.occupied_ram ≡ some ram)
        × (lookup (best c cs).name s.occupied_disk ≡ some disk)
        × (s' ≡ picked (best c cs).name ram disk s)
  unfolding place_fresh
  place_fresh-eq-ok caps s h =
      let (found, e, t) = >>=-eq-ok (candidates s req caps) _ h in
      let (c, cs, ram, disk, f, er, ed, q) = take_best-eq-ok found s t in
      (c, cs, ram, disk, ground (arith, e, f), er, ed, q)

module _ (node : String) (req : PlacementRequest) where
  abbrev pub chose : PlanState → PlanState
  chose s = record s { choices = insert req.key node s.choices }

  -- A known placement is counted exactly where its node has counters.
  pub pin-eq-ok :
      (s : PlanState) {s' : PlanState}
      → pin node req s ≡ ok s'
      → ((lookup node s.occupied_ram ≡ none) × (s' ≡ chose s))
        ⊎ ((ram disk : ℕ) × (lookup node s.occupied_ram ≡ some ram)
            × (lookup node s.occupied_disk ≡ some disk)
            × (s' ≡ counted node req ram disk (chose s)))
  unfolding pin has_key
  pin-eq-ok s h = elim (Option-cases (lookup node s.occupied_ram)) [
    | inl e ↦ inl (e, ground (arith, h, e))
    | inr (ram, e) ↦ inr (occupy-eq-ok node req (chose s) (ground (arith, h, e)))
  ]
