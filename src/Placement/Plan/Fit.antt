-- ===== src/Placement/Plan/Fit.antt =====
-- Which nodes a fresh pick considers, and that it picks the best of them.
use mathlib.Core.List.{Memᴰ}
use rke2_lab.Base.{
  ℕ, String, ◌≡◌, refl, inl, inr, Bool, true, false, none, some, Bool-cases, List, [], ◌∷◌, All,
  arith, if◌then◌else◌,
}
use rke2_lab.Base.Int.{pos, ◌-ℤ◌, ◌≤ℤ◌}
use rke2_lab.Base.Dict.{Dict, lookup}
use rke2_lab.Py.Result.{ok}
use rke2_lab.Placement.Plan.{
  NodeCapacity, PlacementRequest, PlanState, Candidate, too_small, candidates,
}

-- What this build has put on a node so far.
abbrev pub used : String → Dict ℕ → ℕ
used node d = elim (lookup node d) [ none ↦ 0 | some n ↦ n ]

-- A node with the headroom that is left at this point of the build.
abbrev pub remaining : PlanState → String × NodeCapacity → Candidate
remaining s (node, cap) = record {
  name = node;
  free_ram = cap.free_ram_bytes -ℤ pos (used node s.occupied_ram);
  free_disk = cap.free_disk_bytes -ℤ pos (used node s.occupied_disk);
}

-- The footprint fits into a node.
pub record Fits (req : PlacementRequest) (c : Candidate) : Type 0 where
  pub ram : pos req.ram_bytes ≤ℤ c.free_ram
  pub disk : pos req.disk_bytes ≤ℤ c.free_disk

-- Every node has counters of both kinds.
abbrev pub Counted : PlanState → Dict NodeCapacity → Type 0
Counted s = All (λ (node, _).
    ((n : ℕ) × (lookup node s.occupied_ram ≡ some n))
    × ((n : ℕ) × (lookup node s.occupied_disk ≡ some n)))

module _ (s : PlanState) (req : PlacementRequest) where
  abbrev pub Considered : Dict NodeCapacity → Candidate → Type 0
  Considered caps c =
      (entry : String × NodeCapacity) × Memᴰ entry caps × (c ≡ remaining s entry) × Fits req c

  pub fitting : Dict NodeCapacity → List Candidate
  fitting [] = []
  fitting (entry ∷ rest) =
      let c = remaining s entry in
      if too_small c.free_ram c.free_disk req then fitting rest else c ∷ fitting rest

  pub candidates-eq-fitting :
      (caps : Dict NodeCapacity) → Counted s caps → candidates s req caps ≡ ok (fitting caps)
  unfolding candidates fitting
  candidates-eq-fitting [] counted = refl
  candidates-eq-fitting ((node, capacity) ∷ rest) (((ram, er), (disk, ed)), counted) =
      ground (arith, er, ed, candidates-eq-fitting rest counted)

  Considered-tail :
      (entry : String × NodeCapacity) (rest : Dict NodeCapacity) (cs : List Candidate)
      → All (Considered rest) cs
      → All (Considered (entry ∷ rest)) cs
  Considered-tail entry rest [] h = tt
  Considered-tail entry rest (c ∷ cs) ((at, m, e, f), h) =
      ((at, Memᴰ.tail m, e, f), Considered-tail entry rest cs h)

  pub fitting-Considered : (caps : Dict NodeCapacity) → All (Considered caps) (fitting caps)
  unfolding fitting
  fitting-Considered [] = tt
  fitting-Considered (entry ∷ rest) =
      let c = remaining s entry in
      let ih = Considered-tail entry rest (fitting rest) (fitting-Considered rest) in
      elim (Bool-cases (too_small c.free_ram c.free_disk req)) [
        | inl small ↦ rw small ih
        | inr large ↦
            rw large (
              (entry, Memᴰ.head refl, refl, record { ram = ground arith; disk = ground arith }),
              ih,
            )
      ]

  abbrev pub Complete : Dict NodeCapacity → List Candidate → Type 0
  Complete caps found =
      All (λ entry. Fits req (remaining s entry) → Memᴰ (remaining s entry) found) caps

  Complete-tail :
      (caps : Dict NodeCapacity) (c : Candidate) (found : List Candidate)
      → Complete caps found
      → Complete caps (c ∷ found)
  Complete-tail [] c found h = tt
  Complete-tail (entry ∷ caps) c found (k, h) = (λ f. Memᴰ.tail (k f), Complete-tail caps c found h)

  Complete-cons :
      (entry : String × NodeCapacity) (rest : Dict NodeCapacity) (found : List Candidate) (b : Bool)
      → too_small (remaining s entry).free_ram (remaining s entry).free_disk req ≡ b
      → Complete rest found
      → Complete (entry ∷ rest) (if b then found else remaining s entry ∷ found)
  Complete-cons entry rest found true small h = (λ f. ground (arith, small, f.ram, f.disk), h)
  Complete-cons entry rest found false large h =
      (λ f. Memᴰ.head refl, Complete-tail rest (remaining s entry) found h)

  pub fitting-Complete : (caps : Dict NodeCapacity) → Complete caps (fitting caps)
  unfolding fitting
  fitting-Complete [] = tt
  fitting-Complete (entry ∷ rest) =
      Complete-cons entry rest (fitting rest) _ refl (fitting-Complete rest)
