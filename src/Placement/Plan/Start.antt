-- ===== src/Placement/Plan/Start.antt =====
-- Where the loop of `_plan` starts, and how it splits.
use rke2_lab.Base.{ℕ, String, ◌≡◌, refl, some, List, [], ◌∷◌, ◌++◌, All, arith, eq_refl}
use rke2_lab.Base.Dict.{Dict, lookup}
use rke2_lab.Py.Result.{◌>>=◌, bind_chain}
use rke2_lab.Placement.Plan.{
  NodeCapacity, PlacementRequest, PlanState, plan_one, plan_loop, start, zeros,
}
use rke2_lab.Placement.Plan.Fit.{used, Counted}

pub plan_loop-append :
    (caps : Dict NodeCapacity) (overrides : Dict String) (xs ys : List PlacementRequest)
    (s : PlanState)
    → plan_loop caps overrides (xs ++ ys) s
      ≡ (plan_loop caps overrides xs s >>= plan_loop caps overrides ys)
unfolding plan_loop
plan_loop-append caps overrides [] ys s = refl
plan_loop-append caps overrides (x ∷ xs) ys s =
    bind_chain (plan_one caps overrides x s) _ _ _ (plan_loop-append caps overrides xs ys)

abbrev ZeroAt : Dict ℕ → Dict NodeCapacity → Type 0
ZeroAt d = All (λ (node, _). lookup node d ≡ some 0)

ZeroAt-cons :
    (name : String) (d : Dict ℕ) (entries : Dict NodeCapacity)
    → ZeroAt d entries
    → ZeroAt ((name, 0) ∷ d) entries
unfolding lookup
ZeroAt-cons name d [] h = tt
ZeroAt-cons name d ((node, _) ∷ entries) (e, h) = (ground (arith, e), ZeroAt-cons name d entries h)

zeros-ZeroAt : (caps : Dict NodeCapacity) → ZeroAt (zeros caps) caps
unfolding zeros lookup
zeros-ZeroAt [] = tt
zeros-ZeroAt ((name, capacity) ∷ caps) =
    (rw eq_refl, ZeroAt-cons name (zeros caps) caps (zeros-ZeroAt caps))

pub used-zeros : (caps : Dict NodeCapacity) (n : String) → used n (zeros caps) ≡ 0
unfolding zeros lookup
used-zeros [] n = refl
used-zeros ((name, capacity) ∷ caps) n = ground (arith, used-zeros caps n)

pub start-Counted :
    (caps : Dict NodeCapacity) (placements : Dict String) → Counted (start caps placements) caps
start-Counted caps placements = go caps (zeros-ZeroAt caps)
  where
    go :
        (entries : Dict NodeCapacity)
        → ZeroAt (zeros caps) entries
        → Counted (start caps placements) entries
    go [] h = tt
    go (entry ∷ entries) (e, h) = (((0, e), (0, e)), go entries h)
