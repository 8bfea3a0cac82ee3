-- ===== src/Placement/Plan/Decided.antt =====
-- The precedence of `_plan`, stated apart from its loop: an override, then a record entry.
use rke2_lab.Base.{String, ◌≡◌, Option, none, some, arith, ◌==◌, eq_iff, if◌then◌else◌}
use rke2_lab.Base.Dict.{Dict, lookup, insert, lookup-insert}
use rke2_lab.Placement.Plan.{NodeCapacity, PlacementRequest, PlanState, pin, place_fresh, plan_one}

-- The node that is known for a key before any fresh pick.
unfoldable pub decided : Dict String → Dict String → String → Option String
decided overrides placements key = elim (lookup key overrides) [
  | some node ↦ some node
  | none ↦ lookup key placements
]

pub record IsFresh (overrides placements : Dict String) (key : String) : Type 0 where
  pub no_override : lookup key overrides ≡ none
  pub no_record : lookup key placements ≡ none

module _ (caps : Dict NodeCapacity) (overrides : Dict String) (req : PlacementRequest)
    (s : PlanState) where
  pub plan_one-pin :
      (node : String)
      → decided overrides s.placements req.key ≡ some node
      → plan_one caps overrides req s ≡ pin node req s
  unfolding plan_one decided
  plan_one-pin node h = ground arith

  pub plan_one-fresh :
      decided overrides s.placements req.key ≡ none
      → plan_one caps overrides req s ≡ place_fresh caps req s
  unfolding plan_one decided
  plan_one-fresh h = ground arith

-- What a fresh pick records is decided from then on, and nothing that was decided changes.
pub decided-insert :
    (overrides placements : Dict String) (key node k : String)
    → decided overrides placements key ≡ none
    → decided overrides (insert key node placements) k
      ≡ (if key == k then some node else decided overrides placements k)
unfolding decided
decided-insert overrides placements key node k h =
    ground (arith, lookup-insert key k node placements, eq_iff key k)
