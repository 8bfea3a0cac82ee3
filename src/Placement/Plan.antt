-- ===== src/Placement/Plan.antt =====
-- infra/pulumi/modules/placement.py: `_plan`, the pure planner, and its data. Sizes are in bytes; a
-- footprint is not negative, and a node's headroom is any integer that the API reports.
pub mod Decided
pub mod Best
pub mod Fit
pub mod Fresh
pub mod Load
pub mod Capacity
pub mod Start
pub mod Outcome
pub mod Steps
pub mod Replan
pub mod Board
pub mod Refines
use rke2_lab.Base.{
  ℕ, ◌+◌, String, ◌<>◌, Bool, true, false, ◌||◌, Option, none, some, List, [], ◌∷◌, if◌then◌else◌,
}
use rke2_lab.Base.Int.{ℤ, pos, ◌-ℤ◌, neg_ℤ, ltb_ℤ}
use rke2_lab.Base.Dict.{Dict, lookup, insert, has_key}
use rke2_lab.Base.Sorted.{str_lt}
use rke2_lab.Py.Text.{show_ℕ}
use rke2_lab.Py.Result.{Exception, runtime_error, Result, ok, err, ◌>>=◌, index}

pub record NodeCapacity : Type 0 where
  pub name : String
  pub free_ram_bytes : ℤ
  pub free_disk_bytes : ℤ

pub record PlacementRequest : Type 0 where
  pub key : String
  pub ram_bytes : ℕ
  pub disk_bytes : ℕ

-- The local variables of `_plan`, and the placements of the record that it writes to.
pub record PlanState : Type 0 where
  pub occupied_ram : Dict ℕ
  pub occupied_disk : Dict ℕ
  pub choices : Dict String
  pub placements : Dict String

pub record Candidate : Type 0 where
  pub name : String
  pub free_ram : ℤ
  pub free_disk : ℤ

-- `occupied_ram[node] += ...` and `occupied_disk[node] += ...`
unfoldable pub occupy : String → PlacementRequest → PlanState → Result PlanState
unfolding index
occupy node req s = do
  ram ← index node s.occupied_ram
  disk ← index node s.occupied_disk
  ok (record s {
    occupied_ram = insert node (ram + req.ram_bytes) s.occupied_ram;
    occupied_disk = insert node (disk + req.disk_bytes) s.occupied_disk;
  })

-- The branches for an override and for a record entry.
unfoldable pub pin : String → PlacementRequest → PlanState → Result PlanState
unfolding occupy
pin node req s =
    let s' = record s { choices = insert req.key node s.choices } in
    if has_key node s.occupied_ram then occupy node req s' else ok s'

-- The test that leaves a node out.
abbrev pub too_small : ℤ → ℤ → PlacementRequest → Bool
too_small free_ram free_disk req =
    ltb_ℤ free_ram (pos req.ram_bytes) || ltb_ℤ free_disk (pos req.disk_bytes)

unfoldable pub candidates :
    PlanState → PlacementRequest → Dict NodeCapacity → Result (List Candidate)
unfolding index
candidates s req [] = ok []
candidates s req ((name, cap) ∷ rest) = do
  ram ← index name s.occupied_ram
  disk ← index name s.occupied_disk
  others ← candidates s req rest
  let free_ram = cap.free_ram_bytes -ℤ pos ram
  let free_disk = cap.free_disk_bytes -ℤ pos disk
  ok (
      if too_small free_ram free_disk req
      then others
      else record { name = name; free_ram = free_ram; free_disk = free_disk } ∷ others)

-- `key(a) < key(b)` for the key `(-ram, -disk, name)`: the first components that differ decide.
unfoldable pub beats : Candidate → Candidate → Bool
beats a b =
    if ltb_ℤ (neg_ℤ a.free_ram) (neg_ℤ b.free_ram)
    then true
    else if ltb_ℤ (neg_ℤ b.free_ram) (neg_ℤ a.free_ram)
    then false
    else if ltb_ℤ (neg_ℤ a.free_disk) (neg_ℤ b.free_disk)
    then true
    else if ltb_ℤ (neg_ℤ b.free_disk) (neg_ℤ a.free_disk)
    then false
    else str_lt a.name b.name

-- `min(candidates, key=...)`: the first of the least.
unfoldable pub best : Candidate → List Candidate → Candidate
unfolding beats
best c [] = c
best c (d ∷ ds) = best (if beats d c then d else c) ds

unfoldable pub no_feasible_node : PlacementRequest → Exception
no_feasible_node req = runtime_error (
    "no feasible node for VM '"
    <> (req.key
        <> ("': needs "
            <> (show_ℕ req.ram_bytes
                <> ("B RAM / "
                    <> (show_ℕ req.disk_bytes
                        <> "B disk but no node has headroom; free a node or add capacity"))))))

unfoldable pub take_best : PlacementRequest → List Candidate → PlanState → Result PlanState
unfolding occupy best
take_best req [] s = err (no_feasible_node req)
take_best req (c ∷ cs) s =
    let chosen = (best c cs).name in
    occupy chosen req (record s {
      choices = insert req.key chosen s.choices;
      placements = insert req.key chosen s.placements;
    })

unfoldable pub place_fresh : Dict NodeCapacity → PlacementRequest → PlanState → Result PlanState
unfolding candidates take_best
place_fresh capacities req s = do found ← candidates s req capacities; take_best req found s

-- The body of the `for` loop: the branches for an override, a record entry and a fresh pick.
unfoldable pub plan_one :
    Dict NodeCapacity → Dict String → PlacementRequest → PlanState → Result PlanState
unfolding pin place_fresh
plan_one capacities overrides req s = elim (lookup req.key overrides) [
  | some node ↦ pin node req s
  | none ↦ elim (lookup req.key s.placements) [
    | some node ↦ pin node req s
    | none ↦ place_fresh capacities req s
  ]
]

unfoldable pub plan_loop :
    Dict NodeCapacity → Dict String → List PlacementRequest → PlanState → Result PlanState
unfolding plan_one
plan_loop capacities overrides [] s = ok s
plan_loop capacities overrides (req ∷ reqs) s = do
  s' ← plan_one capacities overrides req s
  plan_loop capacities overrides reqs s'

-- `{n: 0 for n in capacities}`
unfoldable pub zeros : Dict NodeCapacity → Dict ℕ
zeros [] = []
zeros ((name, _) ∷ rest) = (name, 0) ∷ zeros rest

abbrev pub start : Dict NodeCapacity → Dict String → PlanState
start capacities placements = record {
  occupied_ram = zeros capacities;
  occupied_disk = zeros capacities;
  choices = [];
  placements = placements;
}

-- The choices, and the record's placements afterwards.
unfoldable pub plan :
    List PlacementRequest
    → Dict NodeCapacity
    → Dict String
    → Dict String
    → Result (Dict String × Dict String)
unfolding plan_loop zeros
plan requests capacities placements overrides = do
  s ← plan_loop capacities overrides requests (start capacities placements)
  ok (s.choices, s.placements)
