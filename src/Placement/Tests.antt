-- ===== src/Placement/Tests.antt =====
-- Small builds: tests of the planner, and each theorem at one of them.
use rke2_lab.Base.{
  ℕ, String, ◌≡◌, refl, ◌≢◌, ◌⊎◌, true, false, some, List, [], ◌∷◌, ◌++◌, All, arith, eq_iff,
  eq_refl, ◌==◌, if◌then◌else◌,
}
use rke2_lab.Base.Int.{pos}
use rke2_lab.Base.Dict.{Dict, lookup, insert, has_key, keys}
use rke2_lab.Base.Sorted.{str_lt, sorted}
use rke2_lab.Py.Result.{Exception, ok, err}
use rke2_lab.Placement.Plan.{
  NodeCapacity, PlacementRequest, PlanState, plan, start, no_feasible_node,
}
use rke2_lab.Placement.Plan.Decided.{decided}
use rke2_lab.Py.Value.{obj}
use rke2_lab.Py.Effect.{File, History, wrote, Env, ◌>>=◌}
use rke2_lab.Placement.Planner.RoundTrip.{fields_of, IsStored, load_record-save_record}
use rke2_lab.Fake.{fake, runtime}
use rke2_lab.Placement.Planner.{plan_placement, load_record, save_record, select}
use rke2_lab.Placement.Client.{make_client, auth, node_capacity, online_nodes, send, failed}
use rke2_lab.Placement.Planner.Effects.{Touches, plan_placement-Touches}
use rke2_lab.Placement.Plan.Start.{start-Counted}
use rke2_lab.Placement.Plan.Fresh.{Pick, place_fresh-Pick}
use rke2_lab.Placement.Plan.Load.{Distinct}
use rke2_lab.Placement.Plan.Replan.{replan_stable, plan_precedence}
use rke2_lab.Placement.Plan.Outcome.{plan_capacity, plan_total, WithinLoad, Stuck}
use rke2_lab.Placement.Plan.Board
use rke2_lab.Placement.Plan.Board.{Board, Moves, opening}
use rke2_lab.Placement.Plan.Refines.{plan_refines}

ne : (a b : String) → (a == b) ≡ false → a ≢ b
ne a b h p = ground (arith, eq_iff a b, h, p)

abbrev node : String → ℕ → ℕ → String × NodeCapacity
node name ram disk =
    (name, record { name = name; free_ram_bytes = pos ram; free_disk_bytes = pos disk })

abbrev vm : String → ℕ → ℕ → PlacementRequest
vm key ram disk = record { key = key; ram_bytes = ram; disk_bytes = disk }

abbrev cluster : Dict NodeCapacity
cluster = node "pve01" 20 100 ∷ node "pve02" 20 200 ∷ node "pve03" 12 500 ∷ []

abbrev old : List PlacementRequest
old = vm "core01" 6 10 ∷ []

abbrev new : List PlacementRequest
new = vm "kubecp01" 8 10 ∷ vm "kubecp02" 8 10 ∷ vm "kubecp03" 8 10 ∷ []

abbrev committed : Dict String
committed = ("core01", "pve01") ∷ []

abbrev spread : Dict String
spread =
    ("core01", "pve01") ∷ ("kubecp01", "pve02") ∷ ("kubecp02", "pve01") ∷ ("kubecp03", "pve03") ∷ []

program : Unit {0}
unfolding plan decided str_lt lookup has_key insert
program = tt

-- The burst spreads by free RAM, then free disk.
plan-burst : plan (old ++ new) cluster committed [] ≡ ok (spread, spread)
unfolding program
plan-burst = refl

too_large : plan (vm "huge" 30 1 ∷ []) cluster [] [] ≡ err (no_feasible_node (vm "huge" 30 1))
unfolding program
too_large = refl

keys_differ : Distinct (old ++ new)
keys_differ = (
  (ne "kubecp01" "core01" refl, (ne "kubecp02" "core01" refl, (ne "kubecp03" "core01" refl, tt))),
  (
    (ne "kubecp02" "kubecp01" refl, (ne "kubecp03" "kubecp01" refl, tt)),
    ((ne "kubecp03" "kubecp02" refl, tt), (tt, tt)),
  ),
)

plan_capacity_example : All (WithinLoad cluster spread (old ++ new)) new
unfolding program
plan_capacity_example =
    plan_capacity old new cluster committed [] plan-burst keys_differ (("pve01", refl), tt)
      (refl, (refl, (refl, tt)))

replan_stable_example : plan (old ++ new) (node "pve09" 1 1 ∷ []) spread [] ≡ ok (spread, spread)
replan_stable_example =
    replan_stable (old ++ new) cluster committed [] plan-burst (node "pve09" 1 1 ∷ [])

plan_precedence_example :
    All
      (λ r. (n : String) × (lookup r.key spread ≡ some n) × (decided [] spread r.key ≡ some n))
      (old ++ new)
    × ((key m : String)
        → decided [] committed key ≡ some m
        → (decided [] spread key ≡ some m) × (lookup key spread ≡ lookup key committed))
plan_precedence_example = plan_precedence (old ++ new) cluster committed [] plan-burst

plan_total_example :
    ((r : Dict String × Dict String) × (plan (vm "huge" 30 1 ∷ []) cluster [] [] ≡ ok r))
    ⊎ ((e : Exception) × (plan (vm "huge" 30 1 ∷ []) cluster [] [] ≡ err e)
        × Stuck cluster [] (vm "huge" 30 1 ∷ []) (start cluster []) e)
plan_total_example = plan_total cluster [] (vm "huge" 30 1 ∷ []) []

plan_refines_example :
    ((choices placements' : Dict String) × (b : Board) × (plan (old ++ new) cluster committed []
        ≡ ok (choices, placements'))
      × Moves cluster [] (old ++ new) (opening committed) b
      × ((k : String) → lookup k choices ≡ b.chosen k)
      × ((k : String) → lookup k placements' ≡ b.recorded k))
    ⊎ ((first rest : List PlacementRequest) × (req : PlacementRequest) × (b : Board) × (old ++ new
          ≡ first ++ req ∷ rest)
        × Moves cluster [] first (opening committed) b
        × Board.Stuck cluster [] req b
        × (plan (old ++ new) cluster committed [] ≡ err (no_feasible_node req)))
plan_refines_example = plan_refines (old ++ new) cluster committed []

abbrev after_one : PlanState
after_one = record {
  occupied_ram = ("pve01", 0) ∷ ("pve02", 8) ∷ ("pve03", 0) ∷ [];
  occupied_disk = ("pve01", 0) ∷ ("pve02", 10) ∷ ("pve03", 0) ∷ [];
  choices = ("kubecp01", "pve02") ∷ [];
  placements = ("kubecp01", "pve02") ∷ [];
}

abbrev sizes : Dict (ℕ × ℕ)
sizes = ("core01", (6, 10)) ∷ ("repo01", (9, 10)) ∷ []

plan_placement-Touches_example :
    All
      (Touches ".placement.json")
      (plan_placement fake "https://pve" "root@pam" "pw" sizes ".placement.json" []
        ("pve01" ∷ "pve02" ∷ [])
        true
        []).1
plan_placement-Touches_example =
    plan_placement-Touches fake "https://pve" "root@pam" "pw" sizes ".placement.json" []
      ("pve01" ∷ "pve02" ∷ []) true

place_fresh-Pick_example :
    Pick cluster (vm "kubecp01" 8 10) (start cluster []) (start-Counted cluster []) after_one
unfolding program
place_fresh-Pick_example =
    place_fresh-Pick cluster (vm "kubecp01" 8 10) (start cluster []) (start-Counted cluster []) refl

-- A build against the fake cluster writes the record and announces both picks.
builds :
    (plan_placement fake "https://pve" "root@pam" "pw" sizes "p.json" []
      ("pve01" ∷ "pve02" ∷ [])
      true
      []).0
    ≡ ok (("core01", "pve02") ∷ ("repo01", "pve02") ∷ [])
unfolding program runtime plan_placement load_record save_record make_client auth node_capacity
    online_nodes select send failed
builds = refl

-- The last dict that was written to a file, as it is read back.
last_written : History → String → File
last_written [] path = File.missing
last_written (wrote p d ∷ h) path =
    if p == path then File.content (obj (fields_of d)) else last_written h path
last_written (_ ∷ h) path = last_written h path

abbrev on_disk : Env
on_disk = record fake { read_json = last_written }

on_disk-IsStored : IsStored on_disk
unfolding last_written
on_disk-IsStored = record { stored = λ h path d. rw (eq_refl path) refl }

load_record-save_record_example :
    (loaded : Dict String) × (((save_record "p.json" spread >>= λ _. load_record on_disk "p.json")
        []).0
      ≡ ok loaded)
    × ((key : String) → lookup key loaded ≡ lookup key spread)
    × (keys loaded ≡ sorted (keys spread))
load_record-save_record_example =
    load_record-save_record on_disk "p.json" spread [] on_disk-IsStored
