-- ===== src/Placement/Plan/Capacity.antt =====
-- A build never gives a node that it picks freshly more than the node's headroom.
use mathlib.Core.List.{Memᴰ}
use rke2_lab.Base.{
  ℕ, ◌+◌, String, ◌≡◌, refl, ap, sym, ◌∙◌, ◌≢◌, inl, inr, none, some, List, [], ◌∷◌, All, arith,
  eq_refl, eq_iff, ◌==◌, Bool-cases, if◌then◌else◌,
}
use rke2_lab.Base.Int.{pos, ◌-ℤ◌, ◌≤ℤ◌}
use rke2_lab.Base.Dict.{Dict, lookup, insert, lookup-insert}
use rke2_lab.Py.Result.{ok, >>=-eq-ok}
use rke2_lab.Placement.Plan.{
  NodeCapacity, PlacementRequest, PlanState, plan_one, plan_loop, Candidate,
}
use rke2_lab.Placement.Plan.Fit.{used, Counted}
use rke2_lab.Placement.Plan.Fresh.{Pick, place_fresh-Pick}
use rke2_lab.Placement.Plan.Decided.{decided, decided-insert, plan_one-fresh}
use rke2_lab.Placement.Plan.Load.{Distinct, Use, plan_one-Use, plan_loop-kept}

-- What the build has put on `n` fits into the headroom that the node reported.
pub record Within (caps : Dict NodeCapacity) (n : String) (ram disk : ℕ) : Type 0 where
  pub capacity : NodeCapacity
  pub listed : Memᴰ (n, capacity) caps
  pub ram_fits : pos ram ≤ℤ capacity.free_ram_bytes
  pub disk_fits : pos disk ≤ℤ capacity.free_disk_bytes

module _ (caps : Dict NodeCapacity) (overrides : Dict String) where
  abbrev pub InState : String → PlanState → Type 0
  InState n s = Within caps n (used n s.occupied_ram) (used n s.occupied_disk)

  pub Counted-use :
      (entries : Dict NodeCapacity) {req : PlacementRequest} {s s' : PlanState}
      → Use req s s'
      → Counted s entries
      → Counted s' entries
  Counted-use [] u c = tt
  Counted-use ((node, _) ∷ entries) u (k, c) = (u.counters node k, Counted-use entries u c)

  module _ (req : PlacementRequest) (s s' : PlanState) (counters : Counted s caps)
      (p : Pick caps req s counters s') where
    picked_ram :
        (n : String)
        → used n s'.occupied_ram
          ≡ (if p.chosen.name == n then p.ram + req.ram_bytes else used n s.occupied_ram)
    picked_ram n =
        rw p.after
          (ground (arith, lookup-insert p.chosen.name n (p.ram + req.ram_bytes) s.occupied_ram))

    picked_disk :
        (n : String)
        → used n s'.occupied_disk
          ≡ (if p.chosen.name == n then p.disk + req.disk_bytes else used n s.occupied_disk)
    picked_disk n =
        rw p.after
          (ground (arith, lookup-insert p.chosen.name n (p.disk + req.disk_bytes) s.occupied_disk))

    -- The picked node is within its headroom afterwards.
    Pick-InState : InState p.chosen.name s'
    Pick-InState =
        let ((node, capacity), m, e, f) = p.considered in
        let name : p.chosen.name ≡ node = ap (λ (c : Candidate). c.name) e in
        let used_ram : used node s.occupied_ram ≡ p.ram =
          rw (← name) (ground (arith, p.used_ram)) in
        let ram : p.chosen.free_ram ≡ capacity.free_ram_bytes -ℤ pos p.ram =
          ap (λ (c : Candidate). c.free_ram) e
          ∙ ap (λ (u : ℕ). capacity.free_ram_bytes -ℤ pos u) used_ram in
        let used_disk : used node s.occupied_disk ≡ p.disk =
          rw (← name) (ground (arith, p.used_disk)) in
        let disk : p.chosen.free_disk ≡ capacity.free_disk_bytes -ℤ pos p.disk =
          ap (λ (c : Candidate). c.free_disk) e
          ∙ ap (λ (u : ℕ). capacity.free_disk_bytes -ℤ pos u) used_disk in
        record {
          capacity = capacity;
          listed = rw name m;
          ram_fits = ground (arith, picked_ram p.chosen.name, eq_refl p.chosen.name, ram, f.ram);
          disk_fits =
              ground (arith, picked_disk p.chosen.name, eq_refl p.chosen.name, disk, f.disk);
        }

    -- Another node keeps what it has.
    Pick-keeps : (n : String) → InState n s → InState n s'
    Pick-keeps n w = elim (Bool-cases (p.chosen.name == n)) [
      | inl same ↦ rw (← (eq_iff p.chosen.name n).0 same) Pick-InState
      | inr other ↦ record {
        capacity = w.capacity;
        listed = w.listed;
        ram_fits = rw (picked_ram n) (rw other w.ram_fits);
        disk_fits = rw (picked_disk n) (rw other w.disk_fits);
      }
    ]

  abbrev pub AreFresh : PlanState → List PlacementRequest → Type 0
  AreFresh s = All (λ r. decided overrides s.placements r.key ≡ none)

  AreFresh-pick :
      (req : PlacementRequest) (reqs : List PlacementRequest) (s t : PlanState) (node : String)
      → t.placements ≡ insert req.key node s.placements
      → decided overrides s.placements req.key ≡ none
      → All (λ q. q.key ≢ req.key) reqs
      → AreFresh s reqs
      → AreFresh t reqs
  AreFresh-pick req [] s t node e d differ fresh = tt
  AreFresh-pick req (q ∷ reqs) s t node e d (differs, differ) (f, fresh) = (
    rw (e, decided-insert overrides s.placements req.key node q.key d)
        (ground (arith, eq_iff req.key q.key, differs, f)),
    AreFresh-pick req reqs s t node e d differ fresh,
  )

  -- Fresh picks: each leaves its node within its headroom, and none breaks an earlier one.
  pub record Packed (reqs : List PlacementRequest) (s s' : PlanState) : Type 0 where
    pub each : All (λ r. (n : String) × (lookup r.key s'.choices ≡ some n) × InState n s') reqs
    pub keeps : (n : String) → InState n s → InState n s'

  pub fresh-Packed :
      (reqs : List PlacementRequest) (s : PlanState) {s' : PlanState}
      → Counted s caps
      → Distinct reqs
      → AreFresh s reqs
      → plan_loop caps overrides reqs s ≡ ok s'
      → Packed reqs s s'
  unfolding plan_loop
  fresh-Packed [] s {s'} counters distinct fresh h =
      let same : s ≡ s' = ground (arith, h) in rw (← same) (record { each = tt; keeps = λ n w. w })
  fresh-Packed (req ∷ reqs) s {s'} counters (differ, distinct) (f, fresh) h =
      let (s1, e, t) = >>=-eq-ok (plan_one caps overrides req s) _ h in
      let pick =
        place_fresh-Pick caps req s counters (sym (plan_one-fresh caps overrides req s f) ∙ e) in
      let node = pick.chosen.name in
      let counters1 = Counted-use caps (plan_one-Use caps overrides req s e) counters in
      let fresh1 = AreFresh-pick req reqs s s1 node (rw pick.after refl) f differ fresh in
      let rest = fresh-Packed reqs s1 counters1 distinct fresh1 t in
      let chosen : lookup req.key s'.choices ≡ some node =
        plan_loop-kept caps overrides reqs s1 req.key t differ
        ∙ rw (pick.after, lookup-insert, eq_refl) refl in
      record {
        each = ((node, chosen, rest.keeps node (Pick-InState req s s1 counters pick)), rest.each);
        keeps = λ n w. rest.keeps n (Pick-keeps req s s1 counters pick n w);
      }

  pub Counted-loop :
      (reqs : List PlacementRequest) (s : PlanState) {s' : PlanState}
      → Counted s caps
      → plan_loop caps overrides reqs s ≡ ok s'
      → Counted s' caps
  unfolding plan_loop
  Counted-loop [] s {s'} c h = let same : s ≡ s' = ground (arith, h) in rw (← same) c
  Counted-loop (req ∷ reqs) s c h =
      let (s1, e, t) = >>=-eq-ok (plan_one caps overrides req s) _ h in
      Counted-loop reqs s1 (Counted-use caps (plan_one-Use caps overrides req s e) c) t
