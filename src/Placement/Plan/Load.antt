-- ===== src/Placement/Plan/Load.antt =====
-- The counters of `_plan` against the choices that it returns: what each node is given.
use rke2_lab.Base.{
  ℕ, ◌+◌, String, ◌≡◌, refl, sym, ◌∙◌, ◌≢◌, inl, inr, Bool, false, Option, none, some, Option-cases,
  List, [], ◌∷◌, All, arith, eq_refl, eq_iff, ◌==◌, if◌then◌else◌,
}
use rke2_lab.Base.Dict.{Dict, lookup, insert, lookup-insert}
use rke2_lab.Py.Result.{ok, >>=-eq-ok}
use rke2_lab.Placement.Plan.{NodeCapacity, PlacementRequest, PlanState, best, plan_one, plan_loop}
use rke2_lab.Placement.Plan.Fit.{used}
use rke2_lab.Placement.Plan.Decided.{decided, plan_one-pin, plan_one-fresh}
use rke2_lab.Placement.Plan.Steps.{counted, chose, noted, pin-eq-ok, place_fresh-eq-ok}

-- The node has counters of both kinds.
abbrev pub HasCounters : String → PlanState → Type 0
HasCounters n s =
    ((x : ℕ) × (lookup n s.occupied_ram ≡ some x)) × ((x : ℕ) × (lookup n s.occupied_disk ≡ some x))

-- What the requests that were given to `n` ask for in total.
abbrev placed_on : String → Option String → Bool
placed_on n none = false
placed_on n (some m) = m == n

unfoldable pub load : (PlacementRequest → ℕ) → String → Dict String → List PlacementRequest → ℕ
load size n choices [] = 0
load size n choices (req ∷ reqs) =
    (if placed_on n (lookup req.key choices) then size req else 0) + load size n choices reqs

-- The keys of the requests differ, as those of a dict do.
abbrev pub Distinct : List PlacementRequest → Type 0
Distinct [] = Unit
Distinct (req ∷ reqs) = All (λ q. q.key ≢ req.key) reqs × Distinct reqs

pub record Use (req : PlacementRequest) (s s' : PlanState) : Type 0 where
  pub node : String
  pub chosen : s'.choices ≡ insert req.key node s.choices
  pub counters : (n : String) → HasCounters n s → HasCounters n s'
  pub ram :
      (n : String)
      → HasCounters n s
      → used n s'.occupied_ram ≡ used n s.occupied_ram + (if node == n then req.ram_bytes else 0)
  pub disk :
      (n : String)
      → HasCounters n s
      → used n s'.occupied_disk ≡ used n s.occupied_disk + (if node == n then req.disk_bytes else 0)

used-insert :
    (node n : String) (d : Dict ℕ) (x size : ℕ)
    → lookup node d ≡ some x
    → used n (insert node (x + size) d) ≡ used n d + (if node == n then size else 0)
used-insert node n d x size e = ground (arith, lookup-insert node n (x + size) d, eq_iff node n, e)

counters_insert :
    (node n : String) (d : Dict ℕ) (v : ℕ)
    → ((x : ℕ) × (lookup n d ≡ some x))
    → (x : ℕ) × (lookup n (insert node v d) ≡ some x)
counters_insert node n d v (x, e) =
    ((if node == n then v else x), ground (arith, lookup-insert node n v d, e))

module _ (node : String) (req : PlacementRequest) where
  Use-counted :
      (ram disk : ℕ) (s t : PlanState)
      → t.choices ≡ insert req.key node s.choices
      → t.occupied_ram ≡ s.occupied_ram
      → t.occupied_disk ≡ s.occupied_disk
      → lookup node s.occupied_ram ≡ some ram
      → lookup node s.occupied_disk ≡ some disk
      → Use req s (counted node req ram disk t)
  Use-counted ram disk s t c r d er ed = record {
    node = node;
    chosen = c;
    counters = λ n (x, y). (
      rw r (counters_insert node n s.occupied_ram (ram + req.ram_bytes) x),
      rw d (counters_insert node n s.occupied_disk (disk + req.disk_bytes) y),
    );
    ram = λ n k. rw r (used-insert node n s.occupied_ram ram req.ram_bytes er);
    disk = λ n k. rw d (used-insert node n s.occupied_disk disk req.disk_bytes ed);
  }

  Use-chose : (s : PlanState) → lookup node s.occupied_ram ≡ none → Use req s (chose node req s)
  Use-chose s e = record {
    node = node;
    chosen = refl;
    counters = λ n k. k;
    ram = λ n ((x, ex), _). ground (arith, e, ex, eq_iff node n);
    disk = λ n ((x, ex), _). ground (arith, e, ex, eq_iff node n);
  }

module _ (caps : Dict NodeCapacity) (overrides : Dict String) where
  pub plan_one-Use :
      (req : PlacementRequest) (s : PlanState) {s' : PlanState}
      → plan_one caps overrides req s ≡ ok s'
      → Use req s s'
  plan_one-Use req s {s'} h = elim (Option-cases (decided overrides s.placements req.key)) [
    | inr (node, d) ↦
        elim (pin-eq-ok node req s {s' = s'} (sym (plan_one-pin caps overrides req s node d) ∙ h)) [
          | inl (e, q) ↦ rw q (Use-chose node req s e)
          | inr (ram, disk, er, ed, q) ↦
              rw q (Use-counted node req ram disk s (chose node req s) refl refl refl er ed)
        ]
    | inl d ↦
        let (c, cs, ram, disk, e, er, ed, q) =
          place_fresh-eq-ok req caps s {s' = s'}
            (sym (plan_one-fresh caps overrides req s d) ∙ h) in
        let node = (best c cs).name in
        rw q (Use-counted node req ram disk s (noted req node s) refl refl refl er ed)
  ]

  pub plan_loop-kept :
      (reqs : List PlacementRequest) (s : PlanState) {s' : PlanState} (k : String)
      → plan_loop caps overrides reqs s ≡ ok s'
      → All (λ r. r.key ≢ k) reqs
      → lookup k s'.choices ≡ lookup k s.choices
  unfolding plan_loop
  plan_loop-kept [] s k h other = ground (arith, h)
  plan_loop-kept (req ∷ reqs) s k h (differs, other) =
      let (s1, e, t) = >>=-eq-ok (plan_one caps overrides req s) _ h in
      let one = plan_one-Use req s e in
      plan_loop-kept reqs s1 k t other
      ∙ rw one.chosen
          (ground (arith, lookup-insert req.key k one.node s.choices, eq_iff req.key k, differs))

  -- The counters of a node grow by what the requests that it is given ask for.
  pub record Loaded (reqs : List PlacementRequest) (s s' : PlanState) (n : String) : Type 0 where
    pub ram :
        used n s'.occupied_ram ≡ used n s.occupied_ram + load (λ r. r.ram_bytes) n s'.choices reqs
    pub disk :
        used n s'.occupied_disk
        ≡ used n s.occupied_disk + load (λ r. r.disk_bytes) n s'.choices reqs
    pub counters : HasCounters n s'

  pub plan_loop-Loaded :
      (reqs : List PlacementRequest) (s : PlanState) {s' : PlanState} (n : String)
      → Distinct reqs
      → plan_loop caps overrides reqs s ≡ ok s'
      → HasCounters n s
      → Loaded reqs s s' n
  unfolding plan_loop load
  plan_loop-Loaded [] s {s'} n distinct h k =
      let same : s ≡ s' = ground (arith, h) in
      rw (← same) (record { ram = omega arith; disk = omega arith; counters = k })
  plan_loop-Loaded (req ∷ reqs) s {s'} n (differ, distinct) h k =
      let (s1, e, t) = >>=-eq-ok (plan_one caps overrides req s) _ h in
      let one = plan_one-Use req s e in
      let rest = plan_loop-Loaded reqs s1 n distinct t (one.counters n k) in
      let node : lookup req.key s'.choices ≡ some one.node =
        plan_loop-kept reqs s1 req.key t differ ∙ rw (one.chosen, lookup-insert, eq_refl) refl in
      record {
        ram = rw node (omega (arith, rest.ram, one.ram n k));
        disk = rw node (omega (arith, rest.disk, one.disk n k));
        counters = rest.counters;
      }
