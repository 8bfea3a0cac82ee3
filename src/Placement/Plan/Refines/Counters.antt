-- ===== src/Placement/Plan/Refines/Counters.antt =====
-- The counters of `_plan` against what a board has given out.
use rke2_lab.Base.{String, ◌≡◌, refl, [], ◌∷◌, All, arith}
use rke2_lab.Base.Dict.{Dict}
use rke2_lab.Placement.Plan.{NodeCapacity, PlacementRequest, PlanState, Candidate}
use rke2_lab.Placement.Plan.Best.{IsNoWorse}
use rke2_lab.Placement.Plan.Fit.{Counted, Fits, used, remaining}
use rke2_lab.Placement.Plan.Load.{Use}
use rke2_lab.Placement.Plan.Board.{Board, give, spare}

-- The counters of the listed nodes are what the board says.
abbrev pub Loads : Board → PlanState → Dict NodeCapacity → Type 0
Loads b s = All (λ (node, _).
    (used node s.occupied_ram ≡ b.ram node) × (used node s.occupied_disk ≡ b.disk node))

pub Loads-give :
    (node : String) (req : PlacementRequest) (b : Board) {s s' : PlanState} (u : Use req s s')
    (entries : Dict NodeCapacity)
    → u.node ≡ node
    → Counted s entries
    → Loads b s entries
    → Loads (give node req b) s' entries
Loads-give node req b u [] e c h = tt
Loads-give node req b u ((n, _) ∷ entries) e (k, c) ((r, d), h) = (
  (ground (arith, u.ram n k, e, r), ground (arith, u.disk n k, e, d)),
  Loads-give node req b u entries e c h,
)

module _ (req : PlacementRequest) (b : Board) (s : PlanState) where
  spare-remaining :
      (node : String) (capacity : NodeCapacity)
      → used node s.occupied_ram ≡ b.ram node
      → used node s.occupied_disk ≡ b.disk node
      → remaining s (node, capacity) ≡ spare b (node, capacity)
  spare-remaining node capacity r d = rw (r, d) refl

  pub Loads-remaining :
      (entries : Dict NodeCapacity)
      → Loads b s entries
      → All (λ e. remaining s e ≡ spare b e) entries
  Loads-remaining [] h = tt
  Loads-remaining ((node, capacity) ∷ entries) ((r, d), h) =
      (spare-remaining node capacity r d, Loads-remaining entries h)

  pub spare-best :
      (chosen chosen' : Candidate) (entries : Dict NodeCapacity)
      → chosen ≡ chosen'
      → Loads b s entries
      → All (λ e. Fits req (remaining s e) → IsNoWorse chosen (remaining s e)) entries
      → All (λ e. Fits req (spare b e) → IsNoWorse chosen' (spare b e)) entries
  spare-best chosen chosen' [] same h k = tt
  spare-best chosen chosen' ((node, capacity) ∷ entries) same ((r, d), h) (k, ks) = (
    rw (same, spare-remaining node capacity r d) at k,
    spare-best chosen chosen' entries same h ks,
  )

  pub spare_none :
      (entries : Dict NodeCapacity)
      → Loads b s entries
      → All (λ e. ¬ Fits req (remaining s e)) entries
      → All (λ e. ¬ Fits req (spare b e)) entries
  spare_none [] h k = tt
  spare_none ((node, capacity) ∷ entries) ((r, d), h) (k, ks) =
      (rw (spare-remaining node capacity r d) at k, spare_none entries h ks)
