-- ===== src/Placement/Plan/Board.antt =====
-- An abstract view of `_plan`: who holds what, as functions, and the moves that placing a request may
-- make. No dict, no counter and no order of the candidates is left.
use mathlib.Core.List.{Memᴰ}
use rke2_lab.Base.{ℕ, ◌+◌, String, ◌≡◌, Option, none, some, List, [], ◌∷◌, All, ◌==◌, if◌then◌else◌}
use rke2_lab.Base.Int.{pos, ◌-ℤ◌}
use rke2_lab.Base.Dict.{Dict, lookup}
use rke2_lab.Placement.Plan.{NodeCapacity, PlacementRequest, Candidate}
use rke2_lab.Placement.Plan.Best.{IsNoWorse}
use rke2_lab.Placement.Plan.Fit.{Fits}

pub record Board : Type 0 where
  pub ram : String → ℕ
  pub disk : String → ℕ
  pub chosen : String → Option String
  pub recorded : String → Option String

abbrev pub opening : Dict String → Board
opening placements = record {
  ram = λ n. 0;
  disk = λ n. 0;
  chosen = λ k. none;
  recorded = λ k. lookup k placements;
}

-- The node that is known for a key.
abbrev pub known_to : Dict String → Board → String → Option String
known_to overrides b key = elim (lookup key overrides) [
  | some node ↦ some node
  | none ↦ b.recorded key
]

abbrev pub give : String → PlacementRequest → Board → Board
give node req b = record b {
  ram = λ n. b.ram n + (if node == n then req.ram_bytes else 0);
  disk = λ n. b.disk n + (if node == n then req.disk_bytes else 0);
  chosen = λ k. if req.key == k then some node else b.chosen k;
}

abbrev pub write_down : String → PlacementRequest → Board → Board
write_down node req b = record b {
  recorded = λ k. if req.key == k then some node else b.recorded k;
}

-- What a node has left.
abbrev pub spare : Board → String × NodeCapacity → Candidate
spare b (node, cap) = record {
  name = node;
  free_ram = cap.free_ram_bytes -ℤ pos (b.ram node);
  free_disk = cap.free_disk_bytes -ℤ pos (b.disk node);
}

module _ (caps : Dict NodeCapacity) (overrides : Dict String) where
  -- A request goes to the node that is known for its key; one with no such node goes to a node that it
  -- fits into and that is the best of those, and this is written down.
  pub data Move (req : PlacementRequest) (b : Board) : Board → Type 0 where
    known :
        (node : String) → known_to overrides b req.key ≡ some node → Move req b (give node req b)
    fresh :
        (entry : String × NodeCapacity)
        → known_to overrides b req.key ≡ none
        → Memᴰ entry caps
        → Fits req (spare b entry)
        → All (λ e. Fits req (spare b e) → IsNoWorse (spare b entry) (spare b e)) caps
        → Move req b (write_down entry.0 req (give entry.0 req b))

  -- No move is left for this request.
  pub record Stuck (req : PlacementRequest) (b : Board) : Type 0 where
    pub unknown : known_to overrides b req.key ≡ none
    pub none_fits : All (λ e. ¬ Fits req (spare b e)) caps

  -- One move for each request, in order.
  pub data Moves : List PlacementRequest → Board → Board → Type 0 where
    done : (b : Board) → Moves [] b b
    next :
        (req : PlacementRequest) (reqs : List PlacementRequest) (b c d : Board)
        → Move req b c
        → Moves reqs c d
        → Moves (req ∷ reqs) b d
