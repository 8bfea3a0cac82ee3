-- ===== src/Base/Text.antt =====
-- Python's operations on `str`, by recursion on the text.
use Prim.Native.String.{String}
use Prim.Native.String.append
use mathlib.Core.Path.{◌≡◌, ap}
use mathlib.Core.Logic.{◌≢◌}
use mathlib.Core.Bool.{Bool, true, false}
use native.Mathlib.Omega.{arith}
use mathlib.Core.List.{List, [], ◌∷◌}
use Prim.Native.String.{◌++◌ as ◌<>◌}

-- `sep.join(parts)`
abbrev pub join : String → List String → String
join sep [] = ""
join sep (x ∷ []) = x
join sep (x ∷ y ∷ xs) = x <> (sep <> join sep (y ∷ xs))

abbrev pub is_nil : String → Bool
is_nil String.[] = true
is_nil (String.◌∷◌ c s) = false

is_nil-append : (s t : String) → is_nil s ≡ false → is_nil (s <> t) ≡ false
is_nil-append String.[] t h = ground (arith, h)
is_nil-append (String.◌∷◌ c s) t h = ap is_nil (append.cons c s t)

-- A text with a first part that is not empty.
pub append-nonempty : (s t : String) → is_nil s ≡ false → (s <> t) ≢ ""
append-nonempty s t h p = ground (arith, is_nil-append s t h, ap is_nil p)
