-- ===== src/Base/Sorted.antt =====
-- Python's `<` and `sorted` on texts, which compare code points from the left.
use Prim.Native.Char.{code}
use Prim.Native.String.{String}
use mathlib.Core.Path.{◌≡◌, refl}
use native.Mathlib.Omega.{arith}
use mathlib.Core.Bool.{Bool, true, false}
use mathlib.Core.List.{List, [], ◌∷◌}
use rke2_lab.Base.Tests.{if◌then◌else◌, ltb}

-- `a < b`
unfoldable pub str_lt : String → String → Bool
str_lt String.[] String.[] = false
str_lt String.[] (String.◌∷◌ d t) = true
str_lt (String.◌∷◌ c s) String.[] = false
str_lt (String.◌∷◌ c s) (String.◌∷◌ d t) =
    if ltb (code c) (code d) then true else if ltb (code d) (code c) then false else str_lt s t

pub str_lt_trans : (s t u : String) → str_lt s t ≡ true → str_lt t u ≡ true → str_lt s u ≡ true
unfolding str_lt
str_lt_trans String.[] String.[] u p q = ground arith
str_lt_trans String.[] (String.◌∷◌ d t) String.[] p q = ground arith
str_lt_trans String.[] (String.◌∷◌ d t) (String.◌∷◌ e u) p q = refl
str_lt_trans (String.◌∷◌ c s) String.[] u p q = ground arith
str_lt_trans (String.◌∷◌ c s) (String.◌∷◌ d t) String.[] p q = ground arith
str_lt_trans (String.◌∷◌ c s) (String.◌∷◌ d t) (String.◌∷◌ e u) p q =
    ground (arith, str_lt_trans s t u)

-- "Not less" is transitive too.
pub str_le_trans : (s t u : String) → str_lt t s ≡ false → str_lt u t ≡ false → str_lt u s ≡ false
unfolding str_lt
str_le_trans String.[] t String.[] p q = refl
str_le_trans String.[] t (String.◌∷◌ e u) p q = refl
str_le_trans (String.◌∷◌ c s) String.[] u p q = ground arith
str_le_trans (String.◌∷◌ c s) (String.◌∷◌ d t) String.[] p q = ground arith
str_le_trans (String.◌∷◌ c s) (String.◌∷◌ d t) (String.◌∷◌ e u) p q =
    ground (arith, str_le_trans s t u)

pub str_lt_irrefl : (s : String) → str_lt s s ≡ false
unfolding str_lt
str_lt_irrefl String.[] = refl
str_lt_irrefl (String.◌∷◌ c s) = ground (arith, str_lt_irrefl s)

pub str_lt_asymm : (s t : String) → str_lt s t ≡ true → str_lt t s ≡ false
unfolding str_lt
str_lt_asymm String.[] String.[] p = refl
str_lt_asymm String.[] (String.◌∷◌ d t) p = refl
str_lt_asymm (String.◌∷◌ c s) String.[] p = ground arith
str_lt_asymm (String.◌∷◌ c s) (String.◌∷◌ d t) p = ground (arith, str_lt_asymm s t)

-- The position of `k` among sorted texts: before the first that is greater or equal.
unfoldable pub insert_sorted : String → List String → List String
insert_sorted k [] = k ∷ []
insert_sorted k (x ∷ xs) = if str_lt x k then x ∷ insert_sorted k xs else k ∷ x ∷ xs

-- `sorted(xs)`
unfoldable pub sorted : List String → List String
unfolding insert_sorted
sorted [] = []
sorted (x ∷ xs) = insert_sorted x (sorted xs)
