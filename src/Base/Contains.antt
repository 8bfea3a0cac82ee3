-- ===== src/Base/Contains.antt =====
-- Membership of a text in lists of texts, by the Boolean test.
use Prim.Native.String.{String}
use mathlib.Core.Path.{◌≡◌, refl, ◌∙◌}
use mathlib.Core.Bool.{Bool, true, false, not, ◌&&◌, ◌||◌}
use mathlib.Core.List.{List, [], ◌∷◌, ◌++◌}
use native.Mathlib.Omega.{arith}
use text.Mathlib.Text.{◌==◌}
use text.Mathlib.TextEquality.{eq_iff}
use text.Mathlib.TextPositions.{eq_refl}
use rke2_lab.Base.Lists.{contains}
use rke2_lab.Base.Dict.{Dict, lookup, keys, has_key, insert, has_key-insert}
use rke2_lab.Base.Sorted.{insert_sorted, sorted}

pub contains-append :
    (k : String) (xs ys : List String) → contains k (xs ++ ys) ≡ (contains k xs || contains k ys)
contains-append k [] ys = refl
contains-append k (x ∷ xs) ys = ground (arith, contains-append k xs ys)

contains-insert_sorted :
    (k x : String) (l : List String) → contains k (insert_sorted x l) ≡ (k == x || contains k l)
unfolding insert_sorted
contains-insert_sorted k x [] = refl
contains-insert_sorted k x (y ∷ l) = ground (arith, contains-insert_sorted k x l)

pub contains-sorted : (k : String) (l : List String) → contains k (sorted l) ≡ contains k l
unfolding sorted
contains-sorted k [] = refl
contains-sorted k (x ∷ l) =
    ground (arith, contains-insert_sorted k x (sorted l), contains-sorted k l)

pub contains-keys {ℓ} : {V : Type ℓ} (k : String) (d : Dict V) → contains k (keys d) ≡ has_key k d
unfolding keys has_key lookup
contains-keys k [] = refl
contains-keys k ((name, v) ∷ d) = ground (arith, contains-keys k d, eq_iff k name, eq_iff name k)

-- No text stands twice in the list.
abbrev pub unique : List String → Bool
unique [] = true
unique (k ∷ ks) = not (contains k ks) && unique ks

unique-insert_sorted :
    (k : String) (l : List String) → unique (insert_sorted k l) ≡ (not (contains k l) && unique l)
unfolding insert_sorted
unique-insert_sorted k [] = refl
unique-insert_sorted k (x ∷ l) =
    ground (arith, unique-insert_sorted k l, contains-insert_sorted x k l, eq_iff k x, eq_iff x k)

pub unique-sorted : (l : List String) → unique (sorted l) ≡ unique l
unfolding sorted
unique-sorted [] = refl
unique-sorted (x ∷ l) =
    ground (arith, unique-insert_sorted x (sorted l), contains-sorted x l, unique-sorted l)

pub unique-append :
    (xs ys : List String)
    → unique xs ≡ true
    → unique ys ≡ true
    → ((k : String) → contains k xs ≡ true → contains k ys ≡ false)
    → unique (xs ++ ys) ≡ true
unique-append [] ys u v apart = v
unique-append (x ∷ xs) ys u v apart =
    let here : contains x ys ≡ false = apart x (ground (arith, eq_refl x)) in
    let rest : unique (xs ++ ys) ≡ true =
      unique-append xs ys (ground (arith, u)) v (λ k m. apart k (ground (arith, m))) in
    ground (arith, u, here, rest, contains-append x xs ys)

contains-insert {ℓ} :
    {V : Type ℓ} (j k : String) (v : V) (d : Dict V)
    → contains j (keys (insert k v d)) ≡ (k == j || contains j (keys d))
contains-insert j k v d =
    contains-keys j (insert k v d) ∙ ground (arith, has_key-insert k j v d, contains-keys j d)

-- Writing to a dict keeps its keys apart.
pub unique-insert {ℓ} :
    {V : Type ℓ} (k : String) (v : V) (d : Dict V) → unique (keys (insert k v d)) ≡ unique (keys d)
unfolding keys insert
unique-insert k v [] = refl
unique-insert k v ((name, held) ∷ d) =
    ground (arith, unique-insert k v d, contains-insert name k v d, eq_iff name k, eq_iff k name)
