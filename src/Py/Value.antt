-- ===== src/Py/Value.antt =====
-- Values that `json.loads` returns. A number with a fraction occurs in no field that the program
-- reads, and is left out.
use rke2_lab.Base.{
  ℕ, zero, String, Bool, true, false, Option, none, some, List, [], ◌∷◌, ◌==◌, eqb, if◌then◌else◌,
}
use rke2_lab.Base.Int.{ℤ, pos}
use rke2_lab.Base.Dict.{Dict}

mutual
  pub data Fields : Type 0 where
    end : Fields
    field : String → Value → Fields → Fields

  pub data Items : Type 0 where
    nil : Items
    cons : Value → Items → Items

  pub data Value : Type 0 where
    str : String → Value
    int : ℤ → Value
    bool : Bool → Value
    null : Value
    obj : Fields → Value
    arr : Items → Value

-- The elements of a list, in order.
unfoldable pub items : Items → List Value
items nil = []
items (cons v vs) = v ∷ items vs

-- The entries of a dict, in order.
unfoldable pub entries : Fields → Dict Value
entries end = []
entries (field k v fs) = (k, v) ∷ entries fs

-- `d.get(k)` on a dict; `none` for a missing key.
unfoldable pub get : String → Fields → Option Value
get k end = none
get k (field j v fs) = if j == k then some v else get k fs

-- `d.get(k, default)`
unfoldable pub get_default : String → Value → Fields → Value
unfolding get
get_default k default fs = elim (get k fs) [ none ↦ default | some v ↦ v ]

-- The truth value of a test on `v`.
unfoldable pub truthy : Value → Bool
truthy null = false
truthy (bool b) = b
truthy (int (pos zero)) = false
truthy (int _) = true
truthy (str t) = if t == "" then false else true
truthy (arr nil) = false
truthy (arr (cons _ _)) = true
truthy (obj end) = false
truthy (obj (field _ _ _)) = true

-- `v == "..."`
unfoldable pub equals_text : String → Value → Bool
equals_text t (str s) = s == t
equals_text t _ = false

-- `v == n` for an int: a bool counts as 0 or 1.
unfoldable pub equals_int : ℕ → Value → Bool
equals_int n (int (pos m)) = eqb m n
equals_int n (bool true) = eqb 1 n
equals_int n (bool false) = eqb 0 n
equals_int n _ = false
