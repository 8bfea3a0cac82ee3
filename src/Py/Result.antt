-- ===== src/Py/Result.antt =====
-- A computation that may raise.
use rke2_lab.Base.{String, none, some, ◌≡◌, refl}
use rke2_lab.Base.Dict.{Dict, lookup}
use native.Mathlib.Omega.{arith}

-- `URLError` and the built-in `TimeoutError` are kinds of `OSError`, `JSONDecodeError` of
-- `ValueError`. The text is what `str(exc)` shows, where the program makes or reads it.
pub data Exception : Type 0 where
  runtime_error os_error value_error timeout_error : String → Exception
  key_error assertion_error : String → Exception
  index_error type_error attribute_error import_error : Exception

pub data Result {ℓ} (A : Type ℓ) : Type ℓ where
  ok : A → Result A
  err : Exception → Result A

infixl 10 ◌>>=◌
abbrev pub ◌>>=◌ {ℓ κ} : {X : Type ℓ} {Y : Type κ} → Result X → (X → Result Y) → Result Y
ok x >>= next = next x
err exc >>= next = err exc

-- `d[k]`
unfoldable pub index {ℓ} : {V : Type ℓ} → String → Dict V → Result V
index k d = elim (lookup k d) [ none ↦ err (key_error k) | some v ↦ ok v ]

-- The parts of a chain that returned.
pub >>=-eq-ok {ℓ κ} :
    {X : Type ℓ} {Y : Type κ} (first : Result X) (next : X → Result Y) {y : Y}
    → (first >>= next) ≡ ok y
    → (x : X) × (first ≡ ok x) × (next x ≡ ok y)
>>=-eq-ok (err exc) next returned = ground arith
>>=-eq-ok (ok x) next returned = (x, refl, returned)

-- A chain that is cut in another place.
pub bind_chain {ℓ κ μ} :
    {A : Type ℓ} {B : Type κ} {C : Type μ} (m : Result A) (f : A → Result B) (g : B → Result C)
    (h : A → Result C)
    → ((a : A) → h a ≡ (f a >>= g))
    → (m >>= h) ≡ ((m >>= f) >>= g)
bind_chain (ok a) f g h e = e a
bind_chain (err x) f g h e = refl
