-- ===== src/Py/Effect/Returns.antt =====
-- What the parts of an effect returned, where the whole returned.
use rke2_lab.Base.{◌≡◌, refl, ap, ◌∙◌, ◌⊎◌, inl, inr, Bool, true, false, arith, if◌then◌else◌}
use rke2_lab.Py.Effect.{
  Result, ok, err, Exception, History, Io, lift, pure, raise, continue, try_except, ◌>>=◌, ◌>>◌,
}

module _ {ℓ κ} {A : Type ℓ} {B : Type κ} where
  continued :
      (r : Result A) (f : A → Io B) (h : History) (b : B)
      → ((lift r >>= f) h).0 ≡ ok b
      → (a : A) × (r ≡ ok a) × ((f a h).0 ≡ ok b)
  unfolding lift ◌>>=◌
  continued (ok a) f h b e = (a, refl, e)
  continued (err x) f h b e = ground (arith, e)

  pub bind-returned :
      (m : Io A) (f : A → Io B) (h : History) (b : B)
      → ((m >>= f) h).0 ≡ ok b
      → (a : A) × ((m h).0 ≡ ok a) × ((f a (m h).1).0 ≡ ok b)
  unfolding lift ◌>>=◌
  bind-returned m f h b e = let (r, h') = m h in continued r f h' b e

  -- What follows a part whose value is not used.
  pub then-returned :
      (m : Io A) (n : Io B) (h : History) (b : B) → ((m >> n) h).0 ≡ ok b → (n (m h).1).0 ≡ ok b
  then-returned m n h b e = (bind-returned m (λ _. n) h b e).2

pub pure-returned {ℓ} : {A : Type ℓ} (a b : A) (h : History) → (pure a h).0 ≡ ok b → a ≡ b
unfolding pure
pure-returned a b h e = ground (arith, e)

-- A part behind a test that raises.
pub guard-returned {ℓ} :
    {A : Type ℓ} (b : Bool) (x : Exception) (m : Io A) (h : History) (a : A)
    → ((if b then raise x else m) h).0 ≡ ok a
    → (m h).0 ≡ ok a
unfolding raise lift
guard-returned true x m h a e = ground (arith, e)
guard-returned false x m h a e = e

pub lift-returned {ℓ} :
    {A : Type ℓ} (r : Result A) (a : A) (h : History) → (lift r h).0 ≡ ok a → r ≡ ok a
unfolding lift
lift-returned r a h e = e

pub ok_inj {ℓ} : {A : Type ℓ} {a b : A} → Result.ok a ≡ ok b → a ≡ b
ok_inj e = ground (arith, e)

module _ {ℓ κ} {A : Type ℓ} {B : Type κ} where
  -- What follows a part that returned.
  pub bind_run :
      (m : Io A) (f : A → Io B) (h : History) (a : A) → (m h).0 ≡ ok a → (m >>= f) h ≡ f a (m h).1
  unfolding ◌>>=◌
  bind_run m f h a e = ap (λ r. continue r f (m h).1) e

  pub bind_pair :
      (m : Io A) (f : A → Io B) (h later : History) (a : A)
      → m h ≡ (ok a, later)
      → (m >>= f) h ≡ f a later
  bind_pair m f h later a e = bind_run m f h a (ap (λ p. p.0) e) ∙ ap (λ p. f a p.1) e

err_inj {ℓ} : {A : Type ℓ} {x y : Exception} → ◌≡◌ {A = Result A} (err x) (err y) → x ≡ y
err_inj e = ground (arith, e)

module _ {ℓ} {A : Type ℓ} where
  tried :
      (r : Result A) (handle : Exception → Io A) (h : History) (a : A)
      → r ≡ ok a
      → try_except (lift r) handle h ≡ (ok a, h)
  unfolding try_except lift
  tried (ok b) handle h a e = ap (λ c. (c, h)) e
  tried (err x) handle h a e = ground (arith, e)

  -- A `try` around a part that returned.
  pub try_run :
      (m : Io A) (handle : Exception → Io A) (h : History) (a : A)
      → (m h).0 ≡ ok a
      → try_except m handle h ≡ (ok a, (m h).1)
  unfolding try_except lift
  try_run m handle h a e = let (r, h') = m h in tried r handle h' a e

  untried :
      (r : Result A) (handle : Exception → Io A) (h : History) (x : Exception)
      → r ≡ err x
      → try_except (lift r) handle h ≡ handle x h
  unfolding try_except lift
  untried (ok b) handle h x e = ground (arith, e)
  untried (err y) handle h x e = ap (λ z. handle z h) (err_inj e)

  -- A `try` around a part that raised.
  pub try_raised :
      (m : Io A) (handle : Exception → Io A) (h : History) (x : Exception)
      → (m h).0 ≡ err x
      → try_except m handle h ≡ handle x (m h).1
  unfolding try_except lift
  try_raised m handle h x e = let (r, h') = m h in untried r handle h' x e

  try_either :
      (r : Result A) (handle : Exception → Io A) (h : History) (a : A)
      → (try_except (lift r) handle h).0 ≡ ok a
      → (r ≡ ok a) ⊎ ((x : Exception) × (r ≡ err x) × ((handle x h).0 ≡ ok a))
  unfolding try_except lift
  try_either (ok b) handle h a e = inl e
  try_either (err x) handle h a e = inr (x, refl, e)

  -- A `try` that returned: its body did, or the handler of what the body raised.
  pub try_returned :
      (m : Io A) (handle : Exception → Io A) (h : History) (a : A)
      → (try_except m handle h).0 ≡ ok a
      → ((m h).0 ≡ ok a) ⊎ ((x : Exception) × ((m h).0 ≡ err x) × ((handle x (m h).1).0 ≡ ok a))
  unfolding try_except lift
  try_returned m handle h a e = let (r, h') = m h in try_either r handle h' a e
