-- ===== src/Py/Effect/Rules.antt =====
-- What an effect adds to the history: one rule for each way to build an effect.
use mathlib.Core.List.{Memᴰ}
use rke2_lab.Base.{String, ◌≡◌, refl, Bool, true, false, List, [], ◌∷◌, All, if◌then◌else◌}
use rke2_lab.Py.Result.{
  runtime_error, os_error, value_error, timeout_error, key_error, assertion_error, index_error,
  type_error, attribute_error, import_error,
}
use rke2_lab.Py.Effect.{
  Env, ssh_ran, read_file, now, ssh_session, except_runtime, except_import, Exception, Result, ok,
  err, Event, History, Io, pure, raise, lift, try_except, emit, ◌>>=◌, for_each,
}

-- `m` appends only events with `P`, whether it returns or raises, and what was done before stays
-- in the history.
pub record Emits {ℓ} {A : Type ℓ} (P : Event → Type 0) (m : Io A) : Type ℓ where
  pub at : (h : History) → All P h → All P (m h).1
  pub keeps : (e : Event) (h : History) → Memᴰ e h → Memᴰ e (m h).1

module _ {ℓ} {A : Type ℓ} {P : Event → Type 0} where
  pub Emits-pure : (a : A) → Emits P (pure a)
  unfolding pure
  Emits-pure a = record { at = λ h p. p; keeps = λ e h k. k }

  pub Emits-raise : (e : Exception) → Emits P (raise {A = A} e)
  unfolding raise
  Emits-raise e = record { at = λ h p. p; keeps = λ e h k. k }

  pub Emits-lift : (r : Result A) → Emits P (lift r)
  unfolding lift
  Emits-lift r = record { at = λ h p. p; keeps = λ e h k. k }

  pub Emits-if :
      (b : Bool) (m n : Io A)
      → (b ≡ true → Emits P m)
      → (b ≡ false → Emits P n)
      → Emits P (if b then m else n)
  Emits-if true m n km kn = km refl
  Emits-if false m n km kn = kn refl

  pub Emits-except_runtime :
      (k : String → Io A) (e : Exception)
      → ((text : String) → Emits P (k text))
      → Emits P (except_runtime k e)
  Emits-except_runtime k (runtime_error text) n = n text
  Emits-except_runtime k (os_error t) n = Emits-raise _
  Emits-except_runtime k (value_error t) n = Emits-raise _
  Emits-except_runtime k (timeout_error t) n = Emits-raise _
  Emits-except_runtime k (key_error t) n = Emits-raise _
  Emits-except_runtime k (assertion_error t) n = Emits-raise _
  Emits-except_runtime k index_error n = Emits-raise _
  Emits-except_runtime k type_error n = Emits-raise _
  Emits-except_runtime k attribute_error n = Emits-raise _
  Emits-except_runtime k import_error n = Emits-raise _

  pub Emits-except_import : (k : Io A) (e : Exception) → Emits P k → Emits P (except_import k e)
  Emits-except_import k import_error n = n
  Emits-except_import k (runtime_error t) n = Emits-raise _
  Emits-except_import k (os_error t) n = Emits-raise _
  Emits-except_import k (value_error t) n = Emits-raise _
  Emits-except_import k (timeout_error t) n = Emits-raise _
  Emits-except_import k (key_error t) n = Emits-raise _
  Emits-except_import k (assertion_error t) n = Emits-raise _
  Emits-except_import k index_error n = Emits-raise _
  Emits-except_import k type_error n = Emits-raise _
  Emits-except_import k attribute_error n = Emits-raise _

  handled :
      (r : Result A) (handle : Exception → Io A) (h : History)
      → ((e : Exception) → Emits P (handle e))
      → All P h
      → All P (try_except (lift r) handle h).1
  unfolding try_except lift
  handled (ok a) handle h k p = p
  handled (err e) handle h k p = (k e).at h p

  handled_keeps :
      (r : Result A) (handle : Exception → Io A) (h : History) (e : Event)
      → ((x : Exception) → Emits P (handle x))
      → Memᴰ e h
      → Memᴰ e (try_except (lift r) handle h).1
  unfolding try_except lift
  handled_keeps (ok a) handle h e k m = m
  handled_keeps (err x) handle h e k m = (k x).keeps e h m

  pub Emits-try :
      (m : Io A) (handle : Exception → Io A)
      → Emits P m
      → ((e : Exception) → Emits P (handle e))
      → Emits P (try_except m handle)
  unfolding try_except lift
  Emits-try m handle km k = record {
    at = λ h p. let (r, h') = m h in handled r handle h' k (km.at h p);
    keeps = λ e h i. let (r, h') = m h in handled_keeps r handle h' e k (km.keeps e h i);
  }

pub Emits-read_file :
    {P : Event → Type 0} (env : Env) (path : String) → Emits P (read_file env path)
unfolding read_file
Emits-read_file env path = record { at = λ h p. p; keeps = λ e h k. k }

pub Emits-now : {P : Event → Type 0} (env : Env) → Emits P (now env)
unfolding now
Emits-now env = record { at = λ h p. p; keeps = λ e h k. k }

pub Emits-ssh_session :
    {P : Event → Type 0} (env : Env) (host command : String)
    → P (ssh_ran host command)
    → Emits P (ssh_session env host command)
unfolding ssh_session
Emits-ssh_session env host command q = record { at = λ h p. (q, p); keeps = λ e h k. Memᴰ.tail k }

pub Emits-emit : {P : Event → Type 0} (e : Event) → P e → Emits P (emit e)
unfolding emit
Emits-emit e q = record { at = λ h p. (q, p); keeps = λ e h k. Memᴰ.tail k }

module _ {ℓ κ} {A : Type ℓ} {B : Type κ} {P : Event → Type 0} where
  continued :
      (r : Result A) (f : A → Io B) (h : History)
      → ((a : A) → Emits P (f a))
      → All P h
      → All P ((lift r >>= f) h).1
  unfolding ◌>>=◌
  continued (ok a) f h k p = (k a).at h p
  continued (err e) f h k p = p

  continued_keeps :
      (r : Result A) (f : A → Io B) (h : History) (e : Event)
      → ((a : A) → Emits P (f a))
      → Memᴰ e h
      → Memᴰ e ((lift r >>= f) h).1
  unfolding ◌>>=◌
  continued_keeps (ok a) f h e k m = (k a).keeps e h m
  continued_keeps (err x) f h e k m = m

  pub Emits-bind :
      (m : Io A) (f : A → Io B) → Emits P m → ((a : A) → Emits P (f a)) → Emits P (m >>= f)
  unfolding ◌>>=◌
  Emits-bind m f km k = record {
    at = λ h p. let (r, h') = m h in continued r f h' k (km.at h p);
    keeps = λ e h i. let (r, h') = m h in continued_keeps r f h' e k (km.keeps e h i);
  }

module _ {ℓ κ} {A : Type ℓ} {B : Type κ} {P : Event → Type 0} where
  continued_after :
      (r : Result A) (f : A → Io B) (h : History)
      → ((a : A) → r ≡ ok a → Emits P (f a))
      → All P h
      → All P ((lift r >>= f) h).1
  unfolding ◌>>=◌
  continued_after (ok a) f h k p = (k a refl).at h p
  continued_after (err e) f h k p = p

  after_keeps :
      (r : Result A) (f : A → Io B) (h : History) (e : Event)
      → ((a : A) → r ≡ ok a → Emits P (f a))
      → Memᴰ e h
      → Memᴰ e ((lift r >>= f) h).1
  unfolding ◌>>=◌
  after_keeps (ok a) f h e k m = (k a refl).keeps e h m
  after_keeps (err x) f h e k m = m

  -- At one history, what follows may use what the first part returned there.
  pub bind_at :
      (m : Io A) (f : A → Io B) (h : History)
      → All P (m h).1
      → ((a : A) → (m h).0 ≡ ok a → Emits P (f a))
      → All P ((m >>= f) h).1
  unfolding ◌>>=◌
  bind_at m f h p k = let (r, h') = m h in continued_after r f h' k p

  -- What follows may use that the first part returned its value.
  pub Emits-bind_after :
      (m : Io A) (f : A → Io B)
      → Emits P m
      → ((h : History) (a : A) → (m h).0 ≡ ok a → Emits P (f a))
      → Emits P (m >>= f)
  unfolding ◌>>=◌
  Emits-bind_after m f km k = record {
    at = λ h p. let (r, h') = m h in continued_after r f h' (k h) (km.at h p);
    keeps = λ e h i. let (r, h') = m h in after_keeps r f h' e (k h) (km.keeps e h i);
  }

module _ {ℓ κ} {A : Type ℓ} {B : Type κ} {P : Event → Type 0} where
  pub Emits-for_each :
      (f : A → Io B) (xs : List A) → ((a : A) → Emits P (f a)) → Emits P (for_each f xs)
  unfolding for_each
  Emits-for_each f [] k = Emits-pure []
  Emits-for_each f (x ∷ xs) k =
      Emits-bind (f x) _ (k x)
        λ y. Emits-bind (for_each f xs) _ (Emits-for_each f xs k) λ ys. Emits-pure (y ∷ ys)

pub ruleset emits_rules = (
  Emits-pure, Emits-raise, Emits-lift, Emits-if, Emits-try, Emits-bind, Emits-for_each,
  Emits-except_runtime, Emits-except_import, Emits-read_file, Emits-now,
)
