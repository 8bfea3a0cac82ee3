-- ===== src/Py/Effect/Ends.antt =====
-- What an effect that returns leaves behind, its value and the history together, from one history.
use rke2_lab.Base.{◌≡◌, refl, Bool, true, false, Option, none, some, ◌∷◌, All, arith, if◌then◌else◌}
use rke2_lab.Py.Effect.{
  Event, Exception, Result, ok, Env, Page, Visit, visited, visit, loaded, History, Io, lift, pure,
  raise, ◌>>=◌,
}
use rke2_lab.Py.Effect.Rules.{Emits}
use rke2_lab.Py.Effect.Returns.{bind-returned, bind_run, ok_inj}

-- Where `m` returns from `h`, its value and the history then have `Q`.
pub record Ends {ℓ} {A : Type ℓ} (Q : A → History → Type 0) (h : History) (m : Io A) : Type ℓ where
  pub at : (a : A) → (m h).0 ≡ ok a → Q a (m h).1

module _ {ℓ} {A : Type ℓ} {Q : A → History → Type 0} {h : History} where
  pub Ends-pure : (a : A) → Q a h → Ends Q h (pure a)
  unfolding pure
  Ends-pure a q = record { at = λ b e. rw (← ok_inj e) q }

  pub Ends-raise : (x : Exception) → Ends Q h (raise {A = A} x)
  unfolding raise
  Ends-raise x = record { at = λ b absurd. ground (arith, absurd) }

  pub Ends-if :
      (b : Bool) (m n : Io A)
      → (b ≡ true → Ends Q h m)
      → (b ≡ false → Ends Q h n)
      → Ends Q h (if b then m else n)
  Ends-if true m n km kn = km refl
  Ends-if false m n km kn = kn refl

module _ {ℓ κ} {A : Type ℓ} {B : Type κ} {Q : B → History → Type 0} where
  -- What follows may use what the first part returned, and the history that it left.
  pub Ends-bind :
      (m : Io A) (f : A → Io B) (h : History)
      → ((a : A) → (m h).0 ≡ ok a → Ends Q (m h).1 (f a))
      → Ends Q h (m >>= f)
  Ends-bind m f h k = record {
    at = λ b e.
        let (a, got, rest) = bind-returned m f h b e in
        rw (bind_run m f h a got) ((k a got).at b rest);
  }

  pub Ends-bind_raise :
      (x : Exception) (f : A → Io B) (h : History) → Ends Q h (raise {A = A} x >>= f)
  unfolding raise
  Ends-bind_raise x f h = Ends-bind (raise x) f h (λ a absurd. ground (arith, absurd))

  pub Ends-bind_lift :
      (r : Result A) (f : A → Io B) (h : History)
      → ((a : A) → r ≡ ok a → Ends Q h (f a))
      → Ends Q h (lift r >>= f)
  unfolding lift
  Ends-bind_lift r f h k = Ends-bind (lift r) f h k

module _ {ℓ κ} {A : Type ℓ} {B : Type κ} {P : A → History → Type 0} {Q : B → History → Type 0} where
  pub Ends-after :
      (m : Io A) (f : A → Io B) (h : History)
      → Ends P h m
      → ((a : A) (h' : History) → P a h' → Ends Q h' (f a))
      → Ends Q h (m >>= f)
  Ends-after m f h first k = Ends-bind m f h (λ a got. k a (m h).1 (first.at a got))

module _ {ℓ κ} {A : Type ℓ} {B : Type κ} {P : Event → Type 0} {Q : B → History → Type 0} where
  -- The first part appends only events with `P`.
  pub Ends-Emits :
      (m : Io A) (f : A → Io B) (h : History)
      → Emits P m
      → All P h
      → ((a : A) → (m h).0 ≡ ok a → All P (m h).1 → Ends Q (m h).1 (f a))
      → Ends Q h (m >>= f)
  Ends-Emits m f h only p k = Ends-bind m f h (λ a got. k a got (only.at h p))

loaded_inj : (found : Option Page) (page : Page) → loaded found ≡ ok page → found ≡ some page
loaded_inj none page e = ground (arith, e)
loaded_inj (some p) page e = ground (arith, e)

pub visit-answered :
    (env : Env) (v : Visit) (h : History) (page : Page)
    → (visit env v h).0 ≡ ok page
    → env.browse h v ≡ some page
unfolding visit
visit-answered env v h page e = loaded_inj (env.browse h v) page e

module _ {ℓ} {B : Type ℓ} {Q : B → History → Type 0} (env : Env) where
  -- What follows the request of a session has its page, and finds the request in the history.
  pub Ends-visit :
      (v : Visit) (f : Page → Io B) (h : History)
      → ((page : Page) → env.browse h v ≡ some page → Ends Q (visited v ∷ h) (f page))
      → Ends Q h (visit env v >>= f)
  unfolding visit
  Ends-visit v f h k = Ends-bind (visit env v) f h (λ page e. k page (loaded_inj _ page e))
