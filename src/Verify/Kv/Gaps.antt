-- ===== src/Verify/Kv/Gaps.antt =====
-- verify/helpers.py: what `bao_kv_keys_present` makes sure of.
use rke2_lab.Base.{
  String, ◌≡◌, ◌≢◌, refl, sym, ap, ◌∙◌, Bool, true, false, List, [], ◌∷◌, ◌++◌, All, arith,
  if◌then◌else◌,
}
use rke2_lab.Base.Dict.{Dict}
use rke2_lab.Py.Value.{Value}
use rke2_lab.Py.Result.{
  runtime_error, os_error, value_error, timeout_error, key_error, index_error, type_error,
  assertion_error, attribute_error, import_error,
}
use rke2_lab.Py.Effect.{
  Result, ok, err, Exception, Env, Io, History, pure, raise, lift, try_except, except_runtime,
  ◌>>=◌,
}
use rke2_lab.Py.Effect.Returns.{bind-returned, pure-returned}
use rke2_lab.Verify.Kv.{
  bao_kv_data, value_has, key_gaps, Reading, holds, unread, read_path, gaps_in, kv_gaps,
  assert_no_gaps, bao_kv_keys_present,
}

-- Read in this order, each path holds all of its keys.
abbrev pub Present : Env → Dict (List String) → History → Type 0
Present env [] h = Unit
Present env ((path, keys) ∷ expected) h =
    (held : Value) × ((bao_kv_data env path h).0 ≡ ok held)
    × All (λ key. value_has key held ≡ ok true) keys
    × Present env expected (bao_kv_data env path h).1

-- A failed read is no value.
unread-differs :
    (e : Exception) (h : History) (held : Value)
    → (except_runtime (λ text. pure (unread text)) e h).0 ≢ ok (holds held)
unfolding pure raise
unread-differs (runtime_error t) h held p = ground (arith, p)
unread-differs (os_error t) h held p = ground (arith, p)
unread-differs (value_error t) h held p = ground (arith, p)
unread-differs (timeout_error t) h held p = ground (arith, p)
unread-differs (key_error t) h held p = ground (arith, p)
unread-differs (assertion_error t) h held p = ground (arith, p)
unread-differs index_error h held p = ground (arith, p)
unread-differs type_error h held p = ground (arith, p)
unread-differs attribute_error h held p = ground (arith, p)
unread-differs import_error h held p = ground (arith, p)

read_of :
    (r : Result Value) (h : History) (held : Value)
    → ((try_except (lift r >>= λ v. pure (holds v)) (except_runtime λ text. pure (unread text)))
        h).0
      ≡ ok (holds held)
    → (r ≡ ok held)
      × (((try_except (lift r >>= λ v. pure (holds v)) (except_runtime λ text. pure (unread text)))
            h).1
          ≡ h)
unfolding try_except lift pure ◌>>=◌
read_of (ok v) h held p = (ground (arith, p), refl)
read_of (err e) h held p = elim (unread-differs e h held p) [ ]

read_path-holds :
    (env : Env) (path : String) (h : History) (held : Value)
    → (read_path env path h).0 ≡ ok (holds held)
    → ((bao_kv_data env path h).0 ≡ ok held)
      × ((read_path env path h).1 ≡ (bao_kv_data env path h).1)
unfolding read_path try_except lift ◌>>=◌
read_path-holds env path h held p = let (r, h') = bao_kv_data env path h in read_of r h' held p

no_gap :
    (present : Bool) (gap : String) (rest : List String)
    → (if present then rest else gap ∷ rest) ≡ []
    → (present ≡ true) × (rest ≡ [])
no_gap true gap rest e = (refl, e)
no_gap false gap rest e = ground (arith, e)

key_gaps-none :
    (path : String) (held : Value) (keys : List String) (h : History)
    → (key_gaps path held keys h).0 ≡ ok []
    → All (λ key. value_has key held ≡ ok true) keys
unfolding key_gaps lift
key_gaps-none path held [] h p = tt
key_gaps-none path held (key ∷ keys) h p =
    let (present, found, p1) = bind-returned (lift (value_has key held)) _ h [] p in
    let (rest, listed, p2) = bind-returned (key_gaps path held keys) _ h [] p1 in
    let (here, later) =
      no_gap present _ rest (pure-returned _ [] (key_gaps path held keys h).1 p2) in
    (found ∙ ap ok here, key_gaps-none path held keys h (listed ∙ ap ok later))

mapped-silent {ℓ κ} :
    {A : Type ℓ} {B : Type κ} (r : Result A) (f : A → B) (h : History)
    → ((lift r >>= λ a. pure (f a)) h).1 ≡ h
unfolding lift pure ◌>>=◌
mapped-silent (ok a) f h = refl
mapped-silent (err e) f h = refl

then-silent {ℓ κ μ} :
    {A : Type ℓ} {B : Type κ} {C : Type μ} (r : Result A) (m : Io B) (f : A → B → C) (h : History)
    → (m h).1 ≡ h
    → ((lift r >>= λ a. m >>= λ b. pure (f a b)) h).1 ≡ h
unfolding lift pure ◌>>=◌
then-silent (err e) m f h k = refl
then-silent (ok a) m f h k = let (s, h') = m h in mapped-silent s (f a) h' ∙ k

key_gaps-silent :
    (path : String) (held : Value) (keys : List String) (h : History)
    → (key_gaps path held keys h).1 ≡ h
unfolding key_gaps pure
key_gaps-silent path held [] h = refl
key_gaps-silent path held (key ∷ keys) h =
    then-silent (value_has key held) (key_gaps path held keys) _ h
      (key_gaps-silent path held keys h)

append-empty : (xs ys : List String) → xs ++ ys ≡ [] → (xs ≡ []) × (ys ≡ [])
append-empty [] ys e = (refl, e)
append-empty (x ∷ xs) ys e = ground (arith, e)

gaps_in-none :
    (path : String) (keys : List String) (reading : Reading) (h : History)
    → (gaps_in path keys reading h).0 ≡ ok []
    → (held : Value) × (reading ≡ holds held)
      × All (λ key. value_has key held ≡ ok true) keys
      × ((gaps_in path keys reading h).1 ≡ h)
unfolding pure
gaps_in-none path keys (holds held) h p =
    (held, refl, key_gaps-none path held keys h p, key_gaps-silent path held keys h)
gaps_in-none path keys (unread text) h p = ground (arith, p)

kv_gaps-none :
    (env : Env) (expected : Dict (List String)) (h : History)
    → (kv_gaps env expected h).0 ≡ ok []
    → Present env expected h
unfolding kv_gaps
kv_gaps-none env [] h p = tt
kv_gaps-none env ((path, keys) ∷ expected) h p =
    let h1 = (read_path env path h).1 in
    let (reading, was_read, p1) = bind-returned (read_path env path) _ h [] p in
    let h2 = (gaps_in path keys reading h1).1 in
    let (missing, found, p2) = bind-returned (gaps_in path keys reading) _ h1 [] p1 in
    let (rest, listed, p3) = bind-returned (kv_gaps env expected) _ h2 [] p2 in
    let (none_here, none_later) =
      append-empty missing rest (pure-returned _ [] (kv_gaps env expected h2).1 p3) in
    let (held, same, all_there, silent) =
      gaps_in-none path keys reading h1 (found ∙ ap ok none_here) in
    let (value, older) = read_path-holds env path h held (was_read ∙ ap ok same) in
    (
      held,
      value,
      all_there,
      rw (sym (silent ∙ older)) (kv_gaps-none env expected h2 (listed ∙ ap ok none_later)),
    )

asserted : (gaps : List String) (h : History) → (assert_no_gaps gaps h).0 ≡ ok tt → gaps ≡ []
unfolding pure raise
asserted [] h p = refl
asserted (gap ∷ gaps) h p = ground (arith, p)

-- Where the check passes, each expected path could be read, and what it held then has each of the
-- keys that are listed for it.
pub bao_kv_keys_present-Present :
    (env : Env) (expected : Dict (List String)) (h : History)
    → (bao_kv_keys_present env expected h).0 ≡ ok tt
    → Present env expected h
unfolding bao_kv_keys_present
bao_kv_keys_present-Present env expected h p =
    let (gaps, found, p1) = bind-returned (kv_gaps env expected) _ h tt p in
    kv_gaps-none env expected h (found ∙ ap ok (asserted gaps (kv_gaps env expected h).1 p1))
