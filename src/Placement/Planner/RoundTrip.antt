-- ===== src/Placement/Planner/RoundTrip.antt =====
-- infra/pulumi/modules/placement.py: a record that was saved is loaded again.
use rke2_lab.Base.{
  String, ◌≡◌, refl, sym, ap, ◌∙◌, true, ◌||◌, Option, none, some, List, [], ◌∷◌, All, contains,
  ◌==◌, eq_iff, eq_refl, Option-cases, Bool-cases, inl, inr, arith, if◌then◌else◌,
}
use rke2_lab.Base.Contains.{contains-sorted, contains-keys}
use rke2_lab.Base.Dict.{Dict, lookup, has_key, keys}
use rke2_lab.Base.Sorted.{sorted}
use rke2_lab.Py.Value.{Fields, end, field, str, obj, entries}
use rke2_lab.Py.Result.{index}
use rke2_lab.Py.Effect.{ok, File, History, wrote, Env, pure, lift, emit, ◌>>=◌}
use rke2_lab.Py.Effect.Returns.{bind_pair}
use rke2_lab.Pve.Reading.{text_of}
use rke2_lab.Placement.Planner.{placements_of, read_record, load_record, in_key_order, save_record}

-- The object that `json.dumps` writes for a dict of texts.
abbrev pub fields_of : Dict String → Fields
fields_of [] = end
fields_of ((k, v) ∷ d) = field k (str v) (fields_of d)

-- A file that was just written is read back as it was.
pub record IsStored (env : Env) : Type 0 where
  pub stored :
      (h : History) (path : String) (d : Dict String)
      → env.read_json (wrote path d ∷ h) path ≡ File.content (obj (fields_of d))

abbrev pick_one : String → Option String → Dict String → Dict String
pick_one k none rest = rest
pick_one k (some v) rest = (k, v) ∷ rest

-- The entries of these keys, in their order.
pick : List String → Dict String → Dict String
pick [] d = []
pick (k ∷ ks) d = pick_one k (lookup k d) (pick ks d)

abbrev AreKnown : Dict String → List String → Type 0
AreKnown d = All λ k. has_key k d ≡ true

found_of :
    (k : String) (d : Dict String)
    → has_key k d ≡ true
    → (v : String) × (lookup k d ≡ some v) × (index k d ≡ ok v)
unfolding has_key index
found_of k d known = elim (Option-cases (lookup k d)) [
  | inl missing ↦ ground (arith, known, missing)
  | inr (v, found) ↦ (v, found, ground (arith, found))
]

in_key_order-pick :
    (ks : List String) (d : Dict String) (h : History)
    → AreKnown d ks
    → in_key_order ks d h ≡ (ok (pick ks d), h)
unfolding in_key_order pick lift pure
in_key_order-pick [] d h known = refl
in_key_order-pick (k ∷ ks) d h (here, known) =
    let (v, found, indexed) = found_of k d here in
    bind_pair (lift (index k d)) _ h h v (ap (λ r. (r, h)) indexed)
    ∙ bind_pair (in_key_order ks d) _ h h (pick ks d) (in_key_order-pick ks d h known)
    ∙ ap (λ o. (ok (pick_one k o (pick ks d)), h)) (sym found)

keys-pick : (ks : List String) (d : Dict String) → AreKnown d ks → keys (pick ks d) ≡ ks
unfolding pick keys
keys-pick [] d known = refl
keys-pick (k ∷ ks) d (here, known) =
    let (v, found, indexed) = found_of k d here in
    ap (λ o. keys (pick_one k o (pick ks d))) found ∙ ap (λ rest. k ∷ rest) (keys-pick ks d known)

lookup-pick_one :
    (j k : String) (o : Option String) (ks : List String) (d rest : Dict String)
    → lookup k d ≡ o
    → lookup j rest ≡ (if contains j ks then lookup j d else none)
    → lookup j (pick_one k o rest) ≡ (if j == k || contains j ks then lookup j d else none)
unfolding lookup
lookup-pick_one j k none ks d rest e later = elim (Bool-cases (j == k)) [
  | inl same ↦
      let missing : lookup j d ≡ none = rw ((eq_iff j k).0 same) e in
      ground (arith, later, same, missing)
  | inr other ↦ ground (arith, later, other)
]
lookup-pick_one j k (some v) ks d rest e later = elim (Bool-cases (j == k)) [
  | inl same ↦
      let here : lookup j d ≡ some v = rw ((eq_iff j k).0 same) e in
      ground (arith, here, same, eq_iff j k, eq_iff k j)
  | inr other ↦ ground (arith, later, other, eq_iff j k, eq_iff k j)
]

lookup-pick :
    (j : String) (ks : List String) (d : Dict String)
    → lookup j (pick ks d) ≡ (if contains j ks then lookup j d else none)
unfolding pick lookup
lookup-pick j [] d = refl
lookup-pick j (k ∷ ks) d =
    lookup-pick_one j k (lookup k d) ks d (pick ks d) refl (lookup-pick j ks d)

known_by :
    (d : Dict String) (ks : List String)
    → ((j : String) → contains j ks ≡ true → has_key j d ≡ true)
    → AreKnown d ks
known_by d [] k = tt
known_by d (x ∷ ks) k = (k x (rw (eq_refl x) refl), known_by d ks (λ j m. k j (ground (arith, m))))

placements_of-fields_of :
    (env : Env) (d : Dict String) → placements_of env (entries (fields_of d)) ≡ d
unfolding placements_of entries text_of
placements_of-fields_of env [] = refl
placements_of-fields_of env ((k, v) ∷ d) =
    ap (λ rest. (k, v) ∷ rest) (placements_of-fields_of env d)

kept : (j : String) (d : Dict String) → lookup j (pick (sorted (keys d)) d) ≡ lookup j d
unfolding has_key
kept j d =
    let there : contains j (sorted (keys d)) ≡ has_key j d =
      contains-sorted j (keys d) ∙ contains-keys j d in
    elim (Option-cases (lookup j d)) [
      | inl missing ↦ ground (arith, lookup-pick j (sorted (keys d)) d, there, missing)
      | inr (v, found) ↦ ground (arith, lookup-pick j (sorted (keys d)) d, there, found)
    ]

save_record-wrote :
    (path : String) (d : Dict String) (h : History)
    → AreKnown d (sorted (keys d))
    → save_record path d h ≡ (ok tt, wrote path (pick (sorted (keys d)) d) ∷ h)
unfolding save_record emit
save_record-wrote path d h known =
    bind_pair (in_key_order (sorted (keys d)) d) _ h h _
      (in_key_order-pick (sorted (keys d)) d h known)

load_record-stored :
    (env : Env) (path : String) (d : Dict String) (h : History)
    → IsStored env
    → (load_record env path (wrote path d ∷ h)).0 ≡ ok d
unfolding load_record read_record
load_record-stored env path d h fs =
    ap (read_record env path) (fs.stored h path d) ∙ ap ok (placements_of-fields_of env d)

-- On a file system that reads back what was written, a record that is saved is loaded again: the
-- loaded record has the same node for every key, or none where there was none, and its keys stand in
-- sorted order.
pub load_record-save_record :
    (env : Env) (path : String) (d : Dict String) (h : History)
    → IsStored env
    → (loaded : Dict String) × (((save_record path d >>= λ _. load_record env path) h).0
        ≡ ok loaded)
      × ((key : String) → lookup key loaded ≡ lookup key d)
      × (keys loaded ≡ sorted (keys d))
load_record-save_record env path d h fs =
    let ks = sorted (keys d) in
    let known = known_by d ks (λ j m. sym (contains-sorted j (keys d) ∙ contains-keys j d) ∙ m) in
    (
      pick ks d,
      ap (λ p. p.0) (bind_pair (save_record path d) _ h _ tt (save_record-wrote path d h known))
          ∙ load_record-stored env path (pick ks d) h fs,
      λ key. kept key d,
      keys-pick ks d known,
    )
