-- ===== src/Placement/Client/Typed.antt =====
-- infra/pulumi/modules/placement.py: `node_capacity` on answers of the shape that the API documents.
use rke2_lab.Base.{
  ℕ, zero, ◌+◌, String, ◌<>◌, ◌≡◌, refl, ap, ◌∙◌, true, false, Bool-cases, inl, inr, ◌||◌, none,
  List, [], ◌∷◌, arith,
}
use rke2_lab.Base.Int.{ℤ, pos, ◌+ℤ◌}
use rke2_lab.Py.Value.{
  Value, Fields, Items, null, int, str, obj, arr, nil, cons, end, field, items, get_default, truthy,
}
use rke2_lab.Py.Text.{has_part}
use rke2_lab.Py.Effect.{ok, History, Env, lift, pure}
use rke2_lab.Py.Effect.Returns.{bind_pair, bind_run}
use rke2_lab.Pve.Reading.{
  get_of, data_or_self, data_or_empty, or_empty, iterate_or_nil, int_of, text_of,
}
use rke2_lab.Placement.Plan.{NodeCapacity}
use rke2_lab.Placement.Client.{
  UsageClient, send, active_store, add_avail, free_disk_of, free_ram_of, node_capacity,
}

-- The answer of `/nodes/{node}/status` for this much free memory.
pub record IsUsage (free : ℤ) (payload : Value) : Type 0 where
  pub envelope : Fields
  pub answer : Fields
  pub memory : Fields
  pub is_object : payload ≡ obj envelope
  pub has_data : get_default "data" null envelope ≡ obj answer
  pub has_memory : get_default "memory" (obj end) answer ≡ obj memory
  pub has_available : get_default "available" (int (pos 0)) memory ≡ int free

-- The entries of a storage list. The free space of those that are active and take images or root
-- directories is `free` together.
pub data Stores : List Value → ℕ → Type 0 where
  no_store : Stores [] zero
  idle :
      (fs : Fields) (vs : List Value) (free : ℕ)
      → truthy (get_default "active" null fs) ≡ false
      → Stores vs free
      → Stores (obj fs ∷ vs) free
  unfit :
      (fs : Fields) (vs : List Value) (content : String) (free : ℕ)
      → get_default "content" (str "") fs ≡ str content
      → has_part "images" content ≡ false
      → has_part "rootdir" content ≡ false
      → Stores vs free
      → Stores (obj fs ∷ vs) free
  counted :
      (fs : Fields) (vs : List Value) (content : String) (here later free : ℕ)
      → truthy (get_default "active" null fs) ≡ true
      → get_default "content" (str "") fs ≡ str content
      → (has_part "images" content || has_part "rootdir" content) ≡ true
      → get_default "avail" (int (pos 0)) fs ≡ int (pos here)
      → free ≡ here + later
      → Stores vs later
      → Stores (obj fs ∷ vs) free

-- The answer of `/nodes/{node}/storage` for this much free space.
pub record IsStorage (free : ℕ) (payload : Value) : Type 0 where
  pub envelope : Fields
  pub list : Items
  pub is_object : payload ≡ obj envelope
  pub has_data : get_default "data" null envelope ≡ arr list
  pub stores : Stores (items list) free

or_empty-obj : (fs : Fields) → or_empty (obj fs) ≡ obj fs
unfolding or_empty truthy
or_empty-obj end = refl
or_empty-obj (field k v fs) = refl

iterate_or_nil-arr : (vs : Items) → iterate_or_nil (arr vs) ≡ ok (items vs)
unfolding iterate_or_nil truthy items
iterate_or_nil-arr nil = refl
iterate_or_nil-arr (cons v vs) = refl

data_or_empty-obj :
    (envelope answer : Fields)
    → get_default "data" null envelope ≡ obj answer
    → data_or_empty (obj envelope) ≡ obj answer
unfolding data_or_empty
data_or_empty-obj envelope answer e = ap or_empty e ∙ or_empty-obj answer

free_ram_of-usage :
    (free : ℤ) (payload : Value) (h : History)
    → IsUsage free payload
    → free_ram_of payload h ≡ (ok free, h)
unfolding free_ram_of get_of lift int_of
free_ram_of-usage free payload h u =
    let answered : data_or_empty payload ≡ obj u.answer =
      ap data_or_empty u.is_object ∙ data_or_empty-obj u.envelope u.answer u.has_data in
    bind_pair (lift (get_of "memory" (obj end) (data_or_empty payload))) _ h h (obj u.memory)
      (rw answered (ap (λ v. (ok v, h)) u.has_memory))
    ∙ bind_pair (lift (get_of "available" (int (pos 0)) (obj u.memory)))
        (λ available. lift (int_of available)) h h (int free) (ap (λ v. (ok v, h)) u.has_available)

pos-add : (a b : ℕ) → pos a +ℤ pos b ≡ pos (a + b)
pos-add a b = ground arith

module _ (env : Env) (h : History) (fs : Fields) (spent : ℕ) where
  add_avail-idle :
      truthy (get_default "active" null fs) ≡ false
      → add_avail env (active_store (obj fs)) (pos spent) h ≡ (ok (pos spent), h)
  unfolding add_avail pure
  add_avail-idle off = rw off refl

  add_avail-unfit :
      (content : String)
      → get_default "content" (str "") fs ≡ str content
      → has_part "images" content ≡ false
      → has_part "rootdir" content ≡ false
      → add_avail env (active_store (obj fs)) (pos spent) h ≡ (ok (pos spent), h)
  unfolding add_avail pure text_of
  add_avail-unfit content c i r = elim (Bool-cases (truthy (get_default "active" null fs))) [
    | inl on ↦ rw on (rw c (rw (i, r) refl))
    | inr off ↦ rw off refl
  ]

  add_avail-counted :
      (content : String) (here : ℕ)
      → truthy (get_default "active" null fs) ≡ true
      → get_default "content" (str "") fs ≡ str content
      → (has_part "images" content || has_part "rootdir" content) ≡ true
      → get_default "avail" (int (pos 0)) fs ≡ int (pos here)
      → add_avail env (active_store (obj fs)) (pos spent) h ≡ (ok (pos (spent + here)), h)
  unfolding add_avail pure text_of int_of lift
  add_avail-counted content here on c k a =
      rw on (rw c (rw k (rw a (ap (λ x. (ok x, h)) (pos-add spent here)))))

module _ (env : Env) (h : History) where
  free_disk_of-stores :
      (vs : List Value) (free spent : ℕ)
      → Stores vs free
      → free_disk_of env vs (pos spent) h ≡ (ok (pos (spent + free)), h)
  unfolding free_disk_of pure
  free_disk_of-stores _ _ spent no_store = ap (λ n. (ok (pos n), h)) (omega arith)
  free_disk_of-stores _ free spent (idle fs vs _ off more) =
      bind_pair (add_avail env (active_store (obj fs)) (pos spent)) (free_disk_of env vs) h h
        (pos spent) (add_avail-idle env h fs spent off)
      ∙ free_disk_of-stores vs free spent more
  free_disk_of-stores _ free spent (unfit fs vs content _ c i r more) =
      bind_pair (add_avail env (active_store (obj fs)) (pos spent)) (free_disk_of env vs) h h
        (pos spent) (add_avail-unfit env h fs spent content c i r)
      ∙ free_disk_of-stores vs free spent more
  free_disk_of-stores _ free spent (counted fs vs content here later _ on c k a e more) =
      bind_pair (add_avail env (active_store (obj fs)) (pos spent)) (free_disk_of env vs) h h
        (pos (spent + here)) (add_avail-counted env h fs spent content here on c k a)
      ∙ free_disk_of-stores vs later (spent + here) more
      ∙ ap (λ n. (ok (pos n), h)) (omega (arith, e))

module _ (env : Env) (c : UsageClient) (node : String) (h : History) where
  -- Where both requests are answered with status 200 and JSON of the documented shape, no reading of
  -- it raises: the capacity of a node is the free memory of its status, and what the active stores for
  -- images or root directories have free together.
  pub node_capacity_typed :
      (usage stores : Value) (ram : ℤ) (disk : ℕ)
      → (send env c "GET" ("/nodes/" <> (node <> "/status")) none h).0 ≡ ok (200, usage)
      → IsUsage ram usage
      → (send env c "GET"
          ("/nodes/" <> (node <> "/storage"))
          none
          (send env c "GET" ("/nodes/" <> (node <> "/status")) none h).1).0
        ≡ ok (200, stores)
      → IsStorage disk stores
      → (node_capacity env c node h).0
        ≡ ok (record { name = node; free_ram_bytes = ram; free_disk_bytes = pos disk })
  unfolding node_capacity data_or_self lift pure
  node_capacity_typed usage stores ram disk e u k s =
      let h1 = (send env c "GET" ("/nodes/" <> (node <> "/status")) none h).1 in
      let capacity : ℤ → NodeCapacity =
        λ free. record { name = node; free_ram_bytes = ram; free_disk_bytes = free } in
      let listed : iterate_or_nil (data_or_self stores) ≡ ok (items s.list) =
        ap (λ v. iterate_or_nil (data_or_self v)) s.is_object
        ∙ ap iterate_or_nil s.has_data
        ∙ iterate_or_nil-arr s.list in
      let h2 = (send env c "GET" ("/nodes/" <> (node <> "/storage")) none h1).1 in
      ap (λ p. p.0)
        (bind_run (send env c "GET" ("/nodes/" <> (node <> "/status")) none) _ h (200, usage) e
          ∙ bind_pair (free_ram_of usage) _ h1 h1 ram (free_ram_of-usage ram usage h1 u)
          ∙ bind_run (send env c "GET" ("/nodes/" <> (node <> "/storage")) none) _ h1 (200, stores)
              k
          ∙ bind_pair (lift (iterate_or_nil (data_or_self stores))) _ h2 h2 (items s.list)
              (ap (λ r. (r, h2)) listed)
          ∙ bind_pair (free_disk_of env (items s.list) (pos 0)) (λ free. pure (capacity free)) h2 h2
              (pos disk)
              (free_disk_of-stores env h2 (items s.list) disk 0 s.stores
                ∙ ap (λ n. (ok (pos n), h2)) (omega arith)))
