-- ===== src/Cleanup/Orphans/Found.antt =====
-- infra/pulumi/modules/pve_cleanup.py: what `find_orphans` returns.
mod Stores
use mathlib.Core.List.{Memᴰ, append_assoc}
use rke2_lab.Base.{
  String, Bool, true, false, ◌||◌, ◌≡◌, refl, sym, ap, ◌∙◌, ◌⊎◌, Option, none, some, List, [], ◌∷◌,
  ◌++◌, eq_iff, All, All-append, Bool-cases, inl, inr, arith, if◌then◌else◌,
}
use rke2_lab.Py.Value.{Value}
use rke2_lab.Py.Text.{after_colon}
use rke2_lab.Py.Result.{runtime_error}
use rke2_lab.Py.Effect.{Result, ok, err, Exception, Env, History, lift, pure, raise, except_runtime}
use rke2_lab.Py.Effect.Returns.{bind-returned, bind_run, pure-returned, try_returned, ok_inj}
use rke2_lab.Cleanup.Client.{PveClient, Content, hashed, node_vmids, node_content}
use rke2_lab.Cleanup.Orphans.Found.Stores.{Listed, store_step, scan_stores-append, listed_cases}
use rke2_lab.Cleanup.Orphans.{
  Orphan, held, owner_of, same_orphan, seen, add_new, scan_key, scan_entry, scan_content,
  listed_content, scan_stores, find_orphans,
}

-- No two are equal.
abbrev pub AllDistinct : List Orphan → Type 0
AllDistinct [] = Unit
AllDistinct (o ∷ os) = (seen o os ≡ false) × AllDistinct os

same_orphan_comm : (a b : Orphan) → same_orphan a b ≡ same_orphan b a
same_orphan_comm a b = ground (
  arith,
  eq_iff a.node b.node,
  eq_iff b.node a.node,
  eq_iff a.datastore b.datastore,
  eq_iff b.datastore a.datastore,
  eq_iff a.volume b.volume,
  eq_iff b.volume a.volume,
)

seen-append :
    (a key : Orphan) (os : List Orphan)
    → seen a (os ++ (key ∷ [])) ≡ (seen a os || same_orphan key a)
unfolding seen
seen-append a key [] = ground arith
seen-append a key (o ∷ os) = ground (arith, seen-append a key os)

append-AllDistinct :
    (key : Orphan) (os : List Orphan)
    → seen key os ≡ false
    → AllDistinct os
    → AllDistinct (os ++ (key ∷ []))
unfolding seen
append-AllDistinct key [] fresh d = (refl, tt)
append-AllDistinct key (o ∷ os) fresh (d, ds) = (
  ground (arith, seen-append o key os, d, fresh, same_orphan_comm o key),
  append-AllDistinct key os (ground (arith, fresh)) ds,
)

-- `o` names a volume that stands in the listing of its store, and whose VMID is not among the
-- existing ones.
pub record Unowned (env : Env) (c : PveClient) (ticket node : String) (stores : List String)
    (existing : List Value) (h : History) (o : Orphan) : Type 0 where
  pub on_node : o.node ≡ node
  pub entries : List Content
  pub listed : Listed env c ticket node stores existing h o.datastore entries
  pub entry : Content
  pub stands : Memᴰ entry entries
  pub names : o.volume ≡ after_colon entry.volid
  pub vmid : Value
  pub key : Value
  pub owner : owner_of entry ≡ some vmid
  pub hash : hashed vmid ≡ ok key
  pub gone : held key existing ≡ false

module _ (env : Env) (c : PveClient) (ticket node : String) (stores : List String)
    (existing : List Value) (begun : History) where
  abbrev IsUnowned : Orphan → Type 0
  IsUnowned = Unowned env c ticket node stores existing begun

  abbrev Sound : List Orphan → Type 0
  Sound os = All IsUnowned os × AllDistinct os

  add_new-Sound :
      (key : Orphan) (os : List Orphan) → IsUnowned key → Sound os → Sound (add_new key os)
  unfolding add_new
  add_new-Sound key os u (us, d) = elim (Bool-cases (seen key os)) [
    | inl old ↦ rw old (us, d)
    | inr fresh ↦
        rw fresh (All-append IsUnowned os (key ∷ []) us (u, tt), append-AllDistinct key os fresh d)
  ]

  module _ (datastore : String) (entries : List Content)
      (listed : Listed env c ticket node stores existing begun datastore entries) where
    keyed :
        (entry : Content) (vmid k : Value) (os : List Orphan) (b : Bool)
        → Memᴰ entry entries
        → owner_of entry ≡ some vmid
        → hashed vmid ≡ ok k
        → held k existing ≡ b
        → Sound os
        → Sound (
            if b
            then os
            else add_new
                (record { node = node; datastore = datastore; volume = after_colon entry.volid })
                os)
    keyed entry vmid k os true m owner hash gone s = s
    keyed entry vmid k os false m owner hash gone s =
        add_new-Sound _ os
          (record {
            on_node = refl;
            entries = entries;
            listed = listed;
            entry = entry;
            stands = m;
            names = refl;
            vmid = vmid;
            key = k;
            owner = owner;
            hash = hash;
            gone = gone;
          })
          s

    scan_key-Sound :
        (entry : Content) (vmid : Value) (r : Result Value) (os more : List Orphan)
        → Memᴰ entry entries
        → owner_of entry ≡ some vmid
        → hashed vmid ≡ r
        → scan_key node datastore existing entry r os ≡ ok more
        → Sound os
        → Sound more
    unfolding scan_key
    scan_key-Sound entry vmid (err x) os more m owner hash e s = ground (arith, e)
    scan_key-Sound entry vmid (ok k) os more m owner hash e s =
        rw (sym (ok_inj e)) (keyed entry vmid k os (held k existing) m owner hash refl s)

    scan_entry-Sound :
        (entry : Content) (o : Option Value) (os more : List Orphan)
        → Memᴰ entry entries
        → owner_of entry ≡ o
        → scan_entry node datastore existing entry o os ≡ ok more
        → Sound os
        → Sound more
    unfolding scan_entry
    scan_entry-Sound entry none os more m owner e s = rw (sym (ok_inj e)) s
    scan_entry-Sound entry (some vmid) os more m owner e s =
        scan_key-Sound entry vmid (hashed vmid) os more m owner refl e s

    scan_content-Sound :
        (cs : List Content) (os more : List Orphan) (h : History)
        → ((entry : Content) → Memᴰ entry cs → Memᴰ entry entries)
        → (scan_content node datastore existing cs os h).0 ≡ ok more
        → Sound os
        → Sound more
    unfolding scan_content lift
    scan_content-Sound [] os more h m e s = rw (sym (pure-returned os more h e)) s
    scan_content-Sound (entry ∷ cs) os more h m e s =
        let (mid, first, rest) =
          bind-returned (lift (scan_entry node datastore existing entry (owner_of entry) os))
            (scan_content node datastore existing cs) h more e in
        scan_content-Sound cs mid more h (λ x k. m x (Memᴰ.tail k)) rest
          (scan_entry-Sound entry (owner_of entry) os mid (m entry (Memᴰ.head refl)) refl first s)

  unlisted-Sound :
      (d : String) (entries : List Content) (os more : List Orphan) (h : History)
      → entries ≡ []
      → (scan_content node d existing entries os h).0 ≡ ok more
      → Sound os
      → Sound more
  unfolding scan_content
  unlisted-Sound d [] os more h none_left e s = rw (sym (pure-returned os more h e)) s
  unlisted-Sound d (x ∷ xs) os more h none_left e s = cc

  scan_stores-Sound :
      (earlier todo : List String) (os more : List Orphan) (h : History)
      → stores ≡ earlier ++ todo
      → scan_stores env c ticket node existing earlier [] begun ≡ (ok os, h)
      → (scan_stores env c ticket node existing todo os h).0 ≡ ok more
      → Sound os
      → Sound more
  unfolding scan_stores
  scan_stores-Sound earlier [] os more h split ran e s = rw (sym (pure-returned os more h e)) s
  scan_stores-Sound earlier (d ∷ todo) os more h split ran e s =
      let one = store_step env c ticket node existing d todo os more h e in
      let done : scan_stores env c ticket node existing (earlier ++ (d ∷ [])) [] begun
          ≡ (ok one.mid, one.later) =
        scan_stores-append env c ticket node existing earlier (d ∷ []) [] os begun h ran
        ∙ one.next [] in
      let sound : Sound one.mid =
        elim (listed_cases env c ticket node existing d h one.entries one.listing) [
          | inl listing ↦
              scan_content-Sound d one.entries
                (record {
                  earlier = earlier;
                  later = todo;
                  split = split;
                  scanned = os;
                  before = h;
                  ran = ran;
                  listing = listing;
                })
                one.entries os one.mid _ (λ x m. m) one.scan s
          | inr nothing ↦ unlisted-Sound d one.entries os one.mid _ nothing one.scan s
        ] in
      scan_stores-Sound (earlier ++ (d ∷ [])) todo one.mid more one.later
        (split ∙ sym (append_assoc earlier (d ∷ []) todo)) done
        (ap (λ p. p.0) (sym (one.next todo)) ∙ e) sound

-- When `find_orphans` returns, the list of VMs was read, and each orphan names a volume that stands
-- in the listing that a configured store of that node gave during this search, and whose VMID is
-- not in the list of VMs. No two orphans are equal.
pub find_orphans-Unowned :
    (env : Env) (c : PveClient) (ticket node : String) (h : History) (orphans : List Orphan)
    → (find_orphans env c ticket node h).0 ≡ ok orphans
    → (existing : List Value) × ((node_vmids env c ticket node h).0 ≡ ok existing)
      × All
          (Unowned env c ticket node c.settings.datastore_ids existing
            (node_vmids env c ticket node h).1)
          orphans
      × AllDistinct orphans
unfolding find_orphans
find_orphans-Unowned env c ticket node h orphans e =
    let m = node_vmids env c ticket node in
    let stores = c.settings.datastore_ids in
    let (existing, got, rest) = bind-returned m _ h orphans e in
    let (unowned, distinct) =
      scan_stores-Sound env c ticket node stores existing (m h).1 [] stores [] orphans (m h).1 refl
        refl rest (tt, tt) in
    (existing, got, unowned, distinct)
