-- ===== src/Cleanup/Orphans.antt =====
-- infra/pulumi/modules/pve_cleanup.py: `find_orphans`.
pub mod Found
use rke2_lab.Base.{
  String, ◌<>◌, Bool, true, false, ◌&&◌, ◌||◌, not, Option, none, some, List, [], ◌∷◌, ◌++◌, ◌==◌,
  eqb, if◌then◌else◌,
}
use rke2_lab.Base.Int.{ℤ, pos, negsuc}
use rke2_lab.Py.Value.{Value, str, int, bool, null, arr, obj}
use rke2_lab.Py.Text.{after_colon, second_field, has_prefix, int_of_text}
use rke2_lab.Py.Effect.{
  Result, ok, err, Env, Io, pure, raise, lift, try_except, except_runtime, ◌>>=◌,
}
use rke2_lab.Cleanup.Client.{PveClient, Content, hashed, node_vmids, node_content}

pub record Orphan : Type 0 where
  pub node : String
  pub datastore : String
  pub volume : String

-- `==` on hashed values
abbrev pub same_key : Value → Value → Bool
same_key (str a) (str b) = a == b
same_key (int (pos a)) (int (pos b)) = eqb a b
same_key (int (negsuc a)) (int (negsuc b)) = eqb a b
same_key null null = true
same_key _ _ = false

-- `vmid in existing` for a hashed VMID
unfoldable pub held : Value → List Value → Bool
held k [] = false
held k (v ∷ vs) = same_key v k || held k vs

abbrev vmid_in_name : Option String → Option Value
vmid_in_name none = none
vmid_in_name (some digits) = elim (int_of_text digits) [ none ↦ none | some n ↦ some (int n) ]

-- The VMID of a volume whose entry has none, from its name; `none` skips the entry.
unfoldable pub named_vmid : String → Option Value
named_vmid volume =
    if not (has_prefix "vm-" volume) || volume == "vm-"
    then none
    else vmid_in_name (second_field volume)

unfoldable pub owner_of : Content → Option Value
unfolding named_vmid
owner_of c = elim c.vmid [ null ↦ named_vmid (after_colon c.volid) | v ↦ some v ]

abbrev pub same_orphan : Orphan → Orphan → Bool
same_orphan a b = a.node == b.node && a.datastore == b.datastore && a.volume == b.volume

-- `key in seen`; the set has the same elements as the list of orphans.
unfoldable pub seen : Orphan → List Orphan → Bool
seen key [] = false
seen key (o ∷ os) = same_orphan o key || seen key os

unfoldable pub add_new : Orphan → List Orphan → List Orphan
unfolding seen
add_new key orphans = if seen key orphans then orphans else orphans ++ (key ∷ [])

-- An entry with a VMID, hashed.
unfoldable pub scan_key :
    (node datastore : String)
    → List Value
    → Content
    → Result Value
    → List Orphan
    → Result (List Orphan)
unfolding held add_new
scan_key node datastore existing c (err e) orphans = err e
scan_key node datastore existing c (ok k) orphans = ok (
    if held k existing
    then orphans
    else add_new (record { node = node; datastore = datastore; volume = after_colon c.volid })
        orphans)

-- One entry of the content: `none` where it has no VMID.
unfoldable pub scan_entry :
    (node datastore : String)
    → List Value
    → Content
    → Option Value
    → List Orphan
    → Result (List Orphan)
unfolding hashed scan_key
scan_entry node datastore existing c none orphans = ok orphans
scan_entry node datastore existing c (some vmid) orphans =
    scan_key node datastore existing c (hashed vmid) orphans

unfoldable pub scan_content :
    (node datastore : String) → List Value → List Content → List Orphan → Io (List Orphan)
unfolding scan_entry owner_of pure lift ◌>>=◌
scan_content node datastore existing [] orphans = pure orphans
scan_content node datastore existing (c ∷ cs) orphans = do
  more ← lift (scan_entry node datastore existing c (owner_of c) orphans)
  scan_content node datastore existing cs more

-- A store that cannot be listed counts as empty: `continue`.
unfoldable pub listed_content : Env → PveClient → String → String → String → Io (List Content)
unfolding node_content try_except pure
listed_content env c ticket datastore node =
    try_except (node_content env c ticket datastore node) (except_runtime λ text. pure [])

unfoldable pub scan_stores :
    Env → PveClient → String → String → List Value → List String → List Orphan → Io (List Orphan)
unfolding listed_content scan_content pure ◌>>=◌
scan_stores env c ticket node existing [] orphans = pure orphans
scan_stores env c ticket node existing (datastore ∷ rest) orphans = do
  listing ← listed_content env c ticket datastore node
  more ← scan_content node datastore existing listing orphans
  scan_stores env c ticket node existing rest more

unfoldable pub find_orphans : Env → PveClient → String → String → Io (List Orphan)
unfolding node_vmids scan_stores ◌>>=◌
find_orphans env c ticket node = do
  existing ← node_vmids env c ticket node
  scan_stores env c ticket node existing c.settings.datastore_ids []
