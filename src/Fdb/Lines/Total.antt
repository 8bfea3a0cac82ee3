-- ===== src/Fdb/Lines/Total.antt =====
-- infra/pulumi/modules/sdn_fdb.py: when `_fdb_lines_for` raises nothing.
use rke2_lab.Base.{
  ℕ, zero, suc, String, Bool, true, false, ◌≡◌, refl, ◌≤◌, some, List, [], ◌∷◌, ◌++◌, length,
  get_elem?, Bool-cases, inl, inr, ◌==◌, eq_refl, arith, if◌then◌else◌,
}
use mathlib.Core.List.{Memᴰ}
use rke2_lab.Base.Dict.{Dict}
use rke2_lab.Py.Result.{ok, ◌>>=◌}
use rke2_lab.Fdb.Settings.{SdnFdbSettings, position, underlay_for}
use rke2_lab.Fdb.Lines.{macs_of, remote_lines, lines_for_each, fdb_lines_for}

element_within :
    (xs : List String) (i : ℕ) → suc i ≤ length xs → (x : String) × (get_elem? xs i ≡ some x)
element_within [] i l = ground (arith, l)
element_within (x ∷ xs) zero l = (x, refl)
element_within (x ∷ xs) (suc i) l = element_within xs i (omega (arith, l))

position_within :
    (name : String) (names : List String)
    → Memᴰ name names
    → (i : ℕ) × (position name names ≡ some i) × (suc i ≤ length names)
unfolding position
position_within name [] m = elim m [ ]
position_within name (n ∷ ns) (Memᴰ.head e) =
    let same : (n == name) ≡ true = rw e (eq_refl n) in (0, rw same refl, omega arith)
position_within name (n ∷ ns) (Memᴰ.tail m) = elim (Bool-cases (n == name)) [
  | inl same ↦ (0, rw same refl, omega arith)
  | inr other ↦
      let (i, at_i, below) = position_within name ns m in
      (suc i, rw other (rw at_i refl), omega (arith, below))
]

-- Each node of the configuration has an address if there are as many peers as nodes.
underlay_within :
    (settings : SdnFdbSettings) (node : String)
    → Memᴰ node settings.node_names
    → length settings.node_names ≤ length settings.peers
    → (peer : String) × (underlay_for settings node ≡ ok peer)
unfolding underlay_for
underlay_within settings node m l =
    let (i, at_i, below) = position_within node settings.node_names m in
    let (peer, found) = element_within settings.peers i (omega (arith, below, l)) in
    (peer, rw at_i (rw found refl))

module _ (node : String) (settings : SdnFdbSettings) (macs : Dict (List String))
    (enough : length settings.node_names ≤ length settings.peers) where
  added :
      (remote peer : String) (remotes rest : List String)
      → underlay_for settings remote ≡ ok peer
      → lines_for_each node settings macs remotes ≡ ok rest
      → (b : Bool)
      → (lines : List String) × ((if b then lines_for_each node settings macs remotes else (do
        p ← underlay_for settings remote
        ls ← lines_for_each node settings macs remotes
        ok (remote_lines p (macs_of remote macs) ++ ls)))
          ≡ ok lines)
  added remote peer remotes rest under held true = (rest, held)
  added remote peer remotes rest under held false =
      (remote_lines peer (macs_of remote macs) ++ rest, rw under (rw held refl))

  each_total :
      (remotes : List String)
      → ((r : String) → Memᴰ r remotes → Memᴰ r settings.node_names)
      → (lines : List String) × (lines_for_each node settings macs remotes ≡ ok lines)
  unfolding lines_for_each
  each_total [] k = ([], refl)
  each_total (r ∷ remotes) k =
      let (peer, under) = underlay_within settings r (k r (Memᴰ.head refl)) enough in
      let (rest, held) = each_total remotes (λ q m. k q (Memᴰ.tail m)) in
      added r peer remotes rest under held (r == node)

  -- With at least as many peers as nodes, `_fdb_lines_for` returns lines for every node and every
  -- set of discovered MACs: neither the search for a name nor the access by its position raises.
  pub fdb_lines_for_total : (lines : List String) × (fdb_lines_for node settings macs ≡ ok lines)
  unfolding fdb_lines_for
  fdb_lines_for_total = each_total settings.node_names (λ r m. m)
