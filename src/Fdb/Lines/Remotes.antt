-- ===== src/Fdb/Lines/Remotes.antt =====
-- infra/pulumi/modules/sdn_fdb.py: a node's lines name every remote MAC, and nothing else.
use rke2_lab.Base.{
  String, Bool, true, false, ◌≡◌, refl, sym, ap, ◌∙◌, ◌⊎◌, List, [], ◌∷◌, ◌++◌, map, All,
  All-append, All-map, inl, inr, ◌==◌, arith, if◌then◌else◌,
}
use mathlib.Core.List.{Memᴰ}
use rke2_lab.Base.Dict.{Dict}
use rke2_lab.Py.Result.{Result, ok, ◌>>=◌, >>=-eq-ok}
use rke2_lab.Py.Effect.Returns.{ok_inj}
use rke2_lab.Fdb.Settings.{SdnFdbSettings, underlay_for}
use rke2_lab.Fdb.Lines.{
  multicast_vrrp_mac, broadcast_mac, macs_of, line_for, remote_lines, lines_for_each, fdb_lines_for,
}

module _ {ℓ} {A : Type ℓ} where
  mem-append_left : (x : A) (xs ys : List A) → Memᴰ x xs → Memᴰ x (xs ++ ys)
  mem-append_left x [] ys m = elim m [ ]
  mem-append_left x (y ∷ xs) ys (Memᴰ.head e) = Memᴰ.head e
  mem-append_left x (y ∷ xs) ys (Memᴰ.tail m) = Memᴰ.tail (mem-append_left x xs ys m)

  mem-append_right : (x : A) (xs ys : List A) → Memᴰ x ys → Memᴰ x (xs ++ ys)
  mem-append_right x [] ys m = m
  mem-append_right x (y ∷ xs) ys m = Memᴰ.tail (mem-append_right x xs ys m)

-- The MACs whose traffic for `remote` goes to its underlay address.
abbrev pub macs_to : String → Dict (List String) → List String
macs_to remote macs = macs_of remote macs ++ (multicast_vrrp_mac ∷ broadcast_mac ∷ [])

remote_lines-map :
    (peer remote : String) (macs : Dict (List String))
    → remote_lines peer (macs_of remote macs) ≡ map (line_for peer) (macs_to remote macs)
unfolding remote_lines
remote_lines-map peer remote macs = go (macs_of remote macs)
  where
    go :
        (xs : List String)
        → remote_lines peer xs
          ≡ map (line_for peer) (xs ++ (multicast_vrrp_mac ∷ broadcast_mac ∷ []))
    go [] = refl
    go (x ∷ xs) = ap (λ ls. line_for peer x ∷ ls) (go xs)

-- A line for one of the MACs of `remote`, with its underlay address.
abbrev pub Covered : SdnFdbSettings → Dict (List String) → List String → String → Type 0
Covered settings macs lines remote =
    (peer : String) × (underlay_for settings remote ≡ ok peer)
    × ((mac : String) → Memᴰ mac (macs_to remote macs) → Memᴰ (line_for peer mac) lines)

mem-map :
    (peer mac : String) (xs : List String)
    → Memᴰ mac xs
    → Memᴰ (line_for peer mac) (map (line_for peer) xs)
mem-map peer mac [] m = elim m [ ]
mem-map peer mac (x ∷ xs) (Memᴰ.head e) = Memᴰ.head (ap (line_for peer) e)
mem-map peer mac (x ∷ xs) (Memᴰ.tail m) = Memᴰ.tail (mem-map peer mac xs m)

module _ (node : String) (settings : SdnFdbSettings) (macs : Dict (List String)) where
  abbrev later : List String → Result (List String)
  later remotes = lines_for_each node settings macs remotes

  added : String → List String → Result (List String)
  unfolding lines_for_each
  added remote remotes = do
    peer ← underlay_for settings remote
    rest ← later remotes
    ok (remote_lines peer (macs_of remote macs) ++ rest)

  -- The lines of a remote node, before those of the nodes after it.
  abbrev Adds : String → List String → List String → Type 0
  Adds remote remotes lines =
      (peer : String) × (rest : List String) × (underlay_for settings remote ≡ ok peer)
      × (later remotes ≡ ok rest)
      × (map (line_for peer) (macs_to remote macs) ++ rest ≡ lines)

  added-Adds :
      (remote : String) (remotes lines : List String)
      → added remote remotes ≡ ok lines
      → Adds remote remotes lines
  unfolding added
  added-Adds remote remotes lines e =
      let (peer, under, e1) = >>=-eq-ok (underlay_for settings remote) _ e in
      let (rest, held, e2) = >>=-eq-ok (later remotes) _ e1 in
      (
        peer,
        rest,
        under,
        held,
        ap (λ ls. ls ++ rest) (sym (remote_lines-map peer remote macs)) ∙ ok_inj e2,
      )

  -- The two ways in which lines for one more node come about.
  picked :
      (remote : String) (remotes lines : List String) (b : Bool)
      → (if b then later remotes else added remote remotes) ≡ ok lines
      → ((b ≡ true) × (later remotes ≡ ok lines)) ⊎ ((b ≡ false) × Adds remote remotes lines)
  picked remote remotes lines true e = inl (refl, e)
  picked remote remotes lines false e = inr (refl, added-Adds remote remotes lines e)

  step :
      (remote : String) (remotes lines : List String)
      → later (remote ∷ remotes) ≡ ok lines
      → (((remote == node) ≡ true) × (later remotes ≡ ok lines))
        ⊎ (((remote == node) ≡ false) × Adds remote remotes lines)
  unfolding lines_for_each added
  step remote remotes lines e = picked remote remotes lines (remote == node) e

  adds_own :
      (remote : String) (remotes lines : List String)
      → Adds remote remotes lines
      → Covered settings macs lines remote
  adds_own remote remotes lines (peer, rest, under, held, all) = (
    peer,
    under,
    λ mac m.
        rw (sym all)
          (mem-append_left (line_for peer mac) _ rest (mem-map peer mac (macs_to remote macs) m)),
  )

  widened :
      (first rest lines : List String) (remote : String)
      → first ++ rest ≡ lines
      → Covered settings macs rest remote
      → Covered settings macs lines remote
  widened first rest lines remote all (peer, under, k) = (
    peer,
    under,
    λ mac m. rw (sym all) (mem-append_right (line_for peer mac) first rest (k mac m)),
  )

  covers_each :
      (remotes lines : List String)
      → later remotes ≡ ok lines
      → (remote : String) → Memᴰ remote remotes
      → (remote == node) ≡ false
      → Covered settings macs lines remote
  covers_each [] lines e remote m other = elim m [ ]
  covers_each (r ∷ remotes) lines e remote (Memᴰ.head same) other = elim (step r remotes lines e) [
    | inl (own, _) ↦
        let yes : (remote == node) ≡ true = rw same own in
        let never : ⊥ = ground (arith, yes, other) in elim never [ ]
    | inr (_, adds) ↦ rw same (adds_own r remotes lines adds)
  ]
  covers_each (r ∷ remotes) lines e remote (Memᴰ.tail m) other = elim (step r remotes lines e) [
    | inl (_, held) ↦ covers_each remotes lines held remote m other
    | inr (_, (peer, rest, under, held, all)) ↦
        widened (map (line_for peer) (macs_to r macs)) rest lines remote all
          (covers_each remotes rest held remote m other)
  ]

  -- A line for a MAC of another node of `remotes`, with that node's underlay address.
  abbrev pub Directed : List String → String → Type 0
  Directed remotes line =
      (remote : String) × (peer : String) × (mac : String) × Memᴰ remote remotes
      × ((remote == node) ≡ false)
      × (underlay_for settings remote ≡ ok peer)
      × Memᴰ mac (macs_to remote macs)
      × (line ≡ line_for peer mac)

  targets_later :
      (r : String) (remotes lines : List String)
      → All (Directed remotes) lines
      → All (Directed (r ∷ remotes)) lines
  targets_later r remotes lines a =
      All-map (Directed remotes) (Directed (r ∷ remotes)) lines
        (λ line (remote, peer, mac, m, other, under, n, e).
          (remote, peer, mac, Memᴰ.tail m, other, under, n, e))
        a

  targets_own :
      (r peer : String) (remotes xs : List String)
      → (r == node) ≡ false
      → underlay_for settings r ≡ ok peer
      → ((mac : String) → Memᴰ mac xs → Memᴰ mac (macs_to r macs))
      → All (Directed (r ∷ remotes)) (map (line_for peer) xs)
  targets_own r peer remotes [] other under k = tt
  targets_own r peer remotes (x ∷ xs) other under k = (
    (r, peer, x, Memᴰ.head refl, other, under, k x (Memᴰ.head refl), refl),
    targets_own r peer remotes xs other under (λ mac m. k mac (Memᴰ.tail m)),
  )

  targets_each :
      (remotes lines : List String) → later remotes ≡ ok lines → All (Directed remotes) lines
  unfolding lines_for_each
  targets_each [] lines e = rw (sym (ok_inj e)) tt
  targets_each (r ∷ remotes) lines e = elim (step r remotes lines e) [
    | inl (_, held) ↦ targets_later r remotes lines (targets_each remotes lines held)
    | inr (other, (peer, rest, under, held, all)) ↦ rw (sym all) (
        All-append (Directed (r ∷ remotes)) (map (line_for peer) (macs_to r macs)) rest
          (targets_own r peer remotes (macs_to r macs) other under (λ mac m. m))
          (targets_later r remotes rest (targets_each remotes rest held)))
  ]

  -- When `_fdb_lines_for` returns for a node, every other node of the configuration has an underlay
  -- address, and there is a line with that address for each MAC discovered on it, for the multicast
  -- and for the broadcast MAC.
  pub fdb_lines_for-Covered :
      (lines : List String)
      → fdb_lines_for node settings macs ≡ ok lines
      → (remote : String) → Memᴰ remote settings.node_names
      → (remote == node) ≡ false
      → Covered settings macs lines remote
  unfolding fdb_lines_for
  fdb_lines_for-Covered lines e = covers_each settings.node_names lines e

  -- Each line that `_fdb_lines_for` returns for a node belongs to another node of the configuration:
  -- it names a MAC of that node, or the multicast or the broadcast MAC, and that node's underlay
  -- address.
  pub fdb_lines_for-Directed :
      (lines : List String)
      → fdb_lines_for node settings macs ≡ ok lines
      → All (Directed settings.node_names) lines
  unfolding fdb_lines_for
  fdb_lines_for-Directed lines e = targets_each settings.node_names lines e
