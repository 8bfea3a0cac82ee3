-- ===== src/Placement/Plan/Best.antt =====
-- `min(candidates, key=...)`: what the fresh pick minimises.
use mathlib.Core.List.{Memᴰ}
use rke2_lab.Base.{
  ◌≡◌, refl, true, false, List, [], ◌∷◌, All, arith, Bool-cases, inl, inr, if◌then◌else◌,
}
use rke2_lab.Base.Int.{◌≤ℤ◌}
use rke2_lab.Base.Sorted.{str_lt, str_le_trans, str_lt_irrefl, str_lt_asymm}
use rke2_lab.Placement.Plan.{Candidate, beats, best}

-- No candidate has more free RAM, none with as much RAM has more disk, and among those with as much of
-- both none has a name that comes first.
pub record IsNoWorse (c d : Candidate) : Type 0 where
  pub ram : d.free_ram ≤ℤ c.free_ram
  pub disk : c.free_ram ≤ℤ d.free_ram → d.free_disk ≤ℤ c.free_disk
  pub name : c.free_ram ≤ℤ d.free_ram → c.free_disk ≤ℤ d.free_disk → str_lt d.name c.name ≡ false

IsNoWorse-of_not_beaten : (c d : Candidate) → beats d c ≡ false → IsNoWorse c d
unfolding beats
IsNoWorse-of_not_beaten c d h = record {
  ram = ground arith;
  disk = λ p. ground arith;
  name = λ p q. ground arith;
}

not_beaten_self : (c : Candidate) → beats c c ≡ false
unfolding beats
not_beaten_self c = ground (arith, str_lt_irrefl c.name)

IsNoWorse-of_beats : (c d : Candidate) → beats c d ≡ true → IsNoWorse c d
unfolding beats
IsNoWorse-of_beats c d h = record {
  ram = ground arith;
  disk = λ p. ground arith;
  name = λ p q. ground (arith, str_lt_asymm c.name d.name);
}

IsNoWorse-trans : (c d e : Candidate) → IsNoWorse c d → IsNoWorse d e → IsNoWorse c e
IsNoWorse-trans c d e h k = record {
  ram = omega arith;
  disk = λ p. omega (arith, h.disk (omega arith), k.disk (omega arith));
  name = λ p q.
      str_le_trans c.name d.name e.name (h.name (omega arith) (omega (arith, k.disk (omega arith))))
        (k.name (omega arith) (omega (arith, h.disk (omega arith))));
}

IsNoWorse-refl : (c : Candidate) → IsNoWorse c c
IsNoWorse-refl c = IsNoWorse-of_not_beaten c c (not_beaten_self c)

IsNoWorse-smaller :
    (b c d : Candidate) → IsNoWorse b (if beats d c then d else c) → IsNoWorse b c × IsNoWorse b d
IsNoWorse-smaller b c d h = elim (Bool-cases (beats d c)) [
  | inl less ↦
      let k : IsNoWorse b d = rw less at h in
      (IsNoWorse-trans b d c k (IsNoWorse-of_beats d c less), k)
  | inr not_less ↦
      let k : IsNoWorse b c = rw not_less at h in
      (k, IsNoWorse-trans b c d k (IsNoWorse-of_not_beaten c d not_less))
]

-- The candidate that `min` returns is no worse than any.
pub best-IsNoWorse : (c : Candidate) (ds : List Candidate) → All (IsNoWorse (best c ds)) (c ∷ ds)
unfolding best
best-IsNoWorse c [] = (IsNoWorse-refl c, tt)
best-IsNoWorse c (d ∷ ds) =
    let (h, rest) = best-IsNoWorse (if beats d c then d else c) ds in
    let (hc, hd) = IsNoWorse-smaller (best c (d ∷ ds)) c d h in (hc, (hd, rest))

-- It is one of the candidates.
pub best-mem : (c : Candidate) (ds : List Candidate) → Memᴰ (best c ds) (c ∷ ds)
unfolding best
best-mem c [] = Memᴰ.head refl
best-mem c (d ∷ ds) = elim (Bool-cases (beats d c)) [
  | inl less ↦ rw less (Memᴰ.tail (best-mem d ds))
  | inr not_less ↦ rw not_less (keep c d ds (best-mem c ds))
]
  where
    keep :
        (c d : Candidate) (ds : List Candidate) {b : Candidate}
        → Memᴰ b (c ∷ ds)
        → Memᴰ b (c ∷ d ∷ ds)
    keep c d ds (Memᴰ.head e) = Memᴰ.head e
    keep c d ds (Memᴰ.tail m) = Memᴰ.tail (Memᴰ.tail m)
