-- ===== src/Verify/Ipa/Groups.antt =====
-- verify/helpers.py: the groups of a user.
use rke2_lab.Base.{
  String, ◌≡◌, refl, ◌∙◌, false, ◌||◌, List, [], ◌∷◌, ◌++◌, contains, ◌==◌, eq_iff, Bool-cases, inl,
  inr, arith,
}
use rke2_lab.Verify.Ipa.{TestUser, extend_groups, add_groups}

-- No text occurs twice.
abbrev pub IsDuplicateFree : List String → Type 0
IsDuplicateFree [] = Unit
IsDuplicateFree (x ∷ xs) = (contains x xs ≡ false) × IsDuplicateFree xs

contains-append :
    (x y : String) (xs : List String) → contains x (xs ++ (y ∷ [])) ≡ (contains x xs || x == y)
contains-append x y [] = ground arith
contains-append x y (z ∷ xs) = ground (arith, contains-append x y xs)

contains-extend_groups :
    (x : String) (groups more : List String)
    → contains x (extend_groups groups more) ≡ (contains x groups || contains x more)
unfolding extend_groups
contains-extend_groups x groups [] = ground arith
contains-extend_groups x groups (g ∷ more) = elim (Bool-cases (contains g groups)) [
  | inl present ↦
      rw present (contains-extend_groups x groups more ∙ ground (arith, present, eq_iff x g))
  | inr absent ↦ rw absent (
      contains-extend_groups x (groups ++ (g ∷ [])) more
      ∙ ground (arith, contains-append x g groups))
]

append-IsDuplicateFree :
    (y : String) (xs : List String)
    → contains y xs ≡ false
    → IsDuplicateFree xs
    → IsDuplicateFree (xs ++ (y ∷ []))
append-IsDuplicateFree y [] absent d = (refl, tt)
append-IsDuplicateFree y (x ∷ xs) absent (first, d) = (
  ground (arith, contains-append x y xs, absent, first, eq_iff x y, eq_iff y x),
  append-IsDuplicateFree y xs (ground (arith, absent)) d,
)

extend_groups-IsDuplicateFree :
    (groups more : List String)
    → IsDuplicateFree groups
    → IsDuplicateFree (extend_groups groups more)
unfolding extend_groups
extend_groups-IsDuplicateFree groups [] d = d
extend_groups-IsDuplicateFree groups (g ∷ more) d = elim (Bool-cases (contains g groups)) [
  | inl present ↦ rw present (extend_groups-IsDuplicateFree groups more d)
  | inr absent ↦ rw absent (
      extend_groups-IsDuplicateFree (groups ++ (g ∷ [])) more
        (append-IsDuplicateFree g groups absent d))
]

-- Adding groups to a user adds those that are missing, keeps the others, and repeats none: the
-- groups are without duplicates if they were before, and a group is there exactly where it was
-- before or is one of the added.
pub add_groups-IsDuplicateFree :
    (u : TestUser) (more : List String)
    → IsDuplicateFree u.groups
    → IsDuplicateFree (add_groups u more).groups
      × ((group : String)
          → contains group (add_groups u more).groups
            ≡ (contains group u.groups || contains group more))
unfolding add_groups
add_groups-IsDuplicateFree u more d = (
  extend_groups-IsDuplicateFree u.groups more d,
  λ group. contains-extend_groups group u.groups more,
)
