-- ===== src/Prelude/Sort.antt =====
-- `sort.Slice`, as an insertion sort: where no two entries are equal in the order, the sorted
-- rearrangement of a list is one only, whatever the algorithm.
use mathlib.Core.Path.{◌≡◌}
use mathlib.Core.Logic.{inl, inr}
use mathlib.Core.Bool.{Bool, true, false}
use mathlib.Core.List.{List, [], ◌∷◌, Perm}
use mathlib.Core.List.Perm
use pi_monitor.Prelude.Tests.{if◌then◌else◌, Bool-cases}

module _ {ℓ} {A : Type ℓ} (lt : A → A → Bool) where
  unfoldable pub insert_sorted : A → List A → List A
  insert_sorted x [] = x ∷ []
  insert_sorted x (y ∷ ys) = if lt y x then y ∷ insert_sorted x ys else x ∷ y ∷ ys

  unfoldable pub sort : List A → List A
  unfolding insert_sorted
  sort [] = []
  sort (x ∷ xs) = insert_sorted x (sort xs)

  -- No entry is less than the one before it.
  abbrev pub NoneBelow : A → List A → Type 0
  NoneBelow x [] = Unit
  NoneBelow x (y ∷ ys) = lt y x ≡ false

  abbrev pub IsSorted : List A → Type 0
  IsSorted [] = Unit
  IsSorted (x ∷ xs) = NoneBelow x xs × IsSorted xs

  insert_sorted-perm : (x : A) (xs : List A) → Perm (insert_sorted x xs) (x ∷ xs)
  unfolding insert_sorted
  insert_sorted-perm x [] = Perm.refl (x ∷ [])
  insert_sorted-perm x (y ∷ ys) = elim (Bool-cases (lt y x)) [
    | inl e ↦ rw e (Perm.trans (Perm.cons y (insert_sorted-perm x ys)) (Perm.swap x y ys))
    | inr e ↦ rw e (Perm.refl (x ∷ y ∷ ys))
  ]

  pub sort-perm : (xs : List A) → Perm (sort xs) xs
  unfolding sort
  sort-perm [] = Perm.refl []
  sort-perm (x ∷ xs) = Perm.trans (insert_sorted-perm x (sort xs)) (Perm.cons x (sort-perm xs))

  module _ (asym : (a b : A) → lt a b ≡ true → lt b a ≡ false) where
    insert_sorted-NoneBelow :
        (x y : A) (ys : List A) → lt y x ≡ true → NoneBelow y ys → NoneBelow y (insert_sorted x ys)
    unfolding insert_sorted
    insert_sorted-NoneBelow x y [] h n = asym y x h
    insert_sorted-NoneBelow x y (z ∷ zs) h n = elim (Bool-cases (lt z x)) [
      | inl e ↦ rw e n
      | inr e ↦ rw e (asym y x h)
    ]

    insert_sorted-IsSorted : (x : A) (xs : List A) → IsSorted xs → IsSorted (insert_sorted x xs)
    unfolding insert_sorted
    insert_sorted-IsSorted x [] s = (tt, tt)
    insert_sorted-IsSorted x (y ∷ ys) s = elim (Bool-cases (lt y x)) [
      | inl e ↦ rw e (insert_sorted-NoneBelow x y ys e (s.0), insert_sorted-IsSorted x ys (s.1))
      | inr e ↦ rw e (e, s)
    ]

    pub sort-IsSorted : (xs : List A) → IsSorted (sort xs)
    unfolding sort
    sort-IsSorted [] = tt
    sort-IsSorted (x ∷ xs) = insert_sorted-IsSorted x (sort xs) (sort-IsSorted xs)
