-- ===== src/Prelude/Maps.antt =====
-- Go's maps with string keys, as association lists. Every order of a `range` loop over a map is
-- the order of some list, so a statement for all lists covers every iteration order.
use mathlib.Core.Path.{◌≡◌, refl}
use mathlib.Core.Option.{Option, none, some}
use mathlib.Core.List.{List, [], ◌∷◌}
use native.Mathlib.Omega.{arith}
use mathlib.Core.Logic.{inl, inr}
use pi_monitor.Prelude.Tests.{if◌then◌else◌, Bool-cases}
use pi_monitor.Prelude.Bytes.{Bytes, str_eq, str_eq_iff, str_eq_sound, str_eq_comm}

module _ {ℓ} {V : Type ℓ} where
  unfoldable pub lookup : Bytes → List (Bytes × V) → Option V
  lookup k [] = none
  lookup k ((j, v) ∷ m) = if str_eq j k then some v else lookup k m

  unfoldable pub insert : Bytes → V → List (Bytes × V) → List (Bytes × V)
  insert k v [] = (k, v) ∷ []
  insert k v ((j, w) ∷ m) = if str_eq j k then (k, v) ∷ m else (j, w) ∷ insert k v m

  unfoldable pub delete : Bytes → List (Bytes × V) → List (Bytes × V)
  delete k [] = []
  delete k ((j, w) ∷ m) = if str_eq j k then delete k m else (j, w) ∷ delete k m

  pub lookup-insert :
      (k j : Bytes) (v : V) (m : List (Bytes × V))
      → lookup j (insert k v m) ≡ (if str_eq k j then some v else lookup j m)
  unfolding lookup insert
  lookup-insert k j v [] = refl
  lookup-insert k j v ((i, w) ∷ m) =
      ground (arith, str_eq_iff k j, str_eq_iff i k, str_eq_iff i j, lookup-insert k j v m)

  pub lookup-delete :
      (k j : Bytes) (m : List (Bytes × V))
      → lookup j (delete k m) ≡ (if str_eq k j then none else lookup j m)
  unfolding lookup delete
  lookup-delete k j [] = ground arith
  lookup-delete k j ((i, w) ∷ m) =
      ground (arith, str_eq_iff k j, str_eq_iff i k, str_eq_iff i j, lookup-delete k j m)

  -- No key stands twice, as in every map of Go.
  abbrev pub DistinctKeys : List (Bytes × V) → Type ℓ
  DistinctKeys [] = Unit
  DistinctKeys ((k, v) ∷ m) = (lookup k m ≡ none) × DistinctKeys m

  pub insert-DistinctKeys :
      (k : Bytes) (v : V) (m : List (Bytes × V)) → DistinctKeys m → DistinctKeys (insert k v m)
  unfolding insert
  insert-DistinctKeys k v [] d = (unfold lookup in refl, tt)
  insert-DistinctKeys k v ((j, w) ∷ m) d = elim (Bool-cases (str_eq j k)) [
    | inl e ↦ rw e (rw (← str_eq_sound j k e) (d.0), d.1)
    | inr e ↦ rw e (simp (lookup-insert, str_eq_comm k j, e) (d.0), insert-DistinctKeys k v m (d.1))
  ]

  pub delete-DistinctKeys :
      (k : Bytes) (m : List (Bytes × V)) → DistinctKeys m → DistinctKeys (delete k m)
  unfolding delete
  delete-DistinctKeys k [] d = tt
  delete-DistinctKeys k ((j, w) ∷ m) d = elim (Bool-cases (str_eq j k)) [
    | inl e ↦ rw e (delete-DistinctKeys k m (d.1))
    | inr e ↦ rw e (simp (lookup-delete, str_eq_comm k j, e) (d.0), delete-DistinctKeys k m (d.1))
  ]
