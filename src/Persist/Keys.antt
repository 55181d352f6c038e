-- ===== src/Persist/Keys.antt =====
-- internal/collector/persist.go: what a map of series becomes when its keys are written and read back.
use pi_monitor.Prelude.{
  ◌≡◌, refl, ◌∙◌, Bool, true, false, ◌||◌, ◌&&◌, List, [], ◌∷◌, Option, none, some, map, length,
  leb, if◌then◌else◌, arith, Bool-cases, inl, inr,
}
use pi_monitor.Prelude.Bytes.{Bytes, str_eq, str_eq_refl, str_eq_sound, str_lt}
use pi_monitor.Prelude.Maps.{lookup, insert, lookup-insert}
use pi_monitor.Prelude.Sort.{sort, insert_sorted}
use pi_monitor.Persist.Types.{Series, short_keys, points_at}
use pi_monitor.Persist.Series.{truncate_point}

-- Whether a key stands in a list.
unfoldable has_key : Bytes → List Bytes → Bool
has_key k [] = false
has_key k (j ∷ js) = str_eq j k || has_key k js

has_key-insert_sorted :
    (k j : Bytes) (js : List Bytes)
    → has_key k (insert_sorted str_lt j js) ≡ (str_eq j k || has_key k js)
unfolding has_key insert_sorted
has_key-insert_sorted k j [] = refl
has_key-insert_sorted k j (i ∷ js) = elim (Bool-cases (str_lt i j)) [
  | inl e ↦ rw e (ground (arith, has_key-insert_sorted k j js))
  | inr e ↦ rw e
]

has_key-sort : (k : Bytes) (js : List Bytes) → has_key k (sort str_lt js) ≡ has_key k js
unfolding has_key sort
has_key-sort k [] = refl
has_key-sort k (j ∷ js) = rw (has_key-insert_sorted k j (sort str_lt js), has_key-sort k js)

module _ {V : Type 0} where
  -- What is read back at a key: its series with times in milliseconds, where the key is short enough.
  unfoldable pub restored_at : List (Bytes × Series V) → Bytes → Option (Series V)
  restored_at m k =
      if leb (length k) 4096
      then elim (lookup k m) [ none ↦ none | some ps ↦ some (map truncate_point ps) ]
      else none

  unfoldable pub insert_keys :
      List (Bytes × Series V) → List Bytes → List (Bytes × Series V) → List (Bytes × Series V)
  insert_keys m [] into = into
  insert_keys m (k ∷ ks) into =
      insert_keys m ks (insert k (map truncate_point (points_at m k)) into)

  lookup-insert_keys :
      (m : List (Bytes × Series V)) (ks : List Bytes) (into : List (Bytes × Series V)) (k : Bytes)
      → lookup k (insert_keys m ks into)
        ≡ (if has_key k ks then some (map truncate_point (points_at m k)) else lookup k into)
  unfolding insert_keys has_key
  lookup-insert_keys m [] into k = refl
  lookup-insert_keys m (j ∷ ks) into k =
      lookup-insert_keys m ks (insert j (map truncate_point (points_at m j)) into) k
      ∙ elim (Bool-cases (str_eq j k)) [
        | inl e ↦ rw (lookup-insert, e, str_eq_sound j k e) (both (has_key k ks))
        | inr e ↦ rw (lookup-insert, e)
      ]
    where
      both : {v : Option (Series V)} (b : Bool) → (if b then v else v) ≡ v
      both true = refl
      both false = refl

  is_some : Option (Series V) → Bool
  is_some none = false
  is_some (some ps) = true

  has_key-short_keys :
      (k : Bytes) (m : List (Bytes × Series V))
      → has_key k (short_keys m) ≡ (leb (length k) 4096 && is_some (lookup k m))
  unfolding has_key short_keys lookup is_some
  has_key-short_keys k [] = ground arith
  has_key-short_keys k ((j, ps) ∷ m) = elim (Bool-cases (str_eq j k)) [
    | inl e ↦
        rw (e, str_eq_sound j k e)
          (elim (Bool-cases (leb (length k) 4096)) [
            | inl l ↦ rw (l, str_eq_refl k)
            | inr l ↦ rw (l) (rw (has_key-short_keys k m, l))
          ])
    | inr e ↦ rw e (elim (Bool-cases (leb (length j) 4096)) [
      | inl l ↦ rw (l, e) (has_key-short_keys k m)
      | inr l ↦ rw l (has_key-short_keys k m)
    ])
  ]

  short_at :
      (k : Bytes) (m : List (Bytes × Series V))
      → (if leb (length k) 4096 && is_some (lookup k m)
          then some (map truncate_point (points_at m k))
          else none)
        ≡ restored_at m k
  unfolding restored_at points_at is_some
  short_at k m = elim (Bool-cases (leb (length k) 4096)) [
    | inr l ↦ rw l
    | inl l ↦
        rw l
          (elim (lookup k m)
            as (λ o.
              (if is_some o
                then some (map truncate_point (elim o [ none ↦ [] | some ps ↦ ps ]))
                else none)
              ≡ elim o [ none ↦ none | some ps ↦ some (map truncate_point ps) ]) [
                | none ↦ refl
                | some ps ↦ refl
              ])
  ]

  -- The map read back.
  abbrev pub restored_map : List (Bytes × Series V) → List (Bytes × Series V)
  restored_map m = insert_keys m (sort str_lt (short_keys m)) []

  pub lookup-restored_map :
      (m : List (Bytes × Series V)) (k : Bytes) → lookup k (restored_map m) ≡ restored_at m k
  unfolding lookup
  lookup-restored_map m k =
      rw
        (
          lookup-insert_keys m (sort str_lt (short_keys m)) [] k,
          has_key-sort k (short_keys m),
          has_key-short_keys k m,
        )
        (short_at k m)
