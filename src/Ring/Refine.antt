-- ===== src/Ring/Refine.antt =====
-- A valid `RingBuffer` behaves as the list of the newest `capacity` values added to it.
use pi_monitor.Prelude.{
  trim_lem, drop_none, last_n, last_n-append, ℕ, ◌-◌, ◌%◌, ◌≤◌, ◌<◌, ◌≡◌, ◌∙◌, sym, List, [], ◌∷◌,
  ◌++◌, ap, arith, length, append-nil, append_assoc, length-replicate, replicate, ltb, Bool-cases,
  inl, inr, refl, take, min,
}
use pi_monitor.Ring.{RingBuffer, add, fill, copy, newest_values, snapshot}
use pi_monitor.Ring.Inv.{IsValid, add-IsValid, fill-IsValid, wrap_lem, length-newest_values}
use pi_monitor.Ring.Contents.{copy_all, contents, snapshot-contents, length-contents, contents-add}

module _ {ℓ} {A : Type ℓ} where
  -- Values added one by one, oldest first.
  unfoldable pub add_all : RingBuffer A → List A → RingBuffer A
  add_all r [] = r
  add_all r (v ∷ vs) = add_all (add r v) vs

  capacity-add : (r : RingBuffer A) (v : A) → (add r v).capacity ≡ r.capacity
  unfolding add
  capacity-add r v = refl

  pub add_all-IsValid : {r : RingBuffer A} (vs : List A) → IsValid r → IsValid (add_all r vs)
  unfolding add_all
  add_all-IsValid [] h = h
  add_all-IsValid {r} (v ∷ vs) h = add_all-IsValid {r = add r v} vs (add-IsValid v h)

  contents-add_all :
      {r : RingBuffer A} (vs : List A)
      → IsValid r
      → contents (add_all r vs) ≡ last_n r.capacity (contents r ++ vs)
  unfolding add_all add
  contents-add_all {r} [] h = rw append-nil (
      sym (
        drop_none (length (contents r) - r.capacity) (contents r)
          (omega (arith, length-contents h))))
  contents-add_all {r} (v ∷ vs) h =
      contents-add_all {r = add r v} vs (add-IsValid v h)
      ∙ rw (capacity-add r v, contents-add v h, last_n-append, append_assoc)

  -- However many values a new buffer is given, `snapshot` returns the newest `capacity` of them,
  -- oldest first.
  pub snapshot-add_all :
      (z : A) {r : RingBuffer A} (vs : List A)
      → IsValid r
      → snapshot z (add_all r vs) ≡ last_n r.capacity (snapshot z r ++ vs)
  snapshot-add_all z {r} vs h =
      rw (snapshot-contents z h, snapshot-contents z (add_all-IsValid vs h)) (contents-add_all vs h)

  newest_values-last_n : (n : ℕ) (vs : List A) → newest_values n vs ≡ last_n n vs
  unfolding newest_values
  newest_values-last_n n vs = trim_lem n vs

  take-copy : (dst xs : List A) → length xs ≤ length dst → take (length xs) (copy dst xs) ≡ xs
  unfolding copy
  take-copy [] [] h = refl
  take-copy [] (x ∷ xs) h = absurd (omega arith)
  take-copy (d ∷ ds) [] h = refl
  take-copy (d ∷ ds) (x ∷ xs) h = ap (◌∷◌ x) (take-copy ds xs (omega arith))

  fill_kept :
      (z : A) (cap : ℕ) (kept : List A)
      → length kept ≤ cap
      → 0 < cap
      → contents (record {
        buf = copy (replicate cap z) kept;
        capacity = cap;
        next = min cap (length kept) % cap;
        size = min cap (length kept);
      })
        ≡ kept
  fill_kept z cap kept h p = elim (Bool-cases (ltb (min cap (length kept)) cap)) [
    | inl e ↦
        rw (e, size) (take-copy (replicate cap z) kept (omega (arith, length-replicate cap z)))
    | inr e ↦
        rw (e, wrap_lem (min cap (length kept)) cap (ground arith), append-nil)
          (copy_all z cap kept (ground arith))
  ]
    where
      size : min cap (length kept) ≡ length kept
      size = omega arith

  contents-fill :
      (z : A) {r : RingBuffer A} (vs : List A)
      → IsValid r
      → contents (fill z r vs) ≡ last_n r.capacity vs
  unfolding fill
  contents-fill z {r} vs h =
      fill_kept z r.capacity (newest_values r.capacity vs)
        (omega (arith, length-newest_values r.capacity vs)) (omega arith)
      ∙ newest_values-last_n r.capacity vs

  -- `fill` leaves the newest `capacity` of the values, and nothing of what was there.
  pub snapshot-fill :
      (z : A) {r : RingBuffer A} (vs : List A)
      → IsValid r
      → snapshot z (fill z r vs) ≡ last_n r.capacity vs
  snapshot-fill z {r} vs h = rw (snapshot-contents z (fill-IsValid z vs h)) (contents-fill z vs h)
