-- ===== src/Ring/Contents.antt =====
-- The contents of a valid `RingBuffer` as a list, oldest first, and what `add` makes of it.
use native.Mathlib.Numerals.{add-one}
use mathlib.Core.Path.{ap₂}
use pi_monitor.Prelude.{
  last_n, ℕ, zero, suc, ◌+◌, ◌-◌, ◌≡◌, ◌∙◌, sym, List, [], ◌∷◌, ◌++◌, ap, arith, length, length-set,
  length-drop, length-take, length-append, take-set, drop-set, take-all, drop-all, drop_one-append,
  append-nil, append_assoc, replicate, ltb, Bool-cases, true, false, inl, inr, refl, drop, take,
  min, set, if◌then◌else◌,
}
use pi_monitor.Ring.{RingBuffer, add, copy, snapshot}
use pi_monitor.Ring.Inv.{IsValid, mod_cases, wrap_lem}

module _ {ℓ} {A : Type ℓ} where
  -- `copy` into a slice of the same length is the source.
  pub copy_all : (z : A) (n : ℕ) (xs : List A) → length xs ≡ n → copy (replicate n z) xs ≡ xs
  unfolding copy
  copy_all z zero [] h = refl
  copy_all z zero (x ∷ xs) h = absurd (omega arith)
  copy_all z (suc n) [] h = absurd (omega arith)
  copy_all z (suc n) (x ∷ xs) h = ap (◌∷◌ x) (copy_all z n xs (omega arith))

  copy_nothing : (dst : List A) → copy dst [] ≡ dst
  unfolding copy
  copy_nothing [] = refl
  copy_nothing (d ∷ ds) = refl

  -- Two copies one after the other: `copy(out[n:], b)` behind `n := copy(out, a)`.
  copy_two :
      (z : A) (n k : ℕ) (xs ys : List A)
      → length xs + length ys ≡ n
      → k ≡ length xs
      → take k (copy (replicate n z) xs) ++ copy (drop k (copy (replicate n z) xs)) ys ≡ xs ++ ys
  unfolding copy
  copy_two z n zero [] ys h e = rw (copy_nothing (replicate n z)) (copy_all z n ys (omega arith))
  copy_two z n (suc k) [] ys h e = absurd (omega arith)
  copy_two z n zero (x ∷ xs) ys h e = absurd (omega arith)
  copy_two z zero (suc k) (x ∷ xs) ys h e = absurd (omega arith)
  copy_two z (suc n) (suc k) (x ∷ xs) ys h e =
      ap (◌∷◌ x) (copy_two z n k xs ys (omega arith) (omega arith))

  -- The contents, oldest first: what `snapshot` returns.
  abbrev pub contents : RingBuffer A → List A
  contents r =
      if ltb r.size r.capacity then take r.size r.buf else drop r.next r.buf ++ take r.next r.buf

  pub snapshot-contents : (z : A) {r : RingBuffer A} → IsValid r → snapshot z r ≡ contents r
  unfolding snapshot
  snapshot-contents z {r} h = elim (Bool-cases (ltb r.size r.capacity)) [
    | inl e ↦
        rw e (copy_all z r.size (take r.size r.buf) (ground (arith, length-take r.size r.buf)))
    | inr e ↦ rw e (
        copy_two z r.size (min r.size (length (drop r.next r.buf))) (drop r.next r.buf)
          (take r.next r.buf) (ground (arith, length-drop r.next r.buf, length-take r.next r.buf))
          (ground (arith, length-drop r.next r.buf)))
  ]

  pub length-contents : {r : RingBuffer A} → IsValid r → length (contents r) ≡ r.size
  length-contents {r} h = ground (
    arith,
    length-take r.size r.buf,
    length-append (drop r.next r.buf) (take r.next r.buf),
    length-drop r.next r.buf,
    length-take r.next r.buf,
  )

  -- A write at the end of a buffer that is filled up to there.
  set_last : (xs : List A) (i : ℕ) (v : A) → suc i ≡ length xs → set xs i v ≡ take i xs ++ v ∷ []
  set_last xs i v e =
      sym (take-all (suc i) (set xs i v) (omega (arith, length-set xs i v)))
      ∙ take-set xs i v (omega arith)

  -- While there is room, `add` appends.
  contents-add_room :
      {r : RingBuffer A} (v : A)
      → IsValid r
      → ltb r.size r.capacity ≡ true
      → contents (add r v) ≡ contents r ++ v ∷ []
  unfolding add
  contents-add_room {r} v h e = elim (Bool-cases (ltb (r.size + 1) r.capacity)) [
    | inl room ↦ rw (e, room, at_size, add-one) (take-set r.buf r.size v (ground arith))
    | inr last ↦
        rw (e, last, wrap_lem (r.next + 1) r.capacity (ground arith), append-nil, at_size)
          (set_last r.buf r.size v (ground arith))
  ]
    where
      at_size : r.next ≡ r.size
      at_size = ground arith

  -- On a full buffer, `add` appends and drops the oldest.
  contents-add_full :
      {r : RingBuffer A} (v : A)
      → IsValid r
      → ltb r.size r.capacity ≡ false
      → contents (add r v) ≡ drop 1 (contents r ++ v ∷ [])
  unfolding add
  contents-add_full {r} v h e =
      elim (mod_cases (r.next + 1) r.capacity (omega arith) (omega arith)) [
        | inl (room, stay) ↦
            rw (e, e, stay, add-one)
              (ap₂ ◌++◌ (drop-set r.buf r.next v) (take-set r.buf r.next v (omega arith))
                ∙ sym shifted)
        | inr (last, wrap) ↦
            rw (e, e, wrap, append-nil)
              (set_last r.buf r.next v (omega arith)
                ∙ (sym (
                      ap (λ d. d ++ (take r.next r.buf ++ v ∷ []))
                        (drop-all (suc r.next) r.buf (omega arith)))
                    ∙ sym shifted))
      ]
    where
      shifted :
          drop 1 ((drop r.next r.buf ++ take r.next r.buf) ++ v ∷ [])
          ≡ drop (suc r.next) r.buf ++ (take r.next r.buf ++ v ∷ [])
      shifted =
          rw append_assoc (drop_one-append r.next r.buf (take r.next r.buf ++ v ∷ []) (omega arith))

  -- `add` appends, and drops the oldest value where that would exceed the capacity.
  pub contents-add :
      {r : RingBuffer A} (v : A)
      → IsValid r
      → contents (add r v) ≡ last_n r.capacity (contents r ++ v ∷ [])
  contents-add {r} v h = elim (Bool-cases (ltb r.size r.capacity)) [
    | inl e ↦
        contents-add_room v h e ∙ ap (λ k. drop k (contents r ++ v ∷ [])) (excess 0 (ground arith))
    | inr e ↦
        contents-add_full v h e ∙ ap (λ k. drop k (contents r ++ v ∷ [])) (excess 1 (ground arith))
  ]
    where
      excess :
          (k : ℕ) → k ≡ r.size + 1 - r.capacity → k ≡ length (contents r ++ v ∷ []) - r.capacity
      excess k e = omega (arith, e, length-contents h, length-append (contents r) (v ∷ []))
