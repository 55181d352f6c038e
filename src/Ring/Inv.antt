-- ===== src/Ring/Inv.antt =====
-- The representation invariant of `RingBuffer`, and what keeps it.
use native.Mathlib.Nat.{mod-eq_of_lt, mod_self}
use pi_monitor.Prelude.{
  ℕ, zero, suc, ◌+◌, ◌-◌, ◌%◌, ◌≤◌, ◌<◌, ◌≡◌, ◌⊎◌, List, [], ◌∷◌, ap, arith, length, length-set,
  length-drop, length-set, length-replicate, replicate, ltb, Bool-cases, inl, inr, min,
}
use pi_monitor.Prelude.Int.{ℤ, pos, negsuc}
use pi_monitor.Ring.{RingBuffer, new_ring_buffer, add, fill, copy, newest_values}

-- Until the buffer is full its entries stand at the front, and `next` is the first free place.
pub record IsValid {ℓ} {A : Type ℓ} (r : RingBuffer A) : Type 0 where
  pub storage : length r.buf ≡ r.capacity
  pub next_in : r.next < r.capacity
  pub size_in : r.size ≤ r.capacity
  pub filling : (r.next ≡ r.size) ⊎ (r.size ≡ r.capacity)

pub length-copy {ℓ} : {A : Type ℓ} (dst src : List A) → length (copy dst src) ≡ length dst
unfolding copy
length-copy [] src = omega arith
length-copy (d ∷ ds) [] = omega arith
length-copy (d ∷ ds) (s ∷ ss) = ap suc (length-copy ds ss)

-- Where a wrapping index stands: in place, or back at the start.
pub mod_cases :
    (i cap : ℕ) → i ≤ cap → 0 < cap → ((i < cap) × (i % cap ≡ i)) ⊎ ((i ≡ cap) × (i % cap ≡ 0))
mod_cases i cap h p = elim (Bool-cases (ltb i cap)) [
  | inl e ↦ let lt : i < cap = ground arith in inl (lt, mod-eq_of_lt lt)
  | inr e ↦ let eq : i ≡ cap = ground arith in inr (eq, rw eq (mod_self cap))
]

pub wrap_lem : (i cap : ℕ) → i ≡ cap → i % cap ≡ 0
wrap_lem i cap e = rw e (mod_self cap)

module _ {ℓ} {A : Type ℓ} where
  pub new_ring_buffer-IsValid :
      (zero_value : A) (capacity : ℤ) → IsValid (new_ring_buffer zero_value capacity)
  unfolding new_ring_buffer
  new_ring_buffer-IsValid zero_value (pos zero) = omega arith
  new_ring_buffer-IsValid zero_value (pos (suc n)) =
      ground (arith, length-replicate (suc n) zero_value)
  new_ring_buffer-IsValid zero_value (negsuc n) = ground arith

  pub add-IsValid : {r : RingBuffer A} (v : A) → IsValid r → IsValid (add r v)
  unfolding add
  add-IsValid {r} v h =
      let wrap = mod_cases (r.next + 1) r.capacity (omega arith) (omega arith) in
      elim (Bool-cases (ltb r.size r.capacity)) [
        | inl e ↦ rw e (ground (arith, length-set r.buf r.next v, wrap))
        | inr e ↦ rw e (ground (arith, length-set r.buf r.next v, wrap))
      ]

  pub length-newest_values :
      (capacity : ℕ) (values : List A)
      → length (newest_values capacity values) ≡ min capacity (length values)
  unfolding newest_values
  length-newest_values capacity values =
      ground (arith, length-drop (length values - capacity) values)

  pub fill-IsValid :
      (zero_value : A) {r : RingBuffer A} (values : List A)
      → IsValid r
      → IsValid (fill zero_value r values)
  unfolding fill
  fill-IsValid zero_value {r} values h = ground (
    arith,
    length-copy (replicate r.capacity zero_value) (newest_values r.capacity values),
    length-replicate r.capacity zero_value,
    mod_cases (min r.capacity (length (newest_values r.capacity values))) r.capacity,
  )
