-- ===== src/Ring.antt =====
-- internal/collector/ringbuffer.go: the fixed-capacity circular buffer of every history series.
-- Each method runs under the buffer's own mutex, so it is one atomic step from state to state.
pub mod Inv
pub mod Contents
pub mod Refine
pub mod Newest
mod Tests
use pi_monitor.Prelude.{
  ℕ, suc, ◌+◌, ◌-◌, ◌%◌, List, [], ◌∷◌, ◌++◌, Option, none, length, get_elem?, set, take, drop,
  replicate, min, ltb, ◌==◌, if◌then◌else◌,
}
use pi_monitor.Prelude.Int.{ℤ, pos, ltb_ℤ, pos_part}

pub record RingBuffer {ℓ} (A : Type ℓ) : Type ℓ where
  pub buf : List A
  pub capacity : ℕ
  pub next : ℕ
  pub size : ℕ

-- Go's `copy(dst, src)`: the common prefix is overwritten. It copies `min` of the lengths.
unfoldable pub copy {ℓ} : {A : Type ℓ} → List A → List A → List A
copy [] src = []
copy (d ∷ ds) [] = d ∷ ds
copy (d ∷ ds) (s ∷ ss) = s ∷ copy ds ss

module _ {ℓ} {A : Type ℓ} where
  -- `zero_value` is the element type's zero value, which `make` fills the slice with.
  unfoldable pub new_ring_buffer : A → ℤ → RingBuffer A
  new_ring_buffer zero_value capacity =
      let cap : ℕ = if ltb_ℤ capacity (pos 1) then 1 else pos_part capacity in
      record { buf = replicate cap zero_value; capacity = cap; next = 0; size = 0 }

  -- A write out of range would panic; `Inv` rules it out.
  unfoldable pub add : RingBuffer A → A → RingBuffer A
  add r v = record r {
    buf = set r.buf r.next v;
    next = (r.next + 1) % r.capacity;
    size = if ltb r.size r.capacity then r.size + 1 else r.size;
  }

  -- `values[len(values)-capacity:]` where that is not the whole slice.
  unfoldable pub newest_values : ℕ → List A → List A
  newest_values capacity values =
      if ltb capacity (length values) then drop (length values - capacity) values else values

  unfoldable pub fill : A → RingBuffer A → List A → RingBuffer A
  unfolding newest_values copy
  fill zero_value r values =
      let kept = newest_values r.capacity values in
      let size = min r.capacity (length kept) in
      record r {
        buf = copy (replicate r.capacity zero_value) kept;
        next = size % r.capacity;
        size = size;
      }

  unfoldable pub snapshot : A → RingBuffer A → List A
  unfolding copy
  snapshot zero_value r =
      let out = replicate r.size zero_value in
      if ltb r.size r.capacity
      then copy out (take r.size r.buf)
      else let tail = drop r.next r.buf in
        let n = min r.size (length tail) in
        take n (copy out tail) ++ copy (drop n (copy out tail)) (take r.next r.buf)

  -- The pair `(value, true)` is `some value`; the zero value with `false` is `none`.
  unfoldable pub newest : RingBuffer A → Option A
  newest r = if r.size == 0 then none else get_elem? r.buf ((r.next + r.capacity - 1) % r.capacity)
