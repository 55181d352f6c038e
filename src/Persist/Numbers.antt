-- ===== src/Persist/Numbers.antt =====
-- internal/collector/persist.go: the numbers and times of the format, written and read again.
use pi_monitor.Prelude.{
  ℕ, zero, suc, ◌/◌, ◌^◌, ◌<◌, ◌≡◌, refl, sym, ap, ◌∙◌, ◌++◌, some, length, false, arith,
  length-append, take-append, drop-append, ltb-false,
}
use pi_monitor.Prelude.Int.{ℤ, pos, negsuc}
use pi_monitor.Prelude.Bytes.{Bytes}
use pi_monitor.Persist.Encode.{le_bytes, to_uint64}
use pi_monitor.Persist.Decode.{HistoryDecoder, take_bytes, take_number, le_value, to_int64}

pub length-le_bytes : (k n : ℕ) → length (le_bytes k n) ≡ k
unfolding le_bytes
length-le_bytes zero n = refl
length-le_bytes (suc k) n = ap suc (length-le_bytes k (n / 256))

pub le_value-le_bytes : (k n : ℕ) → n < 256 ^ k → le_value (le_bytes k n) ≡ n
unfolding le_bytes le_value
le_value-le_bytes zero n h = omega arith
le_value-le_bytes (suc k) n h = rw (le_value-le_bytes k (n / 256) (omega arith)) (omega arith)

-- The decoder with these bytes before it and no error.
abbrev pub at : Bytes → HistoryDecoder
at bs = record { rest = bs; truncated = false }

pub take_bytes-append :
    (bs rest : Bytes) → take_bytes (length bs) (at (bs ++ rest)) ≡ (at rest, some bs)
unfolding take_bytes
take_bytes-append bs rest = rw (
  ltb-false (length (bs ++ rest)) (length bs) (omega (arith, length-append bs rest)),
  take-append bs rest,
  drop-append bs rest,
)

take_bytes_le :
    (k n : ℕ) (rest : Bytes)
    → take_bytes k (at (le_bytes k n ++ rest)) ≡ (at rest, some (le_bytes k n))
take_bytes_le k n rest =
    ap (λ i. take_bytes i (at (le_bytes k n ++ rest))) (sym (length-le_bytes k n))
    ∙ take_bytes-append (le_bytes k n) rest

pub take_number-append :
    (k n : ℕ) (rest : Bytes)
    → n < 256 ^ k
    → take_number k (at (le_bytes k n ++ rest)) ≡ (at rest, n)
unfolding take_number
take_number-append k n rest h = rw (take_bytes_le k n rest, le_value-le_bytes k n h)

-- The instants whose milliseconds fit 64 bits.
abbrev pub InRange : ℤ → Type 0
InRange (pos n) = n < 9223372036854775808
InRange (negsuc n) = n < 9223372036854775808

pub to_int64-to_uint64 : (z : ℤ) → InRange z → to_int64 (to_uint64 z) ≡ z
unfolding to_int64 to_uint64
to_int64-to_uint64 (pos n) h = ground arith
to_int64-to_uint64 (negsuc n) h = ground arith

pub to_uint64_lt : (z : ℤ) → to_uint64 z < 256 ^ 8
unfolding to_uint64
to_uint64_lt (pos n) = ground arith
to_uint64_lt (negsuc n) = ground arith
