-- ===== src/Persist/Encode.antt =====
-- internal/collector/persist.go: `encodeHistory`, with the fixed-width numbers that it writes.
use pi_monitor.Prelude.{ℕ, zero, suc, ◌-◌, ◌/◌, ◌%◌, ◌<◌, ◌≡◌, List, [], ◌∷◌, ◌++◌, length}
use pi_monitor.Prelude.Int.{ℤ, pos, negsuc, div_floor}
use pi_monitor.Prelude.Bytes.{Bytes, codes}
use pi_monitor.Persist.Types.{HistoryPoint, Series, History, HistorySeries, history_series_list}

-- `math.Float64bits` and `math.Float64frombits`: every bit pattern is kept.
pub record FloatBits (V : Type 0) : Type 0 where
  pub to_bits : V → ℕ
  pub from_bits : ℕ → V
  pub to_bits_lt : (v : V) → to_bits v < 18446744073709551616
  pub from_bits-to_bits : (v : V) → from_bits (to_bits v) ≡ v

-- Little-endian, the low `k` bytes.
unfoldable pub le_bytes : ℕ → ℕ → Bytes
le_bytes zero n = []
le_bytes (suc k) n = n % 256 ∷ le_bytes k (n / 256)

-- The conversion of an int64 to uint64.
unfoldable pub to_uint64 : ℤ → ℕ
to_uint64 (pos n) = n % 18446744073709551616
to_uint64 (negsuc n) = 18446744073709551615 - n % 18446744073709551616

-- `Time.UnixMilli`: rounds down.
abbrev pub unix_milli : ℤ → ℤ
unix_milli t = div_floor t 1000000

module _ {V : Type 0} ⦃b : FloatBits V⦄ where
  unfoldable pub encode_point : HistoryPoint V → Bytes
  encode_point p = le_bytes 8 (to_uint64 (unix_milli p.timestamp)) ++ le_bytes 8 (b.to_bits p.value)

  unfoldable pub encode_points : Series V → Bytes
  encode_points [] = []
  encode_points (p ∷ ps) = encode_point p ++ encode_points ps

  unfoldable pub encode_series : HistorySeries V → Bytes
  encode_series s =
      s.kind
      ∷ (le_bytes 2 (length s.key)
          ++ (s.key ++ (le_bytes 4 (length s.points) ++ encode_points s.points)))

  unfoldable pub encode_list : List (HistorySeries V) → Bytes
  encode_list [] = []
  encode_list (s ∷ list) = encode_series s ++ encode_list list

  unfoldable pub encode_history : History V → Bytes
  encode_history h =
      let list = history_series_list h in
      codes "PIMH" ++ (le_bytes 2 1 ++ (le_bytes 4 (length list) ++ encode_list list))
