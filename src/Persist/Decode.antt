-- ===== src/Persist/Decode.antt =====
-- internal/collector/persist.go: the decoder and `decodeHistory`.
-- The decoder's `data[off:]` is `rest`; its error is nil or errHistoryTruncated, so it is a flag.
use pi_monitor.Prelude.{
  ℕ, zero, suc, ◌+◌, ◌-◌, ◌*◌, Bool, true, false, not, ◌&&◌, ◌||◌, ◌⊎◌, inl, inr, List, [], ◌∷◌,
  ◌++◌, Option, none, some, length, take, drop, ltb, ◌==◌, if◌then◌else◌,
}
use pi_monitor.Prelude.Int.{ℤ, pos, negsuc, ◌*ℤ◌}
use pi_monitor.Prelude.Bytes.{Bytes, codes, str_eq}
use pi_monitor.Persist.Types.{
  Series, History, HistorySeries, series_to_history, max_series, max_key_len, max_points_per_series,
  point_size,
}
use pi_monitor.Persist.Encode.{FloatBits}

pub record HistoryDecoder : Type 0 where
  pub rest : Bytes
  pub truncated : Bool

pub data DecodeError : Type 0 where
  bad_magic : DecodeError
  unsupported_version : ℕ → DecodeError
  too_many_series : ℕ → DecodeError
  key_too_long : ℕ → DecodeError
  too_many_points : ℕ → DecodeError
  file_truncated : DecodeError
  trailing_data : DecodeError

-- A nil slice is `none`.
unfoldable pub take_bytes : ℕ → HistoryDecoder → HistoryDecoder × Option Bytes
take_bytes n d =
    if d.truncated
    then (d, none)
    else if ltb (length d.rest) n
    then (record d { truncated = true }, none)
    else (record d { rest = drop n d.rest }, some (take n d.rest))

-- The value of little-endian bytes.
unfoldable pub le_value : Bytes → ℕ
le_value [] = 0
le_value (b ∷ bs) = b + 256 * le_value bs

abbrev pub bytes_or_empty : Option Bytes → Bytes
bytes_or_empty none = []
bytes_or_empty (some bs) = bs

-- The methods `uint8`, `uint16` and `uint32` at 1, 2 and 4 bytes: 0 where the data has run out.
unfoldable pub take_number : ℕ → HistoryDecoder → HistoryDecoder × ℕ
take_number k d = let (d', bs) = take_bytes k d in (d', le_value (bytes_or_empty bs))

-- The conversion of a uint64 to int64.
unfoldable pub to_int64 : ℕ → ℤ
to_int64 n = if ltb n 9223372036854775808 then pos n else negsuc (18446744073709551615 - n)

-- `time.UnixMilli`.
abbrev pub from_unix_milli : ℤ → ℤ
from_unix_milli ms = ms *ℤ pos 1000000

-- How a series record ends: read, refused, or cut off with the decoder's error set.
pub data SeriesResult (V : Type 0) : Type 0 where
  decoded : HistorySeries V → SeriesResult V
  refused : DecodeError → SeriesResult V
  incomplete : SeriesResult V

module _ {V : Type 0} ⦃b : FloatBits V⦄ where
  unfoldable pub decode_history_points : Bytes → ℕ → Series V
  decode_history_points raw zero = []
  decode_history_points raw (suc n) =
      record {
        timestamp = from_unix_milli (to_int64 (le_value (take 8 raw)));
        value = b.from_bits (le_value (take 8 (drop 8 raw)));
      }
      ∷ decode_history_points (drop point_size raw) n

  -- From the points on, once the kind and the key are known.
  unfoldable pub decode_points_of : ℕ → Bytes → HistoryDecoder → HistoryDecoder × SeriesResult V
  decode_points_of kind key d =
      let (d1, n) = take_number 4 d in
      if not d1.truncated && ltb max_points_per_series n
      then (d1, refused (too_many_points n))
      else let (d2, raw) = take_bytes (n * point_size) d1 in
        if d2.truncated then (d2, incomplete) else (
          d2,
          decoded (record {
            kind = kind;
            key = key;
            points = decode_history_points (bytes_or_empty raw) n;
          }),
        )

  unfoldable pub decode_series : HistoryDecoder → HistoryDecoder × SeriesResult V
  decode_series d =
      let (d1, kind) = take_number 1 d in
      let (d2, key_len) = take_number 2 d1 in
      if not d2.truncated && ltb max_key_len key_len
      then (d2, refused (key_too_long key_len))
      else let (d3, key) = take_bytes key_len d2 in decode_points_of kind (bytes_or_empty key) d3

  -- What one round of the loop does with its series; the rounds after it are `k`.
  abbrev pub continue_with :
      (HistoryDecoder
        → List (HistorySeries V)
        → HistoryDecoder × (DecodeError ⊎ List (HistorySeries V)))
      → List (HistorySeries V)
      → HistoryDecoder × SeriesResult V
      → HistoryDecoder × (DecodeError ⊎ List (HistorySeries V))
  continue_with k list (d, decoded s) = k d (list ++ s ∷ [])
  continue_with k list (d, refused e) = (d, inl e)
  continue_with k list (d, incomplete) = (d, inr list)

  -- The loop over the declared count of series.
  unfoldable pub decode_list :
      ℕ
      → HistoryDecoder
      → List (HistorySeries V)
      → HistoryDecoder × (DecodeError ⊎ List (HistorySeries V))
  decode_list zero d list = (d, inr list)
  decode_list (suc n) d list =
      if d.truncated then (d, inr list) else continue_with (decode_list n) list (decode_series d)

  -- The checks after the loop.
  unfoldable pub finish :
      HistoryDecoder × (DecodeError ⊎ List (HistorySeries V)) → DecodeError ⊎ History V
  finish (d, inl e) = inl e
  finish (d, inr list) =
      if d.truncated
      then inl file_truncated
      else elim d.rest [ [] ↦ inr (series_to_history list) | b ∷ bs ↦ inl trailing_data ]

  -- From the count of series on.
  unfoldable pub decode_body : HistoryDecoder → DecodeError ⊎ History V
  decode_body d =
      let (d1, count) = take_number 4 d in
      if not d1.truncated && ltb max_series count
      then inl (too_many_series count)
      else finish (decode_list count d1 [])

  unfoldable pub decode_history : Bytes → DecodeError ⊎ History V
  decode_history bytes =
      let (d, magic) = take_bytes 4 (record { rest = bytes; truncated = false }) in
      if d.truncated || not (str_eq (bytes_or_empty magic) (codes "PIMH"))
      then inl bad_magic
      else let (d1, version) = take_number 2 d in
        if not d1.truncated && not (version == 1)
        then inl (unsupported_version version)
        else decode_body d1
