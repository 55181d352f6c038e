-- ===== src/Persist/Tests.antt =====
-- Runs of the history format, and its theorems at concrete histories.
use pi_monitor.Prelude.{
  ℕ, zero, suc, ◌/◌, ◌%◌, ◌≤◌, List, All, ◌≡◌, ◌<◌, refl, [], ◌∷◌, inl, inr, length, arith,
  if◌then◌else◌, ◌==◌,
}
use pi_monitor.Prelude.Int.{pos}
use pi_monitor.Prelude.Bytes.{Bytes, codes, str_eq, str_lt}
use pi_monitor.Prelude.Maps.{lookup}
use pi_monitor.Prelude.Sort.{sort, insert_sorted}
use pi_monitor.Persist.Types.{
  HistoryPoint, History, empty_history, history_series_list, append_map, short_keys, points_at,
}
use pi_monitor.Persist.Encode.{FloatBits, encode_history}
use pi_monitor.Persist.Decode.{decode_history, too_many_series}
use pi_monitor.Persist.Series.{SeriesFits}
use pi_monitor.Persist.Roundtrip.{
  IsRestored, decode_history-encode_history, decode_history-too_many,
}

-- Three readings of a percentage, with the IEEE 754 patterns of 0, 50 and 100.
data Reading : Type 0 where
  idle half full : Reading

abbrev bits_of : Reading → ℕ
bits_of idle = 0
bits_of half = 4632233691727265792
bits_of full = 4636737291354636288

abbrev reading_of : ℕ → Reading
reading_of n =
    if n == 4632233691727265792 then half else if n == 4636737291354636288 then full else idle

bits_of_lt : (r : Reading) → bits_of r < 18446744073709551616
bits_of_lt idle = omega arith
bits_of_lt half = omega arith
bits_of_lt full = omega arith

reading_of-bits_of : (r : Reading) → reading_of (bits_of r) ≡ r
reading_of-bits_of idle = refl
reading_of-bits_of half = refl
reading_of-bits_of full = refl

instance abbrev reading_bits : FloatBits Reading
reading_bits = record {
  to_bits = bits_of;
  from_bits = reading_of;
  to_bits_lt = bits_of_lt;
  from_bits-to_bits = reading_of-bits_of;
}

abbrev recent : History Reading
recent = record empty_history {
  cpu_percent =
      record { timestamp = pos 1700000000123456789; value = half }
      ∷ record { timestamp = pos 1700000001123456789; value = full }
      ∷ [];
  disk_used_percent =
      (codes "/usb", record { timestamp = pos 1700000000999999999; value = idle } ∷ [])
      ∷ (codes "/", [])
      ∷ [];
}

-- `recent` keeps to the limits.
recent_few : length (history_series_list recent) ≤ 4096
unfolding history_series_list append_map short_keys sort str_lt
recent_few = omega arith

recent_fits : All SeriesFits (history_series_list recent)
unfolding history_series_list append_map short_keys points_at sort str_lt str_eq lookup
recent_fits = ground arith

decode_history-encode_history_example :
    (h' : History Reading) × (decode_history (encode_history recent) ≡ inr h')
    × IsRestored recent h'
decode_history-encode_history_example = decode_history-encode_history recent recent_few recent_fits

-- `n` mount points with distinct keys, in order.
abbrev mounts : ℕ → ℕ → List (Bytes × List (HistoryPoint Reading))
mounts zero k = []
mounts (suc n) k = (k / 256 ∷ k % 256 ∷ [], []) ∷ mounts n (suc k)

abbrev crowded : History Reading
crowded = record empty_history { disk_used_percent = mounts 4090 0 }

crowded_count : length (history_series_list crowded) ≡ 4097
unfolding history_series_list append_map short_keys sort insert_sorted str_lt
crowded_count = refl

decode_history-too_many_example :
    decode_history {V = Reading} (encode_history crowded)
    ≡ inl (too_many_series (length (history_series_list crowded)))
decode_history-too_many_example =
    decode_history-too_many crowded (omega (arith, crowded_count)) (omega (arith, crowded_count))
