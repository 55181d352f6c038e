-- ===== src/Persist/Roundtrip.antt =====
-- internal/collector/persist.go: what `decodeHistory` makes of what `encodeHistory` writes.
use pi_monitor.Prelude.{
  ℕ, ◌≤◌, ◌<◌, ◌≡◌, refl, sym, ap, ◌∙◌, List, [], ◌∷◌, ◌++◌, All, map, inl, inr, length, lt→ltb,
  ltb-false, arith, append_assoc, append-nil,
}
use pi_monitor.Prelude.Bytes.{Bytes, codes, str_eq}
use pi_monitor.Prelude.Maps.{lookup}
use pi_monitor.Persist.Types.{Series, History, history_series_list}
use pi_monitor.Persist.Encode.{FloatBits, le_bytes, encode_list, encode_history}
use pi_monitor.Persist.Decode.{too_many_series, trailing_data, decode_history, decode_body, finish}
use pi_monitor.Persist.Numbers.{at, take_bytes-append, take_number-append}
use pi_monitor.Persist.Series.{truncate_point, truncate_series, SeriesFits, decode_list-encode}
use pi_monitor.Persist.Keys.{restored_at, lookup-restored_map}
use pi_monitor.Persist.Restore.{restored, series_to_history-list}

module _ {V : Type 0} where
  -- One map read back: the series of each key that is short enough.
  abbrev pub MapRestored : List (Bytes × Series V) → List (Bytes × Series V) → Type 0
  MapRestored m m' = (k : Bytes) → lookup k m' ≡ restored_at m k

  -- `h'` is `h` with its times in milliseconds and without its overlong keys.
  abbrev pub IsRestored : History V → History V → Type 0
  IsRestored h h' =
      (h'.cpu_percent ≡ map truncate_point h.cpu_percent)
      × (h'.load1 ≡ map truncate_point h.load1)
      × (h'.load5 ≡ map truncate_point h.load5)
      × (h'.load15 ≡ map truncate_point h.load15)
      × (h'.temperature ≡ map truncate_point h.temperature)
      × (h'.memory_used_percent ≡ map truncate_point h.memory_used_percent)
      × (h'.swap_used_percent ≡ map truncate_point h.swap_used_percent)
      × MapRestored h.disk_used_percent h'.disk_used_percent
      × MapRestored h.disk_io_read_bytes_per_sec h'.disk_io_read_bytes_per_sec
      × MapRestored h.disk_io_write_bytes_per_sec h'.disk_io_write_bytes_per_sec
      × MapRestored h.network_rx_bytes_per_sec h'.network_rx_bytes_per_sec
      × MapRestored h.network_tx_bytes_per_sec h'.network_tx_bytes_per_sec

  restored-IsRestored : (h : History V) → IsRestored h (restored h)
  restored-IsRestored h = (
    refl,
    refl,
    refl,
    refl,
    refl,
    refl,
    refl,
    lookup-restored_map h.disk_used_percent,
    lookup-restored_map h.disk_io_read_bytes_per_sec,
    lookup-restored_map h.disk_io_write_bytes_per_sec,
    lookup-restored_map h.network_rx_bytes_per_sec,
    lookup-restored_map h.network_tx_bytes_per_sec,
  )

module _ {V : Type 0} ⦃b : FloatBits V⦄ where
  -- The header is read, and the rest of the file is left to `decode_body`.
  decode_header :
      (h : History V) (rest : Bytes)
      → decode_history {V = V} (encode_history h ++ rest)
        ≡ decode_body {V = V} (
            at (
              le_bytes 4 (length (history_series_list h))
              ++ (encode_list (history_series_list h) ++ rest)))
  unfolding decode_history encode_history str_eq
  decode_header h rest =
      let list = history_series_list h in
      let tail = le_bytes 4 (length list) ++ (encode_list list ++ rest) in
      rw (
        append_assoc (le_bytes 2 1) (le_bytes 4 (length list) ++ encode_list list) rest,
        append_assoc (le_bytes 4 (length list)) (encode_list list) rest,
        take_bytes-append (codes "PIMH") (le_bytes 2 1 ++ tail),
        take_number-append 2 1 tail (omega arith),
      )

  decode_history-append :
      (h : History V) (rest : Bytes)
      → length (history_series_list h) ≤ 4096
      → All SeriesFits (history_series_list h)
      → decode_history {V = V} (encode_history h ++ rest)
        ≡ finish (at rest, inr (map truncate_series (history_series_list h)))
  unfolding decode_body
  decode_history-append h rest few fits =
      let list = history_series_list h in
      rw (
        decode_header h rest,
        take_number-append 4 (length list) (encode_list list ++ rest) (omega arith),
        ltb-false 4096 (length list) few,
        decode_list-encode list [] rest fits,
      )

  -- A history within the limits of the format (at most 4096 series, at most 2097152 points in each,
  -- times whose milliseconds fit 64 bits) survives being written and read again: decoding succeeds,
  -- and every series comes back with its values and with its times rounded down to milliseconds;
  -- only map entries whose key is longer than 4096 bytes are lost.
  pub decode_history-encode_history :
      (h : History V)
      → length (history_series_list h) ≤ 4096
      → All SeriesFits (history_series_list h)
      → (h' : History V) × (decode_history {V = V} (encode_history h) ≡ inr h') × IsRestored h h'
  unfolding finish
  decode_history-encode_history h few fits = (
    restored h,
    ap (decode_history {V = V}) (sym (append-nil (encode_history h)))
        ∙ decode_history-append h [] few fits
        ∙ ap inr (series_to_history-list h),
    restored-IsRestored h,
  )

  -- Anything after the encoding of a history within the limits is an error: no bytes are ignored.
  decode_history-trailing :
      (h : History V) (c : ℕ) (cs : Bytes)
      → length (history_series_list h) ≤ 4096
      → All SeriesFits (history_series_list h)
      → decode_history {V = V} (encode_history h ++ c ∷ cs) ≡ inl trailing_data
  unfolding finish
  decode_history-trailing h c cs few fits = decode_history-append h (c ∷ cs) few fits

  -- A history of more than 4096 series, and fewer than 2 ^ 32, is written to a file that is refused
  -- when it is read: `encodeHistory` does not keep to the limit on the number of series.
  pub decode_history-too_many :
      (h : History V)
      → 4096 < length (history_series_list h)
      → length (history_series_list h) < 4294967296
      → decode_history {V = V} (encode_history h)
        ≡ inl (too_many_series (length (history_series_list h)))
  unfolding decode_body
  decode_history-too_many h many fits =
      let list = history_series_list h in
      ap (decode_history {V = V}) (sym (append-nil (encode_history h)))
      ∙ decode_header h []
      ∙ rw (
        take_number-append 4 (length list) (encode_list list ++ []) (omega arith),
        lt→ltb 4096 (length list) many,
      )
