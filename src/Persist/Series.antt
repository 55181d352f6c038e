-- ===== src/Persist/Series.antt =====
-- internal/collector/persist.go: a list of series records, written and read again.
use pi_monitor.Prelude.{
  ℕ, suc, ◌*◌, ◌≤◌, ◌≡◌, refl, sym, ap, ◌∙◌, List, [], ◌∷◌, ◌++◌, All, map, some, length, take,
  drop, arith, ltb-false, append_assoc, append-nil, inr,
}
use pi_monitor.Prelude.Int.{ℤ}
use pi_monitor.Prelude.Bytes.{Bytes}
use pi_monitor.Persist.Types.{HistoryPoint, Series, HistorySeries}
use pi_monitor.Persist.Encode.{
  FloatBits, le_bytes, to_uint64, unix_milli, encode_point, encode_points, encode_series,
  encode_list,
}
use pi_monitor.Persist.Decode.{
  take_bytes, take_number, le_value, from_unix_milli, decode_history_points, decode_points_of,
  decode_series, decode_list, decoded,
}
use pi_monitor.Persist.Numbers.{
  at, InRange, take_bytes-append, take_number-append, to_int64-to_uint64, to_uint64_lt,
  le_value-le_bytes,
}

-- The format keeps the milliseconds of an instant.
abbrev pub to_milli : ℤ → ℤ
to_milli t = from_unix_milli (unix_milli t)

take_first : (m n : ℕ) (r : Bytes) → take 8 (le_bytes 8 m ++ le_bytes 8 n ++ r) ≡ le_bytes 8 m
unfolding le_bytes
take_first m n r = refl

take_second :
    (m n : ℕ) (r : Bytes) → take 8 (drop 8 (le_bytes 8 m ++ le_bytes 8 n ++ r)) ≡ le_bytes 8 n
unfolding le_bytes
take_second m n r = refl

drop_both : (m n : ℕ) (r : Bytes) → drop 16 (le_bytes 8 m ++ le_bytes 8 n ++ r) ≡ r
unfolding le_bytes
drop_both m n r = refl

module _ {V : Type 0} where
  abbrev pub truncate_point : HistoryPoint V → HistoryPoint V
  truncate_point p = record p { timestamp = to_milli p.timestamp }

  abbrev pub truncate_series : HistorySeries V → HistorySeries V
  truncate_series s = record s { points = map truncate_point s.points }

  abbrev pub PointFits : HistoryPoint V → Type 0
  PointFits p = InRange (unix_milli p.timestamp)

  -- What the limits of the format ask of one series.
  abbrev pub SeriesFits : HistorySeries V → Type 0
  SeriesFits s = (length s.key ≤ 4096) × (length s.points ≤ 2097152) × All PointFits s.points

take_kind : (kind : ℕ) (rest : Bytes) → take_number 1 (at (kind ∷ rest)) ≡ (at rest, kind)
unfolding take_number take_bytes le_value
take_kind kind rest =
    rw (ltb-false (suc (length rest)) 1 (omega arith)) (ap (λ n. (at rest, n)) (omega arith))

module _ {V : Type 0} ⦃b : FloatBits V⦄ where
  length-encode_points : (ps : Series V) → length (encode_points ps) ≡ length ps * 16
  unfolding encode_points encode_point le_bytes
  length-encode_points [] = refl
  length-encode_points (p ∷ ps) = omega (arith, length-encode_points ps)

  decode-encode_points :
      (ps : Series V)
      → All PointFits ps
      → decode_history_points (encode_points ps) (length ps) ≡ map truncate_point ps
  unfolding decode_history_points encode_points encode_point
  decode-encode_points [] h = refl
  decode-encode_points (p ∷ ps) h =
      let m = to_uint64 (unix_milli p.timestamp) in
      let n = b.to_bits p.value in
      let r = encode_points ps in
      rw (
        take_first m n r,
        take_second m n r,
        drop_both m n r,
        le_value-le_bytes 8 m (to_uint64_lt (unix_milli p.timestamp)),
        le_value-le_bytes 8 n (b.to_bits_lt p.value),
        to_int64-to_uint64 (unix_milli p.timestamp) (h.0),
        b.from_bits-to_bits p.value,
        decode-encode_points ps (h.1),
      )

  take_points :
      (ps : Series V) (rest : Bytes)
      → take_bytes (length ps * 16) (at (encode_points ps ++ rest))
        ≡ (at rest, some (encode_points ps))
  take_points ps rest =
      ap (λ i. take_bytes i (at (encode_points ps ++ rest))) (sym (length-encode_points ps))
      ∙ take_bytes-append (encode_points ps) rest

  decode_points_of-encode :
      (kind : ℕ) (key : Bytes) (ps : Series V) (rest : Bytes)
      → length ps ≤ 2097152
      → All PointFits ps
      → decode_points_of kind key (at (le_bytes 4 (length ps) ++ (encode_points ps ++ rest)))
        ≡ (at rest, decoded (record { kind = kind; key = key; points = map truncate_point ps }))
  unfolding decode_points_of
  decode_points_of-encode kind key ps rest h fits = rw (
    take_number-append 4 (length ps) (encode_points ps ++ rest) (omega arith),
    ltb-false 2097152 (length ps) h,
    take_points ps rest,
    decode-encode_points ps fits,
  )

  decode_series-encode :
      (s : HistorySeries V) (rest : Bytes)
      → SeriesFits s
      → decode_series (at (encode_series s ++ rest)) ≡ (at rest, decoded (truncate_series s))
  unfolding decode_series encode_series
  decode_series-encode s rest fits =
      let n = le_bytes 4 (length s.points) in
      let ps = encode_points s.points in
      rw
        (
          append_assoc (le_bytes 2 (length s.key)) (s.key ++ (n ++ ps)) rest,
          append_assoc s.key (n ++ ps) rest,
          append_assoc n ps rest,
          take_kind s.kind (le_bytes 2 (length s.key) ++ (s.key ++ (n ++ (ps ++ rest)))),
          take_number-append 2 (length s.key) (s.key ++ (n ++ (ps ++ rest)))
              (omega (arith, fits.0)),
          ltb-false 4096 (length s.key) (fits.0),
          take_bytes-append s.key (n ++ (ps ++ rest)),
        )
        (decode_points_of-encode s.kind s.key s.points rest (fits.1) (fits.2))

  -- The loop reads back every series of a list, each with its times in milliseconds.
  pub decode_list-encode :
      (list done : List (HistorySeries V)) (rest : Bytes)
      → All SeriesFits list
      → decode_list (length list) (at (encode_list list ++ rest)) done
        ≡ (at rest, inr (done ++ map truncate_series list))
  unfolding decode_list encode_list
  decode_list-encode [] done rest fits = rw append-nil
  decode_list-encode (s ∷ list) done rest fits =
      rw
        (
          append_assoc (encode_series s) (encode_list list) rest,
          decode_series-encode s (encode_list list ++ rest) (fits.0),
        )
        (decode_list-encode list (done ++ truncate_series s ∷ []) rest (fits.1)
          ∙ ap (λ l. (at rest, inr l))
              (append_assoc done (truncate_series s ∷ []) (map truncate_series list)))
