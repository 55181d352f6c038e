-- ===== src/Persist/Types.antt =====
-- internal/collector: `HistoryPoint` (types.go) and `History` (collector.go), the series records of
-- persist.go with their kinds and limits, and `historySeriesList` with its inverse.
use pi_monitor.Prelude.{ℕ, List, [], ◌∷◌, ◌++◌, none, some, map, length, leb, ◌==◌, if◌then◌else◌}
use pi_monitor.Prelude.Int.{ℤ}
use pi_monitor.Prelude.Bytes.{Bytes, str_lt}
use pi_monitor.Prelude.Maps.{lookup, insert}
use pi_monitor.Prelude.Sort.{sort}

pub record HistoryPoint (V : Type 0) : Type 0 where
  pub timestamp : ℤ
  pub value : V

abbrev pub Series : Type 0 → Type 0
Series V = List (HistoryPoint V)

pub record History (V : Type 0) : Type 0 where
  pub cpu_percent : Series V
  pub load1 : Series V
  pub load5 : Series V
  pub load15 : Series V
  pub temperature : Series V
  pub memory_used_percent : Series V
  pub swap_used_percent : Series V
  pub disk_used_percent : List (Bytes × Series V)
  pub disk_io_read_bytes_per_sec : List (Bytes × Series V)
  pub disk_io_write_bytes_per_sec : List (Bytes × Series V)
  pub network_rx_bytes_per_sec : List (Bytes × Series V)
  pub network_tx_bytes_per_sec : List (Bytes × Series V)

-- The decode limits, in numbers: 1 << 12, 1 << 12 and 1 << 21, and the bytes of one point.
abbrev pub max_series : ℕ
max_series = 4096

abbrev pub max_key_len : ℕ
max_key_len = 4096

abbrev pub max_points_per_series : ℕ
max_points_per_series = 2097152

abbrev pub point_size : ℕ
point_size = 16

-- The kinds: part of the format on disk.
abbrev pub series_cpu_percent : ℕ
series_cpu_percent = 0

abbrev pub series_load1 : ℕ
series_load1 = 1

abbrev pub series_load5 : ℕ
series_load5 = 2

abbrev pub series_load15 : ℕ
series_load15 = 3

abbrev pub series_temperature : ℕ
series_temperature = 4

abbrev pub series_memory_used_percent : ℕ
series_memory_used_percent = 5

abbrev pub series_swap_used_percent : ℕ
series_swap_used_percent = 6

abbrev pub series_disk_used_percent : ℕ
series_disk_used_percent = 7

abbrev pub series_network_rx_bytes_per_sec : ℕ
series_network_rx_bytes_per_sec = 8

abbrev pub series_network_tx_bytes_per_sec : ℕ
series_network_tx_bytes_per_sec = 9

abbrev pub series_disk_io_read_bytes_per_sec : ℕ
series_disk_io_read_bytes_per_sec = 10

abbrev pub series_disk_io_write_bytes_per_sec : ℕ
series_disk_io_write_bytes_per_sec = 11

pub record HistorySeries (V : Type 0) : Type 0 where
  pub kind : ℕ
  pub key : Bytes
  pub points : Series V

module _ {V : Type 0} where
  -- `History{}`: nil slices and nil maps.
  abbrev pub empty_history : History V
  empty_history = record {
    cpu_percent = [];
    load1 = [];
    load5 = [];
    load15 = [];
    temperature = [];
    memory_used_percent = [];
    swap_used_percent = [];
    disk_used_percent = [];
    disk_io_read_bytes_per_sec = [];
    disk_io_write_bytes_per_sec = [];
    network_rx_bytes_per_sec = [];
    network_tx_bytes_per_sec = [];
  }

  -- The keys short enough to be written, in the order of the `range` loop.
  unfoldable pub short_keys : List (Bytes × Series V) → List Bytes
  short_keys [] = []
  short_keys ((k, ps) ∷ m) = if leb (length k) max_key_len then k ∷ short_keys m else short_keys m

  -- `m[k]`: nil where there is none.
  unfoldable pub points_at : List (Bytes × Series V) → Bytes → Series V
  points_at m k = elim (lookup k m) [ none ↦ [] | some ps ↦ ps ]

  abbrev pub map_series : ℕ → List (Bytes × Series V) → Bytes → HistorySeries V
  map_series kind m k = record { kind = kind; key = k; points = points_at m k }

  -- The closure `appendMap`: what it appends.
  unfoldable pub append_map : ℕ → List (Bytes × Series V) → List (HistorySeries V)
  append_map kind m = map (map_series kind m) (sort str_lt (short_keys m))

  abbrev pub scalar_series : ℕ → Series V → HistorySeries V
  scalar_series kind points = record { kind = kind; key = []; points = points }

  abbrev pub scalar_list : History V → List (HistorySeries V)
  scalar_list h =
      scalar_series series_cpu_percent h.cpu_percent
      ∷ scalar_series series_load1 h.load1
      ∷ scalar_series series_load5 h.load5
      ∷ scalar_series series_load15 h.load15
      ∷ scalar_series series_temperature h.temperature
      ∷ scalar_series series_memory_used_percent h.memory_used_percent
      ∷ scalar_series series_swap_used_percent h.swap_used_percent
      ∷ []

  unfoldable pub history_series_list : History V → List (HistorySeries V)
  history_series_list h =
      scalar_list h
      ++ append_map series_disk_used_percent h.disk_used_percent
      ++ append_map series_network_rx_bytes_per_sec h.network_rx_bytes_per_sec
      ++ append_map series_network_tx_bytes_per_sec h.network_tx_bytes_per_sec
      ++ append_map series_disk_io_read_bytes_per_sec h.disk_io_read_bytes_per_sec
      ++ append_map series_disk_io_write_bytes_per_sec h.disk_io_write_bytes_per_sec

  -- The kinds of `mapEntry`.
  unfoldable pub restore_entry : History V → HistorySeries V → History V
  restore_entry h s =
      if s.kind == series_disk_used_percent
      then record h { disk_used_percent = insert s.key s.points h.disk_used_percent }
      else if s.kind == series_network_rx_bytes_per_sec
      then record h { network_rx_bytes_per_sec = insert s.key s.points h.network_rx_bytes_per_sec }
      else if s.kind == series_network_tx_bytes_per_sec
      then record h { network_tx_bytes_per_sec = insert s.key s.points h.network_tx_bytes_per_sec }
      else if s.kind == series_disk_io_read_bytes_per_sec
      then record h {
        disk_io_read_bytes_per_sec = insert s.key s.points h.disk_io_read_bytes_per_sec;
      }
      else if s.kind == series_disk_io_write_bytes_per_sec
      then record h {
        disk_io_write_bytes_per_sec = insert s.key s.points h.disk_io_write_bytes_per_sec;
      }
      else h

  -- One round of the loop of `seriesToHistory`; a series of unknown kind changes nothing.
  unfoldable pub restore_series : History V → HistorySeries V → History V
  restore_series h s =
      if s.kind == series_cpu_percent
      then record h { cpu_percent = s.points }
      else if s.kind == series_load1
      then record h { load1 = s.points }
      else if s.kind == series_load5
      then record h { load5 = s.points }
      else if s.kind == series_load15
      then record h { load15 = s.points }
      else if s.kind == series_temperature
      then record h { temperature = s.points }
      else if s.kind == series_memory_used_percent
      then record h { memory_used_percent = s.points }
      else if s.kind == series_swap_used_percent
      then record h { swap_used_percent = s.points }
      else restore_entry h s

  unfoldable pub restore_from : History V → List (HistorySeries V) → History V
  restore_from h [] = h
  restore_from h (s ∷ list) = restore_from (restore_series h s) list

  unfoldable pub series_to_history : List (HistorySeries V) → History V
  series_to_history list = restore_from empty_history list
