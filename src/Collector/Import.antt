-- ===== src/Collector/Import.antt =====
-- internal/collector: `History.Since` (collector.go) and `importHistory` (persist.go).
use pi_monitor.Prelude.{Bool, not, List, [], ◌∷◌, ◌&&◌, if◌then◌else◌}
use pi_monitor.Prelude.Int.{ℤ, pos, leb_ℤ, ltb_ℤ, ◌-ℤ◌, zero_time}
use pi_monitor.Prelude.Bytes.{Bytes}
use pi_monitor.Prelude.Maps.{insert}
use pi_monitor.Prelude.Float.{Float}
use pi_monitor.Persist.Types.{HistoryPoint, Series, History}
use pi_monitor.Ring.{fill}
use pi_monitor.Collector.Search.{drop_prefix}
use pi_monitor.Collector.Store.{Ring, Collector, no_point, new_ring}

-- `t.IsZero()`.
abbrev pub is_zero : ℤ → Bool
is_zero t = leb_ℤ t zero_time && leb_ℤ zero_time t

-- The oldest instant kept: the zero time where no window is configured.
unfoldable pub import_cutoff : ℤ → ℤ → ℤ
import_cutoff history_window now =
    if ltb_ℤ (pos 0) history_window then now -ℤ history_window else zero_time

module _ {V : Type 0} where
  -- `p.Timestamp.After(t)`.
  abbrev pub newer : ℤ → HistoryPoint V → Bool
  newer t p = ltb_ℤ t p.timestamp

  -- A device left without points is dropped.
  unfoldable pub filter_devices : ℤ → List (Bytes × Series V) → List (Bytes × Series V)
  filter_devices t [] = []
  filter_devices t ((key, points) ∷ src) = elim (drop_prefix points (newer t)) [
    | [] ↦ filter_devices t src
    | p ∷ ps ↦ (key, p ∷ ps) ∷ filter_devices t src
  ]

  unfoldable pub since : History V → ℤ → History V
  since h t = if is_zero t then h else record {
    cpu_percent = drop_prefix h.cpu_percent (newer t);
    load1 = drop_prefix h.load1 (newer t);
    load5 = drop_prefix h.load5 (newer t);
    load15 = drop_prefix h.load15 (newer t);
    temperature = drop_prefix h.temperature (newer t);
    memory_used_percent = drop_prefix h.memory_used_percent (newer t);
    swap_used_percent = drop_prefix h.swap_used_percent (newer t);
    disk_used_percent = filter_devices t h.disk_used_percent;
    disk_io_read_bytes_per_sec = filter_devices t h.disk_io_read_bytes_per_sec;
    disk_io_write_bytes_per_sec = filter_devices t h.disk_io_write_bytes_per_sec;
    network_rx_bytes_per_sec = filter_devices t h.network_rx_bytes_per_sec;
    network_tx_bytes_per_sec = filter_devices t h.network_tx_bytes_per_sec;
  }

  -- `!p.Timestamp.Before(cutoff)`.
  abbrev pub not_before : ℤ → HistoryPoint V → Bool
  not_before cutoff p = not (ltb_ℤ p.timestamp cutoff)

  unfoldable pub trim : ℤ → Series V → Series V
  trim cutoff points = drop_prefix points (not_before cutoff)

module _ {V : Type 0} ⦃f : Float V⦄ where
  unfoldable pub import_map :
      ℤ → ℤ → List (Bytes × Ring V) → List (Bytes × Series V) → List (Bytes × Ring V)
  import_map capacity cutoff dst [] = dst
  import_map capacity cutoff dst ((key, points) ∷ src) = elim (trim cutoff points) [
    | [] ↦ import_map capacity cutoff dst src
    | p ∷ ps ↦
        import_map capacity cutoff (insert key (fill no_point (new_ring capacity) (p ∷ ps)) dst) src
  ]

  unfoldable pub import_history : Collector V → ℤ → History V → ℤ → Collector V
  import_history c history_window h now =
      let cutoff = import_cutoff history_window now in
      let scalar : Ring V → Series V → Ring V =
        λ rb points. fill no_point rb (trim cutoff points) in
      let devices = import_map c.history_capacity cutoff in
      record c {
        cpu_hist = scalar c.cpu_hist h.cpu_percent;
        l1_hist = scalar c.l1_hist h.load1;
        l5_hist = scalar c.l5_hist h.load5;
        l15_hist = scalar c.l15_hist h.load15;
        temp_hist = scalar c.temp_hist h.temperature;
        mem_hist = scalar c.mem_hist h.memory_used_percent;
        swap_hist = scalar c.swap_hist h.swap_used_percent;
        disk_hist = devices c.disk_hist h.disk_used_percent;
        disk_io_read_hist = devices c.disk_io_read_hist h.disk_io_read_bytes_per_sec;
        disk_io_write_hist = devices c.disk_io_write_hist h.disk_io_write_bytes_per_sec;
        rx_hist = devices c.rx_hist h.network_rx_bytes_per_sec;
        tx_hist = devices c.tx_hist h.network_tx_bytes_per_sec;
      }
