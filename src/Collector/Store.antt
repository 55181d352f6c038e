-- ===== src/Collector/Store.antt =====
-- internal/collector/collector.go: the history part of `Collector`, and `History`.
use pi_monitor.Prelude.{ℕ, List, [], ◌∷◌}
use pi_monitor.Prelude.Int.{ℤ, pos, leb_ℤ, zero_time}
use pi_monitor.Prelude.{if◌then◌else◌}
use pi_monitor.Prelude.Bytes.{Bytes}
use pi_monitor.Prelude.Float.{Float}
use pi_monitor.Persist.Types.{HistoryPoint, Series, History}
use pi_monitor.Ring.{RingBuffer, new_ring_buffer, snapshot}

abbrev pub Ring : Type 0 → Type 0
Ring V = RingBuffer (HistoryPoint V)

pub record Collector (V : Type 0) : Type 0 where
  -- the configuration's `HistoryCapacity`
  pub history_capacity : ℤ
  pub fast_interval : ℤ
  pub history_gen : ℕ
  pub cpu_hist : Ring V
  pub l1_hist : Ring V
  pub l5_hist : Ring V
  pub l15_hist : Ring V
  pub temp_hist : Ring V
  pub mem_hist : Ring V
  pub swap_hist : Ring V
  pub disk_hist : List (Bytes × Ring V)
  pub disk_io_read_hist : List (Bytes × Ring V)
  pub disk_io_write_hist : List (Bytes × Ring V)
  pub rx_hist : List (Bytes × Ring V)
  pub tx_hist : List (Bytes × Ring V)

-- A second, where the interval is not positive.
unfoldable pub clamp_interval : ℤ → ℤ
clamp_interval d = if leb_ℤ d (pos 0) then pos 1000000000 else d

module _ {V : Type 0} ⦃f : Float V⦄ where
  -- `HistoryPoint{}`.
  abbrev pub no_point : HistoryPoint V
  no_point = record { timestamp = zero_time; value = f.zero }

  abbrev pub new_ring : ℤ → Ring V
  new_ring capacity = new_ring_buffer no_point capacity

  -- The history that `New` starts with.
  unfoldable pub new_collector : ℤ → ℤ → Collector V
  new_collector history_capacity fast_interval = record {
    history_capacity = history_capacity;
    fast_interval = clamp_interval fast_interval;
    history_gen = 0;
    cpu_hist = new_ring history_capacity;
    l1_hist = new_ring history_capacity;
    l5_hist = new_ring history_capacity;
    l15_hist = new_ring history_capacity;
    temp_hist = new_ring history_capacity;
    mem_hist = new_ring history_capacity;
    swap_hist = new_ring history_capacity;
    disk_hist = [];
    disk_io_read_hist = [];
    disk_io_write_hist = [];
    rx_hist = [];
    tx_hist = [];
  }

  -- The copy of a map of buffers.
  unfoldable pub snapshots : List (Bytes × Ring V) → List (Bytes × Series V)
  snapshots [] = []
  snapshots ((k, rb) ∷ m) = (k, snapshot no_point rb) ∷ snapshots m

  unfoldable pub history : Collector V → History V
  history c = record {
    cpu_percent = snapshot no_point c.cpu_hist;
    load1 = snapshot no_point c.l1_hist;
    load5 = snapshot no_point c.l5_hist;
    load15 = snapshot no_point c.l15_hist;
    temperature = snapshot no_point c.temp_hist;
    memory_used_percent = snapshot no_point c.mem_hist;
    swap_used_percent = snapshot no_point c.swap_hist;
    disk_used_percent = snapshots c.disk_hist;
    disk_io_read_bytes_per_sec = snapshots c.disk_io_read_hist;
    disk_io_write_bytes_per_sec = snapshots c.disk_io_write_hist;
    network_rx_bytes_per_sec = snapshots c.rx_hist;
    network_tx_bytes_per_sec = snapshots c.tx_hist;
  }
