-- ===== src/Collector/Record.antt =====
-- internal/collector/collector.go: the history part of `fastTick`, `recordDeviceHistory` and
-- `evictStaleSeries`.
use pi_monitor.Prelude.{
  ◌+◌, ◌%◌, Bool, true, ◌||◌, not, List, [], ◌∷◌, none, some, map, if◌then◌else◌,
}
use pi_monitor.Prelude.Int.{ℤ, pos, leb_ℤ, ltb_ℤ, ◌-ℤ◌, ◌*ℤ◌}
use pi_monitor.Prelude.Bytes.{Bytes}
use pi_monitor.Prelude.Maps.{lookup, insert}
use pi_monitor.Prelude.Float.{Float}
use pi_monitor.Alert.Evaluate.{contains}
use pi_monitor.Persist.Types.{HistoryPoint}
use pi_monitor.Ring.{add, newest}
use pi_monitor.Collector.Store.{Ring, Collector, new_ring}

-- What the tick reads of a filesystem, a disk and a network interface (types.go).
pub record DiskReading (V : Type 0) : Type 0 where
  pub mountpoint : Bytes
  pub used_percent : V

pub record DiskIoReading (V : Type 0) : Type 0 where
  pub device : Bytes
  pub read_bytes_per_sec : V
  pub write_bytes_per_sec : V

pub record NetworkReading (V : Type 0) : Type 0 where
  pub name : Bytes
  pub rx_bytes_per_sec : V
  pub tx_bytes_per_sec : V

pub record TickSamples (V : Type 0) : Type 0 where
  pub now : ℤ
  pub overall_percent : V
  pub load1 : V
  pub load5 : V
  pub load15 : V
  pub celsius : V
  pub mem_used_percent : V
  pub swap_used_percent : V
  pub disks : List (DiskReading V)
  pub disk_io : List (DiskIoReading V)
  pub net_ifaces : List (NetworkReading V)

module _ {V : Type 0} where
  -- An absent device whose newest sample is older than the window, or which has none.
  unfoldable pub is_stale : ℤ → ℤ → Ring V → Bool
  is_stale now window rb = elim (newest rb) [
    | none ↦ true
    | some p ↦ ltb_ℤ window (now -ℤ p.timestamp)
  ]

  -- The loop; deleting the entry that it stands at leaves the others.
  unfoldable pub evict_from : List Bytes → ℤ → ℤ → List (Bytes × Ring V) → List (Bytes × Ring V)
  evict_from current now window [] = []
  evict_from current now window ((key, rb) ∷ hist) =
      if contains current key || not (is_stale now window rb)
      then (key, rb) ∷ evict_from current now window hist
      else evict_from current now window hist

  unfoldable pub evict_stale_series :
      List (Bytes × Ring V) → List Bytes → ℤ → ℤ → List (Bytes × Ring V)
  evict_stale_series hist current now window =
      if leb_ℤ window (pos 0) then hist else evict_from current now window hist

module _ {V : Type 0} ⦃f : Float V⦄ where
  -- `rb, ok := hist[key]`, with a new buffer where there is none.
  unfoldable pub ring_at : ℤ → Bytes → List (Bytes × Ring V) → Ring V
  ring_at capacity key hist = elim (lookup key hist) [ none ↦ new_ring capacity | some rb ↦ rb ]

  -- One sample of one device.
  unfoldable pub add_sample : ℤ → ℤ → Bytes → V → List (Bytes × Ring V) → List (Bytes × Ring V)
  add_sample capacity now key value hist =
      insert key (add (ring_at capacity key hist) (record { timestamp = now; value = value })) hist

  unfoldable pub add_disks :
      ℤ → ℤ → List (DiskReading V) → List (Bytes × Ring V) → List (Bytes × Ring V)
  add_disks capacity now [] hist = hist
  add_disks capacity now (d ∷ ds) hist =
      add_disks capacity now ds (add_sample capacity now d.mountpoint d.used_percent hist)

  unfoldable pub add_disk_io :
      ℤ
      → ℤ
      → List (DiskIoReading V)
      → List (Bytes × Ring V) × List (Bytes × Ring V)
      → List (Bytes × Ring V) × List (Bytes × Ring V)
  add_disk_io capacity now [] p = p
  add_disk_io capacity now (d ∷ ds) (reads, writes) = add_disk_io capacity now ds (
    add_sample capacity now d.device d.read_bytes_per_sec reads,
    add_sample capacity now d.device d.write_bytes_per_sec writes,
  )

  unfoldable pub add_net :
      ℤ
      → ℤ
      → List (NetworkReading V)
      → List (Bytes × Ring V) × List (Bytes × Ring V)
      → List (Bytes × Ring V) × List (Bytes × Ring V)
  add_net capacity now [] p = p
  add_net capacity now (n ∷ ns) (rx, tx) = add_net capacity now ns (
    add_sample capacity now n.name n.rx_bytes_per_sec rx,
    add_sample capacity now n.name n.tx_bytes_per_sec tx,
  )

  unfoldable pub record_device_history : Collector V → TickSamples V → Collector V
  record_device_history c s =
      let capacity = c.history_capacity in
      let window = c.fast_interval *ℤ capacity in
      let disk_keys : List Bytes = map (λ d. d.mountpoint) s.disks in
      let disk_io_keys : List Bytes = map (λ d. d.device) s.disk_io in
      let net_keys : List Bytes = map (λ n. n.name) s.net_ifaces in
      let (reads, writes) =
        add_disk_io capacity s.now s.disk_io (c.disk_io_read_hist, c.disk_io_write_hist) in
      let (rx, tx) = add_net capacity s.now s.net_ifaces (c.rx_hist, c.tx_hist) in
      record c {
        disk_hist =
            evict_stale_series (add_disks capacity s.now s.disks c.disk_hist) disk_keys s.now
              window;
        disk_io_read_hist = evict_stale_series reads disk_io_keys s.now window;
        disk_io_write_hist = evict_stale_series writes disk_io_keys s.now window;
        rx_hist = evict_stale_series rx net_keys s.now window;
        tx_hist = evict_stale_series tx net_keys s.now window;
      }

  abbrev pub point : TickSamples V → V → HistoryPoint V
  point s value = record { timestamp = s.now; value = value }

  -- The scalar series of a tick; the generation is a uint64.
  unfoldable pub record_tick : Collector V → TickSamples V → Collector V
  record_tick c s =
      let scalars : Collector V = record c {
        cpu_hist = add c.cpu_hist (point s s.overall_percent);
        l1_hist = add c.l1_hist (point s s.load1);
        l5_hist = add c.l5_hist (point s s.load5);
        l15_hist = add c.l15_hist (point s s.load15);
        temp_hist = add c.temp_hist (point s s.celsius);
        mem_hist = add c.mem_hist (point s s.mem_used_percent);
        swap_hist = add c.swap_hist (point s s.swap_used_percent);
      } in
      let c' = record_device_history scalars s in
      record c' { history_gen = (c'.history_gen + 1) % 18446744073709551616 }
