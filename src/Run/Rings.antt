-- ===== src/Run/Rings.antt =====
-- internal/collector/collector.go: every buffer of the history stays valid, those of devices too.
use pi_monitor.Prelude.{
  ◌≡◌, not, ◌||◌, inl, inr, List, [], ◌∷◌, some, All, Bool-cases, Option-cases, List-cases,
  some_inj,
}
use pi_monitor.Prelude.Int.{ℤ, pos, leb_ℤ}
use pi_monitor.Prelude.Bytes.{Bytes, str_eq}
use pi_monitor.Prelude.Maps.{lookup, insert}
use pi_monitor.Prelude.Float.{Float}
use pi_monitor.Alert.Evaluate.{contains}
use pi_monitor.Ring.Inv.{IsValid, add-IsValid, fill-IsValid, new_ring_buffer-IsValid}
use pi_monitor.Persist.Types.{History, Series}
use pi_monitor.Collector.Store.{Ring, Collector, no_point}
use pi_monitor.Collector.Record.{
  DiskReading, DiskIoReading, NetworkReading, TickSamples, is_stale, evict_from, evict_stale_series,
  ring_at, add_sample, add_disks, add_disk_io, add_net, record_device_history, record_tick,
}
use pi_monitor.Collector.Import.{import_map, import_cutoff, import_history, trim}
use pi_monitor.Collector.Evict.{ScalarsValid}

module _ {V : Type 0} where
  abbrev pub RingsValid : List (Bytes × Ring V) → Type 0
  RingsValid hist = All (λ p. IsValid p.1) hist

  lookup-RingsValid :
      (k : Bytes) (hist : List (Bytes × Ring V)) (rb : Ring V)
      → RingsValid hist
      → lookup k hist ≡ some rb
      → IsValid rb
  unfolding lookup
  lookup-RingsValid k [] rb v h = cc
  lookup-RingsValid k ((j, r) ∷ hist) rb v h = elim (Bool-cases (str_eq j k)) [
    | inl e ↦ rw (← some_inj (rw e at h)) v.0
    | inr e ↦ lookup-RingsValid k hist rb v.1 (rw e at h)
  ]

  insert-RingsValid :
      (k : Bytes) (rb : Ring V) (hist : List (Bytes × Ring V))
      → IsValid rb
      → RingsValid hist
      → RingsValid (insert k rb hist)
  unfolding insert
  insert-RingsValid k rb [] i v = (i, tt)
  insert-RingsValid k rb ((j, r) ∷ hist) i v = elim (Bool-cases (str_eq j k)) [
    | inl e ↦ rw e (i, v.1)
    | inr e ↦ rw e (v.0, insert-RingsValid k rb hist i v.1)
  ]

  evict_from-RingsValid :
      (current : List Bytes) (now window : ℤ) (hist : List (Bytes × Ring V))
      → RingsValid hist
      → RingsValid (evict_from current now window hist)
  unfolding evict_from
  evict_from-RingsValid current now window [] v = tt
  evict_from-RingsValid current now window ((key, rb) ∷ hist) v =
      elim (Bool-cases (contains current key || not (is_stale now window rb))) [
        | inl e ↦ rw e (v.0, evict_from-RingsValid current now window hist v.1)
        | inr e ↦ rw e (evict_from-RingsValid current now window hist v.1)
      ]

  evict_stale_series-RingsValid :
      (hist : List (Bytes × Ring V)) (current : List Bytes) (now window : ℤ)
      → RingsValid hist
      → RingsValid (evict_stale_series hist current now window)
  unfolding evict_stale_series
  evict_stale_series-RingsValid hist current now window v =
      elim (Bool-cases (leb_ℤ window (pos 0))) [
        | inl e ↦ rw (evict_stale_series, e) v
        | inr e ↦ rw (evict_stale_series, e) (evict_from-RingsValid current now window hist v)
      ]

module _ {V : Type 0} ⦃f : Float V⦄ where
  ring_at-IsValid :
      (capacity : ℤ) (key : Bytes) (hist : List (Bytes × Ring V))
      → RingsValid hist
      → IsValid (ring_at capacity key hist)
  unfolding ring_at
  ring_at-IsValid capacity key hist v = elim (Option-cases (lookup key hist)) [
    | inl e ↦ rw (ring_at, e) (new_ring_buffer-IsValid no_point capacity)
    | inr (rb, e) ↦ rw (ring_at, e) (lookup-RingsValid key hist rb v e)
  ]

  add_sample-RingsValid :
      (capacity now : ℤ) (key : Bytes) (value : V) (hist : List (Bytes × Ring V))
      → RingsValid hist
      → RingsValid (add_sample capacity now key value hist)
  unfolding add_sample
  add_sample-RingsValid capacity now key value hist v =
      insert-RingsValid key _ hist (add-IsValid _ (ring_at-IsValid capacity key hist v)) v

  add_disks-RingsValid :
      (capacity now : ℤ) (ds : List (DiskReading V)) (hist : List (Bytes × Ring V))
      → RingsValid hist
      → RingsValid (add_disks capacity now ds hist)
  unfolding add_disks
  add_disks-RingsValid capacity now [] hist v = v
  add_disks-RingsValid capacity now (d ∷ ds) hist v =
      add_disks-RingsValid capacity now ds _ (add_sample-RingsValid capacity now _ _ hist v)

  abbrev PairValid : List (Bytes × Ring V) × List (Bytes × Ring V) → Type 0
  PairValid p = RingsValid p.0 × RingsValid p.1

  add_disk_io-PairValid :
      (capacity now : ℤ) (ds : List (DiskIoReading V))
      (p : List (Bytes × Ring V) × List (Bytes × Ring V))
      → PairValid p
      → PairValid (add_disk_io capacity now ds p)
  unfolding add_disk_io
  add_disk_io-PairValid capacity now [] p v = v
  add_disk_io-PairValid capacity now (d ∷ ds) (reads, writes) v =
      add_disk_io-PairValid capacity now ds _ (
        add_sample-RingsValid capacity now _ _ reads v.0,
        add_sample-RingsValid capacity now _ _ writes v.1,
      )

  add_net-PairValid :
      (capacity now : ℤ) (ns : List (NetworkReading V))
      (p : List (Bytes × Ring V) × List (Bytes × Ring V))
      → PairValid p
      → PairValid (add_net capacity now ns p)
  unfolding add_net
  add_net-PairValid capacity now [] p v = v
  add_net-PairValid capacity now (n ∷ ns) (rx, tx) v =
      add_net-PairValid capacity now ns _ (
        add_sample-RingsValid capacity now _ _ rx v.0,
        add_sample-RingsValid capacity now _ _ tx v.1,
      )

  abbrev pub DevicesValid : Collector V → Type 0
  DevicesValid c =
      RingsValid c.disk_hist
      × RingsValid c.disk_io_read_hist
      × RingsValid c.disk_io_write_hist
      × RingsValid c.rx_hist
      × RingsValid c.tx_hist

  pub record_tick-DevicesValid :
      (c : Collector V) (s : TickSamples V) → DevicesValid c → DevicesValid (record_tick c s)
  unfolding record_tick record_device_history
  record_tick-DevicesValid c s v =
      let io = add_disk_io-PairValid c.history_capacity s.now s.disk_io _ (v.1, v.2) in
      let net = add_net-PairValid c.history_capacity s.now s.net_ifaces _ (v.3, v.4) in
      (
        evict_stale_series-RingsValid _ _ _ _
            (add_disks-RingsValid c.history_capacity s.now s.disks c.disk_hist v.0),
        evict_stale_series-RingsValid _ _ _ _ io.0,
        evict_stale_series-RingsValid _ _ _ _ io.1,
        evict_stale_series-RingsValid _ _ _ _ net.0,
        evict_stale_series-RingsValid _ _ _ _ net.1,
      )

  import_map-RingsValid :
      (capacity cutoff : ℤ) (src : List (Bytes × Series V)) (dst : List (Bytes × Ring V))
      → RingsValid dst
      → RingsValid (import_map capacity cutoff dst src)
  unfolding import_map
  import_map-RingsValid capacity cutoff [] dst v = v
  import_map-RingsValid capacity cutoff ((key, points) ∷ src) dst v =
      elim (List-cases (trim cutoff points)) [
        | inl e ↦ rw (import_map, e) (import_map-RingsValid capacity cutoff src dst v)
        | inr (p, ps, e) ↦
            rw (import_map, e)
              (import_map-RingsValid capacity cutoff src _ (
                insert-RingsValid key _ dst
                  (fill-IsValid no_point (p ∷ ps) (new_ring_buffer-IsValid no_point capacity)) v))
      ]

  pub import_history-Valid :
      (c : Collector V) (window : ℤ) (h : History V) (now : ℤ)
      → ScalarsValid c
      → DevicesValid c
      → ScalarsValid (import_history c window h now) × DevicesValid (import_history c window h now)
  unfolding import_history
  import_history-Valid c window h now v d =
      let cutoff = import_cutoff window now in
      (
        (
          fill-IsValid no_point (trim cutoff h.cpu_percent) v.0,
          fill-IsValid no_point (trim cutoff h.load1) v.1,
          fill-IsValid no_point (trim cutoff h.load5) v.2,
          fill-IsValid no_point (trim cutoff h.load15) v.3,
          fill-IsValid no_point (trim cutoff h.temperature) v.4,
          fill-IsValid no_point (trim cutoff h.memory_used_percent) v.5,
          fill-IsValid no_point (trim cutoff h.swap_used_percent) v.6,
        ),
        (
          import_map-RingsValid c.history_capacity cutoff h.disk_used_percent c.disk_hist d.0,
          import_map-RingsValid c.history_capacity cutoff h.disk_io_read_bytes_per_sec
              c.disk_io_read_hist d.1,
          import_map-RingsValid c.history_capacity cutoff h.disk_io_write_bytes_per_sec
              c.disk_io_write_hist d.2,
          import_map-RingsValid c.history_capacity cutoff h.network_rx_bytes_per_sec c.rx_hist d.3,
          import_map-RingsValid c.history_capacity cutoff h.network_tx_bytes_per_sec c.tx_hist d.4,
        ),
      )
