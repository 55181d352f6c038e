-- ===== src/Persist/Restore.antt =====
-- internal/collector/persist.go: `seriesToHistory` undoes `historySeriesList`.
use pi_monitor.Prelude.{◌≡◌, refl, List, [], ◌∷◌, ◌++◌, map}
use pi_monitor.Prelude.Bytes.{Bytes}
use pi_monitor.Persist.Types.{
  Series, History, HistorySeries, empty_history, map_series, append_map, scalar_list,
  history_series_list, restore_series, restore_entry, restore_from, series_to_history,
}
use pi_monitor.Persist.Series.{truncate_point, truncate_series}
use pi_monitor.Persist.Keys.{insert_keys, restored_map}

module _ {V : Type 0} where
  -- Restoring one list after another.
  restore_both :
      (h : History V) (xs ys : List (HistorySeries V)) (r q : History V)
      → restore_from h (map truncate_series xs) ≡ r
      → restore_from r (map truncate_series ys) ≡ q
      → restore_from h (map truncate_series (xs ++ ys)) ≡ q
  unfolding restore_from
  restore_both h [] ys r q e f = rw e f
  restore_both h (x ∷ xs) ys r q e f =
      restore_both (restore_series h (truncate_series x)) xs ys r q e f

  restore_disk :
      (h : History V) (m : List (Bytes × Series V)) (ks : List Bytes)
      → restore_from h (map truncate_series (map (map_series 7 m) ks))
        ≡ record h { disk_used_percent = insert_keys m ks h.disk_used_percent }
  unfolding restore_from restore_series restore_entry insert_keys
  restore_disk h m [] = refl
  restore_disk h m (k ∷ ks) =
      restore_disk (restore_series h (truncate_series (map_series 7 m k))) m ks

  restore_rx :
      (h : History V) (m : List (Bytes × Series V)) (ks : List Bytes)
      → restore_from h (map truncate_series (map (map_series 8 m) ks))
        ≡ record h { network_rx_bytes_per_sec = insert_keys m ks h.network_rx_bytes_per_sec }
  unfolding restore_from restore_series restore_entry insert_keys
  restore_rx h m [] = refl
  restore_rx h m (k ∷ ks) = restore_rx (restore_series h (truncate_series (map_series 8 m k))) m ks

  restore_tx :
      (h : History V) (m : List (Bytes × Series V)) (ks : List Bytes)
      → restore_from h (map truncate_series (map (map_series 9 m) ks))
        ≡ record h { network_tx_bytes_per_sec = insert_keys m ks h.network_tx_bytes_per_sec }
  unfolding restore_from restore_series restore_entry insert_keys
  restore_tx h m [] = refl
  restore_tx h m (k ∷ ks) = restore_tx (restore_series h (truncate_series (map_series 9 m k))) m ks

  restore_read :
      (h : History V) (m : List (Bytes × Series V)) (ks : List Bytes)
      → restore_from h (map truncate_series (map (map_series 10 m) ks))
        ≡ record h { disk_io_read_bytes_per_sec = insert_keys m ks h.disk_io_read_bytes_per_sec }
  unfolding restore_from restore_series restore_entry insert_keys
  restore_read h m [] = refl
  restore_read h m (k ∷ ks) =
      restore_read (restore_series h (truncate_series (map_series 10 m k))) m ks

  restore_write :
      (h : History V) (m : List (Bytes × Series V)) (ks : List Bytes)
      → restore_from h (map truncate_series (map (map_series 11 m) ks))
        ≡ record h { disk_io_write_bytes_per_sec = insert_keys m ks h.disk_io_write_bytes_per_sec }
  unfolding restore_from restore_series restore_entry insert_keys
  restore_write h m [] = refl
  restore_write h m (k ∷ ks) =
      restore_write (restore_series h (truncate_series (map_series 11 m k))) m ks

  -- The history read back: times in milliseconds, and the maps without their overlong keys.
  abbrev pub restored : History V → History V
  restored h = record {
    cpu_percent = map truncate_point h.cpu_percent;
    load1 = map truncate_point h.load1;
    load5 = map truncate_point h.load5;
    load15 = map truncate_point h.load15;
    temperature = map truncate_point h.temperature;
    memory_used_percent = map truncate_point h.memory_used_percent;
    swap_used_percent = map truncate_point h.swap_used_percent;
    disk_used_percent = restored_map h.disk_used_percent;
    disk_io_read_bytes_per_sec = restored_map h.disk_io_read_bytes_per_sec;
    disk_io_write_bytes_per_sec = restored_map h.disk_io_write_bytes_per_sec;
    network_rx_bytes_per_sec = restored_map h.network_rx_bytes_per_sec;
    network_tx_bytes_per_sec = restored_map h.network_tx_bytes_per_sec;
  }

  restore_scalars :
      (h : History V)
      → restore_from empty_history (map truncate_series (scalar_list h)) ≡ record (restored h) {
        disk_used_percent = [];
        disk_io_read_bytes_per_sec = [];
        disk_io_write_bytes_per_sec = [];
        network_rx_bytes_per_sec = [];
        network_tx_bytes_per_sec = [];
      }
  unfolding restore_from restore_series
  restore_scalars h = refl

  -- Restoring the list of a history gives the history back.
  pub series_to_history-list :
      (h : History V) → series_to_history (map truncate_series (history_series_list h)) ≡ restored h
  unfolding series_to_history history_series_list append_map
  series_to_history-list h =
      let s = scalar_list h in
      let disks = append_map 7 h.disk_used_percent in
      let rx = append_map 8 h.network_rx_bytes_per_sec in
      let tx = append_map 9 h.network_tx_bytes_per_sec in
      let reads = append_map 10 h.disk_io_read_bytes_per_sec in
      let writes = append_map 11 h.disk_io_write_bytes_per_sec in
      let h0 = record (restored h) {
        disk_used_percent = [];
        disk_io_read_bytes_per_sec = [];
        disk_io_write_bytes_per_sec = [];
        network_rx_bytes_per_sec = [];
        network_tx_bytes_per_sec = [];
      } in
      let h1 = record h0 { disk_used_percent = restored_map h.disk_used_percent } in
      let h2 = record h1 { network_rx_bytes_per_sec = restored_map h.network_rx_bytes_per_sec } in
      let h3 = record h2 { network_tx_bytes_per_sec = restored_map h.network_tx_bytes_per_sec } in
      let h4 = record h3 {
        disk_io_read_bytes_per_sec = restored_map h.disk_io_read_bytes_per_sec;
      } in
      let e = empty_history in
      let p1 = restore_both e s disks h0 h1 (restore_scalars h) (restore_disk h0 _ _) in
      let p2 = restore_both e (s ++ disks) rx h1 h2 p1 (restore_rx h1 _ _) in
      let p3 = restore_both e (s ++ disks ++ rx) tx h2 h3 p2 (restore_tx h2 _ _) in
      let p4 = restore_both e (s ++ disks ++ rx ++ tx) reads h3 h4 p3 (restore_read h3 _ _) in
      restore_both e (s ++ disks ++ rx ++ tx ++ reads) writes h4 (restored h) p4
        (restore_write h4 _ _)
