-- ===== src/Collector/Tests.antt =====
-- Runs of the retained history, and its theorems at concrete samples.
use pi_monitor.Prelude.{
  ℕ, zero, suc, ◌≤◌, ◌≡◌, refl, true, [], ◌∷◌, List, some, some_inj, leb, arith,
}
use pi_monitor.Prelude.Int.{pos, ◌-ℤ◌}
use pi_monitor.Prelude.Bytes.{Bytes, codes, str_eq}
use pi_monitor.Prelude.Maps.{lookup}
use pi_monitor.Prelude.Whole.{whole_float}
use pi_monitor.Alert.Evaluate.{contains}
use pi_monitor.Persist.Types.{HistoryPoint, History, empty_history}
use pi_monitor.Ring.{fill, newest, newest_values, new_ring_buffer, copy}
use pi_monitor.Ring.Inv.{IsValid, new_ring_buffer-IsValid, fill-IsValid}
use pi_monitor.Collector.Search.{search_from, search, kept_at, drop_prefix}
use pi_monitor.Collector.Store.{Ring, Collector, new_collector, new_ring, no_point}
use pi_monitor.Collector.Record.{TickSamples, is_stale, evict_from, evict_stale_series, record_tick}
use pi_monitor.Collector.Import.{newer, since, filter_devices}
use pi_monitor.Collector.Since.{filter, drop_prefix-filter, since_lem}
use pi_monitor.Collector.Evict.{
  Appended, ScalarsValid, survivor, lookup-evict_stale_series, history-record_tick,
}

abbrev p1 : HistoryPoint ℕ
p1 = record { timestamp = pos 10; value = 41 }

abbrev p2 : HistoryPoint ℕ
p2 = record { timestamp = pos 20; value = 42 }

abbrev p3 : HistoryPoint ℕ
p3 = record { timestamp = pos 30; value = 43 }

abbrev series : List (HistoryPoint ℕ)
series = p1 ∷ p2 ∷ p3 ∷ []

drops : drop_prefix series (newer (pos 10)) ≡ p2 ∷ p3 ∷ []
unfolding drop_prefix search search_from kept_at
drops = refl

-- A test on numbers: true from 2 on.
small_Monotone :
    (k m : ℕ)
    → k ≤ m
    → kept_at (1 ∷ 2 ∷ []) (λ n. leb 2 n) k ≡ true
    → kept_at (1 ∷ 2 ∷ []) (λ n. leb 2 n) m ≡ true
unfolding kept_at
small_Monotone zero zero h t = t
small_Monotone zero (suc zero) h t = refl
small_Monotone zero (suc (suc m)) h t = refl
small_Monotone (suc k) zero h t = absurd (omega arith)
small_Monotone (suc k) (suc zero) h t = refl
small_Monotone (suc k) (suc (suc m)) h t = refl

drop_prefix-filter_example :
    drop_prefix (1 ∷ 2 ∷ []) (λ n. leb 2 n) ≡ filter (λ n. leb 2 n) (1 ∷ 2 ∷ [])
drop_prefix-filter_example = drop_prefix-filter (1 ∷ 2 ∷ []) (λ n. leb 2 n) small_Monotone

abbrev known : History ℕ
known = record empty_history {
  cpu_percent = series;
  disk_used_percent = (codes "/", p1 ∷ []) ∷ (codes "/usb", series) ∷ [];
}

-- A device without newer points is dropped.
delta : (since known (pos 20)).disk_used_percent ≡ (codes "/usb", p3 ∷ []) ∷ []
unfolding since filter_devices drop_prefix search search_from kept_at
delta = refl

since_lem_example :
    ((since known (pos 20)).cpu_percent ≡ filter (newer (pos 20)) known.cpu_percent)
    × ((since known (pos 20)).load1 ≡ [])
    × ((since known (pos 20)).load5 ≡ [])
    × ((since known (pos 20)).load15 ≡ [])
    × ((since known (pos 20)).temperature ≡ [])
    × ((since known (pos 20)).memory_used_percent ≡ [])
    × ((since known (pos 20)).swap_used_percent ≡ [])
since_lem_example = since_lem known (pos 20) refl (ground arith)

abbrev started : Collector ℕ
started = new_collector (pos 2) (pos 5)

abbrev old_ring : Ring ℕ
old_ring = fill no_point (new_ring (pos 2)) (p1 ∷ [])

abbrev devices : List (Bytes × Ring ℕ)
devices = (codes "/", old_ring) ∷ (codes "/usb", old_ring) ∷ []

usb-IsValid : (rb : Ring ℕ) → lookup (codes "/usb") devices ≡ some rb → IsValid rb
unfolding lookup str_eq
usb-IsValid rb h =
    rw (← some_inj h) (fill-IsValid no_point (p1 ∷ []) (new_ring_buffer-IsValid no_point (pos 2)))

lookup-evict_stale_series_example :
    lookup (codes "/usb") (evict_stale_series devices (codes "/" ∷ []) (pos 60) (pos 10))
    ≡ survivor no_point
        (codes "/" ∷ [])
        (pos 60)
        (pos 10)
        (codes "/usb")
        (lookup (codes "/usb") devices)
unfolding lookup str_eq
lookup-evict_stale_series_example =
    lookup-evict_stale_series no_point devices (codes "/" ∷ []) (pos 60) (pos 10) (codes "/usb")
      (refl, (refl, tt)) usb-IsValid

-- The absent filesystem is gone.
evicts : evict_stale_series devices (codes "/" ∷ []) (pos 60) (pos 10) ≡ (codes "/", old_ring) ∷ []
unfolding evict_stale_series evict_from is_stale contains newest fill newest_values copy
    new_ring_buffer str_eq ◌-ℤ◌
evicts = refl

abbrev tick : TickSamples ℕ
tick = record {
  now = pos 40;
  overall_percent = 7;
  load1 = 1;
  load5 = 1;
  load15 = 1;
  celsius = 50;
  mem_used_percent = 30;
  swap_used_percent = 0;
  disks = record { mountpoint = codes "/"; used_percent = 70 } ∷ [];
  disk_io = [];
  net_ifaces = [];
}

history-record_tick_example :
    Appended started tick (record_tick started tick)
    × ScalarsValid (record_tick started tick)
    × ((record_tick started tick).history_gen ≡ 1)
unfolding new_collector
history-record_tick_example =
    let valid = new_ring_buffer-IsValid no_point (pos 2) in
    history-record_tick started tick (valid, valid, valid, valid, valid, valid, valid)
