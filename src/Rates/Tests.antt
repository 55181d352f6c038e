-- ===== src/Rates/Tests.antt =====
-- Runs of the rates and of the throttling flags, and the theorem at a concrete reading.
use pi_monitor.Prelude.{ℕ, ◌/◌, ◌≡◌, ◌↔◌, refl, Bool, true, false, [], ◌∷◌, ◌++◌, List, Among, some}
use pi_monitor.Prelude.Int.{ℤ, pos, pos_part, ◌-ℤ◌}
use pi_monitor.Prelude.Bytes.{Bytes, codes, str_eq, str_lt}
use pi_monitor.Prelude.Maps.{lookup, insert}
use pi_monitor.Prelude.Sort.{sort, insert_sorted}
use pi_monitor.Rates.Defs.{
  Counters, Previous, Rate, rate_of, rates_from, rates, collect, is_excluded_disk_io_device, is_set,
  throttled_flags,
}
use pi_monitor.Prelude.Text.{has_prefix, cut, trim_space, fields, scan_lines, parse_uint}
use pi_monitor.Rates.Parse.{parse_net_dev, add_net_lines, parse_disk_stats, add_disk_lines}
use pi_monitor.Rates.Laws.{IsRate, rates-FromReadings}

abbrev per_second : ℕ → ℤ → ℕ
per_second n elapsed = n / pos_part elapsed

abbrev is_lo : Bytes → Bool
is_lo name = str_eq name (codes "lo")

abbrev counters : ℕ → ℕ → Counters
counters n m = record { first = n; second = m }

abbrev earlier : Previous
earlier = record {
  prev = some (
      (codes "wlan0", counters 100 10)
      ∷ (codes "eth0", counters 50 50)
      ∷ (codes "lo", counters 1 1)
      ∷ []);
  prev_time = pos 10;
}

abbrev reading : List (Bytes × Counters)
reading =
    (codes "wlan0", counters 300 20)
    ∷ (codes "lo", counters 9 9)
    ∷ (codes "eth0", counters 60 90)
    ∷ []

-- Sorted by name, without the loopback interface.
collected :
    (collect per_second is_lo earlier (pos 15) (some reading)).1
    ≡ some (
        record { name = codes "eth0"; first_per_sec = 2; second_per_sec = 8 }
        ∷ record { name = codes "wlan0"; first_per_sec = 40; second_per_sec = 2 }
        ∷ [])
unfolding collect rates rates_from rate_of lookup str_eq str_lt sort insert_sorted ◌-ℤ◌
collected = refl

-- 0x50005: under-voltage and throttling, now and since boot.
flags : (throttled_flags 327685).under_voltage_since_boot ≡ true
unfolding throttled_flags is_set
flags = refl

abbrev eth0_rate : Rate ℕ
eth0_rate = record { name = codes "eth0"; first_per_sec = 2; second_per_sec = 8 }

rates-FromReadings_example :
    Among eth0_rate (rates per_second is_lo earlier (pos 15) reading)
    ↔ IsRate per_second is_lo earlier (pos 15) reading eth0_rate
rates-FromReadings_example = rates-FromReadings per_second is_lo earlier (pos 15) reading eth0_rate

-- Loop devices and memory disks are left out; a partition is what the pattern says it is.
excluded : is_excluded_disk_io_device (λ name. false) (codes "loop0") ≡ true
unfolding is_excluded_disk_io_device has_prefix
excluded = refl

whole_disk : is_excluded_disk_io_device (λ name. false) (codes "mmcblk0") ≡ false
unfolding is_excluded_disk_io_device has_prefix
whole_disk = refl

abbrev net_dev : Bytes
net_dev =
    codes "Inter-| Receive"
    ++ 10 ∷ codes " face |bytes"
    ++ 10 ∷ codes "  eth0: 60 1 0 0 0 0 0 0 90 1"
    ++ 10 ∷ codes "bad line"
    ++ 10 ∷ []

interfaces : parse_net_dev net_dev ≡ some ((codes "eth0", counters 60 90) ∷ [])
unfolding parse_net_dev add_net_lines scan_lines cut trim_space fields parse_uint insert
interfaces = refl

devices :
    parse_disk_stats (codes "179 0 mmcblk0 5 0 700 0 8 0 40 0")
    ≡ some ((codes "mmcblk0", counters 700 40) ∷ [])
unfolding parse_disk_stats add_disk_lines scan_lines fields parse_uint insert
devices = refl
