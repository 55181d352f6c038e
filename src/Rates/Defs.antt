-- ===== src/Rates/Defs.antt =====
-- internal/collector/network.go and diskio.go: `Collect`, once the file is read and parsed, and
-- throttled.go: the flags of a bitmask.
-- Counters are uint64 values of maps by name. `elapsed` is the float64 of the seconds between the two
-- readings; `rate` makes the float64 of a difference over it. The regular expression of the
-- partitions is the parameter `is_partition`.
use pi_monitor.Prelude.{
  ℕ, ◌-◌, ◌/◌, ◌%◌, ◌^◌, Bool, not, ◌||◌, List, [], ◌∷◌, Option, none, some, ltb, ◌==◌,
  if◌then◌else◌,
}
use pi_monitor.Prelude.Int.{ℤ, pos, ltb_ℤ, ◌-ℤ◌}
use pi_monitor.Prelude.Bytes.{Bytes, codes, str_lt}
use pi_monitor.Prelude.Maps.{lookup}
use pi_monitor.Prelude.Sort.{sort}
use pi_monitor.Prelude.Text.{has_prefix}

-- The two counters of an interface or of a disk.
pub record Counters : Type 0 where
  pub first : ℕ
  pub second : ℕ

-- The reading before this one, where there is one.
pub record Previous : Type 0 where
  pub prev : Option (List (Bytes × Counters))
  pub prev_time : ℤ

pub record Rate (V : Type 0) : Type 0 where
  pub name : Bytes
  pub first_per_sec : V
  pub second_per_sec : V

abbrev pub disk_stat_sector_bytes : ℕ
disk_stat_sector_bytes = 512

unfoldable pub is_excluded_disk_io_device : (Bytes → Bool) → Bytes → Bool
is_excluded_disk_io_device is_partition name =
    has_prefix name (codes "loop") || has_prefix name (codes "ram") || is_partition name

module _ {V : Type 0} (rate : ℕ → ℤ → V) (excluded : Bytes → Bool) where
  -- A device that is new, or whose counters went back, has no rate this time.
  unfoldable pub rate_of : List (Bytes × Counters) → ℤ → Bytes → Counters → Option (Rate V)
  rate_of prev elapsed name cur = if excluded name then none else elim (lookup name prev) [
    | none ↦ none
    | some p ↦
        if ltb cur.first p.first || ltb cur.second p.second
        then none
        else some (record {
          name = name;
          first_per_sec = rate (cur.first - p.first) elapsed;
          second_per_sec = rate (cur.second - p.second) elapsed;
        })
  ]

  unfoldable pub rates_from : List (Bytes × Counters) → ℤ → List (Bytes × Counters) → List (Rate V)
  rates_from prev elapsed [] = []
  rates_from prev elapsed ((name, cur) ∷ rest) =
      let others = rates_from prev elapsed rest in
      elim (rate_of prev elapsed name cur) [ none ↦ others | some r ↦ r ∷ others ]

  abbrev pub name_lt : Rate V → Rate V → Bool
  name_lt a b = str_lt a.name b.name

  unfoldable pub rates : Previous → ℤ → List (Bytes × Counters) → List (Rate V)
  rates p now cur = elim p.prev [
    | none ↦ []
    | some prev ↦
        if ltb_ℤ (pos 0) (now -ℤ p.prev_time) then rates_from prev (now -ℤ p.prev_time) cur else []
  ]

  -- `Collect`: a file that cannot be read or parsed (`none`) is an error, and keeps the reading before.
  unfoldable pub collect :
      Previous → ℤ → Option (List (Bytes × Counters)) → Previous × Option (List (Rate V))
  collect p now none = (p, none)
  collect p now (some cur) =
      (record { prev = some cur; prev_time = now }, some (sort name_lt (rates p now cur)))

-- `bits&(1<<bit) != 0`.
unfoldable pub is_set : ℕ → ℕ → Bool
is_set bits bit = not ((bits / 2 ^ bit) % 2 == 0)

pub record Throttled : Type 0 where
  pub under_voltage_now : Bool
  pub frequency_capped_now : Bool
  pub throttled_now : Bool
  pub soft_temp_limit_now : Bool
  pub under_voltage_since_boot : Bool
  pub frequency_capped_since_boot : Bool
  pub throttled_since_boot : Bool
  pub soft_temp_limit_since_boot : Bool

-- The flags of a bitmask that has been parsed.
unfoldable pub throttled_flags : ℕ → Throttled
throttled_flags bits = record {
  under_voltage_now = is_set bits 0;
  frequency_capped_now = is_set bits 1;
  throttled_now = is_set bits 2;
  soft_temp_limit_now = is_set bits 3;
  under_voltage_since_boot = is_set bits 16;
  frequency_capped_since_boot = is_set bits 17;
  throttled_since_boot = is_set bits 18;
  soft_temp_limit_since_boot = is_set bits 19;
}
