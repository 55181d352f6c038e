-- ===== src/Sensors/Throttled.antt =====
-- internal/collector/throttled.go: `parseThrottled` and `Collect`. strconv.ParseUint with base 0 is
-- the parameter `parse_bits`.
use pi_monitor.Prelude.{ℕ, not, [], Option, none, some, if◌then◌else◌}
use pi_monitor.Prelude.Int.{ℤ}
use pi_monitor.Prelude.Bytes.{Bytes, codes}
use pi_monitor.Prelude.Text.{trim_space, has_prefix, trim_prefix}
use pi_monitor.Rates.Defs.{Throttled, throttled_flags}
use pi_monitor.Sensors.Vcgencmd.{VcgencmdRunner, RunResult, unavailable, failed, output, Exec, run}

-- The flags, and the bitmask as it is written.
pub record ThrottledReading : Type 0 where
  pub flags : Throttled
  pub raw : Bytes

-- How `Collect` ends: without vcgencmd there is no reading, and no error.
pub data ThrottledResult : Type 0 where
  no_reading : ThrottledResult
  error : ThrottledResult
  reading : ThrottledReading → ThrottledResult

module _ (parse_bits : Bytes → Option ℕ) where
  unfoldable pub parse_throttled : Bytes → Option ThrottledReading
  parse_throttled out =
      let text = trim_space out in
      let raw = trim_prefix text (codes "throttled=") in
      if not (has_prefix text (codes "throttled=")) then none else elim (parse_bits raw) [
        | none ↦ none
        | some bits ↦ some (record { flags = throttled_flags bits; raw = raw })
      ]

  abbrev pub throttled_of_run : RunResult → ThrottledResult
  throttled_of_run unavailable = no_reading
  throttled_of_run failed = error
  throttled_of_run (output text) = elim (parse_throttled text) [ none ↦ error | some t ↦ reading t ]

  unfoldable pub collect_throttled :
      (ℤ → Option Bytes)
      → Exec
      → ℤ
      → Option VcgencmdRunner
      → Option VcgencmdRunner × ThrottledResult
  collect_throttled look_path exec now none = (none, no_reading)
  collect_throttled look_path exec now (some r) =
      let (r', result) = run look_path exec now (codes "get_throttled") [] r in
      (some r', throttled_of_run result)
