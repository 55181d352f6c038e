-- ===== src/Sensors/Vcgencmd.antt =====
-- internal/collector/vcgencmd.go: the runner that finds vcgencmd once and runs it.
use pi_monitor.Prelude.{
  Bool, true, false, not, ◌&&◌, List, [], ◌∷◌, Option, none, some, if◌then◌else◌,
}
use pi_monitor.Prelude.Int.{ℤ, pos, ltb_ℤ, ◌-ℤ◌, zero_time}
use pi_monitor.Prelude.Bytes.{Bytes}
use pi_monitor.Prelude.Text.{trim_space}
use pi_monitor.Collector.Import.{is_zero}

-- 30 seconds, in nanoseconds.
abbrev pub detect_retry_interval : ℤ
detect_retry_interval = pos 30000000000

-- `!last.IsZero() && now.Sub(last) < detectRetryInterval`.
unfoldable pub is_throttled : ℤ → ℤ → Bool
is_throttled last now = not (is_zero last) && ltb_ℤ (now -ℤ last) detect_retry_interval

pub record VcgencmdRunner : Type 0 where
  -- empty if vcgencmd is not available
  pub path : Bytes
  pub detected : Bool
  pub last_detect : ℤ

-- From the lookup on.
unfoldable pub look_up : (ℤ → Option Bytes) → ℤ → VcgencmdRunner → VcgencmdRunner
look_up look_path now r = elim (look_path now) [
  | none ↦ record r { last_detect = now }
  | some path ↦ record { path = path; detected = true; last_detect = now }
]

-- Whether `redetectLocked` passes its two early returns.
unfoldable pub is_due : ℤ → VcgencmdRunner → Bool
is_due now r = not (r.detected) && not (is_throttled r.last_detect now)

-- `look_path` is exec.LookPath("vcgencmd"), by the time of the call; `none` is its error.
unfoldable pub redetect : (ℤ → Option Bytes) → ℤ → VcgencmdRunner → VcgencmdRunner
redetect look_path now r = if is_due now r then look_up look_path now r else r

unfoldable pub new_vcgencmd_runner : (ℤ → Option Bytes) → ℤ → VcgencmdRunner
new_vcgencmd_runner look_path now =
    redetect look_path now record { path = []; detected = false; last_detect = zero_time }

-- How `run` ends: errVcgencmdUnavailable, the error of the command, or its output.
pub data RunResult : Type 0 where
  unavailable : RunResult
  failed : RunResult
  output : Bytes → RunResult

-- What the command writes when it is run with a subcommand and its arguments; `none` is an error or the
-- timeout.
abbrev pub Exec : Type 0
Exec = Bytes → List Bytes → Option Bytes

unfoldable pub run_at : Bytes → Option Bytes → RunResult
run_at [] out = unavailable
run_at (c ∷ path) none = failed
run_at (c ∷ path) (some out) = output (trim_space out)

unfoldable pub run :
    (ℤ → Option Bytes) → Exec → ℤ → Bytes → List Bytes → VcgencmdRunner → VcgencmdRunner × RunResult
run look_path exec now subcommand args r =
    let r' = redetect look_path now r in (r', run_at r'.path (exec subcommand args))
