-- ===== src/Sensors/Temperature.antt =====
-- internal/collector/temperature.go and `ThrottledCollector` of throttled.go.
-- The glob, the files of a zone, vcgencmd and strconv's ParseFloat are parameters.
use pi_monitor.Prelude.{
  Bool, true, false, not, List, [], ◌∷◌, Option, none, some, length, take, ◌-◌, if◌then◌else◌,
}
use pi_monitor.Prelude.Int.{ℤ, zero_time}
use pi_monitor.Prelude.Bytes.{Bytes, codes, str_eq}
use pi_monitor.Prelude.Text.{trim_space, has_prefix, trim_prefix, has_suffix, parse_int}
use pi_monitor.Sensors.Vcgencmd.{
  VcgencmdRunner, is_throttled, RunResult, unavailable, failed, output, Exec, run,
}
use pi_monitor.Sensors.Zone.{content, not_exist, unreadable, Zones, find_cpu_thermal_zone}

pub record Temperature (V : Type 0) : Type 0 where
  pub zone : Bytes
  pub celsius : V

-- `TempRead` is the result of `readThermalZoneMilliC`.
pub data TempRead (V : Type 0) : Type 0 where
  read : V → TempRead V
  vanished : TempRead V
  bad : TempRead V

pub record TemperatureCollector : Type 0 where
  -- empty while there is no zone
  pub zone_path : Bytes
  pub zone_type : Bytes
  pub last_zone_detect : ℤ
  pub pmic_unsupported : Bool

-- The readings of the clock in one Collect, by the call that makes them.
pub record Clock : Type 0 where
  pub zone_now : ℤ
  pub retry_now : ℤ
  pub gpu_now : ℤ
  pub pmic_now : ℤ

abbrev pub has_zone : TemperatureCollector → Bool
has_zone c = not (str_eq c.zone_path [])

unfoldable pub redetect_zone : Zones → ℤ → TemperatureCollector → TemperatureCollector
redetect_zone z now c =
    if has_zone c
    then c
    else if is_throttled c.last_zone_detect now
    then c
    else elim (find_cpu_thermal_zone z) [
      | none ↦ record c { last_zone_detect = now }
      | some (path, t) ↦ record c { zone_path = path; zone_type = t; last_zone_detect = now }
    ]

unfoldable pub new_temperature_collector : Zones → ℤ → TemperatureCollector
new_temperature_collector z now = redetect_zone z now record {
  zone_path = [];
  zone_type = [];
  last_zone_detect = zero_time;
  pmic_unsupported = false;
}

-- How `readVcgencmdTemp` ends; `unsupported` is errVcgencmdUnsupportedOutput.
pub data TempResult (V : Type 0) : Type 0 where
  reading : V → TempResult V
  unsupported : TempResult V
  no_answer : TempResult V

-- The rest of a text without the suffix `'C`.
abbrev pub trim_unit : Bytes → Bytes
trim_unit s = if has_suffix s (codes "'C") then take (length s - 2) s else s

module _ {V : Type 0} (milli : ℤ → V) (parse_float : Bytes → Option V) where
  -- `milli` is the float64 of a number of thousandths.
  unfoldable pub read_thermal_zone_milli_c : Zones → Bytes → TempRead V
  read_thermal_zone_milli_c z path = elim (z.read_temp path) [
    | not_exist ↦ vanished
    | unreadable ↦ bad
    | content text ↦ elim (parse_int (trim_space text)) [ none ↦ bad | some n ↦ read (milli n) ]
  ]

  unfoldable pub parse_vcgencmd_temp : Bytes → TempResult V
  parse_vcgencmd_temp out =
      let text = trim_space out in
      if not (has_prefix text (codes "temp="))
      then unsupported
      else elim (parse_float (trim_unit (trim_prefix text (codes "temp=")))) [
        | none ↦ unsupported
        | some celsius ↦ reading celsius
      ]

  abbrev pub temp_of_run : RunResult → TempResult V
  temp_of_run unavailable = no_answer
  temp_of_run failed = no_answer
  temp_of_run (output text) = parse_vcgencmd_temp text

  -- `none` for a collector without a runner.
  unfoldable pub read_vcgencmd_temp :
      (ℤ → Option Bytes)
      → Exec
      → ℤ
      → List Bytes
      → Option VcgencmdRunner
      → Option VcgencmdRunner × TempResult V
  read_vcgencmd_temp look_path exec now args none = (none, no_answer)
  read_vcgencmd_temp look_path exec now args (some r) =
      let (r', result) = run look_path exec now (codes "measure_temp") args r in
      (some r', temp_of_run result)

  -- The reading of the zone, with one more detection where its file has gone.
  abbrev pub retry_zone :
      Zones → ℤ → TemperatureCollector → TempRead V → TemperatureCollector × TempRead V
  retry_zone z now c (read v) = (c, read v)
  retry_zone z now c bad = (c, bad)
  retry_zone z now c vanished =
      let c' = redetect_zone z now record c { zone_path = [] } in
      (c', if has_zone c' then read_thermal_zone_milli_c z c'.zone_path else vanished)

  unfoldable pub collect_zone :
      Zones → Clock → TemperatureCollector → TemperatureCollector × Option V
  collect_zone z clock c =
      let c' = redetect_zone z clock.zone_now c in
      if not (has_zone c')
      then (c', none)
      else (let (c'', r) =
            retry_zone z clock.retry_now c' (read_thermal_zone_milli_c z c'.zone_path) in
          (c'', elim r [ read v ↦ some v | vanished ↦ none | bad ↦ none ]))

  abbrev pub reading_of : TempResult V → Option V
  reading_of (reading v) = some v
  reading_of unsupported = none
  reading_of no_answer = none

  abbrev pub is_unsupported : TempResult V → Bool
  is_unsupported (reading v) = false
  is_unsupported unsupported = true
  is_unsupported no_answer = false

  -- The optional reading of the PMIC, and the flag that it leaves.
  unfoldable pub collect_pmic :
      (ℤ → Option Bytes)
      → Exec
      → ℤ
      → Bool
      → Option VcgencmdRunner
      → Bool × Option VcgencmdRunner × Option V
  collect_pmic look_path exec now true vcg = (true, vcg, none)
  collect_pmic look_path exec now false vcg =
      let (vcg', r) = read_vcgencmd_temp look_path exec now (codes "pmic" ∷ []) vcg in
      (is_unsupported r, vcg', reading_of r)

  -- The CPU, GPU and PMIC temperatures.
  abbrev pub Temperatures : Type 0
  Temperatures = Temperature V × Option V × Option V

  unfoldable pub collect_rest :
      (ℤ → Option Bytes)
      → Exec
      → Clock
      → Option VcgencmdRunner
      → TemperatureCollector
      → V
      → TemperatureCollector × Option VcgencmdRunner × Option Temperatures
  collect_rest look_path exec clock vcg c celsius =
      let (vcg', gpu) = read_vcgencmd_temp look_path exec clock.gpu_now [] vcg in
      let (flag, vcg'', pmic) =
        collect_pmic look_path exec clock.pmic_now c.pmic_unsupported vcg' in
      (
        record c { pmic_unsupported = flag },
        vcg'',
        some (record { zone = c.zone_type; celsius = celsius }, reading_of gpu, pmic),
      )

  -- `Collect`: the result is `none` on an error.
  unfoldable pub collect_temperature :
      Zones
      → (ℤ → Option Bytes)
      → Exec
      → Clock
      → Option VcgencmdRunner
      → TemperatureCollector
      → TemperatureCollector × Option VcgencmdRunner × Option Temperatures
  collect_temperature z look_path exec clock vcg c =
      let (c', celsius) = collect_zone z clock c in
      elim celsius [ none ↦ (c', vcg, none) | some v ↦ collect_rest look_path exec clock vcg c' v ]
