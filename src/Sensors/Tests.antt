-- ===== src/Sensors/Tests.antt =====
-- The temperatures of a board without a PMIC sensor, and the theorems at concrete runs.
use pi_monitor.Prelude.{
  ◌≡◌, refl, true, false, List, [], ◌∷◌, ◌++◌, Option, none, some, if◌then◌else◌,
}
use pi_monitor.Prelude.Int.{ℤ, pos, pos_part, ◌-ℤ◌}
use pi_monitor.Prelude.Bytes.{Bytes, codes, str_eq}
use pi_monitor.Prelude.Text.{trim_space, has_prefix, has_suffix, parse_int, parse_uint}
use pi_monitor.Sensors.Vcgencmd.{
  VcgencmdRunner, is_throttled, look_up, is_due, redetect, run_at, Exec, run,
}
use pi_monitor.Sensors.Detection.{lookups, Spaced, lookups-Spaced}
use pi_monitor.Sensors.Zone.{Zones, content, not_exist}
use pi_monitor.Sensors.Temperature.{
  Clock, TemperatureCollector, redetect_zone, read_thermal_zone_milli_c, parse_vcgencmd_temp,
  read_vcgencmd_temp, collect_zone, collect_pmic, collect_rest, collect_temperature,
}
use pi_monitor.Rates.Defs.{throttled_flags}
use pi_monitor.Sensors.Throttled.{parse_throttled, collect_throttled}
use pi_monitor.Sensors.Throttled
use pi_monitor.Sensors.Pmic.{
  SameButPmic, collect_temperature-SameButPmic, collect_temperature-failed,
}

-- vcgencmd is installed some 40 seconds after the start.
abbrev installed_late : ℤ → Option Bytes
installed_late t =
    if str_eq (pos_part t ∷ []) (41000000000 ∷ []) then some (codes "/usr/bin/vcgencmd") else none

abbrev unknown : VcgencmdRunner
unknown = record { path = []; detected = false; last_detect = pos 1000000000 }

abbrev ticks : List ℤ
ticks = pos 11000000000 ∷ pos 41000000000 ∷ pos 90000000000 ∷ []

one_lookup : lookups installed_late unknown ticks ≡ pos 41000000000 ∷ []
unfolding lookups is_due is_throttled redetect look_up ◌-ℤ◌ str_eq
one_lookup = refl

lookups-Spaced_example : Spaced installed_late (lookups installed_late unknown ticks)
lookups-Spaced_example = lookups-Spaced installed_late unknown ticks (refl, (refl, (refl, tt)))

abbrev zones : Zones
zones = record {
  matches = some (codes "z0" ∷ codes "z1" ∷ []);
  read_type =
      λ p. some (if str_eq p (codes "z1") then codes "cpu-thermal" ++ 10 ∷ [] else codes "gpu");
  read_temp = λ p. if str_eq p (codes "z1") then content (codes "48312" ++ 10 ∷ []) else not_exist;
  iteration = λ types. types;
}

abbrev clock : Clock
clock = record { zone_now = pos 1; retry_now = pos 2; gpu_now = pos 3; pmic_now = pos 4 }

-- A Pi 3: it answers for the GPU, and with an error for the PMIC.
abbrev answer : List Bytes → Option Bytes
answer [] = some (codes "temp=48'C" ++ 10 ∷ [])
answer (a ∷ args) = some (codes "error=1")

abbrev pi3 : Exec
pi3 subcommand args = answer args

abbrev pi3_silent : Exec
pi3_silent subcommand [] = answer []
pi3_silent subcommand (a ∷ args) = none

abbrev vcg : Option VcgencmdRunner
vcg = some (record { path = codes "/usr/bin/vcgencmd"; detected = true; last_detect = pos 1 })

abbrev fresh : TemperatureCollector
fresh = record {
  zone_path = [];
  zone_type = [];
  last_zone_detect = pos 0;
  pmic_unsupported = false;
}

abbrev latched : TemperatureCollector
latched = record {
  zone_path = codes "z1";
  zone_type = codes "cpu-thermal";
  last_zone_detect = pos 1;
  pmic_unsupported = true;
}

abbrev found : ℤ → Option Bytes
found t = none

collected :
    collect_temperature pos_part parse_uint zones found pi3 clock vcg record fresh {
      zone_path = codes "z1";
      zone_type = codes "cpu-thermal";
      last_zone_detect = pos 1;
    }
    ≡ (latched, vcg, some (record { zone = codes "cpu-thermal"; celsius = 48312 }, some 48, none))
unfolding collect_temperature collect_rest collect_zone collect_pmic read_vcgencmd_temp
    parse_vcgencmd_temp redetect_zone read_thermal_zone_milli_c run run_at redetect is_due
    trim_space has_prefix has_suffix parse_int parse_uint str_eq
collected = refl

same : SameButPmic pi3 pi3_silent
same subcommand = refl

collect_temperature-SameButPmic_example :
    (collect_temperature pos_part parse_uint zones found pi3 clock vcg latched
      ≡ collect_temperature pos_part parse_uint zones found pi3_silent clock vcg latched)
    × ((collect_temperature pos_part parse_uint zones found pi3 clock vcg
          latched).0.pmic_unsupported
        ≡ true)
collect_temperature-SameButPmic_example =
    collect_temperature-SameButPmic pos_part parse_uint zones found pi3 pi3_silent clock vcg latched
      same refl

collect_temperature-failed_example :
    (collect_temperature pos_part parse_uint zones found pi3_silent clock vcg
      fresh).0.pmic_unsupported
    ≡ false
collect_temperature-failed_example =
    collect_temperature-failed pos_part parse_uint zones found pi3_silent clock vcg fresh refl

-- The mask 5, as a number in base ten.
flags :
    (collect_throttled parse_uint found
      (λ subcommand args. some (codes "throttled=5" ++ 10 ∷ []))
      (pos 1)
      vcg).1
    ≡ Throttled.reading (record { flags = throttled_flags 5; raw = codes "5" })
unfolding collect_throttled parse_throttled run run_at redetect is_due trim_space has_prefix
    parse_uint
flags = refl
