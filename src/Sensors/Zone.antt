-- ===== src/Sensors/Zone.antt =====
-- internal/collector/temperature.go: `findCPUThermalZone`. The glob and the files are parameters.
use pi_monitor.Prelude.{List, [], ◌∷◌, Option, none, some, if◌then◌else◌}
use pi_monitor.Prelude.Bytes.{Bytes, codes, str_eq}
use pi_monitor.Prelude.Text.{trim_space}

-- `preferredThermalZoneTypes`.
abbrev pub preferred_thermal_zone_types : List Bytes
preferred_thermal_zone_types = codes "cpu-thermal" ∷ codes "soc_thermal" ∷ codes "x86_pkg_temp" ∷ []

-- The types of the zones whose file can be read, in the order of the matches.
unfoldable pub zone_types : (Bytes → Option Bytes) → List Bytes → List (Bytes × Bytes)
zone_types read_type [] = []
zone_types read_type (m ∷ matches) = elim (read_type m) [
  | none ↦ zone_types read_type matches
  | some t ↦ (m, trim_space t) ∷ zone_types read_type matches
]

-- The inner loop: the first zone of a type.
unfoldable pub zone_of_type : Bytes → List (Bytes × Bytes) → Option (Bytes × Bytes)
zone_of_type preferred [] = none
zone_of_type preferred ((path, t) ∷ types) =
    if str_eq t preferred then some (path, t) else zone_of_type preferred types

unfoldable pub preferred_zone : List Bytes → List (Bytes × Bytes) → Option (Bytes × Bytes)
preferred_zone [] types = none
preferred_zone (p ∷ preferred) types = elim (zone_of_type p types) [
  | some zone ↦ some zone
  | none ↦ preferred_zone preferred types
]

-- `types[path]`, empty where it is missing.
unfoldable pub type_at : Bytes → List (Bytes × Bytes) → Bytes
type_at path [] = []
type_at path ((p, t) ∷ types) = if str_eq p path then t else type_at path types

-- What a file's reading gives: its content, errors.Is(err, os.ErrNotExist), or another error.
pub data FileRead : Type 0 where
  content : Bytes → FileRead
  not_exist : FileRead
  unreadable : FileRead

-- What one Collect sees of the host. `matches` is the glob's result, `none` on its error; a range over
-- the map of types follows `iteration` of it.
pub record Zones : Type 0 where
  pub matches : Option (List Bytes)
  pub read_type : Bytes → Option Bytes
  pub read_temp : Bytes → FileRead
  pub iteration : List (Bytes × Bytes) → List (Bytes × Bytes)

unfoldable pub find_cpu_thermal_zone : Zones → Option (Bytes × Bytes)
find_cpu_thermal_zone z = elim z.matches [
  | none ↦ none
  | some [] ↦ none
  | some (m ∷ ms) ↦
      let types = zone_types z.read_type (m ∷ ms) in
      elim (preferred_zone preferred_thermal_zone_types (z.iteration types)) [
        | some zone ↦ some zone
        | none ↦ some (m, type_at m types)
      ]
]
