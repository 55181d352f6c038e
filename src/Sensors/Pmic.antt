-- ===== src/Sensors/Pmic.antt =====
-- internal/collector/temperature.go: `pmicUnsupported` is set for good, and only by an answer.
use pi_monitor.Prelude.{
  ◌≡◌, refl, ◌∙◌, Bool, true, false, inl, inr, List, [], ◌∷◌, Option, none, some, Bool-cases,
  Option-cases,
}
use pi_monitor.Prelude.Int.{ℤ}
use pi_monitor.Prelude.Bytes.{Bytes, codes}
use pi_monitor.Sensors.Vcgencmd.{VcgencmdRunner, is_throttled, redetect, run_at, Exec, run}
use pi_monitor.Sensors.Zone.{Zones, find_cpu_thermal_zone}
use pi_monitor.Sensors.Temperature.{
  Clock, TemperatureCollector, TempRead, read, vanished, bad, has_zone, redetect_zone,
  read_vcgencmd_temp, retry_zone, collect_zone, collect_pmic, collect_rest, collect_temperature,
  temp_of_run, no_answer,
}

redetect_zone-pmic :
    (z : Zones) (now : ℤ) (c : TemperatureCollector)
    → (redetect_zone z now c).pmic_unsupported ≡ c.pmic_unsupported
redetect_zone-pmic z now c = elim (Bool-cases (has_zone c)) [
  | inl e ↦ unfold redetect_zone in rw e refl
  | inr e ↦ elim (Bool-cases (is_throttled c.last_zone_detect now)) [
    | inl t ↦ unfold redetect_zone in rw (e, t) refl
    | inr t ↦ elim (Option-cases (find_cpu_thermal_zone z)) [
      | inl f ↦ unfold redetect_zone in rw (e, t, f) refl
      | inr (zone, f) ↦ unfold redetect_zone in rw (e, t, f) refl
    ]
  ]
]

-- The agreement of two ways that vcgencmd may answer, but for the PMIC.
abbrev pub SameButPmic : Exec → Exec → Type 0
SameButPmic exec exec' = (subcommand : Bytes) → exec subcommand [] ≡ exec' subcommand []

module _ {V : Type 0} (milli : ℤ → V) (parse_float : Bytes → Option V) where
  retry_zone-pmic :
      (z : Zones) (now : ℤ) (c : TemperatureCollector) (r : TempRead V)
      → (retry_zone milli parse_float z now c r).0.pmic_unsupported ≡ c.pmic_unsupported
  retry_zone-pmic z now c (read v) = refl
  retry_zone-pmic z now c bad = refl
  retry_zone-pmic z now c vanished = redetect_zone-pmic z now record c { zone_path = [] }

  collect_zone-pmic :
      (z : Zones) (clock : Clock) (c : TemperatureCollector)
      → (collect_zone milli parse_float z clock c).0.pmic_unsupported ≡ c.pmic_unsupported
  collect_zone-pmic z clock c = elim (Bool-cases (has_zone (redetect_zone z clock.zone_now c))) [
    | inl e ↦
        unfold collect_zone in
        rw e (retry_zone-pmic z clock.retry_now _ _ ∙ redetect_zone-pmic z clock.zone_now c)
    | inr e ↦ unfold collect_zone in rw e (redetect_zone-pmic z clock.zone_now c)
  ]

  read_vcgencmd_temp-SameButPmic :
      (look_path : ℤ → Option Bytes) (exec exec' : Exec) (now : ℤ) (vcg : Option VcgencmdRunner)
      → SameButPmic exec exec'
      → read_vcgencmd_temp milli parse_float look_path exec now [] vcg
        ≡ read_vcgencmd_temp milli parse_float look_path exec' now [] vcg
  read_vcgencmd_temp-SameButPmic look_path exec exec' now none same =
      unfold read_vcgencmd_temp in refl
  read_vcgencmd_temp-SameButPmic look_path exec exec' now (some r) same =
      unfold read_vcgencmd_temp in unfold run in rw (same (codes "measure_temp")) refl

  collect_rest-SameButPmic :
      (look_path : ℤ → Option Bytes) (exec exec' : Exec) (clock : Clock)
      (vcg : Option VcgencmdRunner) (c : TemperatureCollector) (v : V)
      → SameButPmic exec exec'
      → c.pmic_unsupported ≡ true
      → (collect_rest milli parse_float look_path exec clock vcg c v
          ≡ collect_rest milli parse_float look_path exec' clock vcg c v)
        × ((collect_rest milli parse_float look_path exec clock vcg c v).0.pmic_unsupported ≡ true)
  collect_rest-SameButPmic look_path exec exec' clock vcg c v same h =
      unfold collect_rest in
      unfold collect_pmic in
      rw (read_vcgencmd_temp-SameButPmic look_path exec exec' clock.gpu_now vcg same, h)
        (refl, refl)

  -- Once a board is known to have no PMIC sensor, vcgencmd is not asked for it again: the temperatures,
  -- the collector and the runner after a Collect are the same whatever it would answer for the PMIC,
  -- and the flag stays set.
  pub collect_temperature-SameButPmic :
      (z : Zones) (look_path : ℤ → Option Bytes) (exec exec' : Exec) (clock : Clock)
      (vcg : Option VcgencmdRunner) (c : TemperatureCollector)
      → SameButPmic exec exec'
      → c.pmic_unsupported ≡ true
      → (collect_temperature milli parse_float z look_path exec clock vcg c
          ≡ collect_temperature milli parse_float z look_path exec' clock vcg c)
        × ((collect_temperature milli parse_float z look_path exec clock vcg c).0.pmic_unsupported
            ≡ true)
  collect_temperature-SameButPmic z look_path exec exec' clock vcg c same h =
      let kept = collect_zone-pmic z clock c ∙ h in
      elim (Option-cases (collect_zone milli parse_float z clock c).1) [
        | inl e ↦ unfold collect_temperature in rw (collect_temperature, e) (refl, kept)
        | inr (v, e) ↦
            unfold collect_temperature in
            rw (collect_temperature, e)
              (collect_rest-SameButPmic look_path exec exec' clock vcg _ v same kept)
      ]

  failed_run : (path : Bytes) → temp_of_run milli parse_float (run_at path none) ≡ no_answer
  failed_run [] = unfold run_at in refl
  failed_run (c ∷ path) = unfold run_at in refl

  read_failed :
      (look_path : ℤ → Option Bytes) (exec : Exec) (now : ℤ) (args : List Bytes)
      (vcg : Option VcgencmdRunner)
      → exec (codes "measure_temp") args ≡ none
      → (read_vcgencmd_temp milli parse_float look_path exec now args vcg).1 ≡ no_answer
  read_failed look_path exec now args none h = unfold read_vcgencmd_temp in refl
  read_failed look_path exec now args (some r) h =
      unfold read_vcgencmd_temp in unfold run in rw h (failed_run (redetect look_path now r).path)

  collect_pmic-failed :
      (look_path : ℤ → Option Bytes) (exec : Exec) (now : ℤ) (flag : Bool)
      (vcg : Option VcgencmdRunner)
      → exec (codes "measure_temp") (codes "pmic" ∷ []) ≡ none
      → (collect_pmic milli parse_float look_path exec now flag vcg).0 ≡ flag
  collect_pmic-failed look_path exec now true vcg h = unfold collect_pmic in refl
  collect_pmic-failed look_path exec now false vcg h =
      unfold collect_pmic in rw (read_failed look_path exec now (codes "pmic" ∷ []) vcg h) refl

  -- Where the command for the PMIC fails or times out, Collect leaves the flag as it was.
  pub collect_temperature-failed :
      (z : Zones) (look_path : ℤ → Option Bytes) (exec : Exec) (clock : Clock)
      (vcg : Option VcgencmdRunner) (c : TemperatureCollector)
      → exec (codes "measure_temp") (codes "pmic" ∷ []) ≡ none
      → (collect_temperature milli parse_float z look_path exec clock vcg c).0.pmic_unsupported
        ≡ c.pmic_unsupported
  collect_temperature-failed z look_path exec clock vcg c h =
      elim (Option-cases (collect_zone milli parse_float z clock c).1) [
        | inl e ↦
            unfold collect_temperature in rw (collect_temperature, e) (collect_zone-pmic z clock c)
        | inr (v, e) ↦
            unfold collect_temperature in
            rw (collect_temperature, e)
              (unfold collect_rest in
                collect_pmic-failed look_path exec clock.pmic_now _ _ h
                ∙ collect_zone-pmic z clock c)
      ]
