-- ===== src/Sensors/Detection.antt =====
-- internal/collector/vcgencmd.go: how often vcgencmd is looked up.
use pi_monitor.Prelude.{
  ◌≡◌, refl, Bool, true, false, not, ◌&&◌, inl, inr, List, [], ◌∷◌, Option, none, All,
  if◌then◌else◌, Bool-cases, Option-cases,
}
use pi_monitor.Prelude.Int.{ℤ, ltb_ℤ, ◌-ℤ◌}
use pi_monitor.Prelude.Bytes.{Bytes}
use pi_monitor.Collector.Import.{is_zero}
use pi_monitor.Sensors.Vcgencmd.{
  VcgencmdRunner, detect_retry_interval, is_throttled, look_up, is_due, redetect,
}

-- The times at which runs at the times of a list look vcgencmd up.
unfoldable pub lookups : (ℤ → Option Bytes) → VcgencmdRunner → List ℤ → List ℤ
lookups look_path r [] = []
lookups look_path r (t ∷ ts) =
    let rest = lookups look_path (redetect look_path t r) ts in
    if is_due t r then t ∷ rest else rest

-- Every lookup but the last has failed, and the next one comes at least the interval later.
abbrev pub Spaced : (ℤ → Option Bytes) → List ℤ → Type 0
Spaced look_path [] = Unit
Spaced look_path (t ∷ []) = Unit
Spaced look_path (t ∷ u ∷ ts) =
    (look_path t ≡ none)
    × (ltb_ℤ (u -ℤ t) detect_retry_interval ≡ false)
    × Spaced look_path (u ∷ ts)

-- The first lookup of a list may follow what the runner has seen.
abbrev CanFollow : VcgencmdRunner → List ℤ → Type 0
CanFollow r [] = Unit
CanFollow r (u ∷ ts) = is_due u r ≡ true

nor : (a b : Bool) → (not a && not b) ≡ true → (a ≡ false) × (b ≡ false)
nor true b h = absurd cc
nor false true h = absurd cc
nor false false h = (refl, refl)

not_throttled : (a b : Bool) → (not a && b) ≡ false → a ≡ false → b ≡ false
not_throttled a b h e = rw e at h

not_due :
    (r : VcgencmdRunner) (t : ℤ)
    → is_due t r ≡ true
    → (r.detected ≡ false) × (is_throttled r.last_detect t ≡ false)
unfolding is_due
not_due r t h = nor r.detected (is_throttled r.last_detect t) h

link :
    (look_path : ℤ → Option Bytes) (r : VcgencmdRunner) (t : ℤ) (rest : List ℤ)
    → is_zero t ≡ false
    → CanFollow (look_up look_path t r) rest
    → Spaced look_path rest
    → Spaced look_path (t ∷ rest)
unfolding look_up is_throttled
link look_path r t [] z f s = tt
link look_path r t (u ∷ rest) z f s = elim (Option-cases (look_path t)) [
  | inl e ↦
      let due = not_due record r { last_detect = t } u (rw (look_up, e) at f) in
      (e, not_throttled (is_zero t) _ due.1 z, s)
  | inr (path, e) ↦ absurd (
      cc
        (not_due record { path = path; detected = true; last_detect = t } u
          (rw (look_up, e) at f)).0)
]

lookups_lem :
    (look_path : ℤ → Option Bytes) (r : VcgencmdRunner) (times : List ℤ)
    → All (λ t. is_zero t ≡ false) times
    → Spaced look_path (lookups look_path r times) × CanFollow r (lookups look_path r times)
unfolding lookups redetect
lookups_lem look_path r [] z = (tt, tt)
lookups_lem look_path r (t ∷ ts) z = elim (Bool-cases (is_due t r)) [
  | inl e ↦
      let (s, f) = lookups_lem look_path (look_up look_path t r) ts z.1 in
      rw (redetect, e) (link look_path r t _ z.0 f s, e)
  | inr e ↦ rw (redetect, e) (lookups_lem look_path r ts z.1)
]

-- However often vcgencmd is run, at whatever times, it is looked up again only where every lookup
-- before has failed, and no sooner than 30 seconds after the last one; for times that are not the zero
-- time.
pub lookups-Spaced :
    (look_path : ℤ → Option Bytes) (r : VcgencmdRunner) (times : List ℤ)
    → All (λ t. is_zero t ≡ false) times
    → Spaced look_path (lookups look_path r times)
lookups-Spaced look_path r times z = (lookups_lem look_path r times z).0
