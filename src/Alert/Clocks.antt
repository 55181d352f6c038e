-- ===== src/Alert/Clocks.antt =====
-- The clocks of one metric's boundaries, and what they prove of the readings so far.
use pi_monitor.Prelude.{
  ◌≡◌, refl, ◌⊎◌, inl, inr, Bool, true, false, not, ◌&&◌, ◌||◌, List, [], ◌∷◌, arith, if◌then◌else◌,
  Bool-cases,
}
use pi_monitor.Prelude.Int.{ℤ}
use pi_monitor.Prelude.Float.{Float}
use pi_monitor.Alert.Types.{Level, ok, warn, crit, MetricState}
use pi_monitor.Alert.Defs.{held, next_level, confirmed_level, settle, observe, level_eq, differs}

abbrev pub Reading : Type 0 → Type 0
Reading V = ℤ × V

-- The side has been `b` at every reading from the one at `since` on; the newest reading is first.
abbrev pub Since : {V : Type 0} → (V → Bool) → Bool → ℤ → List (Reading V) → Type 0
Since side b since [] = ⊥
Since side b since ((now, v) ∷ earlier) =
    (side v ≡ b) × ((since ≡ now) ⊎ Since side b since earlier)

-- At every reading for at least the debounce window up to `now`.
abbrev pub LongSince : {V : Type 0} → ℤ → ℤ → (V → Bool) → Bool → List (Reading V) → Type 0
LongSince for_dur now side b readings =
    (since : ℤ) × (held for_dur now since ≡ true) × Since side b since readings

-- What the readings must be for a transition between two levels.
abbrev pub Justified :
    {V : Type 0} → ℤ → ℤ → (V → Bool) → (V → Bool) → List (Reading V) → Level → Level → Type 0
Justified for_dur now at_warn at_crit readings ok ok = ⊥
Justified for_dur now at_warn at_crit readings ok warn = LongSince for_dur now at_warn true readings
Justified for_dur now at_warn at_crit readings ok crit = LongSince for_dur now at_crit true readings
Justified for_dur now at_warn at_crit readings warn ok =
    LongSince for_dur now at_warn false readings
Justified for_dur now at_warn at_crit readings warn warn = ⊥
Justified for_dur now at_warn at_crit readings warn crit =
    LongSince for_dur now at_crit true readings
Justified for_dur now at_warn at_crit readings crit ok =
    LongSince for_dur now at_crit false readings × LongSince for_dur now at_warn false readings
Justified for_dur now at_warn at_crit readings crit warn =
    LongSince for_dur now at_crit false readings
Justified for_dur now at_warn at_crit readings crit crit = ⊥

module _ {V : Type 0} ⦃f : Float V⦄ where
  -- Whether a value is at or above a cutoff.
  abbrev pub reaches : V → V → Bool
  reaches cutoff v = f.geb v cutoff

module _ {V : Type 0} ⦃f : Float V⦄ (warn_at crit_at : V) where
  -- The clocks of a state that has seen the readings.
  pub record Tracks (st : MetricState V) (readings : List (Reading V)) : Type 0 where
    pub started : st.initialized ≡ true
    pub warn_clock : Since (reaches warn_at) st.warn_above st.warn_since readings
    pub crit_clock : Since (reaches crit_at) st.crit_above st.crit_since readings

  -- The clock of one boundary after a reading.
  clock_step :
      (side : V → Bool) (above crossed started : Bool) (since now : ℤ) (v : V)
      (earlier : List (Reading V))
      → (started ≡ true → Since side above since earlier)
      → crossed ≡ (not started || differs above (side v))
      → Since side
          (if crossed then side v else above)
          (if crossed then now else since)
          ((now, v) ∷ earlier)
  clock_step side above true started since now v earlier h e = (refl, inl refl)
  clock_step side above false started since now v earlier h e =
      (ground arith, inr (h (ground arith)))

  pub observe-Tracks :
      (st : MetricState V) (now : ℤ) (v : V) (earlier : List (Reading V))
      → (st.initialized ≡ true → Tracks st earlier)
      → Tracks (observe st v warn_at crit_at now) ((now, v) ∷ earlier)
  unfolding observe
  observe-Tracks st now v earlier h = record {
    started = refl;
    warn_clock =
        clock_step (reaches warn_at) st.warn_above _ st.initialized st.warn_since now v earlier
          (λ s. (h s).warn_clock) refl;
    crit_clock =
        clock_step (reaches crit_at) st.crit_above _ st.initialized st.crit_since now v earlier
          (λ s. (h s).crit_clock) refl;
  }

  pub settle-Tracks :
      (for_dur now : ℤ) (st : MetricState V) (readings : List (Reading V))
      → Tracks st readings
      → Tracks (settle for_dur st now) readings
  unfolding settle
  settle-Tracks for_dur now st readings t =
      elim (Bool-cases (level_eq (confirmed_level for_dur st now) st.active)) [
        | inl e ↦ rw e t
        | inr e ↦
            rw e
              (record { started = t.started; warn_clock = t.warn_clock; crit_clock = t.crit_clock })
      ]

  -- A clock that has run long enough, on either side of its boundary.
  long_above :
      (for_dur now since : ℤ) (side : V → Bool) (above : Bool) (readings : List (Reading V))
      → Since side above since readings
      → (above && held for_dur now since) ≡ true
      → LongSince for_dur now side true readings
  long_above for_dur now since side true readings s e = (since, e, s)
  long_above for_dur now since side false readings s e = cc

  long_below :
      (for_dur now since : ℤ) (side : V → Bool) (above : Bool) (readings : List (Reading V))
      → Since side above since readings
      → (not above && held for_dur now since) ≡ true
      → LongSince for_dur now side false readings
  long_below for_dur now since side true readings s e = cc
  long_below for_dur now since side false readings s e = (since, e, s)

  module _ (for_dur now warn_since crit_since : ℤ) (warn_above crit_above : Bool)
      (readings : List (Reading V)) (sw : Since (reaches warn_at) warn_above warn_since readings)
      (sc : Since (reaches crit_at) crit_above crit_since readings) where
    abbrev crit_confirmed : Bool
    crit_confirmed = crit_above && held for_dur now crit_since

    abbrev warn_confirmed : Bool
    warn_confirmed = warn_above && held for_dur now warn_since

    abbrev below_crit_confirmed : Bool
    below_crit_confirmed = not crit_above && held for_dur now crit_since

    abbrev below_warn_confirmed : Bool
    below_warn_confirmed = not warn_above && held for_dur now warn_since

    pub next_level-Justified :
        (lv : Level)
        → level_eq
            (next_level lv crit_confirmed warn_confirmed below_crit_confirmed below_warn_confirmed)
            lv
          ≡ false
        → Justified for_dur now
            (reaches warn_at)
            (reaches crit_at)
            readings
            lv
            (next_level lv crit_confirmed warn_confirmed below_crit_confirmed below_warn_confirmed)
    unfolding next_level
    next_level-Justified ok ne = elim (Bool-cases crit_confirmed) [
      | inl c ↦ rw c (long_above for_dur now crit_since (reaches crit_at) crit_above readings sc c)
      | inr c ↦ elim (Bool-cases warn_confirmed) [
        | inl w ↦
            rw (c, w) (long_above for_dur now warn_since (reaches warn_at) warn_above readings sw w)
        | inr w ↦ cc (rw (c, w) at ne)
      ]
    ]
    next_level-Justified warn ne = elim (Bool-cases crit_confirmed) [
      | inl c ↦ rw c (long_above for_dur now crit_since (reaches crit_at) crit_above readings sc c)
      | inr c ↦ elim (Bool-cases below_warn_confirmed) [
        | inl w ↦
            rw (c, w) (long_below for_dur now warn_since (reaches warn_at) warn_above readings sw w)
        | inr w ↦ cc (rw (c, w) at ne)
      ]
    ]
    next_level-Justified crit ne = elim (Bool-cases below_crit_confirmed) [
      | inl c ↦ elim (Bool-cases below_warn_confirmed) [
        | inl w ↦
            rw (c, w)
              (
                long_below for_dur now crit_since (reaches crit_at) crit_above readings sc c,
                long_below for_dur now warn_since (reaches warn_at) warn_above readings sw w,
              )
        | inr w ↦
            rw (c, w) (long_below for_dur now crit_since (reaches crit_at) crit_above readings sc c)
      ]
      | inr c ↦ cc (rw c at ne)
    ]
