-- ===== src/Alert/Sustained.antt =====
-- Readings that last: a value that stays beyond a cutoff for the debounce window changes the level.
use pi_monitor.Prelude.{
  ◌≡◌, refl, sym, ◌∙◌, inl, inr, Bool, true, false, not, ◌||◌, List, [], ◌∷◌, some, arith,
  if◌then◌else◌, Bool-cases, All,
}
use pi_monitor.Prelude.Int.{ℤ}
use pi_monitor.Prelude.Bytes.{Bytes}
use pi_monitor.Prelude.Maps.{lookup}
use pi_monitor.Prelude.Float.{Float}
use pi_monitor.Alert.Types.{Level, ok, warn, crit, MetricState, Engine}
use pi_monitor.Alert.Defs.{
  state_key, held, next_level, confirmed_level, settle, state_or_fresh, observe, level_eq, differs,
}
use pi_monitor.Alert.Clocks.{Reading}
use pi_monitor.Alert.Debounce.{run, found, seen, lookup-eval_metric, for_dur-run}

-- The time of the oldest reading, at `t` and before.
abbrev pub oldest : {V : Type 0} → ℤ → List (Reading V) → ℤ
oldest t [] = t
oldest t ((s, v) ∷ earlier) = oldest s earlier

clock_turns :
    (b above started : Bool) (since now : ℤ)
    → above ≡ not b
    → let crossed = not started || differs above b in
      ((if crossed then b else above) ≡ b) × ((if crossed then now else since) ≡ now)
clock_turns true above started since now e = ground arith
clock_turns false above started since now e = ground arith

clock_stays :
    (b above started : Bool) (since now : ℤ)
    → above ≡ b
    → started ≡ true
    → let crossed = not started || differs above b in
      ((if crossed then b else above) ≡ b) × ((if crossed then now else since) ≡ since)
clock_stays true above started since now e s = ground arith
clock_stays false above started since now e s = ground arith

level_eq_sound : (a b : Level) → level_eq a b ≡ true → a ≡ b
level_eq_sound ok ok e = refl
level_eq_sound warn warn e = refl
level_eq_sound crit crit e = refl
level_eq_sound ok warn e = cc
level_eq_sound ok crit e = cc
level_eq_sound warn ok e = cc
level_eq_sound warn crit e = cc
level_eq_sound crit ok e = cc
level_eq_sound crit warn e = cc

-- `settle` changes the level alone, and to the level confirmed.
settle_lem :
    {V : Type 0} (for_dur now : ℤ) (st : MetricState V)
    → ((settle for_dur st now).active ≡ confirmed_level for_dur st now)
      × ((settle for_dur st now).crit_above ≡ st.crit_above)
      × ((settle for_dur st now).crit_since ≡ st.crit_since)
      × ((settle for_dur st now).warn_above ≡ st.warn_above)
      × ((settle for_dur st now).warn_since ≡ st.warn_since)
      × ((settle for_dur st now).initialized ≡ st.initialized)
unfolding settle
settle_lem for_dur now st =
    elim (Bool-cases (level_eq (confirmed_level for_dur st now) st.active)) [
      | inl e ↦ rw e (sym (level_eq_sound _ _ e), refl, refl, refl, refl, refl)
      | inr e ↦ rw e (refl, refl, refl, refl, refl, refl)
    ]

next_level-crit : (l : Level) (w bw : Bool) → next_level l true w false bw ≡ crit
unfolding next_level
next_level-crit ok w bw = refl
next_level-crit warn w bw = refl
next_level-crit crit w bw = refl

next_level-ok : (l : Level) → next_level l false false true true ≡ ok
unfolding next_level
next_level-ok ok = refl
next_level-ok warn = refl
next_level-ok crit = refl

confirmed_level-crit :
    {V : Type 0} (for_dur now : ℤ) (st : MetricState V)
    → st.crit_above ≡ true
    → held for_dur now st.crit_since ≡ true
    → confirmed_level for_dur st now ≡ crit
unfolding confirmed_level
confirmed_level-crit for_dur now st a h = rw (a, h) (next_level-crit st.active _ _)

confirmed_level-ok :
    {V : Type 0} (for_dur now : ℤ) (st : MetricState V)
    → st.crit_above ≡ false
    → held for_dur now st.crit_since ≡ true
    → st.warn_above ≡ false
    → held for_dur now st.warn_since ≡ true
    → confirmed_level for_dur st now ≡ ok
unfolding confirmed_level
confirmed_level-ok for_dur now st a h b k = rw (a, h, b, k) (next_level-ok st.active)

module _ {V : Type 0} ⦃f : Float V⦄ (metric resource : Bytes) (warn_at crit_at : V) where
  abbrev before : Engine V → ℤ → MetricState V
  before e t = found metric resource warn_at crit_at e t

  abbrev after : Engine V → List (Reading V) → Engine V
  after e readings = run metric resource warn_at crit_at e readings

  abbrev noted : Engine V → ℤ → V → MetricState V
  noted e now v = seen metric resource warn_at crit_at e now v

  -- The state found after a reading is the one settled at it.
  found-after :
      (e : Engine V) (now t : ℤ) (w : V) (earlier : List (Reading V))
      → before (after e ((t, w) ∷ earlier)) now
        ≡ settle (after e earlier).for_dur (noted (after e earlier) t w) t
  unfolding run state_or_fresh
  found-after e now t w earlier =
      rw ((lookup-eval_metric metric resource warn_at crit_at (after e earlier) t w).0)

  -- The state after readings that all stand on one side of a cutoff has its clock at the oldest.
  crit_clock :
      (b : Bool) (e : Engine V) (now : ℤ) (v : V) (earlier : List (Reading V))
      → (before e (oldest now earlier)).crit_above ≡ not b
      → All (λ (r : Reading V). f.geb (r.1) crit_at ≡ b) ((now, v) ∷ earlier)
      → (((noted (after e earlier) now v).crit_above ≡ b)
          × ((noted (after e earlier) now v).crit_since ≡ oldest now earlier)
          × ((noted (after e earlier) now v).initialized ≡ true))
  unfolding run observe
  crit_clock b e now v [] h (a, _) =
      let c =
        clock_turns b (before e now).crit_above (before e now).initialized (before e now).crit_since
          now h in
      rw a (c.0, c.1, refl)
  crit_clock b e now v ((t, w) ∷ earlier) h (a, rest) =
      let ih = crit_clock b e t w earlier h rest in
      let st = before (after e ((t, w) ∷ earlier)) now in
      let same = settle_lem (after e earlier).for_dur t (noted (after e earlier) t w) in
      let above : st.crit_above ≡ b = rw (found-after e now t w earlier, same.1) (ih.0) in
      let begun : st.initialized ≡ true = rw (found-after e now t w earlier, same.5) (ih.2) in
      let since : st.crit_since ≡ oldest t earlier =
        rw (found-after e now t w earlier, same.2) (ih.1) in
      let c = clock_stays b st.crit_above st.initialized st.crit_since now above begun in
      rw a (c.0, c.1 ∙ since, refl)

  warn_clock :
      (b : Bool) (e : Engine V) (now : ℤ) (v : V) (earlier : List (Reading V))
      → (before e (oldest now earlier)).warn_above ≡ not b
      → All (λ (r : Reading V). f.geb (r.1) warn_at ≡ b) ((now, v) ∷ earlier)
      → (((noted (after e earlier) now v).warn_above ≡ b)
          × ((noted (after e earlier) now v).warn_since ≡ oldest now earlier)
          × ((noted (after e earlier) now v).initialized ≡ true))
  unfolding run observe
  warn_clock b e now v [] h (a, _) =
      let c =
        clock_turns b (before e now).warn_above (before e now).initialized (before e now).warn_since
          now h in
      rw a (c.0, c.1, refl)
  warn_clock b e now v ((t, w) ∷ earlier) h (a, rest) =
      let ih = warn_clock b e t w earlier h rest in
      let st = before (after e ((t, w) ∷ earlier)) now in
      let same = settle_lem (after e earlier).for_dur t (noted (after e earlier) t w) in
      let above : st.warn_above ≡ b = rw (found-after e now t w earlier, same.3) (ih.0) in
      let begun : st.initialized ≡ true = rw (found-after e now t w earlier, same.5) (ih.2) in
      let since : st.warn_since ≡ oldest t earlier =
        rw (found-after e now t w earlier, same.4) (ih.1) in
      let c = clock_stays b st.warn_above st.initialized st.warn_since now above begun in
      rw a (c.0, c.1 ∙ since, refl)

  -- What `evalMetric` stores after the readings.
  stored_level :
      (e : Engine V) (now : ℤ) (v : V) (earlier : List (Reading V)) (l : Level)
      → confirmed_level e.for_dur (noted (after e earlier) now v) now ≡ l
      → (st : MetricState V) × (lookup
            (state_key metric resource)
            (after e ((now, v) ∷ earlier)).states
          ≡ some st)
        × (st.active ≡ l)
  unfolding run
  stored_level e now v earlier l c = (
    settle (after e earlier).for_dur (noted (after e earlier) now v) now,
    (lookup-eval_metric metric resource warn_at crit_at (after e earlier) now v).0,
    (settle_lem (after e earlier).for_dur now (noted (after e earlier) now v)).0
        ∙ rw (for_dur-run metric resource warn_at crit_at e earlier) c,
  )

  -- A metric that was below the critical cutoff, or is new, is critical after readings that all
  -- reach the cutoff, once the oldest of them is the debounce window ago.
  pub sustained-crit :
      (e : Engine V) (now : ℤ) (v : V) (earlier : List (Reading V))
      → (found metric resource warn_at crit_at e (oldest now earlier)).crit_above ≡ false
      → All (λ (r : Reading V). f.geb (r.1) crit_at ≡ true) ((now, v) ∷ earlier)
      → held e.for_dur now (oldest now earlier) ≡ true
      → (st : MetricState V) × (lookup
            (state_key metric resource)
            (run metric resource warn_at crit_at e ((now, v) ∷ earlier)).states
          ≡ some st)
        × (st.active ≡ crit)
  sustained-crit e now v earlier below all long =
      let c = crit_clock true e now v earlier below all in
      stored_level e now v earlier crit
        (confirmed_level-crit e.for_dur now (noted (after e earlier) now v) (c.0) (rw (c.1) long))

  below_both :
      f.geb crit_at warn_at ≡ true
      → (readings : List (Reading V))
      → All (λ (r : Reading V). f.geb (r.1) warn_at ≡ false) readings
      → All (λ (r : Reading V). f.geb (r.1) crit_at ≡ false) readings
  below_both h [] all = tt
  below_both h ((t, w) ∷ rest) (a, all) = (
    elim (Bool-cases (f.geb w crit_at)) [
      | inl above ↦ cc (f.geb_trans w crit_at warn_at above h)
      | inr below ↦ below
    ],
    below_both h rest all,
  )

  -- With the warning cutoff not above the critical one, a metric that was at or above both is ok
  -- after readings that all stay below the warning cutoff, once the oldest of them is the debounce
  -- window ago.
  pub sustained-ok :
      (e : Engine V) (now : ℤ) (v : V) (earlier : List (Reading V))
      → f.geb crit_at warn_at ≡ true
      → (found metric resource warn_at crit_at e (oldest now earlier)).crit_above ≡ true
      → (found metric resource warn_at crit_at e (oldest now earlier)).warn_above ≡ true
      → All (λ (r : Reading V). f.geb (r.1) warn_at ≡ false) ((now, v) ∷ earlier)
      → held e.for_dur now (oldest now earlier) ≡ true
      → (st : MetricState V) × (lookup
            (state_key metric resource)
            (run metric resource warn_at crit_at e ((now, v) ∷ earlier)).states
          ≡ some st)
        × (st.active ≡ ok)
  sustained-ok e now v earlier order ca wa all long =
      let c = crit_clock false e now v earlier ca (below_both order ((now, v) ∷ earlier) all) in
      let w = warn_clock false e now v earlier wa all in
      stored_level e now v earlier ok (
        confirmed_level-ok e.for_dur now (noted (after e earlier) now v) (c.0) (rw (c.1) long) (w.0)
          (rw (w.1) long))
