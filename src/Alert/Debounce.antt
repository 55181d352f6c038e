-- ===== src/Alert/Debounce.antt =====
-- The debounce of one metric, over every sequence of readings: what a transition event proves of
-- the readings before it, and which readings are sure to raise an alert.
use pi_monitor.Prelude.{
  some_inj, ◌≡◌, refl, ◌∙◌, inl, inr, true, false, List, [], ◌∷◌, none, some, Bool-cases,
}
use pi_monitor.Prelude.Int.{ℤ}
use pi_monitor.Prelude.Bytes.{Bytes, str_eq_refl}
use pi_monitor.Prelude.Maps.{lookup, insert, lookup-insert}
use pi_monitor.Prelude.Float.{Float}
use pi_monitor.Alert.Types.{Level, ok, warn, crit, Event, MetricState, Engine}
use pi_monitor.Alert.Defs.{
  state_key, confirmed_level, settle, state_or_fresh, observe, record_event, eval_metric, level_eq,
}
use pi_monitor.Alert.Clocks.{
  Reading, Justified, reaches, Tracks, observe-Tracks, settle-Tracks, next_level-Justified,
}

level_eq_refl : (l : Level) → level_eq l l ≡ true
level_eq_refl ok = refl
level_eq_refl warn = refl
level_eq_refl crit = refl

module _ {V : Type 0} ⦃f : Float V⦄ (metric resource : Bytes) (warn_at crit_at : V) where
  -- The engine after readings of one metric, the newest first.
  unfoldable pub run : Engine V → List (Reading V) → Engine V
  run e [] = e
  run e ((now, v) ∷ earlier) = (eval_metric (run e earlier) metric resource v warn_at crit_at now).0

  abbrev pub found : Engine V → ℤ → MetricState V
  found e now = state_or_fresh (lookup (state_key metric resource) e.states) metric resource now

  abbrev pub seen : Engine V → ℤ → V → MetricState V
  seen e now v = observe (found e now) v warn_at crit_at now

  -- What `evalMetric` leaves behind: the metric's new state under its key, the settings as before.
  pub lookup-eval_metric :
      (e : Engine V) (now : ℤ) (v : V)
      → let e' = (eval_metric e metric resource v warn_at crit_at now).0 in
        (lookup (state_key metric resource) e'.states ≡ some (settle e.for_dur (seen e now v) now))
        × (e'.for_dur ≡ e.for_dur)
  unfolding eval_metric
  lookup-eval_metric e now v =
      elim (Bool-cases
        (level_eq (settle e.for_dur (seen e now v) now).active (seen e now v).active)) [
          | inl same ↦ rw same (stored, refl)
          | inr moved ↦ rw moved (stored, refl)
        ]
    where
      stored :
          lookup
            (state_key metric resource)
            (insert (state_key metric resource) (settle e.for_dur (seen e now v) now) e.states)
          ≡ some (settle e.for_dur (seen e now v) now)
      stored = simp (lookup-insert, str_eq_refl)

  -- An event names the levels that the state had and has, and the reading.
  pub event-eval_metric :
      (e : Engine V) (now : ℤ) (v : V) (ev : Event V)
      → (eval_metric e metric resource v warn_at crit_at now).1 ≡ some ev
      → (ev.from ≡ (seen e now v).active)
        × (ev.to ≡ confirmed_level e.for_dur (seen e now v) now)
        × (level_eq ev.to ev.from ≡ false)
        × (ev.value ≡ v)
        × (ev.at ≡ now)
  unfolding eval_metric settle
  event-eval_metric e now v ev h =
      elim (Bool-cases
        (level_eq (confirmed_level e.for_dur (seen e now v) now) (seen e now v).active)) [
          | inl same ↦ cc (rw (same, level_eq_refl (seen e now v).active) at h)
          | inr moved ↦ from_some ev moved (some_inj (rw (moved, moved) at h))
        ]
    where
      from_some :
          (ev : Event V)
          → level_eq (confirmed_level e.for_dur (seen e now v) now) (seen e now v).active ≡ false
          → (record_event e
              (seen e now v)
              (seen e now v).active
              (confirmed_level e.for_dur (seen e now v) now)
              v
              now).1
            ≡ ev
          → (ev.from ≡ (seen e now v).active)
            × (ev.to ≡ confirmed_level e.for_dur (seen e now v) now)
            × (level_eq ev.to ev.from ≡ false)
            × (ev.value ≡ v)
            × (ev.at ≡ now)
      from_some ev moved r = rw (← r) (refl, refl, moved, refl, refl)

  pub for_dur-run :
      (e : Engine V) (readings : List (Reading V)) → (run e readings).for_dur ≡ e.for_dur
  unfolding run
  for_dur-run e [] = refl
  for_dur-run e ((now, v) ∷ earlier) =
      (lookup-eval_metric (run e earlier) now v).1 ∙ for_dur-run e earlier

  found-Tracks :
      (e : Engine V) (now : ℤ) (earlier : List (Reading V))
      → lookup (state_key metric resource) e.states ≡ none
      → (found (run e earlier) now).initialized ≡ true
      → Tracks warn_at crit_at (found (run e earlier) now) earlier
  unfolding run state_or_fresh
  found-Tracks e now [] h s = cc
  found-Tracks e now ((t, v) ∷ earlier) h s = rw ((lookup-eval_metric (run e earlier) t v).0) (
      settle-Tracks warn_at crit_at _ t _ _
        (observe-Tracks warn_at crit_at _ t v earlier (found-Tracks e t earlier h)))

  -- Every transition event of a metric is justified by its readings. An event that raises the
  -- level to critical (to warning) comes only where every reading for at least the debounce window
  -- was at or above that cutoff; one that leaves critical (that returns to ok) only where every
  -- reading for that long was below the critical (the warning) cutoff. It holds for every sequence
  -- of readings of a metric that the engine has not seen before, whatever their times.
  pub event-Justified :
      (e : Engine V) (now : ℤ) (v : V) (earlier : List (Reading V)) (ev : Event V)
      → lookup (state_key metric resource) e.states ≡ none
      → (eval_metric (run e earlier) metric resource v warn_at crit_at now).1 ≡ some ev
      → Justified e.for_dur now
          (reaches warn_at)
          (reaches crit_at)
          ((now, v) ∷ earlier)
          ev.from
          ev.to
  unfolding confirmed_level
  event-Justified e now v earlier ev h eq =
      let facts = event-eval_metric (run e earlier) now v ev eq in
      let st = seen (run e earlier) now v in
      let tr : Tracks warn_at crit_at st ((now, v) ∷ earlier) =
        observe-Tracks warn_at crit_at _ now v earlier (found-Tracks e now earlier h) in
      rw (facts.0, facts.1, for_dur-run e earlier)
        (next_level-Justified warn_at crit_at e.for_dur now st.warn_since st.crit_since
          st.warn_above st.crit_above ((now, v) ∷ earlier) tr.warn_clock tr.crit_clock st.active
          (rw (facts.0, facts.1, for_dur-run e earlier) at (facts.2)))
