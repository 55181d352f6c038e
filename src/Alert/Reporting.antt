-- ===== src/Alert/Reporting.antt =====
-- `Report`: the states in their stable order, and the events.
use mathlib.Core.List.{Perm}
use pi_monitor.Prelude.{◌≡◌, refl, sym, ◌⊎◌, inl, inr, true, false, List, [], ◌∷◌, map, Bool-cases}
use pi_monitor.Prelude.Bytes.{Bytes, str_eq, str_eq_comm, str_eq_sound, str_lt, str_lt_asym}
use pi_monitor.Prelude.Sort.{sort-perm, sort-IsSorted, IsSorted}
use pi_monitor.Alert.Types.{State, MetricState, Engine}
use pi_monitor.Alert.Evaluate.{report, report_lt, to_state}

module _ {V : Type 0} where
  report_lt_asym : (a b : State V) → report_lt a b ≡ true → report_lt b a ≡ false
  unfolding report_lt
  report_lt_asym a b h = elim (Bool-cases (str_eq a.metric b.metric)) [
    | inl e ↦ rw (str_eq_comm b.metric a.metric, e) (str_lt_asym a.resource b.resource (rw e at h))
    | inr e ↦ rw (str_eq_comm b.metric a.metric, e) (str_lt_asym a.metric b.metric (rw e at h))
  ]

  -- What is reported of a metric.
  abbrev pub Shows : State V → MetricState V → Type 0
  Shows s st =
      (s.metric ≡ st.metric)
      × (s.resource ≡ st.resource)
      × (s.level ≡ st.active)
      × (s.value ≡ st.last_value)
      × (s.since ≡ st.active_since)

  abbrev pub ShowsAll : List (State V) → List (Bytes × MetricState V) → Type 0
  ShowsAll [] [] = Unit
  ShowsAll (s ∷ shown) ((key, st) ∷ states) = Shows s st × ShowsAll shown states
  ShowsAll [] (e ∷ states) = ⊥
  ShowsAll (s ∷ shown) [] = ⊥

  -- The metrics are in order, and where they are the same the resources are.
  abbrev pub Follows : State V → State V → Type 0
  Follows a b =
      ((a.metric ≡ b.metric) × (str_lt b.resource a.resource ≡ false))
      ⊎ ((str_eq b.metric a.metric ≡ false) × (str_lt b.metric a.metric ≡ false))

  abbrev pub InOrder : List (State V) → Type 0
  InOrder [] = Unit
  InOrder (a ∷ []) = Unit
  InOrder (a ∷ b ∷ rest) = Follows a b × InOrder (b ∷ rest)

  ShowsAll-to_state :
      (states : List (Bytes × MetricState V)) → ShowsAll (map to_state states) states
  ShowsAll-to_state [] = tt
  ShowsAll-to_state ((key, st) ∷ states) =
      ((refl, refl, refl, refl, refl), ShowsAll-to_state states)

  report_lt-Follows : (a b : State V) → report_lt b a ≡ false → Follows a b
  unfolding report_lt
  report_lt-Follows a b h = elim (Bool-cases (str_eq b.metric a.metric)) [
    | inl e ↦ inl (sym (str_eq_sound b.metric a.metric e), rw (report_lt, e) at h)
    | inr e ↦ inr (e, rw (report_lt, e) at h)
  ]

  IsSorted-InOrder : (states : List (State V)) → IsSorted report_lt states → InOrder states
  IsSorted-InOrder [] h = tt
  IsSorted-InOrder (a ∷ []) h = tt
  IsSorted-InOrder (a ∷ b ∷ rest) h =
      (report_lt-Follows a b (h.0), IsSorted-InOrder (b ∷ rest) (h.1))

  -- The report holds, for each metric that the engine tracks, one state with the metric, the resource,
  -- the level, the last value and the time since when it has had this level, and no other; they are
  -- ordered by metric, and those of one metric by resource; the event history is there as it stands,
  -- and the report says that alerting is enabled.
  pub report_lem :
      (e : Engine V)
      → (shown : List (State V)) × ShowsAll shown e.states
        × Perm (report e).states shown
        × InOrder (report e).states
        × ((report e).events ≡ e.events)
        × ((report e).enabled ≡ true)
  unfolding report
  report_lem e = (
    map to_state e.states,
    ShowsAll-to_state e.states,
    sort-perm report_lt (map to_state e.states),
    IsSorted-InOrder _ (sort-IsSorted report_lt report_lt_asym (map to_state e.states)),
    refl,
    refl,
  )
