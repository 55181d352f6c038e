-- ===== src/Alert/Defs.antt =====
-- internal/alert/alert.go: the debounce state machine, `Evaluate`, `pruneDisks` and `Report`.
-- Each exported method runs under `Engine.mu`, so it is one step from engine to engine. A method
-- that changes the engine returns the new one first. `metricState` is reached by a pointer that is
-- stored in the map; the model writes the changed state back under its key.
use pi_monitor.Prelude.{
  ℕ, ◌-◌, Bool, true, false, not, ◌&&◌, ◌||◌, [], ◌∷◌, ◌++◌, Option, none, some, length, drop, ltb,
  ◌==◌, if◌then◌else◌,
}
use pi_monitor.Prelude.Int.{zero_time, ℤ, leb_ℤ, ◌-ℤ◌}
use pi_monitor.Prelude.Bytes.{Bytes, codes}
use pi_monitor.Prelude.Maps.{lookup, insert}
use pi_monitor.Prelude.Float.{Float}
use pi_monitor.Alert.Types.{
  Level, ok, warn, crit, fired, cleared, Thresholds, Event, MetricState, Engine,
}

abbrev pub default_max_events : ℕ
default_max_events = 100

abbrev pub severity : Level → ℕ
severity crit = 2
severity warn = 1
severity ok = 0

-- Go's `!=` on booleans.
abbrev pub differs : Bool → Bool → Bool
differs true b = not b
differs false b = b

abbrev pub level_eq : Level → Level → Bool
level_eq a b = severity a == severity b

abbrev pub cpu : Bytes
cpu = codes "cpu"

abbrev pub temperature : Bytes
temperature = codes "temperature"

abbrev pub memory : Bytes
memory = codes "memory"

abbrev pub swap : Bytes
swap = codes "swap"

abbrev pub disk : Bytes
disk = codes "disk"

-- metric + "\x00" + resource
unfoldable pub state_key : Bytes → Bytes → Bytes
state_key metric resource = metric ++ 0 ∷ resource

unfoldable pub next_level : Level → Bool → Bool → Bool → Bool → Level
next_level ok crit_confirmed warn_confirmed below_crit_confirmed below_warn_confirmed =
    if crit_confirmed then crit else if warn_confirmed then warn else ok
next_level warn crit_confirmed warn_confirmed below_crit_confirmed below_warn_confirmed =
    if crit_confirmed then crit else if below_warn_confirmed then ok else warn
next_level crit crit_confirmed warn_confirmed below_crit_confirmed below_warn_confirmed =
    if below_crit_confirmed then (if below_warn_confirmed then ok else warn) else crit

-- Whether a boundary has been on its side for the debounce window.
unfoldable pub held : ℤ → ℤ → ℤ → Bool
held for_dur now since = leb_ℤ for_dur (now -ℤ since)

module _ {V : Type 0} where
  unfoldable pub new : Thresholds V → ℤ → Engine V
  new thresholds for_dur = record {
    thresholds = thresholds;
    for_dur = for_dur;
    max_events = default_max_events;
    states = [];
    events = [];
  }

  unfoldable pub update_threshold_state : MetricState V → Bool → Bool → ℤ → MetricState V
  update_threshold_state st above_warn above_crit now =
      let warn_crossed = not st.initialized || differs st.warn_above above_warn in
      let crit_crossed = not st.initialized || differs st.crit_above above_crit in
      record st {
        warn_above = if warn_crossed then above_warn else st.warn_above;
        warn_since = if warn_crossed then now else st.warn_since;
        crit_above = if crit_crossed then above_crit else st.crit_above;
        crit_since = if crit_crossed then now else st.crit_since;
        initialized = true;
      }

  unfoldable pub record_event :
      Engine V → MetricState V → Level → Level → V → ℤ → Engine V × Event V
  record_event e st from to value now =
      let ev : Event V = record {
        metric = st.metric;
        resource = st.resource;
        kind = if ltb (severity to) (severity from) then cleared else fired;
        from = from;
        to = to;
        value = value;
        at = now;
      } in
      let events = e.events ++ ev ∷ [] in
      (
        record e {
          events =
              if ltb e.max_events (length events)
              then drop (length events - e.max_events) events
              else events;
        },
        ev,
      )

  -- The level that the boundaries' clocks confirm, for a state that has seen the sample.
  unfoldable pub confirmed_level : ℤ → MetricState V → ℤ → Level
  unfolding next_level held
  confirmed_level for_dur st now =
      next_level st.active (st.crit_above && held for_dur now st.crit_since)
        (st.warn_above && held for_dur now st.warn_since)
        (not st.crit_above && held for_dur now st.crit_since)
        (not st.warn_above && held for_dur now st.warn_since)

  -- What `nextLevel` confirms becomes the active level.
  unfoldable pub settle : ℤ → MetricState V → ℤ → MetricState V
  unfolding confirmed_level
  settle for_dur st now =
      let next = confirmed_level for_dur st now in
      if level_eq next st.active then st else record st { active = next; active_since = now }

module _ {V : Type 0} ⦃f : Float V⦄ where
  -- The state that a metric's first sample finds; the fields that the code leaves out are zero.
  abbrev pub fresh_state : Bytes → Bytes → ℤ → MetricState V
  fresh_state metric resource now = record {
    metric = metric;
    resource = resource;
    active = ok;
    active_since = now;
    last_value = f.zero;
    warn_above = false;
    warn_since = zero_time;
    crit_above = false;
    crit_since = zero_time;
    initialized = false;
  }

  unfoldable pub state_or_fresh : Option (MetricState V) → Bytes → Bytes → ℤ → MetricState V
  state_or_fresh none metric resource now = fresh_state metric resource now
  state_or_fresh (some st) metric resource now = st

  -- The metric's state when its level is decided: the value noted, the boundaries' clocks set.
  unfoldable pub observe : MetricState V → V → V → V → ℤ → MetricState V
  unfolding update_threshold_state
  observe st value warn_at crit_at now =
      update_threshold_state (record st { last_value = value }) (f.geb value warn_at)
        (f.geb value crit_at) now

  unfoldable pub eval_metric :
      Engine V → Bytes → Bytes → V → V → V → ℤ → Engine V × Option (Event V)
  unfolding state_or_fresh observe settle record_event
  eval_metric e metric resource value warn_at crit_at now =
      let key = state_key metric resource in
      let found = state_or_fresh (lookup key e.states) metric resource now in
      let seen = observe found value warn_at crit_at now in
      let st = settle e.for_dur seen now in
      let stored : Engine V = record e { states = insert key st e.states } in
      if level_eq st.active seen.active
      then (stored, none)
      else let (e', ev) = record_event stored st seen.active st.active value now in (e', some ev)
