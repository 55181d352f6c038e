-- ===== src/Alert/Evaluate.antt =====
-- internal/alert/alert.go: `Evaluate` over a whole sample, `pruneDisks`, and `Report`.
use pi_monitor.Prelude.{
  Bool, true, false, not, ◌||◌, List, [], ◌∷◌, ◌++◌, Option, none, some, map, if◌then◌else◌,
}
use pi_monitor.Prelude.Int.{ℤ}
use pi_monitor.Prelude.Bytes.{Bytes, str_eq, str_lt}
use pi_monitor.Prelude.Maps.{delete}
use pi_monitor.Prelude.Sort.{sort}
use pi_monitor.Prelude.Float.{Float}
use pi_monitor.Alert.Types.{ok, DiskSample, Sample, State, Event, Report, MetricState, Engine}
use pi_monitor.Alert.Defs.{
  cpu, temperature, memory, swap, disk, level_eq, record_event, eval_metric,
}

unfoldable pub contains : List Bytes → Bytes → Bool
contains [] s = false
contains (x ∷ xs) s = str_eq x s || contains xs s

module _ {V : Type 0} where
  -- The closure `record` of `Evaluate`: an event that is there joins those emitted.
  unfoldable pub record_emitted :
      List (Event V) → Engine V × Option (Event V) → Engine V × List (Event V)
  record_emitted out (e, none) = (e, out)
  record_emitted out (e, some ev) = (e, out ++ ev ∷ [])

  -- One round of the loop of `pruneDisks`, at the entry `key`, `st`.
  unfoldable pub prune_entry :
      List Bytes → ℤ → Bytes → MetricState V → Engine V × List (Event V) → Engine V × List (Event V)
  unfolding contains record_event delete
  prune_entry present now key st (e, out) =
      if not (str_eq st.metric disk) || contains present st.resource
      then (e, out)
      else if level_eq st.active ok
      then (record e { states = delete key e.states }, out)
      else let (e', ev) = record_event e st st.active ok st.last_value now in
        (record e' { states = delete key e'.states }, out ++ ev ∷ [])

  unfoldable pub prune_from :
      List (Bytes × MetricState V)
      → List Bytes
      → ℤ
      → Engine V × List (Event V)
      → Engine V × List (Event V)
  unfolding prune_entry
  prune_from [] present now p = p
  prune_from ((key, st) ∷ rest) present now p =
      prune_from rest present now (prune_entry present now key st p)

  -- The loop ranges over the map as it stands when it begins; it deletes visited entries only.
  unfoldable pub prune_disks : Engine V → List Bytes → ℤ → Engine V × List (Event V)
  unfolding prune_from
  prune_disks e present now = prune_from e.states present now (e, [])

  -- The order of the report: by metric, then by resource.
  unfoldable pub report_lt : State V → State V → Bool
  report_lt a b =
      if not (str_eq a.metric b.metric)
      then str_lt a.metric b.metric
      else str_lt a.resource b.resource

  abbrev pub to_state : Bytes × MetricState V → State V
  to_state (key, st) = record {
    metric = st.metric;
    resource = st.resource;
    level = st.active;
    value = st.last_value;
    since = st.active_since;
  }

  unfoldable pub report : Engine V → Report V
  unfolding report_lt
  report e = record {
    enabled = true;
    states = sort report_lt (map to_state e.states);
    events = e.events;
  }

module _ {V : Type 0} ⦃f : Float V⦄ where
  -- A metric of the sample: skipped where its collection failed.
  unfoldable pub eval_valid :
      Bool → Bytes → V → V → V → ℤ → Engine V × List (Event V) → Engine V × List (Event V)
  unfolding record_emitted
  eval_valid valid metric value warn_at crit_at now (e, out) =
      if valid
      then record_emitted out (eval_metric e metric [] value warn_at crit_at now)
      else (e, out)

  -- The loop over the sample's filesystems.
  unfoldable pub eval_disks :
      List (DiskSample V) → ℤ → Engine V × List (Event V) → Engine V × List (Event V)
  unfolding record_emitted
  eval_disks [] now p = p
  eval_disks (d ∷ ds) now (e, out) =
      let t = e.thresholds in
      eval_disks ds now (
        record_emitted out (
          eval_metric e disk d.mountpoint d.used_percent t.disk_warn_percent t.disk_crit_percent
            now))

  abbrev pub mountpoints : List (DiskSample V) → List Bytes
  mountpoints = map λ d. d.mountpoint

  unfoldable pub eval_scalars : Engine V → Sample V → Engine V × List (Event V)
  unfolding eval_valid
  eval_scalars e s =
      let t = e.thresholds in
      let p =
        eval_valid s.cpu_valid cpu s.cpu_percent t.cpu_warn_percent t.cpu_crit_percent s.timestamp
          (e, []) in
      let q =
        eval_valid s.temperature_valid temperature s.temperature_c t.temperature_warn_c
          t.temperature_crit_c s.timestamp p in
      let r =
        eval_valid s.memory_valid memory s.memory_percent t.memory_warn_percent
          t.memory_crit_percent s.timestamp q in
      eval_valid s.swap_valid swap s.swap_percent t.swap_warn_percent t.swap_crit_percent
        s.timestamp r

  unfoldable pub eval_mounts : Sample V → Engine V × List (Event V) → Engine V × List (Event V)
  unfolding eval_disks prune_disks
  eval_mounts s p =
      if s.disks_valid
      then (let (e, out) = eval_disks s.disks s.timestamp p in
          let (e', pruned) = prune_disks e (mountpoints s.disks) s.timestamp in (e', out ++ pruned))
      else p

  unfoldable pub evaluate : Engine V → Sample V → Engine V × List (Event V)
  unfolding eval_scalars eval_mounts
  evaluate e s = eval_mounts s (eval_scalars e s)
