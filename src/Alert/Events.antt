-- ===== src/Alert/Events.antt =====
-- The rolling event history: the newest `max_events` of all the events that were ever emitted.
use pi_monitor.Prelude.{
  ◌-◌, ◌≤◌, ◌≡◌, refl, sym, ap, ◌∙◌, inl, inr, Bool, true, false, List, [], ◌∷◌, ◌++◌, arith,
  append_assoc, append-nil, length, Bool-cases, last_n, last_n-append, drop_none, trim_lem,
  length-last_n, not, ◌||◌,
}
use pi_monitor.Prelude.Int.{ℤ}
use pi_monitor.Prelude.Bytes.{Bytes, str_eq}
use pi_monitor.Prelude.Maps.{lookup, insert}
use pi_monitor.Prelude.Float.{Float}
use pi_monitor.Alert.Types.{Level, ok, DiskSample, Sample, Event, MetricState, Engine}
use pi_monitor.Alert.Defs.{
  record_event, eval_metric, level_eq, disk, state_key, state_or_fresh, observe, settle,
}
use pi_monitor.Alert.Evaluate.{
  mountpoints, contains, record_emitted, prune_entry, prune_from, prune_disks, eval_valid,
  eval_disks, eval_scalars, eval_mounts, evaluate,
}

module _ {V : Type 0} where
  -- `out` is what was emitted since `start`; the window holds the newest events up to now.
  record Logged (start : Engine V) (p : Engine V × List (Event V)) : Type 0 where
    window : p.0.events ≡ last_n start.max_events (start.events ++ p.1)
    same_limit : p.0.max_events ≡ start.max_events

  Logged-same :
      {start : Engine V} (e e' : Engine V) (out : List (Event V))
      → e'.events ≡ e.events
      → e'.max_events ≡ e.max_events
      → Logged start (e, out)
      → Logged start (e', out)
  Logged-same e e' out p q h = record { window = p ∙ h.window; same_limit = q ∙ h.same_limit }

  Logged-refl : (e : Engine V) → length e.events ≤ e.max_events → Logged e (e, [])
  Logged-refl e h = record {
    window =
        sym (rw append-nil (drop_none (length e.events - e.max_events) e.events (omega arith)));
    same_limit = refl;
  }

  Logged-bounded :
      (start : Engine V) (p : Engine V × List (Event V))
      → Logged start p
      → length p.0.events ≤ p.0.max_events
  Logged-bounded start (e, out) h =
      rw (h.window, h.same_limit) (length-last_n start.max_events (start.events ++ out))

  Logged-trans :
      (start : Engine V) (p q : Engine V × List (Event V))
      → Logged start p
      → Logged (p.0) q
      → Logged start (q.0, p.1 ++ q.1)
  Logged-trans start (e, out) (e', more) h k = record {
    window =
        k.window
        ∙ rw (h.same_limit, h.window, last_n-append)
            (ap (last_n start.max_events) (append_assoc start.events out more));
    same_limit = k.same_limit ∙ h.same_limit;
  }

  record_event-Logged :
      (start e : Engine V) (out : List (Event V)) (st : MetricState V) (from to : Level) (value : V)
      (now : ℤ)
      → Logged start (e, out)
      → let (e', ev) = record_event e st from to value now in Logged start (e', out ++ ev ∷ [])
  unfolding record_event
  record_event-Logged start e out st from to value now h = record {
    window =
        trim_lem e.max_events _
        ∙ rw (h.same_limit, h.window, last_n-append)
            (ap (last_n start.max_events) (append_assoc start.events out _));
    same_limit = h.same_limit;
  }

  prune_entry-Logged :
      (start : Engine V) (present : List Bytes) (now : ℤ) (key : Bytes) (st : MetricState V)
      (p : Engine V × List (Event V))
      → Logged start p
      → Logged start (prune_entry present now key st p)
  unfolding prune_entry
  prune_entry-Logged start present now key st (e, out) h =
      elim (Bool-cases (not (str_eq st.metric disk) || contains present st.resource)) [
        | inl kept ↦ rw kept h
        | inr stale ↦ elim (Bool-cases (level_eq st.active ok)) [
          | inl quiet ↦ rw (stale, quiet) (Logged-same e _ out refl refl h)
          | inr alerting ↦
              rw (stale, alerting)
                (let logged = record_event-Logged start e out st st.active ok st.last_value now h in
                  Logged-same _ _ _ refl refl logged)
        ]
      ]

  prune_from-Logged :
      (start : Engine V) (entries : List (Bytes × MetricState V)) (present : List Bytes) (now : ℤ)
      (p : Engine V × List (Event V))
      → Logged start p
      → Logged start (prune_from entries present now p)
  unfolding prune_from
  prune_from-Logged start [] present now p h = h
  prune_from-Logged start ((key, st) ∷ rest) present now p h =
      prune_from-Logged start rest present now _ (prune_entry-Logged start present now key st p h)

module _ {V : Type 0} ⦃f : Float V⦄ where
  eval_metric-Logged :
      (start e : Engine V) (out : List (Event V)) (metric resource : Bytes)
      (value warn_at crit_at : V) (now : ℤ)
      → Logged start (e, out)
      → Logged start (record_emitted out (eval_metric e metric resource value warn_at crit_at now))
  unfolding eval_metric record_emitted
  eval_metric-Logged start e out metric resource value warn_at crit_at now h =
      let key = state_key metric resource in
      let before =
        observe (state_or_fresh (lookup key e.states) metric resource now) value warn_at crit_at
          now in
      let st = settle e.for_dur before now in
      let stored : Engine V = record e { states = insert key st e.states } in
      elim (Bool-cases (level_eq st.active before.active)) [
        | inl same ↦ rw same (Logged-same e stored out refl refl h)
        | inr moved ↦ rw moved (
            record_event-Logged start stored out st before.active st.active value now
              (Logged-same e stored out refl refl h))
      ]

  eval_valid-Logged :
      (start : Engine V) (valid : Bool) (metric : Bytes) (value warn_at crit_at : V) (now : ℤ)
      (p : Engine V × List (Event V))
      → Logged start p
      → Logged start (eval_valid valid metric value warn_at crit_at now p)
  unfolding eval_valid
  eval_valid-Logged start true metric value warn_at crit_at now (e, out) h =
      eval_metric-Logged start e out metric [] value warn_at crit_at now h
  eval_valid-Logged start false metric value warn_at crit_at now (e, out) h = h

  eval_disks-Logged :
      (start : Engine V) (disks : List (DiskSample V)) (now : ℤ) (p : Engine V × List (Event V))
      → Logged start p
      → Logged start (eval_disks disks now p)
  unfolding eval_disks
  eval_disks-Logged start [] now p h = h
  eval_disks-Logged start (d ∷ ds) now (e, out) h =
      eval_disks-Logged start ds now _
        (eval_metric-Logged start e out disk d.mountpoint d.used_percent _ _ now h)

  eval_mounts-Logged :
      (start : Engine V) (s : Sample V) (p : Engine V × List (Event V))
      → Logged start p
      → Logged start (eval_mounts s p)
  unfolding eval_mounts prune_disks
  eval_mounts-Logged start s p h = elim (Bool-cases s.disks_valid) [
    | inl valid ↦
        let q = eval_disks s.disks s.timestamp p in
        let disks : Logged start q = eval_disks-Logged start s.disks s.timestamp p h in
        rw valid (
          Logged-trans start q _ disks (
            prune_from-Logged (q.0) q.0.states (mountpoints s.disks) s.timestamp (q.0, [])
              (Logged-refl (q.0) (Logged-bounded start q disks))))
    | inr invalid ↦ rw invalid h
  ]

  eval_scalars-Logged :
      (start : Engine V) (s : Sample V)
      → Logged start (start, [])
      → Logged start (eval_scalars start s)
  unfolding eval_scalars
  eval_scalars-Logged start s h = eval_valid-Logged start s.swap_valid _ _ _ _ _ _ (
      eval_valid-Logged start s.memory_valid _ _ _ _ _ _ (
        eval_valid-Logged start s.temperature_valid _ _ _ _ _ _
          (eval_valid-Logged start s.cpu_valid _ _ _ _ _ _ h)))

  -- From a history within its limit, `Evaluate` leaves exactly the newest `max_events` of the
  -- events kept before and those that it returns, in order; so the history stays within its limit.
  pub events-evaluate :
      (e : Engine V) (s : Sample V)
      → length e.events ≤ e.max_events
      → let (e', emitted) = evaluate e s in
        (e'.events ≡ last_n e.max_events (e.events ++ emitted))
        × (e'.max_events ≡ e.max_events)
        × (length e'.events ≤ e'.max_events)
  unfolding evaluate
  events-evaluate e s h =
      let logged =
        eval_mounts-Logged e s (eval_scalars e s) (eval_scalars-Logged e s (Logged-refl e h)) in
      (logged.window, logged.same_limit, Logged-bounded e _ logged)
