-- ===== src/Alert/Keys.antt =====
-- The keys of the alert engine's states through `Evaluate`: each stands once, and after a sample
-- with a disk list only filesystems of that list have a disk state.
use pi_monitor.Prelude.{
  some_inj, sym, ◌≡◌, ◌∙◌, inl, inr, Bool, true, false, List, [], ◌∷◌, Option, none, some,
  Bool-cases,
}
use pi_monitor.Prelude.Int.{ℤ}
use pi_monitor.Prelude.Bytes.{Bytes}
use pi_monitor.Prelude.Maps.{lookup, DistinctKeys, insert-DistinctKeys, delete-DistinctKeys}
use pi_monitor.Prelude.Float.{Float}
use pi_monitor.Alert.Types.{DiskSample, Sample, Event, MetricState, Engine}
use pi_monitor.Alert.Defs.{state_key, state_or_fresh, observe, settle, level_eq, eval_metric, disk}
use pi_monitor.Alert.Evaluate.{
  mountpoints, record_emitted, prune_entry, prune_from, prune_disks, eval_valid, eval_disks,
  eval_scalars, eval_mounts, evaluate,
}
use pi_monitor.Alert.Prune.{is_stale, keep_present, prune_entry_lem, prune_disks_lem}

module _ {V : Type 0} ⦃f : Float V⦄ where
  abbrev Keyed : Engine V × List (Event V) → Type 0
  Keyed p = DistinctKeys p.0.states

  eval_metric-Keyed :
      (e : Engine V) (out : List (Event V)) (metric resource : Bytes) (value warn_at crit_at : V)
      (now : ℤ)
      → DistinctKeys e.states
      → Keyed (record_emitted out (eval_metric e metric resource value warn_at crit_at now))
  unfolding eval_metric record_emitted
  eval_metric-Keyed e out metric resource value warn_at crit_at now h =
      let key = state_key metric resource in
      let before =
        observe (state_or_fresh (lookup key e.states) metric resource now) value warn_at crit_at
          now in
      let st = settle e.for_dur before now in
      elim (Bool-cases (level_eq st.active before.active)) [
        | inl same ↦ rw same (insert-DistinctKeys key st e.states h)
        | inr moved ↦ rw moved (insert-DistinctKeys key st e.states h)
      ]

  eval_valid-Keyed :
      (valid : Bool) (metric : Bytes) (value warn_at crit_at : V) (now : ℤ)
      (p : Engine V × List (Event V))
      → Keyed p
      → Keyed (eval_valid valid metric value warn_at crit_at now p)
  unfolding eval_valid
  eval_valid-Keyed true metric value warn_at crit_at now (e, out) h =
      eval_metric-Keyed e out metric [] value warn_at crit_at now h
  eval_valid-Keyed false metric value warn_at crit_at now (e, out) h = h

  eval_disks-Keyed :
      (disks : List (DiskSample V)) (now : ℤ) (p : Engine V × List (Event V))
      → Keyed p
      → Keyed (eval_disks disks now p)
  unfolding eval_disks
  eval_disks-Keyed [] now p h = h
  eval_disks-Keyed (d ∷ ds) now (e, out) h =
      eval_disks-Keyed ds now _ (eval_metric-Keyed e out disk d.mountpoint d.used_percent _ _ now h)

  prune_entry-Keyed :
      (present : List Bytes) (now : ℤ) (key : Bytes) (st : MetricState V)
      (p : Engine V × List (Event V))
      → Keyed p
      → Keyed (prune_entry present now key st p)
  prune_entry-Keyed present now key st (e, out) h =
      rw ((prune_entry_lem present now key st e out).0) (elim (Bool-cases (is_stale present st)) [
        | inl stale ↦ rw stale (delete-DistinctKeys key e.states h)
        | inr fresh ↦ rw fresh h
      ])

  prune_from-Keyed :
      (entries : List (Bytes × MetricState V)) (present : List Bytes) (now : ℤ)
      (p : Engine V × List (Event V))
      → Keyed p
      → Keyed (prune_from entries present now p)
  unfolding prune_from
  prune_from-Keyed [] present now p h = h
  prune_from-Keyed ((key, st) ∷ rest) present now p h =
      prune_from-Keyed rest present now _ (prune_entry-Keyed present now key st p h)

  eval_scalars-Keyed :
      (e : Engine V) (s : Sample V) → DistinctKeys e.states → Keyed (eval_scalars e s)
  unfolding eval_scalars
  eval_scalars-Keyed e s h = eval_valid-Keyed s.swap_valid _ _ _ _ _ _ (
      eval_valid-Keyed s.memory_valid _ _ _ _ _ _ (
        eval_valid-Keyed s.temperature_valid _ _ _ _ _ _
          (eval_valid-Keyed s.cpu_valid _ _ _ _ _ _ h)))

  pub evaluate-DistinctKeys :
      (e : Engine V) (s : Sample V) → DistinctKeys e.states → DistinctKeys (evaluate e s).0.states
  unfolding evaluate eval_mounts prune_disks
  evaluate-DistinctKeys e s h = elim (Bool-cases s.disks_valid) [
    | inl valid ↦
        let q = eval_disks s.disks s.timestamp (eval_scalars e s) in
        rw valid (
          prune_from-Keyed q.0.states (mountpoints s.disks) s.timestamp (q.0, [])
            (eval_disks-Keyed s.disks s.timestamp (eval_scalars e s) (eval_scalars-Keyed e s h)))
    | inr invalid ↦ rw invalid (eval_scalars-Keyed e s h)
  ]

  kept-fresh :
      (present : List Bytes) (o : Option (MetricState V)) (st : MetricState V)
      → keep_present present o ≡ some st
      → is_stale present st ≡ false
  kept-fresh present none st h = cc
  kept-fresh present (some st') st h = elim (Bool-cases (is_stale present st')) [
    | inl stale ↦ cc (rw stale at h)
    | inr fresh ↦ rw (← some_inj (rw fresh at h)) fresh
  ]

  -- After a sample whose disk list is valid, every disk state belongs to a filesystem of the list.
  pub evaluate-fresh :
      (e : Engine V) (s : Sample V) (k : Bytes) (st : MetricState V)
      → DistinctKeys e.states
      → s.disks_valid ≡ true
      → lookup k (evaluate e s).0.states ≡ some st
      → is_stale (mountpoints s.disks) st ≡ false
  unfolding evaluate eval_mounts
  evaluate-fresh e s k st h valid found =
      let q = eval_disks s.disks s.timestamp (eval_scalars e s) in
      let keyed : Keyed q = eval_disks-Keyed s.disks s.timestamp _ (eval_scalars-Keyed e s h) in
      kept-fresh (mountpoints s.disks) (lookup k q.0.states) st (
        sym ((prune_disks_lem (q.0) (mountpoints s.disks) s.timestamp k keyed).0)
        ∙ (rw valid at found))
