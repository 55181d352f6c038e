-- ===== src/Alert/Prune.antt =====
-- `pruneDisks`: which disk states go, which stay, and which events that emits.
use mathlib.Core.Bool.{and-false}
use pi_monitor.Prelude.{
  ◌≡◌, refl, sym, ap, ◌∙◌, inl, inr, Bool, true, false, not, ◌||◌, ◌&&◌, List, [], ◌∷◌, ◌++◌,
  Option, none, some, arith, ltb, append_assoc, append-nil, Bool-cases, if◌then◌else◌,
}
use pi_monitor.Prelude.Int.{ℤ}
use pi_monitor.Prelude.Bytes.{Bytes, str_eq, str_eq_sound}
use pi_monitor.Prelude.Maps.{lookup, delete, lookup-delete, DistinctKeys}
use pi_monitor.Alert.Types.{Level, ok, cleared, Event, MetricState, Engine}
use pi_monitor.Alert.Defs.{level_eq, disk, severity}
use pi_monitor.Alert.Evaluate.{contains, prune_entry, prune_from, prune_disks}

if_same : {A : Type 0} (b : Bool) (x : A) → (if b then x else x) ≡ x
if_same true x = refl
if_same false x = refl

alerting : (l : Level) → level_eq l ok ≡ false → ltb 0 (severity l) ≡ true
alerting l h = ground arith

module _ {V : Type 0} where
  -- A disk state whose mountpoint is gone.
  abbrev pub is_stale : List Bytes → MetricState V → Bool
  is_stale present st = str_eq st.metric disk && not (contains present st.resource)

  abbrev pub keep_present : List Bytes → Option (MetricState V) → Option (MetricState V)
  keep_present present none = none
  keep_present present (some st) = if is_stale present st then none else some st

  -- The events owed to the entries: a cleared event for each stale one that was alerting.
  abbrev pub cleared_events : List Bytes → ℤ → List (Bytes × MetricState V) → List (Event V)
  cleared_events present now [] = []
  cleared_events present now ((key, st) ∷ rest) =
      if is_stale present st && not (level_eq st.active ok)
      then record {
        metric = st.metric;
        resource = st.resource;
        kind = cleared;
        from = st.active;
        to = ok;
        value = st.last_value;
        at = now;
      }
        ∷ cleared_events present now rest
      else cleared_events present now rest

  -- One round: the entry goes if it is stale, and its event is emitted if it was alerting.
  pub prune_entry_lem :
      (present : List Bytes) (now : ℤ) (key : Bytes) (st : MetricState V) (e : Engine V)
      (out : List (Event V))
      → ((prune_entry present now key st (e, out)).0.states
          ≡ (if is_stale present st then delete key e.states else e.states))
        × ((prune_entry present now key st (e, out)).1
            ≡ out ++ cleared_events present now ((key, st) ∷ []))
  unfolding prune_entry
  prune_entry_lem present now key st e out = elim (Bool-cases (str_eq st.metric disk)) [
    | inl d ↦ elim (Bool-cases (contains present st.resource)) [
      | inl c ↦ rw (d, c) (refl, sym (append-nil out))
      | inr c ↦ elim (Bool-cases (level_eq st.active ok)) [
        | inl l ↦ rw (d, c, l) (refl, sym (append-nil out))
        | inr l ↦ rw (d, c, l, alerting st.active l) (refl, refl)
      ]
    ]
    | inr d ↦ rw d (refl, sym (append-nil out))
  ]

  cleared_events-cons :
      (present : List Bytes) (now : ℤ) (key : Bytes) (st : MetricState V)
      (rest : List (Bytes × MetricState V))
      → cleared_events present now ((key, st) ∷ []) ++ cleared_events present now rest
        ≡ cleared_events present now ((key, st) ∷ rest)
  cleared_events-cons present now key st rest =
      elim (Bool-cases (is_stale present st && not (level_eq st.active ok))) [
        | inl e ↦ rw e refl
        | inr e ↦ rw e refl
      ]

  -- Whether the loop removes the key.
  abbrev goes : List Bytes → Bytes → List (Bytes × MetricState V) → Bool
  goes present k [] = false
  goes present k ((key, st) ∷ rest) = is_stale present st && str_eq key k || goes present k rest

  lookup-prune_entry :
      (present : List Bytes) (now : ℤ) (k key : Bytes) (st : MetricState V)
      (p : Engine V × List (Event V))
      → lookup k (prune_entry present now key st p).0.states
        ≡ (if is_stale present st && str_eq key k then none else lookup k p.0.states)
  lookup-prune_entry present now k key st (e, out) =
      rw ((prune_entry_lem present now key st e out).0) (elim (Bool-cases (is_stale present st)) [
        | inl stale ↦ rw stale (lookup-delete key k e.states)
        | inr fresh ↦ rw fresh refl
      ])

  lookup-prune_from :
      (present : List Bytes) (now : ℤ) (k : Bytes) (entries : List (Bytes × MetricState V))
      (p : Engine V × List (Event V))
      → lookup k (prune_from entries present now p).0.states
        ≡ (if goes present k entries then none else lookup k p.0.states)
  unfolding prune_from
  lookup-prune_from present now k [] p = refl
  lookup-prune_from present now k ((key, st) ∷ rest) p =
      lookup-prune_from present now k rest (prune_entry present now key st p)
      ∙ rw (lookup-prune_entry present now k key st p)
          (elim (Bool-cases (is_stale present st && str_eq key k)) [
            | inl e ↦ rw e (if_same (goes present k rest) none)
            | inr e ↦ rw e refl
          ])

  events-prune_from :
      (present : List Bytes) (now : ℤ) (entries : List (Bytes × MetricState V)) (e : Engine V)
      (out : List (Event V))
      → (prune_from entries present now (e, out)).1 ≡ out ++ cleared_events present now entries
  unfolding prune_from
  events-prune_from present now [] e out = sym (append-nil out)
  events-prune_from present now ((key, st) ∷ rest) e out =
      let p = prune_entry present now key st (e, out) in
      events-prune_from present now rest (p.0) (p.1)
      ∙ rw ((prune_entry_lem present now key st e out).1, append_assoc)
          (ap (◌++◌ out) (cleared_events-cons present now key st rest))

  goes-absent :
      (present : List Bytes) (k : Bytes) (m : List (Bytes × MetricState V))
      → lookup k m ≡ none
      → goes present k m ≡ false
  unfolding lookup
  goes-absent present k [] h = refl
  goes-absent present k ((key, st) ∷ m) h = elim (Bool-cases (str_eq key k)) [
    | inl e ↦ cc (rw e at h)
    | inr e ↦ rw (e, and-false) (goes-absent present k m (rw e at h))
  ]

  -- With distinct keys, what goes is what is found stale.
  goes-lookup :
      (present : List Bytes) (k : Bytes) (m : List (Bytes × MetricState V))
      → DistinctKeys m
      → (if goes present k m then none else lookup k m) ≡ keep_present present (lookup k m)
  unfolding lookup
  goes-lookup present k [] d = refl
  goes-lookup present k ((key, st) ∷ m) d = elim (Bool-cases (str_eq key k)) [
    | inl e ↦
        rw (e, goes-absent present k m (rw (← str_eq_sound key k e) (d.0)))
          (elim (Bool-cases (is_stale present st)) [ inl stale ↦ rw stale | inr fresh ↦ rw fresh ])
    | inr e ↦ rw (e, and-false) (goes-lookup present k m (d.1))
  ]

  -- After `pruneDisks` a key holds what it held, unless that was the state of a filesystem that is
  -- not present: then it holds nothing. The events emitted are a cleared event, from the state's
  -- level at the given time, for each such state that was alerting, in the order of the loop.
  pub prune_disks_lem :
      (e : Engine V) (present : List Bytes) (now : ℤ) (k : Bytes)
      → DistinctKeys e.states
      → let (e', emitted) = prune_disks e present now in
        (lookup k e'.states ≡ keep_present present (lookup k e.states))
        × (emitted ≡ cleared_events present now e.states)
  unfolding prune_disks
  prune_disks_lem e present now k d = (
    lookup-prune_from present now k e.states (e, []) ∙ goes-lookup present k e.states d,
    events-prune_from present now e.states e [],
  )
