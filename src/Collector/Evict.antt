-- ===== src/Collector/Evict.antt =====
-- internal/collector/collector.go: which devices keep a series, and what a tick adds to the history.
use pi_monitor.Prelude.{
  ◌+◌, ◌%◌, ◌≡◌, refl, ap, ◌∙◌, Bool, true, false, not, ◌||◌, inl, inr, List, [], ◌∷◌, ◌++◌, Option,
  none, some, last_n, get_last?, if◌then◌else◌, Bool-cases, arith,
}
use pi_monitor.Prelude.Int.{ℤ, pos, ltb_ℤ, leb_ℤ, ◌+ℤ◌, ◌-ℤ◌, +ℤ_parts, -ℤ_parts}
use pi_monitor.Prelude.Bytes.{Bytes, str_eq, str_eq_sound}
use pi_monitor.Prelude.Maps.{lookup, DistinctKeys}
use pi_monitor.Prelude.Float.{Float}
use pi_monitor.Persist.Types.{HistoryPoint}
use pi_monitor.Ring.{snapshot, newest}
use pi_monitor.Ring.Newest.{newest-snapshot}
use pi_monitor.Alert.Evaluate.{contains}
use pi_monitor.Ring.Inv.{IsValid, add-IsValid}
use pi_monitor.Ring.Refine.{add_all, snapshot-add_all}
use pi_monitor.Collector.Store.{Ring, Collector, no_point, history}
use pi_monitor.Collector.Record.{
  TickSamples, is_stale, evict_from, evict_stale_series, record_device_history, record_tick, point,
}

within_window : (now window t : ℤ) → not (ltb_ℤ window (now -ℤ t)) ≡ leb_ℤ now (t +ℤ window)
within_window now window t = ground (arith, -ℤ_parts now t, +ℤ_parts t window)

module _ {V : Type 0} where
  -- The entry that is left of a device: none where it is absent and stale.
  abbrev kept : List Bytes → ℤ → ℤ → Bytes → Option (Ring V) → Option (Ring V)
  kept current now window key none = none
  kept current now window key (some rb) =
      if contains current key || not (is_stale now window rb) then some rb else none

  evict_from-absent :
      (key : Bytes) (current : List Bytes) (now window : ℤ) (hist : List (Bytes × Ring V))
      → lookup key hist ≡ none
      → lookup key (evict_from current now window hist) ≡ none
  unfolding evict_from lookup
  evict_from-absent key current now window [] h = refl
  evict_from-absent key current now window ((j, rb) ∷ hist) h = elim (Bool-cases (str_eq j key)) [
    | inl e ↦ absurd (cc (rw e at h))
    | inr e ↦ elim (Bool-cases (contains current j || not (is_stale now window rb))) [
      | inl k ↦ rw (k, e) (evict_from-absent key current now window hist (rw e at h))
      | inr k ↦ rw k (evict_from-absent key current now window hist (rw e at h))
    ]
  ]

  lookup-evict_from :
      (key : Bytes) (current : List Bytes) (now window : ℤ) (hist : List (Bytes × Ring V))
      → DistinctKeys hist
      → lookup key (evict_from current now window hist)
        ≡ kept current now window key (lookup key hist)
  unfolding evict_from lookup
  lookup-evict_from key current now window [] d = refl
  lookup-evict_from key current now window ((j, rb) ∷ hist) d = elim (Bool-cases (str_eq j key)) [
    | inr e ↦ rw e (elim (Bool-cases (contains current j || not (is_stale now window rb))) [
      | inl k ↦ rw (k, e) (lookup-evict_from key current now window hist (d.1))
      | inr k ↦ rw k (lookup-evict_from key current now window hist (d.1))
    ])
    | inl e ↦
        let same = str_eq_sound j key e in
        rw e (elim (Bool-cases (contains current j || not (is_stale now window rb))) [
          | inl k ↦ rw (k, e) (rw (← same, k))
          | inr k ↦ rw k (rw (← same, k) (evict_from-absent j current now window hist (d.0)))
        ])
  ]

  -- Whether the newest of some samples is from within the window; there may be none.
  abbrev pub fresh : ℤ → ℤ → Option (HistoryPoint V) → Bool
  fresh now window none = false
  fresh now window (some p) = leb_ℤ now (p.timestamp +ℤ window)

  -- What eviction has to leave of a series: all of it where its device is there, or where its newest
  -- sample is from within the window, and nothing otherwise; `z` fills the unused places of a buffer.
  abbrev pub survivor :
      HistoryPoint V → List Bytes → ℤ → ℤ → Bytes → Option (Ring V) → Option (Ring V)
  survivor z current now window key none = none
  survivor z current now window key (some rb) =
      if contains current key || fresh now window (get_last? (snapshot z rb)) then some rb else none

  is_stale-fresh :
      (z : HistoryPoint V) (now window : ℤ) (rb : Ring V)
      → IsValid rb
      → not (is_stale now window rb) ≡ fresh now window (get_last? (snapshot z rb))
  unfolding is_stale
  is_stale-fresh z now window rb v = rw (← newest-snapshot z v) (by_newest (newest rb))
    where
      by_newest :
          (o : Option (HistoryPoint V))
          → not (elim o [ none ↦ true | some p ↦ ltb_ℤ window (now -ℤ p.timestamp) ])
            ≡ fresh now window o
      by_newest none = refl
      by_newest (some p) = within_window now window p.timestamp

  kept-survivor :
      (z : HistoryPoint V) (current : List Bytes) (now window : ℤ) (key : Bytes)
      (o : Option (Ring V))
      → ((rb : Ring V) → o ≡ some rb → IsValid rb)
      → kept current now window key o ≡ survivor z current now window key o
  kept-survivor z current now window key none v = refl
  kept-survivor z current now window key (some rb) v =
      ap (λ b. if contains current key || b then some rb else none)
        (is_stale-fresh z now window rb (v rb refl))

  -- With a positive window, eviction leaves of each series all where its device is among those of the
  -- tick, or where its newest sample is no older than the window, and nothing otherwise, nor where it
  -- has no sample. Without a window every series stays. The keys of the map are distinct, and the
  -- buffer is valid.
  pub lookup-evict_stale_series :
      (z : HistoryPoint V) (hist : List (Bytes × Ring V)) (current : List Bytes) (now window : ℤ)
      (key : Bytes)
      → DistinctKeys hist
      → ((rb : Ring V) → lookup key hist ≡ some rb → IsValid rb)
      → lookup key (evict_stale_series hist current now window) ≡ (
          if ltb_ℤ (pos 0) window
          then survivor z current now window key (lookup key hist)
          else lookup key hist)
  unfolding evict_stale_series
  lookup-evict_stale_series z hist current now window key d v =
      elim (Bool-cases (leb_ℤ window (pos 0))) [
        | inl e ↦
            let closed : ltb_ℤ (pos 0) window ≡ false = ground arith in
            rw (evict_stale_series, e, closed) refl
        | inr e ↦
            let given : ltb_ℤ (pos 0) window ≡ true = ground arith in
            rw (evict_stale_series, e, given)
              (lookup-evict_from key current now window hist d
                ∙ kept-survivor z current now window key (lookup key hist) v)
      ]

module _ {V : Type 0} ⦃f : Float V⦄ where
  -- The buffers of the whole host are valid.
  abbrev pub ScalarsValid : Collector V → Type 0
  ScalarsValid c =
      IsValid c.cpu_hist
      × IsValid c.l1_hist
      × IsValid c.l5_hist
      × IsValid c.l15_hist
      × IsValid c.temp_hist
      × IsValid c.mem_hist
      × IsValid c.swap_hist

  -- Each series of the second history is that of the first with the tick's reading appended, less
  -- what exceeds the capacity of its buffer.
  abbrev pub Appended : Collector V → TickSamples V → Collector V → Type 0
  Appended c s c' =
      ((history c').cpu_percent
        ≡ last_n c.cpu_hist.capacity ((history c).cpu_percent ++ point s s.overall_percent ∷ []))
      × ((history c').load1 ≡ last_n c.l1_hist.capacity ((history c).load1 ++ point s s.load1 ∷ []))
      × ((history c').load5 ≡ last_n c.l5_hist.capacity ((history c).load5 ++ point s s.load5 ∷ []))
      × ((history c').load15
          ≡ last_n c.l15_hist.capacity ((history c).load15 ++ point s s.load15 ∷ []))
      × ((history c').temperature
          ≡ last_n c.temp_hist.capacity ((history c).temperature ++ point s s.celsius ∷ []))
      × ((history c').memory_used_percent
          ≡ last_n c.mem_hist.capacity
              ((history c).memory_used_percent ++ point s s.mem_used_percent ∷ []))
      × ((history c').swap_used_percent
          ≡ last_n c.swap_hist.capacity
              ((history c).swap_used_percent ++ point s s.swap_used_percent ∷ []))

  -- A tick appends its reading to every series of the whole host, each of which keeps its newest
  -- samples up to the capacity of its buffer; valid buffers stay valid, and the generation moves on.
  pub history-record_tick :
      (c : Collector V) (s : TickSamples V)
      → ScalarsValid c
      → Appended c s (record_tick c s)
        × ScalarsValid (record_tick c s)
        × ((record_tick c s).history_gen ≡ (c.history_gen + 1) % 18446744073709551616)
  unfolding history record_tick record_device_history add_all
  history-record_tick c s h = (
    (
      snapshot-add_all no_point (point s s.overall_percent ∷ []) (h.0),
      snapshot-add_all no_point (point s s.load1 ∷ []) (h.1),
      snapshot-add_all no_point (point s s.load5 ∷ []) (h.2),
      snapshot-add_all no_point (point s s.load15 ∷ []) (h.3),
      snapshot-add_all no_point (point s s.celsius ∷ []) (h.4),
      snapshot-add_all no_point (point s s.mem_used_percent ∷ []) (h.5),
      snapshot-add_all no_point (point s s.swap_used_percent ∷ []) (h.6),
    ),
    (
      add-IsValid (point s s.overall_percent) (h.0),
      add-IsValid (point s s.load1) (h.1),
      add-IsValid (point s s.load5) (h.2),
      add-IsValid (point s s.load15) (h.3),
      add-IsValid (point s s.celsius) (h.4),
      add-IsValid (point s s.mem_used_percent) (h.5),
      add-IsValid (point s s.swap_used_percent) (h.6),
    ),
    refl,
  )
