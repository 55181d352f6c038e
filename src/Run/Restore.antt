-- ===== src/Run/Restore.antt =====
-- internal/collector/persist.go: `loadHistory` after `persistHistory`.
use pi_monitor.Prelude.{
  ℕ, ◌/◌, ◌≤◌, ◌≡◌, refl, ap, ◌∙◌, Bool, true, inr, [], ◌∷◌, some, All, map, length, last_n,
  if◌then◌else◌, arith,
}
use pi_monitor.Prelude.Int.{
  ℤ, pos, negsuc, ltb_ℤ, leb_ℤ, ◌≤ℤ◌, ◌*ℤ◌, ◌+ℤ◌, zero_time, +ℤ_parts, -ℤ_parts,
}
use pi_monitor.Prelude.Bytes.{Bytes}
use pi_monitor.Prelude.Float.{Float}
use pi_monitor.Ring.{snapshot, fill}
use pi_monitor.Ring.Inv.{IsValid}
use pi_monitor.Ring.Refine.{snapshot-fill}
use pi_monitor.Persist.Types.{HistoryPoint, History, Series, history_series_list}
use pi_monitor.Persist.Encode.{FloatBits, encode_history}
use pi_monitor.Persist.Decode.{decode_history}
use pi_monitor.Persist.Series.{to_milli, truncate_point, SeriesFits}
use pi_monitor.Persist.Roundtrip.{decode_history-encode_history}
use pi_monitor.Collector.Store.{Ring, Collector, no_point, history}
use pi_monitor.Collector.Import.{not_before, import_cutoff, import_history, trim}
use pi_monitor.Collector.Since.{filter, filter-same, Chronological, ScalarsChronological, trim_lem}
use pi_monitor.Collector.Evict.{ScalarsValid}
use pi_monitor.Run.State.{Settings, Service}
use pi_monitor.Run.Ticks.{restore, load_from, load_history}

div_mono : (a b : ℕ) → a ≤ b → a / 1000000 ≤ b / 1000000
div_mono a b h = omega arith

-- Rounding to milliseconds keeps the order of times.
to_milli_mono : (s t : ℤ) → s ≤ℤ t → to_milli s ≤ℤ to_milli t
unfolding ◌*ℤ◌
to_milli_mono (pos a) (pos b) h = ground (arith, div_mono a b)
to_milli_mono (pos a) (negsuc b) h = ground arith
to_milli_mono (negsuc a) (pos b) h = ground arith
to_milli_mono (negsuc a) (negsuc b) h = ground (arith, div_mono b a)

module _ {V : Type 0} where
  -- A point from within the window; without a window, one that is not before the zero time.
  abbrev pub is_recent : ℤ → ℤ → HistoryPoint V → Bool
  is_recent window now p =
      if ltb_ℤ (pos 0) window
      then leb_ℤ now (p.timestamp +ℤ window)
      else leb_ℤ zero_time p.timestamp

  not_before-is_recent :
      (window now : ℤ) (p : HistoryPoint V)
      → not_before (import_cutoff window now) p ≡ is_recent window now p
  unfolding import_cutoff
  not_before-is_recent window now p =
      ground (arith, -ℤ_parts now window, +ℤ_parts p.timestamp window)

  later-truncate_point :
      (p : HistoryPoint V) (ps : Series V)
      → All (λ q. p.timestamp ≤ℤ q.timestamp) ps
      → All (λ q. (truncate_point p).timestamp ≤ℤ q.timestamp) (map truncate_point ps)
  later-truncate_point p [] h = tt
  later-truncate_point p (q ∷ ps) h =
      (to_milli_mono p.timestamp q.timestamp h.0, later-truncate_point p ps h.1)

  Chronological-truncate :
      (ps : Series V) → Chronological ps → Chronological (map truncate_point ps)
  Chronological-truncate [] h = tt
  Chronological-truncate (p ∷ ps) h = (later-truncate_point p ps h.0, Chronological-truncate ps h.1)

module _ {V : Type 0} ⦃f : Float V⦄ where
  -- What a series comes back as, in a buffer of this capacity.
  abbrev pub reloaded : ℤ → ℤ → Ring V → Series V → Series V
  reloaded window now rb points =
      last_n rb.capacity (filter (is_recent window now) (map truncate_point points))

  -- Each series of the whole host in `h'` is that of `h`, with its times in milliseconds, less what is
  -- older than the window and what exceeds its buffer.
  abbrev pub Reloaded : ℤ → ℤ → Collector V → History V → History V → Type 0
  Reloaded window now c h h' =
      (h'.cpu_percent ≡ reloaded window now c.cpu_hist h.cpu_percent)
      × (h'.load1 ≡ reloaded window now c.l1_hist h.load1)
      × (h'.load5 ≡ reloaded window now c.l5_hist h.load5)
      × (h'.load15 ≡ reloaded window now c.l15_hist h.load15)
      × (h'.temperature ≡ reloaded window now c.temp_hist h.temperature)
      × (h'.memory_used_percent ≡ reloaded window now c.mem_hist h.memory_used_percent)
      × (h'.swap_used_percent ≡ reloaded window now c.swap_hist h.swap_used_percent)

  fill-reloaded :
      (window now : ℤ) (rb : Ring V) (points past : Series V)
      → IsValid rb
      → Chronological points
      → past ≡ map truncate_point points
      → snapshot no_point (fill no_point rb (trim (import_cutoff window now) past))
        ≡ reloaded window now rb points
  fill-reloaded window now rb points past v o e =
      let cutoff = import_cutoff window now in
      let kept = map truncate_point points in
      snapshot-fill no_point (trim cutoff past) v
      ∙ ap (λ ps. last_n rb.capacity (trim cutoff ps)) e
      ∙ ap (last_n rb.capacity) (
          trim_lem cutoff kept (Chronological-truncate points o)
          ∙ filter-same (not_before cutoff) (is_recent window now) kept
              (not_before-is_recent window now))

module _ {T V X U P : Type 0} ⦃f : Float V⦄ ⦃b : FloatBits V⦄ where
  load_history-decoded :
      (settings : Settings) (now : ℤ) (s : Service T V X U P) (content : Bytes) (past : History V)
      → settings.persists ≡ true
      → s.folder.target ≡ some content
      → decode_history content ≡ inr past
      → (load_history settings true now s).collector
        ≡ import_history s.collector settings.history_window past now
  unfolding load_history load_from restore
  load_history-decoded settings now s content past on held e =
      ap (λ o. (if o then load_from settings true now s.folder.target s else s).collector) on
      ∙ ap (λ o. (load_from settings true now o s).collector) held
      ∙ rw (restore, e) refl

  -- A service that starts with a history file which an earlier one wrote of the history `h`, within
  -- the limits of the format and with every series of the whole host in order of time, has read back
  -- each of these series: exactly its points from within the history window, or, where no window is
  -- set, those not before the zero time; all times in milliseconds; and of these the newest up to
  -- the capacity of its buffer. The buffers of the service are valid.
  pub load_history-Reloaded :
      (settings : Settings) (now : ℤ) (s : Service T V X U P) (h : History V)
      → settings.persists ≡ true
      → s.folder.target ≡ some (encode_history h)
      → length (history_series_list h) ≤ 4096
      → All SeriesFits (history_series_list h)
      → ScalarsChronological h
      → ScalarsValid s.collector
      → Reloaded settings.history_window now s.collector h
          (history (load_history settings true now s).collector)
  unfolding history import_history
  load_history-Reloaded settings now s h on content few fits o v =
      let w = settings.history_window in
      let (past, e, r) = decode_history-encode_history h few fits in
      let c = s.collector in
      rw (load_history-decoded settings now s (encode_history h) past on content e) (
        fill-reloaded w now c.cpu_hist h.cpu_percent past.cpu_percent v.0 o.0 r.0,
        fill-reloaded w now c.l1_hist h.load1 past.load1 v.1 o.1 r.1,
        fill-reloaded w now c.l5_hist h.load5 past.load5 v.2 o.2 r.2,
        fill-reloaded w now c.l15_hist h.load15 past.load15 v.3 o.3 r.3,
        fill-reloaded w now c.temp_hist h.temperature past.temperature v.4 o.4 r.4,
        fill-reloaded w now c.mem_hist h.memory_used_percent past.memory_used_percent v.5 o.5 r.5,
        fill-reloaded w now c.swap_hist h.swap_used_percent past.swap_used_percent v.6 o.6 r.6,
      )
