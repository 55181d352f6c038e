-- ===== src/Run/Sound.antt =====
-- The invariant of the running collector: buffers, alert history, alert states and queues.
use pi_monitor.Prelude.{
  ℕ, ◌≡◌, refl, ◌∙◌, Bool, inl, inr, List, Option, none, some, Bool-cases, Sum-cases, if_lem,
}
use pi_monitor.Prelude.Int.{ℤ}
use pi_monitor.Prelude.Bytes.{Bytes}
use pi_monitor.Prelude.Float.{Float}
use pi_monitor.Alert.Types.{Engine, Event}
use pi_monitor.Alert.Events.{events-evaluate}
use pi_monitor.Alert.Keys.{evaluate-DistinctKeys}
use pi_monitor.Notify.Types.{Webhook, WebhookWorker}
use pi_monitor.Notify.Deliver.{Delivery}
use pi_monitor.Persist.Encode.{FloatBits}
use pi_monitor.Persist.Decode.{decode_history}
use pi_monitor.Collector.Evict.{ScalarsValid, history-record_tick}
use pi_monitor.Run.Rings.{DevicesValid, record_tick-DevicesValid, import_history-Valid}
use pi_monitor.Run.Write.{Calls}
use pi_monitor.Run.State.{FastTickSamples, Settings, Service}
use pi_monitor.Run.Ticks.{
  sample_of, raise_with, fast_tick, with_updates, with_processes, slow_tick, work_with, work,
  begin_write, persist_history, end_write, restore, load_from, load_history,
}
use pi_monitor.Run.Steps.{Step, Steps, fast, slow, flush, written, delivered, here, next}
use pi_monitor.Run.Queues.{EngineSound, NotifierSound, forward-NotifierSound, work_at-QueuesBounded}

module _ {T V X U P : Type 0} ⦃f : Float V⦄ where
  -- Every buffer is valid, the alert history within its limit, each alert state stands once, and no
  -- worker's queue is over its limit.
  abbrev pub IsSound : Service T V X U P → Type 0
  IsSound s =
      ScalarsValid s.collector
      × DevicesValid s.collector
      × EngineSound s.alerts
      × NotifierSound s.notifier

  -- The two services agree but for what is published and written.
  abbrev pub SameCore : Service T V X U P → Service T V X U P → Type 0
  SameCore s u = (s.collector ≡ u.collector) × (s.alerts ≡ u.alerts) × (s.notifier ≡ u.notifier)

  SameCore-IsSound : (s u : Service T V X U P) → SameCore s u → IsSound u → IsSound s
  SameCore-IsSound s u e h = rw (e.0, e.1, e.2) h

  raise_with-IsSound :
      (t : FastTickSamples V X) (alerts : Option (Engine V)) (s : Service T V X U P)
      → EngineSound alerts
      → IsSound s
      → IsSound (raise_with t alerts s)
  unfolding raise_with
  raise_with-IsSound t none s e h = h
  raise_with-IsSound t (some engine) s e h =
      let kept = events-evaluate engine (sample_of t) e.0 in
      (
        h.0,
        h.1,
        (kept.2, evaluate-DistinctKeys engine (sample_of t) e.1),
        forward-NotifierSound _ s.notifier h.3,
      )

  fast_tick-IsSound :
      (t : FastTickSamples V X) (s : Service T V X U P) → IsSound s → IsSound (fast_tick t s)
  unfolding fast_tick
  fast_tick-IsSound t s h = raise_with-IsSound t s.alerts _ h.2 (
    (history-record_tick s.collector t.samples h.0).1,
    record_tick-DevicesValid s.collector t.samples h.1,
    h.2,
    h.3,
  )

  with_updates-SameCore :
      (updates : Option U) (s : Service T V X U P) → SameCore (with_updates updates s) s
  unfolding with_updates
  with_updates-SameCore none s = (refl, refl, refl)
  with_updates-SameCore (some u) s = (refl, refl, refl)

  with_processes-SameCore :
      (procs : Option P) (s : Service T V X U P) → SameCore (with_processes procs s) s
  unfolding with_processes
  with_processes-SameCore none s = (refl, refl, refl)
  with_processes-SameCore (some p) s = (refl, refl, refl)

  SameCore-trans : (s u v : Service T V X U P) → SameCore s u → SameCore u v → SameCore s v
  SameCore-trans s u v h k = (h.0 ∙ k.0, h.1 ∙ k.1, h.2 ∙ k.2)

  pub slow_tick-SameCore :
      (settings : Settings) (updates : Option U) (procs : Option P) (s : Service T V X U P)
      → SameCore (slow_tick settings updates procs s) s
  unfolding slow_tick
  slow_tick-SameCore settings updates procs s =
      let u = with_updates updates s in
      let same = with_updates-SameCore updates s in
      elim (Bool-cases settings.processes_enabled) [
        | inl e ↦
            rw e
              (SameCore-trans (with_processes procs u) u s (with_processes-SameCore procs u) same)
        | inr e ↦ rw e same
      ]

  work_with-IsSound :
      (render : Webhook T → Event V → Option Bytes) (send : Webhook T → Bytes → Delivery)
      (min_interval : ℤ) (i : ℕ) (notifier : Option (List (WebhookWorker T V)))
      (s : Service T V X U P)
      → NotifierSound notifier
      → IsSound s
      → IsSound (work_with render send min_interval i notifier s)
  unfolding work_with
  work_with-IsSound render send min_interval i none s q h = h
  work_with-IsSound render send min_interval i (some workers) s q h =
      (h.0, h.1, h.2, work_at-QueuesBounded render send min_interval i workers q)

module _ {T V X U P : Type 0} ⦃f : Float V⦄ ⦃b : FloatBits V⦄ where
  begin_write-SameCore : (w : Option Bytes) (s : Service T V X U P) → SameCore (begin_write w s) s
  unfolding begin_write
  begin_write-SameCore none s = (refl, refl, refl)
  begin_write-SameCore (some content) s = (refl, refl, refl)

  pub persist_history-SameCore :
      (settings : Settings) (s : Service T V X U P) → SameCore (persist_history settings s) s
  unfolding persist_history
  persist_history-SameCore settings s = elim (Bool-cases settings.persists) [
    | inr e ↦ rw e (refl, refl, refl)
    | inl e ↦ rw e (begin_write-SameCore s.writing s)
  ]

  pub end_write-SameCore :
      (calls : Calls) (w : Option Bytes) (s : Service T V X U P) → SameCore (end_write calls w s) s
  unfolding end_write
  end_write-SameCore calls none s = (refl, refl, refl)
  end_write-SameCore calls (some content) s = (refl, refl, refl)

  restore-IsSound :
      (window now : ℤ) (content : Bytes) (s : Service T V X U P)
      → IsSound s
      → IsSound (restore window now content s)
  restore-IsSound window now content s h = elim (Sum-cases (decode_history {V = V} content)) [
    | inl (err, e) ↦ unfold restore in rw (restore, e) h
    | inr (past, e) ↦
        let valid = import_history-Valid s.collector window past now h.0 h.1 in
        unfold restore in rw (restore, e) (valid.0, valid.1, h.2, h.3)
  ]

  -- Whatever the history file holds, loading it leaves a sound service sound.
  pub load_history-IsSound :
      (settings : Settings) (readable : Bool) (now : ℤ) (s : Service T V X U P)
      → IsSound s
      → IsSound (load_history settings readable now s)
  unfolding load_history
  load_history-IsSound settings readable now s h =
      if_lem IsSound settings.persists _ s (from s.folder.target) h
    where
      from : (o : Option Bytes) → IsSound (load_from settings readable now o s)
      from none = unfold load_from in h
      from (some content) =
          unfold load_from in
          if_lem IsSound readable _ s (restore-IsSound settings.history_window now content s h) h

  Step-IsSound :
      {settings : Settings} {s u : Service T V X U P} → Step settings s u → IsSound s → IsSound u
  Step-IsSound (fast s t) h = fast_tick-IsSound t s h
  Step-IsSound {settings} (slow s updates procs) h =
      let u = slow_tick settings updates procs s in
      SameCore-IsSound (persist_history settings u) u (persist_history-SameCore settings u)
        (SameCore-IsSound u s (slow_tick-SameCore settings updates procs s) h)
  Step-IsSound {settings} (flush s) h =
      SameCore-IsSound (persist_history settings s) s (persist_history-SameCore settings s) h
  Step-IsSound (written s calls) h =
      SameCore-IsSound (end_write calls s.writing s) s (end_write-SameCore calls s.writing s) h
  Step-IsSound (delivered s render send min_interval i) h =
      unfold work in work_with-IsSound render send min_interval i s.notifier s h.3 h

  -- However ticks, flushes, ends of writes and deliveries follow one another, a service that starts
  -- sound stays sound: every ring buffer is valid, the alert history is within its limit, each alert
  -- state stands once, and every worker's queue is within its limit.
  pub Steps-IsSound :
      {settings : Settings} {s u : Service T V X U P} → IsSound s → Steps settings s u → IsSound u
  Steps-IsSound h here = h
  Steps-IsSound h (next r st) = Step-IsSound st (Steps-IsSound h r)
