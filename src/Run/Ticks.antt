-- ===== src/Run/Ticks.antt =====
-- internal/collector/collector.go and persist.go: `fastTick`, `slowTick`, `persistHistory` and
-- `loadHistory`.
use pi_monitor.Prelude.{
  Bool, not, inl, inr, List, Option, none, some, map, length, ltb, get_elem?, set, ℕ, if◌then◌else◌,
}
use pi_monitor.Prelude.Int.{ℤ}
use pi_monitor.Prelude.Bytes.{Bytes}
use pi_monitor.Prelude.Float.{Float}
use pi_monitor.Alert.Types.{DiskSample, Sample, Engine, Event}
use pi_monitor.Alert.Evaluate.{evaluate}
use pi_monitor.Notify.Types.{Webhook, WebhookWorker}
use pi_monitor.Notify.Deliver.{Delivery}
use pi_monitor.Notify.Dispatch.{notify, work_one}
use pi_monitor.Persist.Encode.{FloatBits, encode_history}
use pi_monitor.Persist.Decode.{decode_history}
use pi_monitor.Collector.Store.{history}
use pi_monitor.Collector.Record.{DiskReading, record_tick}
use pi_monitor.Collector.Import.{import_history}
use pi_monitor.Run.Write.{Calls, write_file_atomic}
use pi_monitor.Run.State.{FastTickSamples, Snapshot, Settings, Service}

module _ {V : Type 0} where
  abbrev pub disk_sample : DiskReading V → DiskSample V
  disk_sample d = record { mountpoint = d.mountpoint; used_percent = d.used_percent }

module _ {V X : Type 0} where
  -- The sample that the alert engine is given.
  unfoldable pub sample_of : FastTickSamples V X → Sample V
  sample_of t =
      let s = t.samples in
      record {
        timestamp = s.now;
        cpu_percent = s.overall_percent;
        cpu_valid = not t.cpu_failed;
        temperature_c = s.celsius;
        temperature_valid = not t.temp_failed;
        memory_percent = s.mem_used_percent;
        memory_valid = not t.mem_failed;
        swap_percent = s.swap_used_percent;
        swap_valid = not t.mem_failed;
        disks = map disk_sample s.disks;
        disks_valid = not t.disk_failed;
      }

  -- The snapshot of a tick; the updates are the slow tick's.
  unfoldable pub publish : {U : Type 0} → FastTickSamples V X → Snapshot V X U → Snapshot V X U
  publish t latest = record latest {
    samples = t.samples;
    temperature_valid = not t.temp_failed;
    other = t.other;
  }

module _ {T V : Type 0} where
  -- The events of an evaluation on their way to the workers.
  unfoldable pub forward :
      List (Event V) → Option (List (WebhookWorker T V)) → Option (List (WebhookWorker T V))
  forward events none = none
  forward events (some workers) =
      if ltb 0 (length events) then some (notify events workers) else some workers

  -- A worker takes the first event of its queue, while the ticks go on.
  unfoldable pub work_at :
      (Webhook T → Event V → Option Bytes)
      → (Webhook T → Bytes → Delivery)
      → ℤ
      → ℕ
      → List (WebhookWorker T V)
      → List (WebhookWorker T V)
  work_at render send min_interval i workers = elim (get_elem? workers i) [
    | none ↦ workers
    | some w ↦ set workers i (work_one render send min_interval w).0
  ]

module _ {T V X U P : Type 0} ⦃f : Float V⦄ where
  -- The alerts of a tick, with the engine that there is.
  unfoldable pub raise_with :
      FastTickSamples V X → Option (Engine V) → Service T V X U P → Service T V X U P
  raise_with t none s = s
  raise_with t (some engine) s =
      let (engine', events) = evaluate engine (sample_of t) in
      record s { alerts = some engine'; notifier = forward events s.notifier }

  unfoldable pub fast_tick : FastTickSamples V X → Service T V X U P → Service T V X U P
  fast_tick t s =
      raise_with t s.alerts
        record s { collector = record_tick s.collector t.samples; latest = publish t s.latest }

  unfoldable pub with_updates : Option U → Service T V X U P → Service T V X U P
  with_updates none s = s
  with_updates (some u) s = record s { latest = record s.latest { updates = u } }

  unfoldable pub with_processes : Option P → Service T V X U P → Service T V X U P
  with_processes none s = s
  with_processes (some p) s = record s { latest_processes = p }

  -- `updates` and `procs` are what the two sources return, `none` on an error.
  unfoldable pub slow_tick : Settings → Option U → Option P → Service T V X U P → Service T V X U P
  slow_tick settings updates procs s =
      if settings.processes_enabled
      then with_processes procs (with_updates updates s)
      else with_updates updates s

  unfoldable pub work_with :
      (Webhook T → Event V → Option Bytes)
      → (Webhook T → Bytes → Delivery)
      → ℤ
      → ℕ
      → Option (List (WebhookWorker T V))
      → Service T V X U P
      → Service T V X U P
  work_with render send min_interval i none s = s
  work_with render send min_interval i (some workers) s = record s {
    notifier = some (work_at render send min_interval i workers);
  }

  unfoldable pub work :
      (Webhook T → Event V → Option Bytes)
      → (Webhook T → Bytes → Delivery)
      → ℤ
      → ℕ
      → Service T V X U P
      → Service T V X U P
  work render send min_interval i s = work_with render send min_interval i s.notifier s

module _ {T V X U P : Type 0} ⦃f : Float V⦄ ⦃b : FloatBits V⦄ where
  -- A flush while a write is in flight is skipped.
  unfoldable pub begin_write : Option Bytes → Service T V X U P → Service T V X U P
  begin_write (some content) s = s
  begin_write none s = record s { writing = some (encode_history (history s.collector)) }

  unfoldable pub persist_history : Settings → Service T V X U P → Service T V X U P
  persist_history settings s = if settings.persists then begin_write s.writing s else s

  -- The write in flight ends; its calls go as `calls` says.
  unfoldable pub end_write : Calls → Option Bytes → Service T V X U P → Service T V X U P
  end_write calls none s = s
  end_write calls (some content) s = record s {
    folder = (write_file_atomic calls content s.folder).1;
    writing = none;
  }

  -- What the content of the file restores.
  unfoldable pub restore : ℤ → ℤ → Bytes → Service T V X U P → Service T V X U P
  restore window now content s = elim (decode_history content) [
    | inl err ↦ s
    | inr h ↦ record s { collector = import_history s.collector window h now }
  ]

  -- At startup; `readable` says whether reading an existing file succeeds.
  unfoldable pub load_from :
      Settings → Bool → ℤ → Option Bytes → Service T V X U P → Service T V X U P
  load_from settings readable now none s = s
  load_from settings readable now (some content) s =
      if readable then restore settings.history_window now content s else s

  unfoldable pub load_history : Settings → Bool → ℤ → Service T V X U P → Service T V X U P
  load_history settings readable now s =
      if settings.persists then load_from settings readable now s.folder.target s else s
