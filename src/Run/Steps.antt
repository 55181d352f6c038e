-- ===== src/Run/Steps.antt =====
-- internal/collector/collector.go: `Run`, with the goroutines beside it, as a step relation: ticks,
-- flushes, ends of writes and deliveries of workers in any order.
use pi_monitor.Prelude.{ℕ, Option}
use pi_monitor.Prelude.Int.{ℤ}
use pi_monitor.Prelude.Bytes.{Bytes}
use pi_monitor.Prelude.Float.{Float}
use pi_monitor.Alert.Types.{Event}
use pi_monitor.Notify.Types.{Webhook}
use pi_monitor.Notify.Deliver.{Delivery}
use pi_monitor.Persist.Encode.{FloatBits}
use pi_monitor.Run.Write.{Calls}
use pi_monitor.Run.State.{FastTickSamples, Settings, Service}
use pi_monitor.Run.Ticks.{fast_tick, slow_tick, work, persist_history, end_write}

-- A step of the running collector with these settings.
pub data Step {T V X U P : Type 0} ⦃f : Float V⦄ ⦃b : FloatBits V⦄ (settings : Settings)
    : Service T V X U P → Service T V X U P → Type 0 where
  -- the fast ticker fires
  fast : (s : Service T V X U P) (t : FastTickSamples V X) → Step settings s (fast_tick t s)
  -- the slow ticker fires
  slow :
      (s : Service T V X U P) (updates : Option U) (procs : Option P)
      → Step settings s (persist_history settings (slow_tick settings updates procs s))
  -- the last flush, at shutdown
  flush : (s : Service T V X U P) → Step settings s (persist_history settings s)
  -- a background write ends
  written : (s : Service T V X U P) (calls : Calls) → Step settings s (end_write calls s.writing s)
  -- the worker at an index delivers an event
  delivered :
      (s : Service T V X U P) (render : Webhook T → Event V → Option Bytes)
      (send : Webhook T → Bytes → Delivery) (min_interval : ℤ) (i : ℕ)
      → Step settings s (work render send min_interval i s)

pub data Steps {T V X U P : Type 0} ⦃f : Float V⦄ ⦃b : FloatBits V⦄ (settings : Settings)
    (start : Service T V X U P) : Service T V X U P → Type 0 where
  here : Steps settings start start
  next :
      {s u : Service T V X U P}
      → Steps settings start s
      → Step settings s u
      → Steps settings start u
