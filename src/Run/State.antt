-- ===== src/Run/State.antt =====
-- internal/collector/collector.go: the state of a running `Collector`, with the alert engine, the
-- workers of the notifier, and the history file; and what one fast tick reads.
-- `T` is the type of parsed templates; `X` stands for the parts of a snapshot that a tick only passes
-- on (uptime, frequencies, the optional temperatures, throttling, wireless, sensors), `U` for the
-- updates, `P` for the process ranking.
use pi_monitor.Prelude.{Bool, List, Option}
use pi_monitor.Prelude.Int.{ℤ}
use pi_monitor.Prelude.Bytes.{Bytes}
use pi_monitor.Alert.Types.{Engine}
use pi_monitor.Notify.Types.{WebhookWorker}
use pi_monitor.Collector.Store.{Collector}
use pi_monitor.Collector.Record.{TickSamples}
use pi_monitor.Run.Write.{Folder}

-- `fastTickSamples`: a source that failed leaves zeros, and an empty list.
pub record FastTickSamples (V X : Type 0) : Type 0 where
  pub samples : TickSamples V
  pub cpu_failed : Bool
  pub temp_failed : Bool
  pub mem_failed : Bool
  pub disk_failed : Bool
  pub other : X

pub record Snapshot (V X U : Type 0) : Type 0 where
  pub samples : TickSamples V
  pub temperature_valid : Bool
  pub other : X
  pub updates : U

-- The part of the configuration that `Run` reads.
pub record Settings : Type 0 where
  -- whether `PersistPath` is set
  pub persists : Bool
  pub history_window : ℤ
  pub processes_enabled : Bool

pub record Service (T V X U P : Type 0) : Type 0 where
  pub collector : Collector V
  -- none when alerting is disabled
  pub alerts : Option (Engine V)
  -- the workers of the notifier, none without one
  pub notifier : Option (List (WebhookWorker T V))
  pub latest : Snapshot V X U
  pub latest_processes : P
  pub folder : Folder
  -- the content of the write that is in flight: `persisting` is taken
  pub writing : Option Bytes
