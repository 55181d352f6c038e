-- ===== src/Alert/Types.antt =====
-- internal/alert/alert.go: the data that the alert engine keeps and returns.
-- Strings are byte lists, times and durations are integers in nanoseconds.
use pi_monitor.Prelude.{ℕ, Bool, List}
use pi_monitor.Prelude.Int.{ℤ}
use pi_monitor.Prelude.Bytes.{Bytes}

pub data Level : Type 0 where
  ok warn crit : Level

pub data Kind : Type 0 where
  fired cleared : Kind

-- internal/config/config.go, `Thresholds`.
pub record Thresholds (V : Type 0) : Type 0 where
  pub temperature_warn_c : V
  pub temperature_crit_c : V
  pub cpu_warn_percent : V
  pub cpu_crit_percent : V
  pub disk_warn_percent : V
  pub disk_crit_percent : V
  pub swap_warn_percent : V
  pub swap_crit_percent : V
  pub memory_warn_percent : V
  pub memory_crit_percent : V

pub record DiskSample (V : Type 0) : Type 0 where
  pub mountpoint : Bytes
  pub used_percent : V

pub record Sample (V : Type 0) : Type 0 where
  pub timestamp : ℤ
  pub cpu_percent : V
  pub cpu_valid : Bool
  pub temperature_c : V
  pub temperature_valid : Bool
  pub memory_percent : V
  pub memory_valid : Bool
  pub swap_percent : V
  pub swap_valid : Bool
  pub disks : List (DiskSample V)
  pub disks_valid : Bool

pub record State (V : Type 0) : Type 0 where
  pub metric : Bytes
  pub resource : Bytes
  pub level : Level
  pub value : V
  pub since : ℤ

pub record Event (V : Type 0) : Type 0 where
  pub metric : Bytes
  pub resource : Bytes
  pub kind : Kind
  pub from : Level
  pub to : Level
  pub value : V
  pub at : ℤ

pub record Report (V : Type 0) : Type 0 where
  pub enabled : Bool
  pub states : List (State V)
  pub events : List (Event V)

pub record MetricState (V : Type 0) : Type 0 where
  pub metric : Bytes
  pub resource : Bytes
  pub active : Level
  pub active_since : ℤ
  pub last_value : V
  pub warn_above : Bool
  pub warn_since : ℤ
  pub crit_above : Bool
  pub crit_since : ℤ
  pub initialized : Bool

pub record Engine (V : Type 0) : Type 0 where
  pub thresholds : Thresholds V
  pub for_dur : ℤ
  pub max_events : ℕ
  pub states : List (Bytes × MetricState V)
  pub events : List (Event V)
