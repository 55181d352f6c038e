-- ===== src/Config/Types.antt =====
-- internal/config/config.go: the configuration record, its defaults, and the durations it stands for.
use pi_monitor.Prelude.{ℕ, Bool, true, false, List, [], if◌then◌else◌}
use pi_monitor.Prelude.Int.{ℤ, pos, ltb_ℤ, ◌+ℤ◌, ◌*ℤ◌}
use pi_monitor.Prelude.Bytes.{Bytes, codes}
use pi_monitor.Prelude.Arith.{Arith}
use pi_monitor.Alert.Types.{Thresholds}

pub record Webhook (V : Type 0) : Type 0 where
  pub url : Bytes
  pub min_level : Bytes
  pub template : Bytes
  pub content_type : Bytes
  pub timeout_seconds : V

pub record Alerts (V : Type 0) : Type 0 where
  pub enabled : Bool
  pub for_seconds : V
  pub webhooks : List (Webhook V)
  pub notify_max_retries : ℤ
  pub notify_retry_backoff_seconds : V
  pub notify_min_interval_seconds : V

pub record Config (V : Type 0) : Type 0 where
  pub listen_addr : Bytes
  pub log_level : Bytes
  pub poll_interval_seconds : V
  pub updates_check_minutes : V
  pub updates_stale_threshold_minutes : V
  pub history_window_minutes : V
  pub history_persist_enabled : Bool
  pub data_dir : Bytes
  pub network_enabled : Bool
  pub hwmon_enabled : Bool
  pub distro_info_enabled : Bool
  pub pi_model_enabled : Bool
  pub prometheus_enabled : Bool
  pub api_key : Bytes
  pub access_log_enabled : Bool
  pub tls_cert_file : Bytes
  pub tls_key_file : Bytes
  pub healthz_max_staleness_seconds : V
  pub thresholds : Thresholds V
  pub alerts : Alerts V
  pub processes_enabled : Bool
  pub processes_top_n : ℤ

abbrev pub max_history_capacity : ℕ
max_history_capacity = 1000000

abbrev pub max_processes_top_n : ℕ
max_processes_top_n = 100

abbrev pub healthz_staleness_multiple : ℤ
healthz_staleness_multiple = pos 3

module _ {V : Type 0} ⦃a : Arith V⦄ where
  abbrev pub default_thresholds : Thresholds V
  default_thresholds = record {
    temperature_warn_c = a.number 60;
    temperature_crit_c = a.number 75;
    cpu_warn_percent = a.number 80;
    cpu_crit_percent = a.number 95;
    disk_warn_percent = a.number 80;
    disk_crit_percent = a.number 95;
    swap_warn_percent = a.number 50;
    swap_crit_percent = a.number 90;
    memory_warn_percent = a.number 80;
    memory_crit_percent = a.number 95;
  }

  abbrev pub default_alerts : Alerts V
  default_alerts = record {
    enabled = true;
    for_seconds = a.number 30;
    webhooks = [];
    notify_max_retries = pos 3;
    notify_retry_backoff_seconds = a.number 1;
    notify_min_interval_seconds = a.number 5;
  }

  abbrev pub default_config : Config V
  default_config = record {
    listen_addr = codes ":8080";
    log_level = codes "info";
    poll_interval_seconds = a.number 5;
    updates_check_minutes = a.number 15;
    updates_stale_threshold_minutes = a.number 720;
    history_window_minutes = a.number 60;
    history_persist_enabled = true;
    data_dir = codes "/var/lib/pimonitor";
    network_enabled = true;
    hwmon_enabled = true;
    distro_info_enabled = true;
    pi_model_enabled = true;
    prometheus_enabled = false;
    api_key = [];
    access_log_enabled = true;
    tls_cert_file = [];
    tls_key_file = [];
    healthz_max_staleness_seconds = a.number 0;
    thresholds = default_thresholds;
    alerts = default_alerts;
    processes_enabled = false;
    processes_top_n = pos 5;
  }

  -- `time.Duration(s * float64(time.Second))`, and the same in minutes.
  unfoldable pub seconds : V → ℤ
  seconds s = a.truncate (a.times s (a.number 1000000000))

  unfoldable pub minutes : V → ℤ
  minutes m = a.truncate (a.times m (a.number 60000000000))

  unfoldable pub alert_for : Config V → ℤ
  alert_for c = seconds c.alerts.for_seconds

  unfoldable pub fast_interval : Config V → ℤ
  fast_interval c = seconds c.poll_interval_seconds

  unfoldable pub slow_interval : Config V → ℤ
  slow_interval c = minutes c.updates_check_minutes

  unfoldable pub updates_stale_threshold : Config V → ℤ
  updates_stale_threshold c = minutes c.updates_stale_threshold_minutes

  unfoldable pub healthz_max_staleness : Config V → ℤ → ℤ
  healthz_max_staleness c tick_overhead =
      if a.lt (a.number 0) c.healthz_max_staleness_seconds
      then seconds c.healthz_max_staleness_seconds
      else healthz_staleness_multiple *ℤ fast_interval c +ℤ pos 2 *ℤ tick_overhead

  unfoldable pub history_window : Config V → ℤ
  history_window c = minutes c.history_window_minutes

  -- `HistoryWindowMinutes * 60 / PollIntervalSeconds`.
  unfoldable pub capacity_ratio : Config V → V
  capacity_ratio c = a.over (a.times c.history_window_minutes (a.number 60)) c.poll_interval_seconds

  unfoldable pub history_capacity : Config V → ℤ
  history_capacity c =
      if a.le c.poll_interval_seconds (a.number 0)
      then pos 1
      else let capacity = a.truncate (capacity_ratio c) in
        if ltb_ℤ capacity (pos 1) then pos 1 else capacity
