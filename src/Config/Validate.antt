-- ===== src/Config/Validate.antt =====
-- internal/config/config.go: `Validate` and the checks it is made of. `none` is the nil error.
use pi_monitor.Prelude.{
  ℕ, suc, Bool, true, false, not, ◌&&◌, ◌||◌, List, [], ◌∷◌, Option, none, some,
}
use pi_monitor.Prelude.Int.{pos, ltb_ℤ}
use pi_monitor.Prelude.Bytes.{Bytes, codes, str_eq}
use pi_monitor.Prelude.Arith.{Arith}
use pi_monitor.Alert.Types.{Thresholds}
use pi_monitor.Config.Types.{
  Webhook, Alerts, Config, max_history_capacity, max_processes_top_n, capacity_ratio,
}

-- One constructor for each message; a webhook's has its index, a threshold's its name.
pub data ConfigError : Type 0 where
  poll_interval updates_check updates_stale history_window history_ratio : ConfigError
  data_dir listen_addr log_level healthz_negative tls_pair healthz_below_poll : ConfigError
  warn_negative crit_negative warn_above_crit : Bytes → ConfigError
  for_seconds max_retries retry_backoff min_interval : ConfigError
  webhook_url webhook_min_level webhook_timeout : ℕ → ConfigError
  processes_top_n : ConfigError

-- The first error wins.
infixr 30 ◌or_else◌
unfoldable pub ◌or_else◌ : Option ConfigError → Option ConfigError → Option ConfigError
(none) or_else e = e
(some e) or_else f = some e

-- `if bad { return e }`.
unfoldable pub reject : Bool → ConfigError → Option ConfigError
reject true e = some e
reject false e = none

abbrev pub is_empty : Bytes → Bool
is_empty s = str_eq s []

abbrev pub valid_log_level : Bytes → Bool
valid_log_level s =
    str_eq s (codes "debug")
    || str_eq s (codes "info")
    || str_eq s (codes "warn")
    || str_eq s (codes "error")

abbrev pub valid_alert_min_level : Bytes → Bool
valid_alert_min_level s = is_empty s || str_eq s (codes "warn") || str_eq s (codes "crit")

-- Go's `!=` on booleans.
abbrev pub differ : Bool → Bool → Bool
differ true b = not b
differ false b = b

module _ {V : Type 0} ⦃a : Arith V⦄ where
  abbrev pub negative : V → Bool
  negative x = a.lt x (a.number 0)

  unfoldable pub validate_timing : Config V → Option ConfigError
  validate_timing c =
      reject (a.le c.poll_interval_seconds (a.number 0)) poll_interval
      or_else reject (a.le c.updates_check_minutes (a.number 0)) updates_check
      or_else reject (negative c.updates_stale_threshold_minutes) updates_stale
      or_else reject (a.le c.history_window_minutes (a.number 0)) history_window
      or_else reject (a.lt (a.number max_history_capacity) (capacity_ratio c)) history_ratio

  unfoldable pub validate_server : Config V → Option ConfigError
  validate_server c =
      reject (c.history_persist_enabled && is_empty c.data_dir) data_dir
      or_else reject (is_empty c.listen_addr) listen_addr
      or_else reject (not (valid_log_level c.log_level)) log_level
      or_else reject (negative c.healthz_max_staleness_seconds) healthz_negative
      or_else reject (differ (is_empty c.tls_cert_file) (is_empty c.tls_key_file)) tls_pair
      or_else reject
          (a.lt (a.number 0) c.healthz_max_staleness_seconds
            && a.lt c.healthz_max_staleness_seconds c.poll_interval_seconds)
          healthz_below_poll

  -- One round of the loop over the pairs of cutoffs.
  unfoldable pub validate_pair : Bytes → V → V → Option ConfigError
  validate_pair name warn crit =
      reject (negative warn) (warn_negative name)
      or_else reject (negative crit) (crit_negative name)
      or_else reject (a.lt crit warn) (warn_above_crit name)

  unfoldable pub validate_thresholds : Thresholds V → Option ConfigError
  validate_thresholds t =
      validate_pair (codes "temperature") t.temperature_warn_c t.temperature_crit_c
      or_else validate_pair (codes "cpu") t.cpu_warn_percent t.cpu_crit_percent
      or_else validate_pair (codes "disk") t.disk_warn_percent t.disk_crit_percent
      or_else validate_pair (codes "swap") t.swap_warn_percent t.swap_crit_percent
      or_else validate_pair (codes "memory") t.memory_warn_percent t.memory_crit_percent

  -- The loop over the webhooks, from index `i` on.
  unfoldable pub validate_webhooks : ℕ → List (Webhook V) → Option ConfigError
  validate_webhooks i [] = none
  validate_webhooks i (w ∷ ws) =
      reject (is_empty w.url) (webhook_url i)
      or_else reject (not (valid_alert_min_level w.min_level)) (webhook_min_level i)
      or_else reject (negative w.timeout_seconds) (webhook_timeout i)
      or_else validate_webhooks (suc i) ws

  unfoldable pub validate_alerts : Alerts V → Option ConfigError
  validate_alerts s =
      reject (ltb_ℤ s.notify_max_retries (pos 0)) max_retries
      or_else reject (negative s.notify_retry_backoff_seconds) retry_backoff
      or_else reject (negative s.notify_min_interval_seconds) min_interval
      or_else validate_webhooks 0 s.webhooks

  unfoldable pub validate : Config V → Option ConfigError
  validate c =
      validate_timing c
      or_else validate_server c
      or_else validate_thresholds c.thresholds
      or_else reject (negative c.alerts.for_seconds) for_seconds
      or_else validate_alerts c.alerts
      or_else reject
          (ltb_ℤ c.processes_top_n (pos 1) || ltb_ℤ (pos max_processes_top_n) c.processes_top_n)
          processes_top_n
