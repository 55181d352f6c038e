-- ===== src/Config/Tests.antt =====
-- Runs of the configuration, and its theorems at concrete configurations.
use pi_monitor.Prelude.{◌≡◌, refl, true, false, [], ◌∷◌, none, some, inr, ◌⊎◌}
use pi_monitor.Prelude.Bytes.{codes, str_eq}
use pi_monitor.Prelude.Whole.{Value, num, nan, whole_arith}
use pi_monitor.Config.Types.{Config, Webhook, default_config, capacity_ratio}
use pi_monitor.Config.Validate.{
  validate, validate_timing, validate_server, validate_thresholds, validate_pair, validate_alerts,
  validate_webhooks, ◌or_else◌, reject, webhook_min_level,
}
use pi_monitor.Config.Load.{Flags, Result, load, load_file, conclude, apply_flags, apply_env}
use pi_monitor.Config.Laws.{Guaranteed, validate-Guaranteed}
use pi_monitor.Config.Nan.{validate-nan}
use pi_monitor.Config.Precedence.{key_of, load-precedence}

abbrev home : Webhook Value
home = record {
  url = codes "http://ha.local/hook";
  min_level = codes "crit";
  template = [];
  content_type = [];
  timeout_seconds = num 0;
}

abbrev with_webhook : Config Value
with_webhook =
    let c : Config Value = default_config in
    record c { alerts = record c.alerts { webhooks = home ∷ [] } }

with_webhook_valid : validate with_webhook ≡ none
unfolding validate validate_timing validate_server validate_thresholds validate_pair validate_alerts
    validate_webhooks ◌or_else◌ reject capacity_ratio str_eq
with_webhook_valid = refl

abbrev mistyped : Config Value
mistyped =
    let c = with_webhook in
    record c {
      alerts = record c.alerts { webhooks = home ∷ record home { min_level = codes "ok" } ∷ [] };
    }

mistyped_rejected : validate mistyped ≡ some (webhook_min_level 1)
unfolding validate validate_timing validate_server validate_thresholds validate_pair validate_alerts
    validate_webhooks ◌or_else◌ reject capacity_ratio str_eq
mistyped_rejected = refl

validate-Guaranteed_example : Guaranteed with_webhook
validate-Guaranteed_example = validate-Guaranteed with_webhook with_webhook_valid

validate-nan_example : validate (record with_webhook { poll_interval_seconds = nan }) ≡ none
validate-nan_example = validate-nan with_webhook with_webhook_valid

abbrev given : Flags
given = record {
  config_path = [];
  listen = codes ":9000";
  log_level = [];
  api_key = [];
  version = false;
}

abbrev resolved : Result Value
resolved = record {
  config = record default_config { listen_addr = codes ":9000"; api_key = codes "secret" };
  version_requested = false;
}

resolves : (load (λ path c. none) (some given) (some (codes "secret"))).outcome ≡ inr resolved
unfolding load load_file conclude apply_flags apply_env validate validate_timing validate_server
    validate_thresholds validate_pair validate_alerts validate_webhooks ◌or_else◌ reject
    capacity_ratio str_eq
resolves = refl

load-precedence_example :
    (c : Config Value) × (load_file (λ path c. none) given ≡ some c)
    × (resolved.config ≡ apply_flags given (apply_env (some (codes "secret")) c))
    × (resolved.config.api_key ≡ key_of [] (some (codes "secret")) c.api_key)
    × (resolved.version_requested ≡ false)
    × ((resolved.version_requested ≡ true) ⊎ (validate resolved.config ≡ none))
    × ((load {V = Value} (λ path c. none) (some given) (some (codes "secret"))).unset_env ≡ true)
load-precedence_example =
    load-precedence (λ path c. none) given (some (codes "secret")) resolved resolves
