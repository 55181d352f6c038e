-- ===== src/Notify/Types.antt =====
-- internal/alert/notify.go: webhooks, their workers, `NewNotifier` and the view of an event.
-- A body template is parsed and run by text/template, and the default body made by encoding/json:
-- `T` is the type of parsed templates, and these functions are parameters.
use pi_monitor.Prelude.{
  ℕ, suc, Bool, List, [], ◌∷◌, ◌++◌, Option, none, some, ◌⊎◌, inl, inr, ltb, leb, if◌then◌else◌,
}
use pi_monitor.Prelude.Int.{ℤ, pos, leb_ℤ}
use pi_monitor.Prelude.Bytes.{Bytes, codes, str_eq}
use pi_monitor.Prelude.Arith.{Arith}
use pi_monitor.Alert.Types.{Level, ok, warn, crit, Kind, fired, cleared, Event}
use pi_monitor.Alert.Defs.{severity}
use pi_monitor.Config.Types.{seconds}
use pi_monitor.Config.Types

pub record Webhook (T : Type 0) : Type 0 where
  pub url : Bytes
  pub min_level : Level
  pub tmpl : Option T
  pub timeout : ℤ
  pub content_type : Bytes

-- A worker owns its queue, and the last delivery of each alert stream.
pub record WebhookWorker (T V : Type 0) : Type 0 where
  pub wh : Webhook T
  pub queue : List (Event V)
  pub last_sent : List (Bytes × ℤ)

pub record Notifier (T V : Type 0) : Type 0 where
  pub workers : List (WebhookWorker T V)
  pub max_retries : ℤ
  pub backoff : ℤ
  pub min_interval : ℤ

-- Ten seconds, in nanoseconds.
abbrev pub default_notify_timeout : ℤ
default_notify_timeout = pos 10000000000

abbrev pub default_notify_queue_size : ℕ
default_notify_queue_size = 256

abbrev pub default_notify_content_type : Bytes
default_notify_content_type = codes "application/json"

unfoldable pub parse_min_level : Bytes → Level
parse_min_level s = if str_eq s (codes "crit") then crit else warn

module _ {T V : Type 0} ⦃a : Arith V⦄ (parse : Bytes → Option T) where
  unfoldable pub new_webhook : Types.Webhook V → Option T → Webhook T
  new_webhook w tmpl =
      let timeout = seconds w.timeout_seconds in
      record {
        url = w.url;
        min_level = parse_min_level w.min_level;
        tmpl = tmpl;
        timeout = if leb_ℤ timeout (pos 0) then default_notify_timeout else timeout;
        content_type =
            if str_eq w.content_type [] then default_notify_content_type else w.content_type;
      }

  abbrev pub new_worker : Types.Webhook V → Option T → WebhookWorker T V
  new_worker w tmpl = record { wh = new_webhook w tmpl; queue = []; last_sent = [] }

  -- The template of a webhook: none is given, or it parses, or (`none`) it does not.
  unfoldable pub new_template : Types.Webhook V → Option (Option T)
  new_template w =
      if str_eq w.template []
      then some none
      else elim (parse w.template) [ none ↦ none | some t ↦ some (some t) ]

  -- The loop over the configured webhooks; `inl i` where the template at index `i` does not parse.
  unfoldable pub new_workers : ℕ → List (Types.Webhook V) → ℕ ⊎ List (WebhookWorker T V)
  new_workers i [] = inr []
  new_workers i (w ∷ ws) =
      let rest = new_workers (suc i) ws in
      elim (new_template w) [
        | none ↦ inl i
        | some tmpl ↦ elim rest [ inl j ↦ inl j | inr workers ↦ inr (new_worker w tmpl ∷ workers) ]
      ]

  -- `inr none` is the nil notifier.
  unfoldable pub new_notifier : Types.Alerts V → ℕ ⊎ Option (Notifier T V)
  new_notifier cfg = elim cfg.webhooks [
    | [] ↦ inr none
    | w ∷ ws ↦ elim (new_workers 0 (w ∷ ws)) [
      | inl i ↦ inl i
      | inr workers ↦ inr (
          some (record {
            workers = workers;
            max_retries = cfg.notify_max_retries;
            backoff = seconds cfg.notify_retry_backoff_seconds;
            min_interval = seconds cfg.notify_min_interval_seconds;
          }))
    ]
  ]

-- The strings of the levels and kinds.
abbrev pub level_name : Level → Bytes
level_name ok = codes "ok"
level_name warn = codes "warn"
level_name crit = codes "crit"

abbrev pub kind_name : Kind → Bytes
kind_name fired = codes "fired"
kind_name cleared = codes "cleared"

pub record EventView (V : Type 0) : Type 0 where
  pub metric : Bytes
  pub resource : Bytes
  pub kind : Kind
  pub from : Level
  pub to : Level
  pub value : V
  pub at : ℤ
  pub message : Bytes

module _ {V : Type 0} (show_value : V → Bytes) where
  -- `show_value` is the verb `%.1f` of package fmt.
  unfoldable pub format_message : Event V → Bytes
  format_message ev =
      ev.metric
      ++ (if str_eq ev.resource [] then [] else codes " (" ++ ev.resource ++ codes ")")
      ++ codes " "
      ++ kind_name ev.kind
      ++ codes ": "
      ++ level_name ev.from
      ++ codes " -> "
      ++ level_name ev.to
      ++ codes " ("
      ++ show_value ev.value
      ++ codes ")"

  unfoldable pub make_view : Event V → EventView V
  make_view ev = record {
    metric = ev.metric;
    resource = ev.resource;
    kind = ev.kind;
    from = ev.from;
    to = ev.to;
    value = ev.value;
    at = ev.at;
    message = format_message ev;
  }

  unfoldable pub render_body :
      {T : Type 0}
      → (T → EventView V → Option Bytes)
      → (EventView V → Option Bytes)
      → Webhook T
      → Event V
      → Option Bytes
  render_body execute marshal wh ev = elim wh.tmpl [
    | some t ↦ execute t (make_view ev)
    | none ↦ marshal (make_view ev)
  ]

module _ {V : Type 0} where
  -- The more severe side of the transition decides.
  unfoldable pub event_reaches : Event V → Level → Bool
  event_reaches ev min_level =
      let peak : ℕ =
        if ltb (severity ev.from) (severity ev.to) then severity ev.to else severity ev.from in
      leb (severity min_level) peak

  unfoldable pub rate_limit_key : Event V → Bytes
  rate_limit_key ev = ev.metric ++ 0 ∷ ev.resource
