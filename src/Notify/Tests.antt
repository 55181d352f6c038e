-- ===== src/Notify/Tests.antt =====
-- Runs of the notifier, and its theorems at concrete events and endpoints.
use pi_monitor.Prelude.{
  ℕ, zero, suc, ◌≤◌, ◌<◌, ◌≡◌, refl, true, false, [], ◌∷◌, map, length, Option, none, some, inl,
  arith,
}
use pi_monitor.Prelude.Int.{pos, ◌-ℤ◌, ◌*ℤ◌, ◌≤ℤ◌}
use pi_monitor.Prelude.Bytes.{Bytes, codes, str_eq}
use pi_monitor.Prelude.Maps.{lookup, insert}
use pi_monitor.Alert.Types.{ok, warn, crit, fired, cleared, Event}
use pi_monitor.Notify.Types.{Webhook, WebhookWorker, event_reaches, rate_limit_key}
use pi_monitor.Notify.Deliver.{
  transport, status_error, Delivery, post, retryable, sleep_ctx, deliver, deliver_from,
}
use pi_monitor.Notify.Dispatch.{notify, dispatch, offer, rate_limited, record_sent}
use pi_monitor.Notify.Attempts.{Retried, doubling, deliver_lem, deliver-Decides}
use pi_monitor.Notify.Queues.{queued, notify-queued}
use pi_monitor.Notify.Limit.{dispatch-interval}

-- An endpoint that is overloaded twice and then accepts.
abbrev recovering : ℕ → Option ℕ
recovering zero = some 503
recovering (suc zero) = none
recovering (suc (suc n)) = some 204

-- An endpoint that does not know the path.
abbrev missing : ℕ → Option ℕ
missing n = some 404

delivers :
    deliver recovering (λ i. true) (pos 3) (pos 1000)
    ≡ record { delivered = true; attempts = 3; waits = pos 1000 ∷ pos 2000 ∷ [] }
unfolding deliver deliver_from post retryable sleep_ctx ◌*ℤ◌
delivers = refl

gives_up :
    deliver missing (λ i. true) (pos 3) (pos 1000)
    ≡ record { delivered = false; attempts = 1; waits = [] }
unfolding deliver deliver_from post retryable
gives_up = refl

deliver_lem_example :
    (1 ≤ (deliver recovering (λ i. true) (pos 3) (pos 1000)).attempts)
    × ((deliver recovering (λ i. true) (pos 3) (pos 1000)).attempts ≤ 4)
    × ((deliver recovering (λ i. true) (pos 3) (pos 1000)).waits
        ≡ doubling (length (deliver recovering (λ i. true) (pos 3) (pos 1000)).waits) (pos 1000))
    × (length (deliver recovering (λ i. true) (pos 3) (pos 1000)).waits
        ≤ (deliver recovering (λ i. true) (pos 3) (pos 1000)).attempts)
deliver_lem_example = deliver_lem recovering (λ i. true) (pos 3) (pos 1000)

recovering_before : (j : ℕ) → j < 2 → Retried (recovering j) × (true ≡ true)
unfolding post retryable
recovering_before zero h = ((status_error 503, refl, refl), refl)
recovering_before (suc zero) h = ((transport, refl, refl), refl)
recovering_before (suc (suc j)) h = absurd (omega arith)

deliver-Decides_example :
    ((deliver recovering (λ i. true) (pos 3) (pos 1000)).delivered ≡ true)
    × ((deliver recovering (λ i. true) (pos 3) (pos 1000)).attempts ≡ 3)
unfolding post
deliver-Decides_example =
    deliver-Decides recovering (λ i. true) (pos 3) (pos 1000) 2 true (omega arith) recovering_before
      refl

abbrev firing : Event ℕ
firing = record {
  metric = codes "cpu";
  resource = [];
  kind = fired;
  from = ok;
  to = warn;
  value = 85;
  at = pos 100;
}

abbrev hook : Webhook ℕ
hook = record {
  url = codes "http://ha.local/hook";
  min_level = warn;
  tmpl = none;
  timeout = pos 10000000000;
  content_type = codes "application/json";
}

abbrev idle : WebhookWorker ℕ ℕ
idle = record { wh = hook; queue = []; last_sent = [] }

abbrev critical_only : WebhookWorker ℕ ℕ
critical_only = record idle { wh = record hook { min_level = crit } }

queues :
    notify (firing ∷ []) (idle ∷ critical_only ∷ [])
    ≡ record idle { queue = firing ∷ [] } ∷ critical_only ∷ []
unfolding notify offer event_reaches
queues = refl

notify-queued_example :
    notify (firing ∷ []) (idle ∷ critical_only ∷ [])
    ≡ map (queued (firing ∷ [])) (idle ∷ critical_only ∷ [])
notify-queued_example =
    notify-queued (firing ∷ []) (idle ∷ critical_only ∷ []) (omega arith, (omega arith, tt))

abbrev as_text : Webhook ℕ → Event ℕ → Option Bytes
as_text wh ev = some ev.metric

abbrev accepted : Webhook ℕ → Bytes → Delivery
accepted wh body = record { delivered = true; attempts = 1; waits = [] }

abbrev recovered : Event ℕ
recovered = record firing { kind = cleared; from = warn; to = ok; at = pos 101 }

abbrev next_firing : Event ℕ
next_firing = record firing { at = pos 106 }

-- A firing event of another metric comes between.
abbrev other : Event ℕ
other = record firing { metric = codes "swap"; at = pos 103 }

too_soon :
    (dispatch as_text accepted (pos 5) (dispatch as_text accepted (pos 5) idle firing).0 other).1
    ≡ some (accepted hook [])
unfolding dispatch rate_limited record_sent rate_limit_key lookup insert str_eq ◌-ℤ◌
too_soon = refl

dispatch-interval_example : pos 5 ≤ℤ (pos 106 -ℤ pos 100)
unfolding dispatch rate_limited record_sent rate_limit_key lookup insert str_eq ◌-ℤ◌
dispatch-interval_example =
    dispatch-interval as_text accepted (pos 5) idle firing (accepted hook []) (other ∷ [])
      next_firing (accepted hook []) refl refl refl (inl refl, tt) refl refl refl
