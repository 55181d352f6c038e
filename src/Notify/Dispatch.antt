-- ===== src/Notify/Dispatch.antt =====
-- internal/alert/notify.go: `Notify`, which only queues events, and `dispatch`, which a webhook's
-- own worker runs for each event that it takes from its queue.
use pi_monitor.Prelude.{
  Bool, true, false, not, ◌&&◌, List, [], ◌∷◌, ◌++◌, Option, none, some, map, length, ltb,
  if◌then◌else◌,
}
use pi_monitor.Prelude.Int.{ℤ, pos, leb_ℤ, ltb_ℤ, ◌-ℤ◌}
use pi_monitor.Prelude.Bytes.{Bytes}
use pi_monitor.Prelude.Maps.{lookup, insert}
use pi_monitor.Alert.Types.{Kind, fired, cleared, Event}
use pi_monitor.Notify.Types.{
  Webhook, WebhookWorker, default_notify_queue_size, event_reaches, rate_limit_key,
}
use pi_monitor.Notify.Deliver.{Delivery}

abbrev pub is_cleared : Kind → Bool
is_cleared cleared = true
is_cleared fired = false

module _ {T V : Type 0} where
  -- A send that does not block: an event that finds the queue full is dropped.
  unfoldable pub offer : Event V → WebhookWorker T V → WebhookWorker T V
  offer ev w =
      if event_reaches ev w.wh.min_level
      then (if ltb (length w.queue) default_notify_queue_size
          then record w { queue = w.queue ++ ev ∷ [] }
          else w)
      else w

  unfoldable pub notify : List (Event V) → List (WebhookWorker T V) → List (WebhookWorker T V)
  notify [] workers = workers
  notify (ev ∷ events) workers = notify events (map (offer ev) workers)

  unfoldable pub rate_limited : ℤ → WebhookWorker T V → Event V → Bool
  rate_limited min_interval w ev =
      if leb_ℤ min_interval (pos 0) then false else elim (lookup (rate_limit_key ev) w.last_sent) [
        | none ↦ false
        | some last ↦ ltb_ℤ (ev.at -ℤ last) min_interval
      ]

  unfoldable pub record_sent : ℤ → WebhookWorker T V → Event V → WebhookWorker T V
  record_sent min_interval w ev =
      if leb_ℤ min_interval (pos 0)
      then w
      else record w { last_sent = insert (rate_limit_key ev) ev.at w.last_sent }

  -- What a round of `dispatch` leaves: the worker, and the delivery where one was tried.
  abbrev pub settle_delivery :
      ℤ → WebhookWorker T V → Event V → Delivery → WebhookWorker T V × Option Delivery
  settle_delivery min_interval w ev d =
      (if d.delivered then record_sent min_interval w ev else w, some d)

  -- `render` is `renderBody` at the worker's webhook, `send` is `deliver` of a body.
  unfoldable pub dispatch :
      (Webhook T → Event V → Option Bytes)
      → (Webhook T → Bytes → Delivery)
      → ℤ
      → WebhookWorker T V
      → Event V
      → WebhookWorker T V × Option Delivery
  dispatch render send min_interval w ev =
      if not (is_cleared ev.kind) && rate_limited min_interval w ev
      then (w, none)
      else elim (render w.wh ev) [
        | none ↦ (w, none)
        | some body ↦ settle_delivery min_interval w ev (send w.wh body)
      ]

  -- The worker takes the first event of its queue.
  unfoldable pub work_one :
      (Webhook T → Event V → Option Bytes)
      → (Webhook T → Bytes → Delivery)
      → ℤ
      → WebhookWorker T V
      → WebhookWorker T V × Option Delivery
  work_one render send min_interval w = elim w.queue [
    | [] ↦ (w, none)
    | ev ∷ rest ↦ dispatch render send min_interval (record w { queue = rest }) ev
  ]
