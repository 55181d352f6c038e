-- ===== src/Run/Queues.antt =====
-- internal/alert/notify.go and alert.go: the bounds of the queues and of the alert history, as they are
-- kept by what a running collector does to them.
use pi_monitor.Prelude.{
  ℕ, ◌≤◌, ◌≡◌, refl, not, ◌&&◌, inl, inr, List, [], ◌∷◌, ◌++◌, Option, none, some, map, length,
  get_elem?, set, length-take, ltb, Bool-cases, Option-cases, List-cases, some_inj, zero, suc,
  arith,
}
use pi_monitor.Prelude.Int.{ℤ, pos, leb_ℤ}
use pi_monitor.Prelude.Bytes.{Bytes}
use pi_monitor.Prelude.Maps.{DistinctKeys}
use pi_monitor.Alert.Types.{Engine, Event}
use pi_monitor.Notify.Types.{Webhook, WebhookWorker}
use pi_monitor.Notify.Deliver.{Delivery}
use pi_monitor.Notify.Dispatch.{rate_limited, is_cleared, record_sent, dispatch, work_one}
use pi_monitor.Notify.Queues.{QueuesBounded, queued, wanted, notify-queued}
use pi_monitor.Run.Ticks.{forward, work_at}

module _ {V : Type 0} where
  -- The alert history is within its limit, and each state stands once.
  abbrev pub EngineSound : Option (Engine V) → Type 0
  EngineSound none = Unit
  EngineSound (some e) = (length e.events ≤ e.max_events) × DistinctKeys e.states

module _ {T V : Type 0} where
  abbrev pub NotifierSound : Option (List (WebhookWorker T V)) → Type 0
  NotifierSound none = Unit
  NotifierSound (some workers) = QueuesBounded workers

  queued-QueuesBounded :
      (events : List (Event V)) (workers : List (WebhookWorker T V))
      → QueuesBounded (map (queued events) workers)
  queued-QueuesBounded events [] = tt
  queued-QueuesBounded events (w ∷ workers) = (
    omega (arith, length-take 256 (w.queue ++ wanted w events)),
    queued-QueuesBounded events workers,
  )

  pub forward-NotifierSound :
      (events : List (Event V)) (notifier : Option (List (WebhookWorker T V)))
      → NotifierSound notifier
      → NotifierSound (forward events notifier)
  unfolding forward
  forward-NotifierSound events none h = tt
  forward-NotifierSound events (some workers) h = elim (Bool-cases (ltb 0 (length events))) [
    | inl e ↦ rw e (rw (notify-queued events workers h) (queued-QueuesBounded events workers))
    | inr e ↦ rw e h
  ]

  record_sent-queue :
      (min_interval : ℤ) (w : WebhookWorker T V) (ev : Event V)
      → (record_sent min_interval w ev).queue ≡ w.queue
  record_sent-queue min_interval w ev = elim (Bool-cases (leb_ℤ min_interval (pos 0))) [
    | inl e ↦ unfold record_sent in rw (record_sent, e) refl
    | inr e ↦ unfold record_sent in rw (record_sent, e) refl
  ]

  dispatch-queue :
      (render : Webhook T → Event V → Option Bytes) (send : Webhook T → Bytes → Delivery)
      (min_interval : ℤ) (w : WebhookWorker T V) (ev : Event V)
      → (dispatch render send min_interval w ev).0.queue ≡ w.queue
  dispatch-queue render send min_interval w ev =
      elim (Bool-cases (not (is_cleared ev.kind) && rate_limited min_interval w ev)) [
        | inl e ↦ unfold dispatch in rw (dispatch, e) refl
        | inr e ↦ elim (Option-cases (render w.wh ev)) [
          | inl r ↦ unfold dispatch in rw (dispatch, e, r) refl
          | inr (body, r) ↦ elim (Bool-cases (send w.wh body).delivered) [
            | inl d ↦
                unfold dispatch in rw (dispatch, e, r, d) (record_sent-queue min_interval w ev)
            | inr d ↦ unfold dispatch in rw (dispatch, e, r, d) refl
          ]
        ]
      ]

  set-QueuesBounded :
      (workers : List (WebhookWorker T V)) (i : ℕ) (w : WebhookWorker T V)
      → length w.queue ≤ 256
      → QueuesBounded workers
      → QueuesBounded (set workers i w)
  set-QueuesBounded [] i w h q = tt
  set-QueuesBounded (v ∷ workers) zero w h q = (h, q.1)
  set-QueuesBounded (v ∷ workers) (suc i) w h q = (q.0, set-QueuesBounded workers i w h q.1)

  get-QueuesBounded :
      (workers : List (WebhookWorker T V)) (i : ℕ) (w : WebhookWorker T V)
      → QueuesBounded workers
      → get_elem? workers i ≡ some w
      → length w.queue ≤ 256
  get-QueuesBounded [] i w q h = absurd cc
  get-QueuesBounded (v ∷ workers) zero w q h = rw (← some_inj h) q.0
  get-QueuesBounded (v ∷ workers) (suc i) w q h = get-QueuesBounded workers i w q.1 h

  module _ (render : Webhook T → Event V → Option Bytes) (send : Webhook T → Bytes → Delivery)
      (min_interval : ℤ) where
    work_one-queue :
        (w : WebhookWorker T V)
        → length w.queue ≤ 256
        → length (work_one render send min_interval w).0.queue ≤ 256
    work_one-queue w h = elim (List-cases w.queue) [
      | inl e ↦ unfold work_one in rw (work_one, e) (omega arith)
      | inr (ev, rest, e) ↦
          unfold work_one in
          rw (work_one, e)
            (rw (dispatch-queue render send min_interval record w { queue = rest } ev)
              (omega (arith, rw e at h)))
    ]

    pub work_at-QueuesBounded :
        (i : ℕ) (workers : List (WebhookWorker T V))
        → QueuesBounded workers
        → QueuesBounded (work_at render send min_interval i workers)
    work_at-QueuesBounded i workers q = elim (Option-cases (get_elem? workers i)) [
      | inl e ↦ unfold work_at in rw (work_at, e) q
      | inr (w, e) ↦
          unfold work_at in
          rw (work_at, e)
            (set-QueuesBounded workers i _ (work_one-queue w (get-QueuesBounded workers i w q e)) q)
    ]
