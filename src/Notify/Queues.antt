-- ===== src/Notify/Queues.antt =====
-- internal/alert/notify.go: what `Notify` leaves in the queue of each webhook.
use pi_monitor.Prelude.{
  ℕ, ◌≤◌, ◌≡◌, refl, sym, ap, ◌∙◌, inl, inr, List, [], ◌∷◌, ◌++◌, map, length, take, take-all,
  take-append, All, ltb, if◌then◌else◌, Bool-cases, ltb→lt, ltb-false→le, append_assoc, append-nil,
  length-append, arith,
}
use pi_monitor.Alert.Types.{Event}
use pi_monitor.Notify.Types.{WebhookWorker, event_reaches}
use pi_monitor.Notify.Dispatch.{offer, notify}

take-full : {A : Type 0} (n : ℕ) (xs ys : List A) → length xs ≡ n → take n (xs ++ ys) ≡ xs
take-full n xs ys h = ap (λ i. take i (xs ++ ys)) (sym h) ∙ take-append xs ys

module _ {T V : Type 0} where
  -- The events of a batch that are meant for a worker.
  abbrev pub wanted : WebhookWorker T V → List (Event V) → List (Event V)
  wanted w [] = []
  wanted w (ev ∷ events) =
      if event_reaches ev w.wh.min_level then ev ∷ wanted w events else wanted w events

  -- The worker after a batch that meets no other worker.
  abbrev pub queued : List (Event V) → WebhookWorker T V → WebhookWorker T V
  queued events w = record w { queue = take 256 (w.queue ++ wanted w events) }

  offer_all : List (Event V) → WebhookWorker T V → WebhookWorker T V
  offer_all [] w = w
  offer_all (ev ∷ events) w = offer_all events (offer ev w)

  notify-offer_all :
      (events : List (Event V)) (workers : List (WebhookWorker T V))
      → notify events workers ≡ map (offer_all events) workers
  unfolding notify offer_all
  notify-offer_all [] workers = sym (map_same workers)
    where
      map_same : (ws : List (WebhookWorker T V)) → map (λ w. w) ws ≡ ws
      map_same [] = refl
      map_same (w ∷ ws) = ap (◌∷◌ w) (map_same ws)
  notify-offer_all (ev ∷ events) workers =
      notify-offer_all events (map (offer ev) workers) ∙ map_twice workers
    where
      map_twice :
          (ws : List (WebhookWorker T V))
          → map (offer_all events) (map (offer ev) ws) ≡ map (λ w. offer_all events (offer ev w)) ws
      map_twice [] = refl
      map_twice (w ∷ ws) = ap (◌∷◌ (offer_all events (offer ev w))) (map_twice ws)

  offer_all-queued :
      (events : List (Event V)) (w : WebhookWorker T V)
      → length w.queue ≤ 256
      → offer_all events w ≡ queued events w
  unfolding offer_all offer
  offer_all-queued [] w h =
      ap (λ q. record w { queue = q })
        (sym (ap (take 256) (append-nil w.queue) ∙ take-all 256 w.queue h))
  offer_all-queued (ev ∷ events) w h = elim (Bool-cases (event_reaches ev w.wh.min_level)) [
    | inr e ↦ rw e (offer_all-queued events w h)
    | inl e ↦ rw e (elim (Bool-cases (ltb (length w.queue) 256)) [
      | inl l ↦ rw l (
          offer_all-queued events (record w { queue = w.queue ++ ev ∷ [] })
            (omega (arith, ltb→lt (length w.queue) 256 l, length-append w.queue (ev ∷ [])))
          ∙ ap (λ q. record w { queue = take 256 q })
              (append_assoc w.queue (ev ∷ []) (wanted w events)))
      | inr l ↦
          let full : length w.queue ≡ 256 = omega (arith, h, ltb-false→le (length w.queue) 256 l) in
          rw l (
            offer_all-queued events w h
            ∙ ap (λ q. record w { queue = q })
                (take-full 256 w.queue (wanted w events) full
                  ∙ sym (take-full 256 w.queue (ev ∷ wanted w events) full)))
    ])
  ]

  -- No queue is over its limit.
  abbrev pub QueuesBounded : List (WebhookWorker T V) → Type 0
  QueuesBounded workers = All (λ w. length w.queue ≤ 256) workers

  -- With every queue within its limit, `Notify` appends to each worker's queue, in order, the events
  -- that reach that worker's own severity, keeps the first 256, and changes nothing else: what one
  -- worker gets does not depend on any other, and a full queue loses only the newest events.
  pub notify-queued :
      (events : List (Event V)) (workers : List (WebhookWorker T V))
      → QueuesBounded workers
      → notify events workers ≡ map (queued events) workers
  notify-queued events workers h = notify-offer_all events workers ∙ each workers h
    where
      each :
          (ws : List (WebhookWorker T V))
          → QueuesBounded ws
          → map (offer_all events) ws ≡ map (queued events) ws
      each [] h = refl
      each (w ∷ ws) h =
          let (f, g) = h in
          rw (offer_all-queued events w f) (ap (◌∷◌ (queued events w)) (each ws g))
