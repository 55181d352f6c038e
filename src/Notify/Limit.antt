-- ===== src/Notify/Limit.antt =====
-- internal/alert/notify.go: what the rate limit of a webhook lets through.
use pi_monitor.Prelude.{
  ◌≡◌, refl, ap, ◌∙◌, true, false, ◌⊎◌, inl, inr, List, [], ◌∷◌, Option, none, some, Bool-cases,
  Option-cases, arith, some_inj,
}
use pi_monitor.Prelude.Int.{ℤ, pos, ◌-ℤ◌, ◌≤ℤ◌, leb_ℤ, ltb_ℤ}
use pi_monitor.Prelude.Bytes.{Bytes, str_eq, str_eq_refl}
use pi_monitor.Prelude.Maps.{lookup, lookup-insert}
use pi_monitor.Alert.Types.{fired, cleared, Event}
use pi_monitor.Notify.Types.{Webhook, WebhookWorker, rate_limit_key}
use pi_monitor.Notify.Deliver.{Delivery}
use pi_monitor.Notify.Dispatch.{is_cleared, rate_limited, record_sent, settle_delivery, dispatch}

module _ {T V : Type 0} (render : Webhook T → Event V → Option Bytes)
    (send : Webhook T → Bytes → Delivery) (min_interval : ℤ) where
  -- The worker after a sequence of events.
  abbrev pub run : WebhookWorker T V → List (Event V) → WebhookWorker T V
  run w [] = w
  run w (ev ∷ events) = run (dispatch render send min_interval w ev).0 events

  -- An event that does not count for a stream: of another one, or not delivered.
  abbrev pub Ignored : Bytes → WebhookWorker T V → Event V → Type 0
  Ignored key w ev =
      (str_eq (rate_limit_key ev) key ≡ false)
      ⊎ ((d : Delivery) → (dispatch render send min_interval w ev).1 ≡ some d → d.delivered ≡ false)

  abbrev pub AllIgnored : Bytes → WebhookWorker T V → List (Event V) → Type 0
  AllIgnored key w [] = Unit
  AllIgnored key w (ev ∷ events) =
      Ignored key w ev × AllIgnored key (dispatch render send min_interval w ev).0 events

  -- A cleared event is never held back: where its body is rendered, it is sent.
  dispatch-cleared :
      (w : WebhookWorker T V) (ev : Event V) (body : Bytes)
      → ev.kind ≡ cleared
      → render w.wh ev ≡ some body
      → (dispatch render send min_interval w ev).1 ≡ some (send w.wh body)
  unfolding dispatch
  dispatch-cleared w ev body k e =
      let c : is_cleared ev.kind ≡ true = ap is_cleared k in rw (dispatch, c, e)

  -- `dispatch` either tries nothing and keeps the worker, or settles one delivery.
  abbrev Outcome : WebhookWorker T V → Event V → Type 0
  Outcome w ev =
      (dispatch render send min_interval w ev ≡ (w, none))
      ⊎ ((d : Delivery) × (dispatch render send min_interval w ev
            ≡ settle_delivery min_interval w ev d)
          × ((is_cleared ev.kind ≡ true) ⊎ (rate_limited min_interval w ev ≡ false)))

  dispatch_lem : (w : WebhookWorker T V) (ev : Event V) → Outcome w ev
  unfolding dispatch
  dispatch_lem w ev = elim (Option-cases (render w.wh ev)) [
    | inl e ↦ inl (elim (Bool-cases (is_cleared ev.kind)) [
      | inl c ↦ rw (dispatch, c, e)
      | inr c ↦ elim (Bool-cases (rate_limited min_interval w ev)) [
        | inl r ↦ rw (dispatch, c, r)
        | inr r ↦ rw (dispatch, c, r, e)
      ]
    ])
    | inr (body, e) ↦ elim (Bool-cases (is_cleared ev.kind)) [
      | inl c ↦ inr (send w.wh body, rw (dispatch, c, e), inl c)
      | inr c ↦ elim (Bool-cases (rate_limited min_interval w ev)) [
        | inl r ↦ inl (rw (dispatch, c, r))
        | inr r ↦ inr (send w.wh body, rw (dispatch, c, r, e), inr r)
      ]
    ]
  ]

  dispatch-Ignored :
      (key : Bytes) (w : WebhookWorker T V) (ev : Event V)
      → Ignored key w ev
      → lookup key (dispatch render send min_interval w ev).0.last_sent ≡ lookup key w.last_sent
  unfolding record_sent
  dispatch-Ignored key w ev h = elim (dispatch_lem w ev) [
    | inl e ↦ rw e
    | inr (d, e, _) ↦ rw e (elim (Bool-cases d.delivered) [
      | inr f ↦ rw f
      | inl f ↦ rw f (elim (Bool-cases (leb_ℤ min_interval (pos 0))) [
        | inl z ↦ rw z
        | inr z ↦ rw z (elim h [
          | inl k ↦ rw (lookup-insert (rate_limit_key ev) key ev.at w.last_sent, k)
          | inr k ↦ absurd (cc (k d (ap (λ p. p.1) e)))
        ])
      ])
    ])
  ]

  run-Ignored :
      (key : Bytes) (w : WebhookWorker T V) (events : List (Event V))
      → AllIgnored key w events
      → lookup key (run w events).last_sent ≡ lookup key w.last_sent
  run-Ignored key w [] h = refl
  run-Ignored key w (ev ∷ events) h =
      run-Ignored key (dispatch render send min_interval w ev).0 events (h.1)
      ∙ dispatch-Ignored key w ev (h.0)

  dispatch-delivered :
      (w : WebhookWorker T V) (ev : Event V) (d : Delivery)
      → leb_ℤ min_interval (pos 0) ≡ false
      → (dispatch render send min_interval w ev).1 ≡ some d
      → d.delivered ≡ true
      → lookup (rate_limit_key ev) (dispatch render send min_interval w ev).0.last_sent ≡ some ev.at
  unfolding record_sent
  dispatch-delivered w ev d z h f = elim (dispatch_lem w ev) [
    | inl e ↦ absurd (cc (rw e at h))
    | inr (d', e, _) ↦
        let same : d' ≡ d = some_inj (rw e at h) in
        rw (e, same, f, z)
          (lookup-insert (rate_limit_key ev) (rate_limit_key ev) ev.at w.last_sent
            ∙ rw (str_eq_refl (rate_limit_key ev)))
  ]

  dispatch-spaced :
      (w : WebhookWorker T V) (ev : Event V) (d : Delivery) (last : ℤ)
      → leb_ℤ min_interval (pos 0) ≡ false
      → ev.kind ≡ fired
      → lookup (rate_limit_key ev) w.last_sent ≡ some last
      → (dispatch render send min_interval w ev).1 ≡ some d
      → min_interval ≤ℤ (ev.at -ℤ last)
  unfolding rate_limited
  dispatch-spaced w ev d last z k l h = elim (dispatch_lem w ev) [
    | inl e ↦ absurd (cc (rw e at h))
    | inr (d', e, inl c) ↦ absurd (cc (rw k at c))
    | inr (d', e, inr r) ↦ not_below (ev.at -ℤ last) min_interval (rw (rate_limited, z, l) at r)
  ]
    where
      not_below : (x y : ℤ) → ltb_ℤ x y ≡ false → y ≤ℤ x
      not_below x y h = ground arith

  -- With a positive interval, a firing event that a webhook is sent lies at least that interval after
  -- the last delivery of the same metric and resource, whatever other events and failed deliveries
  -- come between.
  pub dispatch-interval :
      (w : WebhookWorker T V) (ev : Event V) (d : Delivery) (between : List (Event V))
      (ev' : Event V) (d' : Delivery)
      → leb_ℤ min_interval (pos 0) ≡ false
      → (dispatch render send min_interval w ev).1 ≡ some d
      → d.delivered ≡ true
      → AllIgnored (rate_limit_key ev) (dispatch render send min_interval w ev).0 between
      → ev'.kind ≡ fired
      → rate_limit_key ev' ≡ rate_limit_key ev
      → (dispatch render send min_interval
          (run (dispatch render send min_interval w ev).0 between)
          ev').1
        ≡ some d'
      → min_interval ≤ℤ (ev'.at -ℤ ev.at)
  dispatch-interval w ev d between ev' d' z h f ignored k same h' =
      let first = (dispatch render send min_interval w ev).0 in
      dispatch-spaced (run first between) ev' d' ev.at z k
        (ap (λ key. lookup key (run first between).last_sent) same
          ∙ run-Ignored (rate_limit_key ev) first between ignored
          ∙ dispatch-delivered w ev d z h f)
        h'
