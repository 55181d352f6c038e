-- ===== src/Config/Laws.antt =====
-- internal/config/config.go: what a validated configuration guarantees.
use pi_monitor.Prelude.{
  ℕ, suc, ◌≡◌, refl, sym, Bool, true, false, not, ◌||◌, ◌⊎◌, inl, inr, List, [], ◌∷◌, All, Option,
  none, some, if◌then◌else◌, Bool-cases, arith,
}
use pi_monitor.Prelude.Int.{ℤ, pos, ◌≤ℤ◌, ltb_ℤ}
use pi_monitor.Prelude.Bytes.{Bytes}
use pi_monitor.Prelude.Arith.{Arith}
use pi_monitor.Alert.Types.{Thresholds}
use pi_monitor.Config.Types.{Webhook, Alerts, Config, capacity_ratio, history_capacity}
use pi_monitor.Config.Validate.{
  ConfigError, max_retries, retry_backoff, min_interval, processes_top_n, ◌or_else◌, reject,
  is_empty, valid_log_level, valid_alert_min_level, differ, negative, validate_timing,
  validate_server, validate_pair, validate_thresholds, validate_webhooks, validate_alerts, validate,
}

pub or_else-none : (e f : Option ConfigError) → e or_else f ≡ none → (e ≡ none) × (f ≡ none)
unfolding ◌or_else◌
or_else-none none f h = (refl, h)
or_else-none (some e) f h = absurd cc

reject-none : (b : Bool) (e : ConfigError) → reject b e ≡ none → b ≡ false
unfolding reject
reject-none true e h = absurd cc
reject-none false e h = refl

differ-false : (b d : Bool) → differ b d ≡ false → b ≡ d
differ-false true true h = refl
differ-false true false h = h
differ-false false d h = sym h

not-false : (b : Bool) → not b ≡ false → b ≡ true
not-false true h = refl
not-false false h = sym h

not_below : (x y : ℤ) → ltb_ℤ x y ≡ false → y ≤ℤ x
not_below x y h = ground arith

or-false : (b d : Bool) → (b || d) ≡ false → (b ≡ false) × (d ≡ false)
or-false true d h = absurd cc
or-false false d h = (refl, h)

clamped :
    (k : ℤ)
    → k ≤ℤ pos 1000000
    → (pos 1 ≤ℤ (if ltb_ℤ k (pos 1) then pos 1 else k))
      × ((if ltb_ℤ k (pos 1) then pos 1 else k) ≤ℤ pos 1000000)
clamped k h = elim (Bool-cases (ltb_ℤ k (pos 1))) [
  | inl e ↦ rw e (omega arith, omega arith)
  | inr e ↦ rw e (not_below k (pos 1) e, h)
]

module _ {V : Type 0} ⦃a : Arith V⦄ where
  -- A webhook has an address and a known severity.
  abbrev pub WebhookValid : Webhook V → Type 0
  WebhookValid w =
      (is_empty w.url ≡ false)
      × (valid_alert_min_level w.min_level ≡ true)
      × (negative w.timeout_seconds ≡ false)

  -- A pair of cutoffs is in order.
  abbrev pub PairValid : V → V → Type 0
  PairValid warn crit = (negative warn ≡ false) × (negative crit ≡ false) × (a.lt crit warn ≡ false)

  -- What the rest of the service relies on.
  abbrev pub Guaranteed : Config V → Type 0
  Guaranteed c =
      (a.le c.poll_interval_seconds (a.number 0) ≡ false)
      × (a.le c.history_window_minutes (a.number 0) ≡ false)
      × ((a.le (capacity_ratio c) (capacity_ratio c) ≡ false)
          ⊎ ((pos 1 ≤ℤ history_capacity c) × (history_capacity c ≤ℤ pos 1000000)))
      × (is_empty c.tls_cert_file ≡ is_empty c.tls_key_file)
      × (valid_log_level c.log_level ≡ true)
      × PairValid c.thresholds.temperature_warn_c c.thresholds.temperature_crit_c
      × PairValid c.thresholds.cpu_warn_percent c.thresholds.cpu_crit_percent
      × PairValid c.thresholds.disk_warn_percent c.thresholds.disk_crit_percent
      × PairValid c.thresholds.swap_warn_percent c.thresholds.swap_crit_percent
      × PairValid c.thresholds.memory_warn_percent c.thresholds.memory_crit_percent
      × (pos 0 ≤ℤ c.alerts.notify_max_retries)
      × All WebhookValid c.alerts.webhooks
      × (pos 1 ≤ℤ c.processes_top_n)
      × (c.processes_top_n ≤ℤ pos 100)

  -- The number of points per series, where the ratio of window and interval is a number.
  capacity_lem :
      (c : Config V)
      → a.le c.poll_interval_seconds (a.number 0) ≡ false
      → a.lt (a.number 1000000) (capacity_ratio c) ≡ false
      → (a.le (capacity_ratio c) (capacity_ratio c) ≡ false)
        ⊎ ((pos 1 ≤ℤ history_capacity c) × (history_capacity c ≤ℤ pos 1000000))
  unfolding history_capacity
  capacity_lem c p h = elim (Bool-cases (a.le (capacity_ratio c) (capacity_ratio c))) [
    | inr e ↦ inl e
    | inl e ↦
        let below = a.le_of-lt (capacity_ratio c) (a.number 1000000) e (a.le-number 1000000) h in
        let few = a.truncate_le (capacity_ratio c) 1000000 (omega arith) below in
        inr (rw p (clamped (a.truncate (capacity_ratio c)) few))
  ]

  validate_pair-valid :
      (name : Bytes) (warn crit : V) → validate_pair name warn crit ≡ none → PairValid warn crit
  unfolding validate_pair
  validate_pair-valid name warn crit h =
      let (e, h1) = or_else-none _ _ h in
      let (f, g) = or_else-none _ _ h1 in (reject-none _ _ e, reject-none _ _ f, reject-none _ _ g)

  validate_webhooks-valid :
      (i : ℕ) (ws : List (Webhook V)) → validate_webhooks i ws ≡ none → All WebhookValid ws
  unfolding validate_webhooks
  validate_webhooks-valid i [] h = tt
  validate_webhooks-valid i (w ∷ ws) h =
      let (e, h1) = or_else-none _ _ h in
      let (f, h2) = or_else-none _ _ h1 in
      let (g, h3) = or_else-none _ _ h2 in
      (
        (reject-none _ _ e, not-false _ (reject-none _ _ f), reject-none _ _ g),
        validate_webhooks-valid (suc i) ws h3,
      )

  validate_timing-valid :
      (c : Config V)
      → validate_timing c ≡ none
      → (a.le c.poll_interval_seconds (a.number 0) ≡ false)
        × (a.le c.history_window_minutes (a.number 0) ≡ false)
        × (a.lt (a.number 1000000) (capacity_ratio c) ≡ false)
  unfolding validate_timing
  validate_timing-valid c h =
      let (e1, h1) = or_else-none _ _ h in
      let (e2, h2) = or_else-none _ _ h1 in
      let (e3, h3) = or_else-none _ _ h2 in
      let (e4, e5) = or_else-none _ _ h3 in
      (reject-none _ _ e1, reject-none _ _ e4, reject-none _ _ e5)

  validate_server-valid :
      (c : Config V)
      → validate_server c ≡ none
      → (is_empty c.tls_cert_file ≡ is_empty c.tls_key_file) × (valid_log_level c.log_level ≡ true)
  unfolding validate_server
  validate_server-valid c h =
      let (e1, h1) = or_else-none _ _ h in
      let (e2, h2) = or_else-none _ _ h1 in
      let (e3, h3) = or_else-none _ _ h2 in
      let (e4, h4) = or_else-none _ _ h3 in
      let (e5, e6) = or_else-none _ _ h4 in
      (differ-false _ _ (reject-none _ _ e5), not-false _ (reject-none _ _ e3))

  validate_thresholds-valid :
      (t : Thresholds V)
      → validate_thresholds t ≡ none
      → PairValid t.temperature_warn_c t.temperature_crit_c
        × PairValid t.cpu_warn_percent t.cpu_crit_percent
        × PairValid t.disk_warn_percent t.disk_crit_percent
        × PairValid t.swap_warn_percent t.swap_crit_percent
        × PairValid t.memory_warn_percent t.memory_crit_percent
  unfolding validate_thresholds
  validate_thresholds-valid t h =
      let (e1, h1) = or_else-none _ _ h in
      let (e2, h2) = or_else-none _ _ h1 in
      let (e3, h3) = or_else-none _ _ h2 in
      let (e4, e5) = or_else-none _ _ h3 in
      (
        validate_pair-valid _ _ _ e1,
        validate_pair-valid _ _ _ e2,
        validate_pair-valid _ _ _ e3,
        validate_pair-valid _ _ _ e4,
        validate_pair-valid _ _ _ e5,
      )

  validate_alerts-valid :
      (s : Alerts V)
      → validate_alerts s ≡ none
      → (pos 0 ≤ℤ s.notify_max_retries) × All WebhookValid s.webhooks
  unfolding validate_alerts
  validate_alerts-valid s h =
      let below = ltb_ℤ s.notify_max_retries (pos 0) in
      let (e1, h1) = or_else-none (reject below max_retries) _ h in
      let (e2, h2) =
        or_else-none (reject (negative s.notify_retry_backoff_seconds) retry_backoff) _ h1 in
      let (e3, h3) =
        or_else-none (reject (negative s.notify_min_interval_seconds) min_interval) _ h2 in
      (
        not_below s.notify_max_retries (pos 0) (reject-none below max_retries e1),
        validate_webhooks-valid 0 s.webhooks h3,
      )

  -- A configuration that `Validate` accepts has a poll interval and a history window that are not
  -- zero or negative; from 1 to a million points per series, unless the ratio of the window and the
  -- interval is not a number; either both TLS files or neither, a known log level, cutoffs that are
  -- not negative and in order for every metric, no negative number of retries, an address and a known
  -- severity for every webhook, and 1 to 100 processes.
  pub validate-Guaranteed : (c : Config V) → validate c ≡ none → Guaranteed c
  unfolding validate
  validate-Guaranteed c h =
      let (e1, h1) = or_else-none _ _ h in
      let (e2, h2) = or_else-none _ _ h1 in
      let (e3, h3) = or_else-none _ _ h2 in
      let (e4, h4) = or_else-none _ _ h3 in
      let (e5, e6) = or_else-none _ _ h4 in
      let t = validate_timing-valid c e1 in
      let s = validate_server-valid c e2 in
      let p = validate_thresholds-valid c.thresholds e3 in
      let n = validate_alerts-valid c.alerts e5 in
      let few = ltb_ℤ c.processes_top_n (pos 1) in
      let many = ltb_ℤ (pos 100) c.processes_top_n in
      let r = or-false few many (reject-none (few || many) processes_top_n e6) in
      (
        t.0,
        t.1,
        capacity_lem c t.0 t.2,
        s.0,
        s.1,
        p.0,
        p.1,
        p.2,
        p.3,
        p.4,
        n.0,
        n.1,
        not_below c.processes_top_n (pos 1) (r.0),
        not_below (pos 100) c.processes_top_n (r.1),
      )
