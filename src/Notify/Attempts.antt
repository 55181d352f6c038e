-- ===== src/Notify/Attempts.antt =====
-- internal/alert/notify.go: how many attempts `deliver` makes, when it stops, and how long it waits.
use pi_monitor.Prelude.{
  ℕ, zero, suc, ◌+◌, ◌≤◌, ◌<◌, ◌≡◌, refl, ap, Bool, true, false, inl, inr, List, [], ◌∷◌, Option,
  none, some, length, Bool-cases, Option-cases, arith,
}
use pi_monitor.Prelude.Int.{ℤ, pos, pos_part, ◌*ℤ◌}
use pi_monitor.Notify.Deliver.{
  PostError, post, retryable, sleep_ctx, Delivery, once, after, deliver_from, deliver,
}

-- The first `n` waits: the base, doubled each time.
abbrev pub doubling : ℕ → ℤ → List ℤ
doubling zero backoff = []
doubling (suc n) backoff = backoff ∷ doubling n (backoff *ℤ pos 2)

-- An attempt that failed in a way that is worth repeating.
abbrev pub Retried : Option ℕ → Type 0
Retried response = (e : PostError) × (post response ≡ some e) × (retryable e ≡ true)

-- An attempt that decides: a success, or a failure for good.
abbrev pub Decides : Option ℕ → Bool → Type 0
Decides response true = post response ≡ none
Decides response false = (e : PostError) × (post response ≡ some e) × (retryable e ≡ false)

-- What is always true of a delivery with `left` retries left.
abbrev Bounded : ℕ → ℤ → Delivery → Type 0
Bounded left backoff d =
    (1 ≤ d.attempts)
    × (d.attempts ≤ suc left)
    × (d.waits ≡ doubling (length d.waits) backoff)
    × (length d.waits ≤ d.attempts)

module _ (respond : ℕ → Option ℕ) (awake : ℕ → Bool) where
  from_ok :
      (left attempt : ℕ) (backoff : ℤ)
      → post (respond attempt) ≡ none
      → deliver_from respond awake left attempt backoff ≡ once true
  unfolding deliver_from
  from_ok zero attempt backoff e = rw (deliver_from, e)
  from_ok (suc left) attempt backoff e = rw (deliver_from, e)

  from_permanent :
      (left attempt : ℕ) (backoff : ℤ) (x : PostError)
      → post (respond attempt) ≡ some x
      → retryable x ≡ false
      → deliver_from respond awake left attempt backoff ≡ once false
  unfolding deliver_from
  from_permanent zero attempt backoff x e r = rw (deliver_from, e)
  from_permanent (suc left) attempt backoff x e r = rw (deliver_from, e, r)

  from_exhausted :
      (attempt : ℕ) (backoff : ℤ) (x : PostError)
      → post (respond attempt) ≡ some x
      → deliver_from respond awake 0 attempt backoff ≡ once false
  unfolding deliver_from
  from_exhausted attempt backoff x e = rw (deliver_from, e)

  from_retry :
      (left attempt : ℕ) (backoff : ℤ) (x : PostError)
      → post (respond attempt) ≡ some x
      → retryable x ≡ true
      → sleep_ctx backoff (awake attempt) ≡ true
      → deliver_from respond awake (suc left) attempt backoff
        ≡ after backoff (deliver_from respond awake left (suc attempt) (backoff *ℤ pos 2))
  unfolding deliver_from
  from_retry left attempt backoff x e r s = rw (deliver_from, e, r, s)

  from_cancelled :
      (left attempt : ℕ) (backoff : ℤ) (x : PostError)
      → post (respond attempt) ≡ some x
      → retryable x ≡ true
      → sleep_ctx backoff (awake attempt) ≡ false
      → deliver_from respond awake (suc left) attempt backoff
        ≡ record { delivered = false; attempts = 1; waits = backoff ∷ [] }
  unfolding deliver_from
  from_cancelled left attempt backoff x e r s = rw (deliver_from, e, r, s)

  once-Bounded : (left : ℕ) (backoff : ℤ) (b : Bool) → Bounded left backoff (once b)
  once-Bounded left backoff b = (omega arith, omega arith, refl, omega arith)

  deliver_from-Bounded :
      (left attempt : ℕ) (backoff : ℤ)
      → Bounded left backoff (deliver_from respond awake left attempt backoff)
  deliver_from-Bounded zero attempt backoff = elim (Option-cases (post (respond attempt))) [
    | inl e ↦ rw (from_ok 0 attempt backoff e) (once-Bounded 0 backoff true)
    | inr (x, e) ↦ rw (from_exhausted attempt backoff x e) (once-Bounded 0 backoff false)
  ]
  deliver_from-Bounded (suc left) attempt backoff =
      let h = deliver_from-Bounded left (suc attempt) (backoff *ℤ pos 2) in
      elim (Option-cases (post (respond attempt))) [
        | inl e ↦ rw (from_ok (suc left) attempt backoff e) (once-Bounded (suc left) backoff true)
        | inr (x, e) ↦ elim (Bool-cases (retryable x)) [
          | inr r ↦
              rw (from_permanent (suc left) attempt backoff x e r)
                (once-Bounded (suc left) backoff false)
          | inl r ↦ elim (Bool-cases (sleep_ctx backoff (awake attempt))) [
            | inl s ↦
                rw (from_retry left attempt backoff x e r s)
                  (omega arith, omega (arith, h.1), ap (◌∷◌ backoff) (h.2), omega (arith, h.3))
            | inr s ↦
                rw (from_cancelled left attempt backoff x e r s)
                  (omega arith, omega arith, refl, omega arith)
          ]
        ]
      ]

  -- A delivery makes at least one attempt and at most one more than the retries allowed, whatever the
  -- endpoint answers, and its waits are the base backoff doubled each time, at most one per attempt.
  pub deliver_lem :
      (max_retries backoff : ℤ)
      → (1 ≤ (deliver respond awake max_retries backoff).attempts)
        × ((deliver respond awake max_retries backoff).attempts ≤ suc (pos_part max_retries))
        × ((deliver respond awake max_retries backoff).waits
            ≡ doubling (length (deliver respond awake max_retries backoff).waits) backoff)
        × (length (deliver respond awake max_retries backoff).waits
            ≤ (deliver respond awake max_retries backoff).attempts)
  unfolding deliver
  deliver_lem max_retries backoff = deliver_from-Bounded (pos_part max_retries) 0 backoff

  slept : (d : ℤ) (b : Bool) → b ≡ true → sleep_ctx d b ≡ true
  unfolding sleep_ctx
  slept d b h = ground arith

  from_decided :
      (left attempt : ℕ) (backoff : ℤ) (b : Bool)
      → Decides (respond attempt) b
      → deliver_from respond awake left attempt backoff ≡ once b
  from_decided left attempt backoff true now = from_ok left attempt backoff now
  from_decided left attempt backoff false now =
      from_permanent left attempt backoff (now.0) (now.1) (now.2)

  deliver_from-Decides :
      (i left attempt k : ℕ) (backoff : ℤ) (b : Bool)
      → i ≤ left
      → k ≡ attempt + i
      → ((j : ℕ) → attempt ≤ j → j < k → Retried (respond j) × (awake j ≡ true))
      → Decides (respond k) b
      → ((deliver_from respond awake left attempt backoff).delivered ≡ b)
        × ((deliver_from respond awake left attempt backoff).attempts ≡ suc i)
  deliver_from-Decides zero left attempt k backoff b h at before now =
      let same : k ≡ attempt = omega (arith, at) in
      rw (from_decided left attempt backoff b (rw same at now)) (refl, refl)
  deliver_from-Decides (suc i) zero attempt k backoff b h at before now = absurd (omega arith)
  deliver_from-Decides (suc i) (suc left) attempt k backoff b h at before now =
      let (f, s) = before attempt (omega arith) (omega arith) in
      let (d, n) =
        deliver_from-Decides i left (suc attempt) k (backoff *ℤ pos 2) b (omega arith) (omega arith)
          (λ j l m. before j (omega arith) m) now in
      rw (from_retry left attempt backoff (f.0) (f.1) (f.2) (slept backoff (awake attempt) s))
        (d, ap suc n)

  -- The first attempt that is not worth repeating decides, where the retries reach it and the context
  -- is not cancelled before it: the delivery succeeds exactly if that attempt does, and no further
  -- attempt is made.
  pub deliver-Decides :
      (max_retries backoff : ℤ) (k : ℕ) (b : Bool)
      → k ≤ pos_part max_retries
      → ((j : ℕ) → j < k → Retried (respond j) × (awake j ≡ true))
      → Decides (respond k) b
      → ((deliver respond awake max_retries backoff).delivered ≡ b)
        × ((deliver respond awake max_retries backoff).attempts ≡ suc k)
  unfolding deliver
  deliver-Decides max_retries backoff k b h before now =
      deliver_from-Decides k (pos_part max_retries) 0 k backoff b h (omega arith)
        (λ j l m. before j m) now
