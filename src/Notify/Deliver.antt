-- ===== src/Notify/Deliver.antt =====
-- internal/alert/notify.go: `deliver` with `post`, `retryable` and `sleepCtx`.
-- The network and the context are the caller's: `respond i` is what attempt `i` meets (a status, or
-- `none` for a request that fails before one), `awake i` whether the context outlives the wait after it.
use pi_monitor.Prelude.{
  ℕ, zero, suc, Bool, true, false, ◌||◌, List, [], ◌∷◌, Option, none, some, ltb, leb, ◌==◌,
  if◌then◌else◌,
}
use pi_monitor.Prelude.Int.{ℤ, pos, pos_part, leb_ℤ, ◌*ℤ◌}

pub data PostError : Type 0 where
  transport : PostError
  status_error : ℕ → PostError

-- `none` is the nil error.
unfoldable pub post : Option ℕ → Option PostError
post none = some transport
post (some code) = if ltb code 200 || leb 300 code then some (status_error code) else none

unfoldable pub retryable : PostError → Bool
retryable transport = true
retryable (status_error code) =
    if code == 408 || code == 429 then true else ltb code 400 || leb 500 code

unfoldable pub sleep_ctx : ℤ → Bool → Bool
sleep_ctx d awake = if leb_ℤ d (pos 0) then true else awake

-- How a delivery went: its result, the attempts made, and the waits begun between them.
pub record Delivery : Type 0 where
  pub delivered : Bool
  pub attempts : ℕ
  pub waits : List ℤ

abbrev pub once : Bool → Delivery
once b = record { delivered = b; attempts = 1; waits = [] }

-- One more attempt before these.
abbrev pub after : ℤ → Delivery → Delivery
after backoff d = record d { attempts = suc d.attempts; waits = backoff ∷ d.waits }

-- The loop at `attempt`, with `left` retries left: `maxRetries - attempt`.
unfoldable pub deliver_from : (ℕ → Option ℕ) → (ℕ → Bool) → ℕ → ℕ → ℤ → Delivery
deliver_from respond awake zero attempt backoff = elim (post (respond attempt)) [
  | none ↦ once true
  | some e ↦ once false
]
deliver_from respond awake (suc left) attempt backoff =
    let rest = deliver_from respond awake left (suc attempt) (backoff *ℤ pos 2) in
    elim (post (respond attempt)) [
      | none ↦ once true
      | some e ↦
          if retryable e
          then (if sleep_ctx backoff (awake attempt)
              then after backoff rest
              else record { delivered = false; attempts = 1; waits = backoff ∷ [] })
          else once false
    ]

-- The test `attempt >= n.maxRetries` stops at the first attempt where the limit is not positive.
unfoldable pub deliver : (ℕ → Option ℕ) → (ℕ → Bool) → ℤ → ℤ → Delivery
deliver respond awake max_retries backoff =
    deliver_from respond awake (pos_part max_retries) 0 backoff
