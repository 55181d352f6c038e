-- ===== src/Http/Cache.antt =====
-- internal/httpapi/handlers.go: `cachedHistory` and `historyPayload`. The JSON encoder is the
-- parameter `marshal`; the collector's generation and history are what it returns at the calls.
use pi_monitor.Prelude.{ℕ, Bool, true, not, ◌||◌, Option, none, some, ◌==◌, if◌then◌else◌}
use pi_monitor.Prelude.Int.{ℤ}
use pi_monitor.Prelude.Bytes.{Bytes}
use pi_monitor.Persist.Types.{History}
use pi_monitor.Collector.Import.{is_zero, since}

-- The fields of `Server` that hold the cache; a nil encoding is `none`.
pub record HistoryCache (V : Type 0) : Type 0 where
  pub valid : Bool
  pub gen : ℕ
  pub content : History V
  pub json : Option Bytes

module _ {V : Type 0} (marshal : History V → Option Bytes) where
  -- The cache brought to the current generation.
  unfoldable pub refresh : ℕ → History V → HistoryCache V → HistoryCache V
  refresh gen current c =
      if not c.valid || not (c.gen == gen)
      then record { valid = true; gen = gen; content = current; json = none }
      else c

  -- The full encoding, made where it is missing; a failed one is not kept.
  unfoldable pub encode_full : HistoryCache V → HistoryCache V
  encode_full c = elim c.json [
    | none ↦ elim (marshal c.content) [ none ↦ c | some bytes ↦ record c { json = some bytes } ]
    | some bytes ↦ c
  ]

  unfoldable pub cached_history : ℕ → History V → Bool → HistoryCache V → HistoryCache V
  cached_history gen current full c =
      let c' = refresh gen current c in if full then encode_full c' else c'

  -- The cache after a request, and the body, or `none` for an encoding that failed.
  unfoldable pub history_payload :
      ℕ → History V → ℤ → HistoryCache V → HistoryCache V × Option Bytes
  history_payload gen current t c =
      let c' = cached_history gen current (is_zero t) c in
      (c', if is_zero t then c'.json else marshal (since c'.content t))
