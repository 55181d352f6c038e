-- ===== src/Http/Guard.antt =====
-- internal/httpapi/middleware.go, handlers.go and serverstats.go: who is let in, and what is counted.
-- A request is a number; SHA-256 is the parameter `hash`.
use pi_monitor.Prelude.{
  ℕ, ◌+◌, ◌%◌, Bool, true, not, ◌&&◌, List, [], ◌∷◌, length, ltb, ◌==◌, if◌then◌else◌,
}
use pi_monitor.Prelude.Int.{ℤ, pos, ltb_ℤ, ◌-ℤ◌}
use pi_monitor.Prelude.Text.{has_prefix, trim_prefix}
use pi_monitor.Prelude.Bytes.{Bytes, codes, str_eq}

-- The headers X-Api-Key and Authorization; one that is missing is empty.
unfoldable pub provided_api_key : Bytes → Bytes → Bytes
provided_api_key x_api_key authorization =
    if not (str_eq x_api_key [])
    then x_api_key
    else if has_prefix authorization (codes "Bearer ")
    then trim_prefix authorization (codes "Bearer ")
    else []

-- Whether `withAPIKey` passes the request on; the comparison is that of two hashes.
unfoldable pub with_api_key : (Bytes → Bytes) → Bytes → Bytes → Bytes → Bool
with_api_key hash api_key x_api_key authorization =
    if str_eq api_key []
    then true
    else str_eq (hash (provided_api_key x_api_key authorization)) (hash api_key)

-- Whether the health check answers 200.
unfoldable pub handle_healthz : ℤ → ℤ → ℤ → Bool
handle_healthz max_stale now timestamp =
    not (ltb_ℤ (pos 0) max_stale && ltb_ℤ max_stale (now -ℤ timestamp))

-- The requests that hold a slot of the channel `inFlight`; and what happens to one.
pub data Move : Type 0 where
  arrive : ℕ → Move
  leave : ℕ → Move

-- A request that finds no free slot is refused.
unfoldable pub with_max_in_flight : ℕ → ℕ → List ℕ → List ℕ
with_max_in_flight limit request active =
    if ltb (length active) limit then request ∷ active else active

-- The deferred receive gives the slot back.
unfoldable pub release : ℕ → List ℕ → List ℕ
release request [] = []
release request (r ∷ active) = if r == request then active else r ∷ release request active

unfoldable pub move : ℕ → List ℕ → Move → List ℕ
move limit active (arrive r) = with_max_in_flight limit r active
move limit active (leave r) = release r active

-- The counters, each a uint64.
pub record ServerStats : Type 0 where
  pub total : ℕ
  pub status1xx : ℕ
  pub status2xx : ℕ
  pub status3xx : ℕ
  pub status4xx : ℕ
  pub status5xx : ℕ
  pub routes : List (Bytes × ℕ)

abbrev pub bump : ℕ → ℕ
bump n = (n + 1) % 18446744073709551616

-- A bucket that is not there is not counted.
unfoldable pub count_route : Bytes → List (Bytes × ℕ) → List (Bytes × ℕ)
count_route bucket [] = []
count_route bucket ((k, n) ∷ routes) =
    if str_eq k bucket then (k, bump n) ∷ routes else (k, n) ∷ count_route bucket routes

unfoldable pub record_request : ServerStats → Bytes → ℕ → ServerStats
record_request st bucket status =
    let s : ServerStats = record st {
      total = bump st.total;
      routes = count_route bucket st.routes;
    } in
    if ltb status 200
    then record s { status1xx = bump s.status1xx }
    else if ltb status 300
    then record s { status2xx = bump s.status2xx }
    else if ltb status 400
    then record s { status3xx = bump s.status3xx }
    else if ltb status 500
    then record s { status4xx = bump s.status4xx }
    else record s { status5xx = bump s.status5xx }
