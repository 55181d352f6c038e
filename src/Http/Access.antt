-- ===== src/Http/Access.antt =====
-- internal/httpapi: what the guards let through, and how the counters agree.
use pi_monitor.Prelude.{
  ℕ, ◌+◌, ◌%◌, ◌≤◌, ◌≡◌, true, false, ◌↔◌, inl, inr, List, [], ◌∷◌, length, ltb, ◌==◌, ltb→lt,
  Bool-cases, arith,
}
use pi_monitor.Prelude.Bytes.{Bytes, str_eq, str_eq_sound, str_eq_refl}
use pi_monitor.Http.Guard.{
  provided_api_key, with_api_key, Move, arrive, leave, with_max_in_flight, release, move,
  ServerStats, record_request,
}

-- With an API key set, a request passes exactly if the key it provides, in either header, is that
-- key, where these two keys do not collide under the hash.
pub with_api_key_iff :
    (hash : Bytes → Bytes) (api_key x_api_key authorization : Bytes)
    → (hash (provided_api_key x_api_key authorization) ≡ hash api_key
        → provided_api_key x_api_key authorization ≡ api_key)
    → str_eq api_key [] ≡ false
    → (with_api_key hash api_key x_api_key authorization ≡ true)
      ↔ (provided_api_key x_api_key authorization ≡ api_key)
unfolding with_api_key
with_api_key_iff hash api_key x_api_key authorization distinct e = (
  λ h. distinct (
      str_eq_sound (hash (provided_api_key x_api_key authorization)) (hash api_key)
        (rw (with_api_key, e) at h)),
  λ h. rw (with_api_key, e, h) (str_eq_refl (hash api_key)),
)

-- The slots taken after a sequence of arrivals and departures, in any order.
abbrev pub run : ℕ → List ℕ → List Move → List ℕ
run limit active [] = active
run limit active (m ∷ ms) = run limit (move limit active m) ms

length-release : (r : ℕ) (active : List ℕ) → length (release r active) ≤ length active
unfolding release
length-release r [] = omega arith
length-release r (x ∷ active) = elim (Bool-cases (x == r)) [
  | inl e ↦ rw (release, e) (omega arith)
  | inr e ↦ rw (release, e) (omega (arith, length-release r active))
]

length-move :
    (limit : ℕ) (active : List ℕ) (m : Move)
    → length active ≤ limit
    → length (move limit active m) ≤ limit
unfolding move with_max_in_flight
length-move limit active (arrive r) h = elim (Bool-cases (ltb (length active) limit)) [
  | inl e ↦ rw (with_max_in_flight, e) (omega (arith, ltb→lt (length active) limit e))
  | inr e ↦ rw (with_max_in_flight, e) h
]
length-move limit active (leave r) h = omega (arith, length-release r active, h)

-- However requests arrive and leave, the requests in flight stay within the limit, where they did at
-- the start.
pub run-bounded :
    (limit : ℕ) (active : List ℕ) (moves : List Move)
    → length active ≤ limit
    → length (run limit active moves) ≤ limit
run-bounded limit active [] h = h
run-bounded limit active (m ∷ ms) h =
    run-bounded limit (move limit active m) ms (length-move limit active m h)

-- The sum of the status classes, as a uint64.
abbrev pub class_sum : ServerStats → ℕ
class_sum st =
    (st.status1xx + st.status2xx + st.status3xx + st.status4xx + st.status5xx)
    % 18446744073709551616

-- Recording a request keeps the total equal to the sum of the status classes, modulo 2 ^ 64.
pub record_request-class_sum :
    (st : ServerStats) (bucket : Bytes) (status : ℕ)
    → st.total ≡ class_sum st
    → (record_request st bucket status).total ≡ class_sum (record_request st bucket status)
unfolding record_request
record_request-class_sum st bucket status h = elim (Bool-cases (ltb status 200)) [
  | inl e ↦ rw (record_request, e) (omega (arith, h))
  | inr e ↦ elim (Bool-cases (ltb status 300)) [
    | inl f ↦ rw (record_request, e, f) (omega (arith, h))
    | inr f ↦ elim (Bool-cases (ltb status 400)) [
      | inl g ↦ rw (record_request, e, f, g) (omega (arith, h))
      | inr g ↦ elim (Bool-cases (ltb status 500)) [
        | inl k ↦ rw (record_request, e, f, g, k) (omega (arith, h))
        | inr k ↦ rw (record_request, e, f, g, k) (omega (arith, h))
      ]
    ]
  ]
]
