-- ===== src/Http/Tallied.antt =====
-- internal/httpapi/serverstats.go: what each counter holds after any requests.
use pi_monitor.Prelude.{
  ℕ, suc, ◌%◌, ◌≡◌, refl, ap, ◌∙◌, Bool, true, false, ◌&&◌, inl, inr, List, [], ◌∷◌, Option, none,
  some, length, ltb, leb, Bool-cases, if◌then◌else◌, arith,
}
use pi_monitor.Prelude.Bytes.{Bytes, codes, str_eq, str_eq_iff}
use pi_monitor.Prelude.Maps.{lookup}
use pi_monitor.Prelude.Text.{has_prefix}
use pi_monitor.Alert.Evaluate.{contains}
use pi_monitor.Http.Guard.{ServerStats, bump, count_route, record_request}
use pi_monitor.Http.Routes.{route_paths, route_bucket, zero_counters, new_server_stats, serve_all}
use pi_monitor.Http.Tally.{tally, Counts, tallied}
use pi_monitor.Http.Counted.{names, buckets, record_request-Bumped, serve_all-IsConsistent}

-- The status classes; what is below 200 is counted with the first, and 600 and more with the last.
abbrev pub is_1xx : Bytes × ℕ → Bool
is_1xx q = ltb q.1 200

abbrev pub is_2xx : Bytes × ℕ → Bool
is_2xx q = leb 200 q.1 && ltb q.1 300

abbrev pub is_3xx : Bytes × ℕ → Bool
is_3xx q = leb 300 q.1 && ltb q.1 400

abbrev pub is_4xx : Bytes × ℕ → Bool
is_4xx q = leb 400 q.1 && ltb q.1 500

abbrev pub is_5xx : Bytes × ℕ → Bool
is_5xx q = leb 500 q.1

-- The name under which a request is counted: the path of its route, or one of the two others.
abbrev pub goes_to : Bytes → Bytes × ℕ → Bool
goes_to k q =
    if contains route_paths q.0
    then str_eq q.0 k
    else if has_prefix q.0 (codes "/api/v1/")
    then str_eq (codes "other-api") k
    else str_eq (codes "static") k

Counts-1xx : Counts (λ st. st.status1xx) is_1xx
unfolding record_request
Counts-1xx st path status h = ground arith

Counts-2xx : Counts (λ st. st.status2xx) is_2xx
unfolding record_request
Counts-2xx st path status h = ground arith

Counts-3xx : Counts (λ st. st.status3xx) is_3xx
unfolding record_request
Counts-3xx st path status h = ground arith

Counts-4xx : Counts (λ st. st.status4xx) is_4xx
unfolding record_request
Counts-4xx st path status h = ground arith

Counts-5xx : Counts (λ st. st.status5xx) is_5xx
unfolding record_request
Counts-5xx st path status h = ground arith

Counts-total : Counts (λ st. st.total) (λ q. true)
Counts-total st path status h = (record_request-Bumped st (route_bucket path) status).1

tally-all : (requests : List (Bytes × ℕ)) → tally (λ q. true) requests ≡ length requests
tally-all [] = refl
tally-all (q ∷ requests) = ap suc (tally-all requests)

abbrev value_of : Option ℕ → ℕ
value_of none = 0
value_of (some n) = n

abbrev counter_of : Bytes → ServerStats → ℕ
counter_of k st = value_of (lookup k st.routes)

abbrev bump_if : Bool → Option ℕ → Option ℕ
bump_if b none = none
bump_if b (some n) = some (if b then bump n else n)

value_of-bump_if :
    (o : Option ℕ) (n : ℕ) (b c : Bool)
    → o ≡ some n
    → b ≡ c
    → value_of (bump_if b o) ≡ (if c then bump (value_of o) else value_of o)
value_of-bump_if o n b c e f = rw (e, f) refl

lookup-count_route :
    (k bucket : Bytes) (routes : List (Bytes × ℕ))
    → lookup k (count_route bucket routes) ≡ bump_if (str_eq bucket k) (lookup k routes)
unfolding lookup count_route
lookup-count_route k bucket [] = refl
lookup-count_route k bucket ((j, n) ∷ routes) = ground (
  arith,
  str_eq_iff j bucket,
  str_eq_iff j k,
  str_eq_iff bucket k,
  lookup-count_route k bucket routes,
)

lookup-names :
    (k : Bytes) (routes : List (Bytes × ℕ))
    → contains (names routes) k ≡ true
    → (n : ℕ) × (lookup k routes ≡ some n)
unfolding lookup contains
lookup-names k [] h = absurd (cc h)
lookup-names k ((j, n) ∷ routes) h = elim (Bool-cases (str_eq j k)) [
  | inl e ↦ (n, rw e refl)
  | inr e ↦ let (m, l) = lookup-names k routes (rw e at h) in (m, rw e l)
]

lookup-no_name :
    (k : Bytes) (routes : List (Bytes × ℕ))
    → contains (names routes) k ≡ false
    → lookup k routes ≡ none
unfolding lookup contains
lookup-no_name k [] h = refl
lookup-no_name k ((j, n) ∷ routes) h = elim (Bool-cases (str_eq j k)) [
  | inl e ↦ absurd (cc (rw e at h))
  | inr e ↦ rw e (lookup-no_name k routes (rw e at h))
]

goes_to-route_bucket :
    (k path : Bytes) (status : ℕ) → str_eq (route_bucket path) k ≡ goes_to k (path, status)
unfolding route_bucket
goes_to-route_bucket k path status = elim (Bool-cases (contains route_paths path)) [
  | inl e ↦ rw (route_bucket, e) refl
  | inr e ↦ elim (Bool-cases (has_prefix path (codes "/api/v1/"))) [
    | inl p ↦ rw (route_bucket, e, p) refl
    | inr p ↦ rw (route_bucket, e, p) refl
  ]
]

Counts-route : (k : Bytes) → contains buckets k ≡ true → Counts (counter_of k) (goes_to k)
Counts-route k there st path status h =
    let (n, l) = lookup-names k st.routes (ap (λ ks. contains ks k) h.0 ∙ there) in
    ap (λ routes. value_of (lookup k routes))
      (record_request-Bumped st (route_bucket path) status).0
    ∙ ap value_of (lookup-count_route k (route_bucket path) st.routes)
    ∙ value_of-bump_if (lookup k st.routes) n (str_eq (route_bucket path) k)
        (goes_to k (path, status)) l (goes_to-route_bucket k path status)

none_yet : (k : Bytes) (ks : List Bytes) → value_of (lookup k (zero_counters ks)) ≡ 0
unfolding lookup
none_yet k [] = refl
none_yet k (j ∷ ks) = elim (Bool-cases (str_eq j k)) [
  | inl e ↦ rw e refl
  | inr e ↦ rw e (none_yet k ks)
]

zero_at_start : (k : Bytes) → counter_of k new_server_stats ≡ 0
unfolding new_server_stats
zero_at_start k = none_yet k buckets

-- Each counter holds the number of the requests that are its own.
abbrev pub IsTallied : List (Bytes × ℕ) → ServerStats → Type 0
IsTallied requests st =
    (st.total ≡ length requests % 18446744073709551616)
    × (st.status1xx ≡ tally is_1xx requests % 18446744073709551616)
    × (st.status2xx ≡ tally is_2xx requests % 18446744073709551616)
    × (st.status3xx ≡ tally is_3xx requests % 18446744073709551616)
    × (st.status4xx ≡ tally is_4xx requests % 18446744073709551616)
    × (st.status5xx ≡ tally is_5xx requests % 18446744073709551616)
    × ((k : Bytes)
        → lookup k st.routes ≡ (
            if contains buckets k
            then some (tally (goes_to k) requests % 18446744073709551616)
            else none))

routes_tallied :
    (requests : List (Bytes × ℕ)) (k : Bytes)
    → lookup k (serve_all requests new_server_stats).routes ≡ (
        if contains buckets k
        then some (tally (goes_to k) requests % 18446744073709551616)
        else none)
routes_tallied requests k =
    let st = serve_all requests new_server_stats in
    let same = ap (λ ks. contains ks k) (serve_all-IsConsistent requests).0 in
    elim (Bool-cases (contains buckets k)) [
      | inr e ↦ rw e (lookup-no_name k st.routes (same ∙ e))
      | inl e ↦
          let (n, l) = lookup-names k st.routes (same ∙ e) in
          let count =
            tallied (counter_of k) (goes_to k) requests (Counts-route k e) (zero_at_start k) in
          rw e (l ∙ ap some (rw l at count))
    ]

-- Whatever paths are requested and however they are answered, the total is the number of requests,
-- each status class has the number of the requests answered with it, and each counter of a route the
-- number of the requests for its path; a request for no known path is counted as other-api where the
-- path begins with /api/v1/ and as static elsewhere; and there are no other counters. All counts are
-- modulo 2 ^ 64.
pub serve_all-IsTallied :
    (requests : List (Bytes × ℕ)) → IsTallied requests (serve_all requests new_server_stats)
unfolding new_server_stats
serve_all-IsTallied requests = (
  tallied (λ st. st.total) (λ q. true) requests Counts-total refl
      ∙ ap (λ (k : ℕ). k % 18446744073709551616) (tally-all requests),
  tallied (λ st. st.status1xx) is_1xx requests Counts-1xx refl,
  tallied (λ st. st.status2xx) is_2xx requests Counts-2xx refl,
  tallied (λ st. st.status3xx) is_3xx requests Counts-3xx refl,
  tallied (λ st. st.status4xx) is_4xx requests Counts-4xx refl,
  tallied (λ st. st.status5xx) is_5xx requests Counts-5xx refl,
  routes_tallied requests,
)
