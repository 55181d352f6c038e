-- ===== src/Http/Counted.antt =====
-- internal/httpapi/serverstats.go: every request is counted once by route and once by status.
use pi_monitor.Prelude.{
  ℕ, ◌+◌, ◌%◌, ◌≡◌, refl, sym, ap, ◌∙◌, true, inl, inr, List, [], ◌∷◌, ◌++◌, ltb, Bool-cases,
  if_lem, arith,
}
use pi_monitor.Prelude.Bytes.{Bytes, codes, str_eq}
use pi_monitor.Prelude.Text.{has_prefix}
use pi_monitor.Alert.Evaluate.{contains}
use pi_monitor.Http.Guard.{ServerStats, bump, count_route, record_request}
use pi_monitor.Http.Access.{class_sum, record_request-class_sum}
use pi_monitor.Http.Routes.{
  route_paths, route_bucket, zero_counters, new_server_stats, serve_all, bucket_other_api,
  bucket_static,
}

-- The sum of the counters of the routes, as a uint64.
abbrev pub route_sum : List (Bytes × ℕ) → ℕ
route_sum [] = 0
route_sum ((k, n) ∷ routes) = (n + route_sum routes) % 18446744073709551616

abbrev pub names : List (Bytes × ℕ) → List Bytes
names [] = []
names ((k, n) ∷ routes) = k ∷ names routes

names-count_route :
    (bucket : Bytes) (routes : List (Bytes × ℕ)) → names (count_route bucket routes) ≡ names routes
unfolding count_route
names-count_route bucket [] = refl
names-count_route bucket ((k, n) ∷ routes) = elim (Bool-cases (str_eq k bucket)) [
  | inl e ↦ rw (count_route, e) refl
  | inr e ↦ rw (count_route, e) (ap (◌∷◌ k) (names-count_route bucket routes))
]

route_sum-count_route :
    (bucket : Bytes) (routes : List (Bytes × ℕ))
    → contains (names routes) bucket ≡ true
    → route_sum (count_route bucket routes) ≡ bump (route_sum routes)
unfolding count_route contains
route_sum-count_route bucket [] h = absurd (cc h)
route_sum-count_route bucket ((k, n) ∷ routes) h = elim (Bool-cases (str_eq k bucket)) [
  | inl e ↦ rw (count_route, e) (omega arith)
  | inr e ↦
      rw (count_route, e)
        (let rest = route_sum-count_route bucket routes (rw e at h) in omega (arith, rest))
]

-- What all branches of a recorded request have.
abbrev pub Bumped : ServerStats → Bytes → ServerStats → Type 0
Bumped st bucket st' = (st'.routes ≡ count_route bucket st.routes) × (st'.total ≡ bump st.total)

pub record_request-Bumped :
    (st : ServerStats) (bucket : Bytes) (status : ℕ)
    → Bumped st bucket (record_request st bucket status)
unfolding record_request
record_request-Bumped st bucket status =
    if_lem (Bumped st bucket) (ltb status 200) _ _ (refl, refl)
      (if_lem (Bumped st bucket) (ltb status 300) _ _ (refl, refl)
        (if_lem (Bumped st bucket) (ltb status 400) _ _ (refl, refl)
          (if_lem (Bumped st bucket) (ltb status 500) _ _ (refl, refl) (refl, refl))))

abbrev pub buckets : List Bytes
buckets = route_paths ++ bucket_other_api ∷ bucket_static ∷ []

contains-append_left :
    (xs ys : List Bytes) (x : Bytes) → contains xs x ≡ true → contains (xs ++ ys) x ≡ true
unfolding contains
contains-append_left [] ys x h = absurd (cc h)
contains-append_left (z ∷ xs) ys x h = elim (Bool-cases (str_eq z x)) [
  | inl e ↦ rw e refl
  | inr e ↦ rw e (contains-append_left xs ys x (rw e at h))
]

contains-append_right :
    (xs ys : List Bytes) (x : Bytes) → contains ys x ≡ true → contains (xs ++ ys) x ≡ true
unfolding contains
contains-append_right [] ys x h = h
contains-append_right (z ∷ xs) ys x h = elim (Bool-cases (str_eq z x)) [
  | inl e ↦ rw e refl
  | inr e ↦ rw e (contains-append_right xs ys x h)
]

-- The bucket of any path has a counter.
pub contains-route_bucket : (path : Bytes) → contains buckets (route_bucket path) ≡ true
contains-route_bucket path = elim (Bool-cases (contains route_paths path)) [
  | inl e ↦ unfold route_bucket in rw (route_bucket, e) (contains-append_left route_paths _ path e)
  | inr e ↦ elim (Bool-cases (has_prefix path (codes "/api/v1/"))) [
    | inl p ↦
        unfold route_bucket in rw (route_bucket, e, p) (contains-append_right route_paths _ _ other)
    | inr p ↦
        unfold route_bucket in
        rw (route_bucket, e, p) (contains-append_right route_paths _ _ static)
  ]
]
  where
    other : contains (bucket_other_api ∷ bucket_static ∷ []) bucket_other_api ≡ true
    other = unfold contains in unfold str_eq in refl

    static : contains (bucket_other_api ∷ bucket_static ∷ []) bucket_static ≡ true
    static = unfold contains in unfold str_eq in refl

-- Each bucket has its counter, and the three counts of the requests agree.
abbrev pub IsConsistent : ServerStats → Type 0
IsConsistent st =
    (names st.routes ≡ buckets) × (st.total ≡ class_sum st) × (st.total ≡ route_sum st.routes)

names-zero_counters : (ks : List Bytes) → names (zero_counters ks) ≡ ks
names-zero_counters [] = refl
names-zero_counters (k ∷ ks) = ap (◌∷◌ k) (names-zero_counters ks)

route_sum-zero_counters : (ks : List Bytes) → route_sum (zero_counters ks) ≡ 0
route_sum-zero_counters [] = refl
route_sum-zero_counters (k ∷ ks) = rw (route_sum-zero_counters ks) refl

pub new_server_stats-IsConsistent : IsConsistent new_server_stats
unfolding new_server_stats
new_server_stats-IsConsistent =
    (names-zero_counters buckets, refl, sym (route_sum-zero_counters buckets))

pub record_request-IsConsistent :
    (st : ServerStats) (path : Bytes) (status : ℕ)
    → IsConsistent st
    → IsConsistent (record_request st (route_bucket path) status)
record_request-IsConsistent st path status h =
    let (routes, total) = record_request-Bumped st (route_bucket path) status in
    let there = ap (λ ks. contains ks (route_bucket path)) (h.0) ∙ contains-route_bucket path in
    (
      ap names routes ∙ names-count_route (route_bucket path) st.routes ∙ h.0,
      record_request-class_sum st (route_bucket path) status h.1,
      total
          ∙ ap bump h.2
          ∙ sym (ap route_sum routes ∙ route_sum-count_route (route_bucket path) st.routes there),
    )

serve_all-from :
    (requests : List (Bytes × ℕ)) (st : ServerStats)
    → IsConsistent st
    → IsConsistent (serve_all requests st)
unfolding serve_all
serve_all-from [] st h = h
serve_all-from ((path, status) ∷ requests) st h =
    serve_all-from requests _ (record_request-IsConsistent st path status h)

-- After any requests the three counts agree.
pub serve_all-IsConsistent :
    (requests : List (Bytes × ℕ)) → IsConsistent (serve_all requests new_server_stats)
serve_all-IsConsistent requests =
    serve_all-from requests new_server_stats new_server_stats-IsConsistent
