-- ===== src/Http/Tally.antt =====
-- internal/httpapi/serverstats.go: a counter that some requests bump, after any of them.
use pi_monitor.Prelude.{
  ℕ, suc, ◌+◌, ◌%◌, ◌≡◌, refl, ap, ◌∙◌, Bool, inl, inr, List, [], ◌∷◌, Bool-cases, if◌then◌else◌,
  arith,
}
use pi_monitor.Prelude.Bytes.{Bytes}
use pi_monitor.Http.Guard.{ServerStats, bump, record_request}
use pi_monitor.Http.Routes.{route_bucket, new_server_stats, serve_all}
use pi_monitor.Http.Counted.{
  IsConsistent, new_server_stats-IsConsistent, record_request-IsConsistent,
}

-- How many requests pass a test.
abbrev pub tally : (Bytes × ℕ → Bool) → List (Bytes × ℕ) → ℕ
tally test [] = 0
tally test (q ∷ requests) = if test q then suc (tally test requests) else tally test requests

-- A counter that each request bumps exactly if it passes a test.
abbrev pub Counts : (ServerStats → ℕ) → (Bytes × ℕ → Bool) → Type 0
Counts counter test =
    (st : ServerStats) (path : Bytes) (status : ℕ)
    → IsConsistent st
    → counter (record_request st (route_bucket path) status)
      ≡ (if test (path, status) then bump (counter st) else counter st)

serve_all-Counts :
    (counter : ServerStats → ℕ) (test : Bytes × ℕ → Bool) (requests : List (Bytes × ℕ))
    (st : ServerStats) (n : ℕ)
    → Counts counter test
    → IsConsistent st
    → counter st ≡ n % 18446744073709551616
    → counter (serve_all requests st) ≡ (n + tally test requests) % 18446744073709551616
unfolding serve_all
serve_all-Counts counter test [] st n c h e =
    e ∙ ap (λ (k : ℕ). k % 18446744073709551616) (omega arith)
serve_all-Counts counter test ((path, status) ∷ requests) st n c h e =
    let st' = record_request st (route_bucket path) status in
    let h' = record_request-IsConsistent st path status h in
    let step = c st path status h in
    elim (Bool-cases (test (path, status))) [
      | inl t ↦
          let now : counter st' ≡ suc n % 18446744073709551616 =
            (rw t at step) ∙ omega (arith, e) in
          rw t (
            serve_all-Counts counter test requests st' (suc n) c h' now
            ∙ ap (λ (k : ℕ). k % 18446744073709551616) (omega arith))
      | inr t ↦ rw t (serve_all-Counts counter test requests st' n c h' ((rw t at step) ∙ e))
    ]

-- Of the requests so far, from none.
pub tallied :
    (counter : ServerStats → ℕ) (test : Bytes × ℕ → Bool) (requests : List (Bytes × ℕ))
    → Counts counter test
    → counter new_server_stats ≡ 0
    → counter (serve_all requests new_server_stats) ≡ tally test requests % 18446744073709551616
tallied counter test requests c e =
    serve_all-Counts counter test requests new_server_stats 0 c new_server_stats-IsConsistent
      (e ∙ refl)
    ∙ ap (λ (k : ℕ). k % 18446744073709551616) (omega arith)
