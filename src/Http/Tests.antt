-- ===== src/Http/Tests.antt =====
-- Runs of the HTTP layer, and its theorems at concrete requests.
use pi_monitor.Prelude.{
  ℕ, ◌≤◌, ◌≡◌, refl, true, false, [], ◌∷◌, ◌++◌, Bool, ◌==◌, List, length, Option, none, some,
  arith,
}
use pi_monitor.Prelude.Int.{pos, zero_time}
use pi_monitor.Prelude.Text.{
  has_prefix, trim_left, trim_space, split_from, split, cut, parse_uint, is_space, digits_from,
}
use pi_monitor.Prelude.Bytes.{Bytes, codes, str_eq}
use pi_monitor.Persist.Types.{HistoryPoint, History, empty_history}
use pi_monitor.Collector.Import.{since}
use pi_monitor.Http.Guard.{
  provided_api_key, with_api_key, arrive, leave, with_max_in_flight, release, move,
}
use pi_monitor.Http.Cache.{HistoryCache, history_payload, cached_history, refresh, encode_full}
use pi_monitor.Http.Routes.{route_paths, route_bucket, new_server_stats, serve_all}
use pi_monitor.Http.Encoding.{
  coding_of, accepts_gzip, accept_parts, quality_is_zero, quality_from, first_or, last_or, answers,
  is_gzip, is_wildcard, accepts_gzip_lem,
}
use pi_monitor.Http.Tallied.{IsTallied, serve_all-IsTallied}
use pi_monitor.Http.Prometheus.{
  write_metric, escape_label_value, has_byte, read_label_value, read_label_value-escape_label_value,
}
use pi_monitor.Alert.Evaluate.{contains}
use pi_monitor.Http.Access.{run, run-bounded}
use pi_monitor.Collector.Search.{drop_prefix, search, search_from, kept_at}
use pi_monitor.Http.Payload.{HistoryRequest, serve_history, Answered, serve_history-Answered}

bearer : with_api_key (λ k. k) (codes "s3cret") [] (codes "Bearer s3cret") ≡ true
unfolding with_api_key provided_api_key has_prefix str_eq
bearer = refl

wrong_scheme : with_api_key (λ k. k) (codes "s3cret") [] (codes "Basic s3cret") ≡ false
unfolding with_api_key provided_api_key has_prefix str_eq
wrong_scheme = refl

-- The third request finds both slots taken.
refused : run 2 [] (arrive 1 ∷ arrive 2 ∷ arrive 3 ∷ leave 1 ∷ arrive 4 ∷ []) ≡ 4 ∷ 2 ∷ []
unfolding move with_max_in_flight release
refused = refl

run-bounded_example : length (run 2 [] (arrive 1 ∷ arrive 2 ∷ arrive 3 ∷ [])) ≤ 2
run-bounded_example = run-bounded 2 [] (arrive 1 ∷ arrive 2 ∷ arrive 3 ∷ []) (omega arith)

-- At generation n the host has a CPU series of one point, of value n.
abbrev at_generation : ℕ → History ℕ
at_generation n = record empty_history {
  cpu_percent = record { timestamp = pos 10; value = n } ∷ [];
}

-- An encoder that writes the values of the CPU series.
abbrev first_value : List (HistoryPoint ℕ) → Bytes
first_value [] = []
first_value (p ∷ ps) = p.value ∷ first_value ps

abbrev encoder : History ℕ → Option Bytes
encoder h = some (first_value h.cpu_percent)

abbrev cold : HistoryCache ℕ
cold = record { valid = false; gen = 0; content = empty_history; json = none }

abbrev warm : HistoryCache ℕ
warm = (history_payload encoder 7 (at_generation 7) zero_time cold).0

served : (history_payload encoder 8 (at_generation 8) zero_time warm).1 ≡ some (8 ∷ [])
unfolding history_payload cached_history refresh encode_full
served = refl

abbrev polls : List (HistoryRequest ℕ)
polls =
    record { gen = 7; current = at_generation 7; start = zero_time }
    ∷ record { gen = 7; current = at_generation 9; start = pos 5 }
    ∷ record { gen = 8; current = at_generation 8; start = zero_time }
    ∷ []

-- The second request is answered from the history of the first, which saw the same generation.
polled : serve_history encoder polls cold ≡ some (7 ∷ []) ∷ some (7 ∷ []) ∷ some (8 ∷ []) ∷ []
unfolding serve_history history_payload cached_history refresh encode_full since drop_prefix search
    search_from kept_at
polled = refl

serve_history-Answered_example : Answered encoder [] polls (serve_history encoder polls cold)
serve_history-Answered_example = serve_history-Answered encoder polls cold refl

abbrev requests : List (Bytes × ℕ)
requests =
    (codes "/metrics", 200) ∷ (codes "/api/v1/nothing", 404) ∷ (codes "/index.html", 200) ∷ []

-- A scrape of /metrics counts for that route, although it is no path under /api/v1/.
bucket : route_bucket (codes "/metrics") ≡ codes "/metrics"
unfolding route_bucket route_paths contains str_eq
bucket = refl

serve_all-IsTallied_example : IsTallied requests (serve_all requests new_server_stats)
serve_all-IsTallied_example = serve_all-IsTallied requests

abbrev mount_name : Bytes
mount_name = 34 ∷ 10 ∷ codes "x\\n"

metric_line :
    write_metric {V = ℕ} (λ n. codes "7") (codes "disk") (codes "mountpoint") (34 ∷ []) 7
    ≡ codes "disk{mountpoint=\"\\\"\"} 7" ++ 10 ∷ []
unfolding write_metric escape_label_value str_eq
metric_line = refl

read_label_value-escape_label_value_example :
    (read_label_value (escape_label_value mount_name ++ 34 ∷ codes "} 7")
      ≡ some (mount_name, codes "} 7"))
    × (has_byte 10 (escape_label_value mount_name) ≡ false)
read_label_value-escape_label_value_example =
    read_label_value-escape_label_value mount_name (codes "} 7")

abbrev accepts : Bytes → Bool
accepts header = accepts_gzip parse_uint (λ q. q == 0) header

-- A refusal of gzip outranks a wildcard, and a malformed quality is no refusal.
refusal_and_wildcard : accepts (codes "*, GZIP ; q=0 , br") ≡ false
unfolding accepts_gzip accept_parts coding_of quality_is_zero quality_from split split_from cut
    trim_space trim_left is_space str_eq parse_uint digits_from
refusal_and_wildcard = refl

malformed_quality : accepts (codes "br, gzip;q=none") ≡ true
unfolding accepts_gzip accept_parts coding_of quality_is_zero quality_from split split_from cut
    trim_space trim_left is_space str_eq parse_uint digits_from
malformed_quality = refl

other_token : accepts (codes "x-gzip") ≡ false
unfolding accepts_gzip accept_parts coding_of quality_is_zero quality_from split split_from cut
    trim_space trim_left is_space str_eq parse_uint digits_from
other_token = refl

accepts_gzip_lem_example :
    let parts = split b',' (codes "*, GZIP ; q=0 , br") in
    accepts (codes "*, GZIP ; q=0 , br")
    ≡ first_or
        (last_or false (answers parse_uint (λ q. q == 0) is_wildcard parts))
        (answers parse_uint (λ q. q == 0) is_gzip parts)
accepts_gzip_lem_example = accepts_gzip_lem parse_uint (λ q. q == 0) (codes "*, GZIP ; q=0 , br")
