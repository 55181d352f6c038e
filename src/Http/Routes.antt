-- ===== src/Http/Routes.antt =====
-- internal/httpapi/routes.go and serverstats.go: the table of routes, and the counters over it.
use pi_monitor.Prelude.{ℕ, Bool, true, false, List, [], ◌∷◌, ◌++◌, map, if◌then◌else◌}
use pi_monitor.Prelude.Bytes.{Bytes, codes}
use pi_monitor.Prelude.Text.{has_prefix}
use pi_monitor.Alert.Evaluate.{contains}
use pi_monitor.Http.Guard.{ServerStats, record_request}

abbrev pub bucket_other_api : Bytes
bucket_other_api = codes "other-api"

abbrev pub bucket_static : Bytes
bucket_static = codes "static"

-- When a route is registered.
pub data Enabled : Type 0 where
  always : Enabled
  with_prometheus : Enabled
  with_processes : Enabled

-- The method is GET in every route.
pub record Route : Type 0 where
  pub path : Bytes
  pub api : Bool
  pub enabled : Enabled

abbrev pub api_route : Bytes → Route
api_route path = record { path = path; api = true; enabled = always }

-- `metricsSubResources`, by name.
abbrev pub metrics_sub_resources : List Bytes
metrics_sub_resources =
    codes "cpu"
    ∷ codes "temperature"
    ∷ codes "memory"
    ∷ codes "disks"
    ∷ codes "network"
    ∷ codes "updates"
    ∷ []

abbrev pub sub_resource_route : Bytes → Route
sub_resource_route name = api_route (codes "/api/v1/metrics/" ++ name)

abbrev pub route_table : List Route
route_table =
    record { path = codes "/healthz"; api = false; enabled = always }
    ∷ api_route (codes "/api/v1/metrics")
    ∷ api_route (codes "/api/v1/metrics/history")
    ∷ api_route (codes "/api/v1/alerts")
    ∷ api_route (codes "/api/v1/config")
    ∷ api_route (codes "/api/v1/serverstats")
    ∷ record { path = codes "/metrics"; api = true; enabled = with_prometheus }
    ∷ record { path = codes "/api/v1/processes"; api = true; enabled = with_processes }
    ∷ map sub_resource_route metrics_sub_resources

abbrev pub paths_of : List Route → List Bytes
paths_of [] = []
paths_of (r ∷ rs) = r.path ∷ paths_of rs

unfoldable pub route_paths : List Bytes
route_paths = paths_of route_table

unfoldable pub route_bucket : Bytes → Bytes
route_bucket path =
    if contains route_paths path
    then path
    else if has_prefix path (codes "/api/v1/")
    then bucket_other_api
    else bucket_static

abbrev pub zero_counters : List Bytes → List (Bytes × ℕ)
zero_counters [] = []
zero_counters (k ∷ ks) = (k, 0) ∷ zero_counters ks

unfoldable pub new_server_stats : ServerStats
new_server_stats = record {
  total = 0;
  status1xx = 0;
  status2xx = 0;
  status3xx = 0;
  status4xx = 0;
  status5xx = 0;
  routes = zero_counters (route_paths ++ bucket_other_api ∷ bucket_static ∷ []);
}

-- The requests that are served, by path and status, as `withLogging` records them.
unfoldable pub serve_all : List (Bytes × ℕ) → ServerStats → ServerStats
serve_all [] st = st
serve_all ((path, status) ∷ requests) st =
    serve_all requests (record_request st (route_bucket path) status)
