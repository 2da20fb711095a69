-- ===== src/Metrics.antt =====
-- metrics.go: the text of the metrics, and the probes.
mod Text
pub mod Scrape
pub mod Answer
pub mod Probes
unfoldable pub use Text.*
use open_blocklist.Base.{
  ℕ, ◌+◌, Bytes, codes, List, [], ◌∷◌, ◌++◌, length, concat, replace_all, map, if◌then◌else◌,
}
use open_blocklist.Base.Int.{pos, wrap64}
use open_blocklist.State.{App, Go}
use open_blocklist.Http.{Response, respond, plain}
use open_blocklist.Version.{version_str, version_build, parse_go_version_build}

-- gBuildPlatform and gGoVersion
pub record Build : Type 0 where
  pub platform : Bytes
  pub go_version : Bytes

unfoldable pub build_metrics : Go → Build → List Metric
unfolding parse_go_version_build
build_metrics go build =
    write_metric go (codes "open-blocklist_build")
      (codes "Build number (version "
        ++ (version_str ++ (codes ", platform " ++ (build.platform ++ codes ")"))))
      gauge version_build
    ∷ write_metric go (codes "open-blocklist_go_build")
        (codes "Go runtime build number (" ++ (build.go_version ++ codes ")")) gauge
        (parse_go_version_build go build.go_version)
    ∷ []

unfoldable pub request_metrics : Go → App → List Metric
request_metrics go app =
    write_metric go (codes "open-blocklist_multi_instance_mode")
      (codes "Multi-instance mode enabled via etcd watch (1=enabled 0=disabled)") gauge
      (if app.multi_instance then pos 1 else pos 0)
    ∷ write_metric go (codes "open_blocklist_ip_entries") (codes "Number of IP table entries") gauge
        (pos (length app.ip_table))
    ∷ write_metric go (codes "open-blocklist_requests_lookup_total") (codes "Total lookup requests")
        counter (pos app.stats.requests_lookup)
    ∷ write_metric go (codes "open-blocklist_requests_auth_total")
        (codes "Total authentication requests") counter (pos app.stats.requests_auth)
    ∷ write_metric go (codes "open-blocklist_requests_put_total") (codes "Total PUT requests")
        counter (pos app.stats.requests_put)
    ∷ write_metric go (codes "open-blocklist_requests_delete_total") (codes "Total DELETE requests")
        counter (pos app.stats.requests_delete)
    ∷ write_metric go (codes "open-blocklist_requests_list_total") (codes "Total list requests")
        counter (pos app.stats.requests_list)
    ∷ write_metric go (codes "open-blocklist_requests_health_total")
        (codes "Total health check requests") counter (pos app.stats.requests_health)
    ∷ write_metric go (codes "open-blocklist_requests_write_active")
        (codes "Current active write requests") gauge (pos app.stats.requests_write_active)
    ∷ write_metric go (codes "open-blocklist_config_errors_total")
        (codes "Total configuration errors detected during startup or reload") counter
        (pos app.stats.config_errors)
    ∷ write_metric go (codes "open-blocklist_log_dropped_total")
        (codes "Total log messages written synchronously due to full or uninitialized log channel")
        counter (pos app.stats.log_dropped)
    ∷ []

unfoldable pub dns_metrics : Go → App → List Metric
dns_metrics go app =
    write_metric go (codes "open-blocklist_dns_invalid_query_total")
      (codes "Total invalid DNS queries") counter (pos app.stats.req_dns_invalid_query)
    ∷ write_metric go (codes "open-blocklist_dns_wrong_zone_total")
        (codes "Total DNS queries outside RBL zone") counter (pos app.stats.req_dns_wrong_zone)
    ∷ write_metric go (codes "open-blocklist_dns_blocked_total")
        (codes "Total DNS queries resulting in a block") counter (pos app.stats.req_dns_blocked)
    ∷ write_metric go (codes "open-blocklist_dns_not_listed_total")
        (codes "Total DNS queries not listed (NXDOMAIN)") counter (pos app.stats.req_dns_not_listed)
    ∷ write_metric go (codes "open-blocklist_dns_other_query_type_total")
        (codes "Total DNS queries with unsupported query types") counter
        (pos app.stats.req_dns_other_query_type)
    ∷ []

unfoldable pub endpoint_metrics : Go → App → List Metric
endpoint_metrics go app =
    write_metric go (codes "open-blocklist_metrics_requests_total")
      (codes "Total requests to endpoint /metrics") counter (pos app.stats.metrics_requests)
    ∷ write_metric go (codes "open-blocklist_invalid_endpoint_requests_total")
        (codes "Total requests to unknown endpoints") counter
        (pos app.stats.invalid_endpoint_requests)
    ∷ write_metric go (codes "open-blocklist_health_probe_success_total")
        (codes "Total successful /healthz probe requests") counter (pos app.stats.health_success)
    ∷ write_metric go (codes "open-blocklist_health_probe_failure_total")
        (codes "Total failed /healthz probe requests") counter (pos app.stats.health_failure)
    ∷ write_metric go (codes "open-blocklist_liveness_probe_success_total")
        (codes "Total successful /livez probe requests") counter (pos app.stats.liveness_success)
    ∷ write_metric go (codes "open-blocklist_liveness_probe_failure_total")
        (codes "Total failed /livez probe requests") counter (pos app.stats.liveness_failure)
    ∷ write_metric go (codes "open-blocklist_readiness_probe_success_total")
        (codes "Total successful /readyz probe requests") counter (pos app.stats.readiness_success)
    ∷ write_metric go (codes "open-blocklist_readiness_probe_failure_total")
        (codes "Total failed /readyz probe requests") counter (pos app.stats.readiness_failure)
    ∷ []

-- sanitizeMetricName
unfoldable pub sanitize_metric_name : Bytes → Bytes
unfolding replace_all
sanitize_metric_name n = replace_all (replace_all (replace_all n b'/' b'_') b':' b'_') b'-' b'_'

abbrev pub runtime_metric_names : List Bytes
runtime_metric_names =
    codes "/memory/classes/heap/objects:bytes"
    ∷ codes "/memory/classes/heap/free:bytes"
    ∷ codes "/memory/classes/heap/released:bytes"
    ∷ codes "/memory/classes/total:bytes"
    ∷ codes "/gc/cycles/total:gc-cycles"
    ∷ codes "/gc/heap/allocs:bytes"
    ∷ codes "/gc/heap/frees:bytes"
    ∷ codes "/sched/goroutines:goroutines"
    ∷ codes "/cpu/classes/user:cpu-seconds"
    ∷ codes "/cpu/classes/system:cpu-seconds"
    ∷ codes "/cpu/classes/gc:cpu-seconds"
    ∷ []

-- What metrics.Read finds under a name: an integer, a float as strconv.FormatFloat prints it, or a
-- value of another kind.
pub data SampleValue : Type 0 where
  uint64 : ℕ → SampleValue
  float64 : Bytes → SampleValue
  other_kind : SampleValue

unfoldable pub runtime_metric : Go → Bytes → SampleValue → List Metric
unfolding sanitize_metric_name
runtime_metric go n (uint64 v) =
    write_metric go (codes "go_" ++ sanitize_metric_name n) (codes "Go runtime metric " ++ n) gauge
      (wrap64 (pos v))
    ∷ []
runtime_metric go n (float64 v) =
    write_metric_float (codes "go_" ++ sanitize_metric_name n) (codes "Go runtime metric " ++ n)
      gauge v
    ∷ []
runtime_metric go n other_kind = []

-- writeRuntimeMetrics
unfoldable pub runtime_metrics : Go → (Bytes → SampleValue) → List Bytes → List Metric
unfolding runtime_metric
runtime_metrics go read [] = []
runtime_metrics go read (n ∷ ns) = runtime_metric go n (read n) ++ runtime_metrics go read ns

abbrev pub count_metrics : App → App
count_metrics app = record app {
  stats = record app.stats { metrics_requests = app.stats.metrics_requests + 1 };
}

-- The metrics that metricsHandler writes, in their order.
unfoldable pub metrics_of : Go → Build → (Bytes → SampleValue) → App → List Metric
unfolding build_metrics request_metrics dns_metrics endpoint_metrics runtime_metrics
metrics_of go build read app =
    build_metrics go build
    ++ (request_metrics go app
        ++ (dns_metrics go app
            ++ (endpoint_metrics go app ++ runtime_metrics go read runtime_metric_names)))

unfoldable pub metrics_text : List Metric → Bytes
unfolding write_metric_string concat
metrics_text ms = concat (map write_metric_string ms)

-- metricsHandler
unfoldable pub metrics_handler : Go → Build → (Bytes → SampleValue) → App → App × Response
unfolding metrics_of metrics_text
metrics_handler go build read app0 =
    let app = count_metrics app0 in
    (
      app,
      respond 200 ((codes "Content-Type", codes "text/plain; version=0.0.4") ∷ [])
          (plain (metrics_text (metrics_of go build read app))),
    )
