-- ===== src/Metrics/Probes.antt =====
-- metrics.go: the probes, and the paths that the metrics listener does not know.
use open_blocklist.Base.{◌+◌, codes, Bool, true, if◌then◌else◌, []}
use open_blocklist.State.{App}
use open_blocklist.Http.{Response, respond, plain, http_error}

-- healthCheck, readyCheck and aliveCheck
abbrev pub health_check : Bool
health_check = true

abbrev pub ready_check : Bool
ready_check = true

abbrev pub alive_check : Bool
alive_check = true

unfoldable pub health_handler : App → App × Response
unfolding http_error
health_handler app =
    if health_check
    then (
      record app { stats = record app.stats { health_success = app.stats.health_success + 1 } },
      respond 200 [] (plain (codes "ready")),
    )
    else (
      record app { stats = record app.stats { health_failure = app.stats.health_failure + 1 } },
      http_error [] (codes "not healthy") 503,
    )

unfoldable pub ready_handler : App → App × Response
unfolding http_error
ready_handler app =
    if ready_check
    then (
      record app {
        stats = record app.stats { readiness_success = app.stats.readiness_success + 1 };
      },
      respond 200 [] (plain (codes "ready")),
    )
    else (
      record app {
        stats = record app.stats { readiness_failure = app.stats.readiness_failure + 1 };
      },
      http_error [] (codes "not ready") 503,
    )

unfoldable pub live_handler : App → App × Response
unfolding http_error
live_handler app =
    if alive_check
    then (
      record app { stats = record app.stats { liveness_success = app.stats.liveness_success + 1 } },
      respond 200 [] (plain (codes "alive")),
    )
    else (
      record app { stats = record app.stats { liveness_failure = app.stats.liveness_failure + 1 } },
      http_error [] (codes "not alive") 503,
    )

-- notFoundHandler
unfoldable pub not_found_handler : App → App × Response
unfolding http_error
not_found_handler app = (
  record app {
    stats = record app.stats {
      invalid_endpoint_requests = app.stats.invalid_endpoint_requests + 1;
    };
  },
  http_error [] (codes "404 page not found") 404,
)
