-- ===== src/Routes.antt =====
-- main.go and metrics.go: the handlers behind the patterns of the listeners.
mod Patterns
pub mod Exact
pub mod Starts
pub mod Listeners
unfoldable pub use Patterns.*
use open_blocklist.Base.{ℕ, Bytes, codes, Option, some, not, List, [], ◌>>=◌}
use open_blocklist.Base.Int.{ℤ}
use open_blocklist.Base.Dict.{Dict, lookup}
use open_blocklist.State.{App, Go}
use open_blocklist.Http.{Request, Response, http_error, or_empty}
use open_blocklist.Read.{handle_list, handle_lookup, handle_auth, handle_health}
use open_blocklist.Write.{handle_put, handle_delete, handle_put_network, handle_delete_network}
use open_blocklist.Metrics.{Build, SampleValue, metrics_handler}
use open_blocklist.Metrics.Probes.{health_handler, ready_handler, live_handler, not_found_handler}

-- The request that a handler sees.
abbrev pub request_of : Call → Dict Bytes → Request
request_of c values = record {
  method = c.method;
  ip = or_empty (lookup (codes "ip") values);
  net = or_empty (lookup (codes "net") values);
  prefix = or_empty (lookup (codes "prefix") values);
  query = c.query;
}

-- The handler of RegisterCatchAll
unfoldable pub answer_not_found : App → App × Response
unfolding http_error
answer_not_found app = (app, http_error [] (codes "not found") 404)

-- What the process has beside its state: the Go library, the build, the runtime's samples, and the
-- readings of the clock.
pub record Runtime : Type 0 where
  pub go : Go
  pub build : Build
  pub read : Bytes → SampleValue
  pub t : ℕ → ℤ

unfoldable pub serve : Runtime → Endpoint → Request → App → App × Response
serve rt list_endpoint r app = handle_list rt.go rt.t r app
serve rt lookup_endpoint r app = handle_lookup rt.go rt.t r app
serve rt auth_endpoint r app = handle_auth rt.go rt.t r app
serve rt health_endpoint r app = handle_health r app
serve rt put_endpoint r app = handle_put rt.go rt.t r app
serve rt delete_endpoint r app = handle_delete rt.go r app
serve rt put_network_endpoint r app = handle_put_network rt.go rt.t r app
serve rt delete_network_endpoint r app = handle_delete_network rt.go r app
serve rt catch_all r app = answer_not_found app
serve rt metrics_endpoint r app = metrics_handler rt.go rt.build rt.read app
serve rt health_probe r app = health_handler app
serve rt live_probe r app = live_handler app
serve rt ready_probe r app = ready_handler app
serve rt unknown_endpoint r app = not_found_handler app

-- A listener with these patterns; `none` where none matches.
unfoldable pub listen : List Route → Runtime → Call → App → Option (App × Response)
unfolding choose serve
listen routes rt c app = do
  found ← choose routes c
  some (serve rt found.1.0 (request_of c found.1.1) app)
