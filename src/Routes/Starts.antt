-- ===== src/Routes/Starts.antt =====
-- main.go and metrics.go: the goroutines that a request starts, whatever endpoint serves it.
use open_blocklist.Base.{arith}
use open_blocklist.State.{App, leave_write}
use open_blocklist.Http.{Request}
use open_blocklist.Read.{handle_list, handle_health}
use open_blocklist.Read.Starts.{handle_lookup-StartsDue, handle_auth-StartsDue}
use open_blocklist.Write.Starts.{
  handle_put-StartsDue, handle_delete-StartsDue, handle_put_network-StartsDue,
  handle_delete_network-StartsDue,
}
use open_blocklist.Metrics.{metrics_handler}
use open_blocklist.Metrics.Probes.{health_handler, live_handler, ready_handler, not_found_handler}
use open_blocklist.Routes.{
  Endpoint, list_endpoint, lookup_endpoint, auth_endpoint, health_endpoint, put_endpoint,
  delete_endpoint, put_network_endpoint, delete_network_endpoint, catch_all, metrics_endpoint,
  health_probe, live_probe, ready_probe, unknown_endpoint, Runtime, serve, answer_not_found,
}
use open_blocklist.Tasks.{StartsDue, none_started}

pub serve-StartsDue :
    (rt : Runtime) (e : Endpoint) (r : Request) (app : App)
    → StartsDue rt.t app (serve rt e r app).0
unfolding serve handle_list handle_health answer_not_found metrics_handler health_handler
    live_handler ready_handler not_found_handler leave_write
serve-StartsDue rt list_endpoint r app = none_started rt.t app _ (ground arith)
serve-StartsDue rt lookup_endpoint r app = handle_lookup-StartsDue rt.go rt.t r app
serve-StartsDue rt auth_endpoint r app = handle_auth-StartsDue rt.go rt.t r app
serve-StartsDue rt health_endpoint r app = none_started rt.t app _ (ground arith)
serve-StartsDue rt put_endpoint r app = handle_put-StartsDue rt.go rt.t r app
serve-StartsDue rt delete_endpoint r app = handle_delete-StartsDue rt.go rt.t r app
serve-StartsDue rt put_network_endpoint r app = handle_put_network-StartsDue rt.go rt.t r app
serve-StartsDue rt delete_network_endpoint r app = handle_delete_network-StartsDue rt.go rt.t r app
serve-StartsDue rt catch_all r app = none_started rt.t app _ (ground arith)
serve-StartsDue rt metrics_endpoint r app = none_started rt.t app _ (ground arith)
serve-StartsDue rt health_probe r app = none_started rt.t app _ (ground arith)
serve-StartsDue rt live_probe r app = none_started rt.t app _ (ground arith)
serve-StartsDue rt ready_probe r app = none_started rt.t app _ (ground arith)
serve-StartsDue rt unknown_endpoint r app = none_started rt.t app _ (ground arith)
