-- ===== src/System/Listeners.antt =====
-- The tables after a request on a listener.
use open_blocklist.Base.{
  some, true, List, Option-cases, inl, inr, ◌≡◌, refl, ap, sym, subst, ◌∙◌, ◌>>=◌,
}
use mathlib.Core.Option.{some-injective, none-ne-some}
use open_blocklist.State.{App}
use open_blocklist.Http.{Request, Response}
use open_blocklist.Routes.{
  Route, Endpoint, list_endpoint, lookup_endpoint, auth_endpoint, health_endpoint, put_endpoint,
  delete_endpoint, put_network_endpoint, delete_network_endpoint, catch_all, metrics_endpoint,
  health_probe, live_probe, ready_probe, unknown_endpoint, Runtime, Call, choose, request_of, serve,
  listen,
}
use open_blocklist.Routes.Listeners.{reads_only, serve-SameLists}
use open_blocklist.System.{IsConsistent}
use open_blocklist.System.Keeps.{IsConsistent-same}
use open_blocklist.System.Handlers.{
  handle_put-IsConsistent, handle_put_network-IsConsistent, handle_delete-IsConsistent,
  handle_delete_network-IsConsistent,
}

reads-IsConsistent :
    (rt : Runtime) (e : Endpoint) (r : Request) (app : App)
    → reads_only e ≡ true
    → IsConsistent app
    → IsConsistent (serve rt e r app).0
reads-IsConsistent rt e r app reads h =
    let same = serve-SameLists rt e r app reads in
    IsConsistent-same app _ same.ip_table same.cidr_table h

serve-IsConsistent :
    (rt : Runtime) (e : Endpoint) (r : Request) (app : App)
    → IsConsistent app
    → IsConsistent (serve rt e r app).0
serve-IsConsistent rt put_endpoint r app h =
    unfold serve in handle_put-IsConsistent rt.go rt.t r app h
serve-IsConsistent rt delete_endpoint r app h =
    unfold serve in handle_delete-IsConsistent rt.go r app h
serve-IsConsistent rt put_network_endpoint r app h =
    unfold serve in handle_put_network-IsConsistent rt.go rt.t r app h
serve-IsConsistent rt delete_network_endpoint r app h =
    unfold serve in handle_delete_network-IsConsistent rt.go r app h
serve-IsConsistent rt list_endpoint r app h = reads-IsConsistent rt list_endpoint r app refl h
serve-IsConsistent rt lookup_endpoint r app h = reads-IsConsistent rt lookup_endpoint r app refl h
serve-IsConsistent rt auth_endpoint r app h = reads-IsConsistent rt auth_endpoint r app refl h
serve-IsConsistent rt health_endpoint r app h = reads-IsConsistent rt health_endpoint r app refl h
serve-IsConsistent rt catch_all r app h = reads-IsConsistent rt catch_all r app refl h
serve-IsConsistent rt metrics_endpoint r app h = reads-IsConsistent rt metrics_endpoint r app refl h
serve-IsConsistent rt health_probe r app h = reads-IsConsistent rt health_probe r app refl h
serve-IsConsistent rt live_probe r app h = reads-IsConsistent rt live_probe r app refl h
serve-IsConsistent rt ready_probe r app h = reads-IsConsistent rt ready_probe r app refl h
serve-IsConsistent rt unknown_endpoint r app h = reads-IsConsistent rt unknown_endpoint r app refl h

pub listen-IsConsistent :
    (routes : List Route) (rt : Runtime) (c : Call) (answer : Response) (app app' : App)
    → listen routes rt c app ≡ some (app', answer)
    → IsConsistent app
    → IsConsistent app'
unfolding listen
listen-IsConsistent routes rt c answer app app' e h = elim (Option-cases (choose routes c)) [
  | inl nothing ↦ absurd (
      none-ne-some (app', answer)
        (ap (λ o. o >>= (λ found. some (serve rt found.1.0 (request_of c found.1.1) app)))
            (sym nothing)
          ∙ e))
  | inr (found, chosen) ↦
      subst (λ (p : App × Response). IsConsistent p.0)
        (some-injective _ (app', answer)
          (ap (λ o. o >>= (λ found. some (serve rt found.1.0 (request_of c found.1.1) app)))
              (sym chosen)
            ∙ e))
        (serve-IsConsistent rt found.1.0 (request_of c found.1.1) app h)
]
