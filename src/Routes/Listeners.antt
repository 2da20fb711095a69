-- ===== src/Routes/Listeners.antt =====
-- main.go and metrics.go: what the listeners let a request do.
use open_blocklist.Base.{
  ℕ, Bytes, Option, none, some, Bool, true, false, List, [], ◌∷◌, ◌++◌, if◌then◌else◌, ◌≢◌, ◌>>=◌,
  ◌≡◌, refl, ap, subst, ◌∙◌, arith, Bool-cases, Option-cases, inl, inr, ◌⊎◌, All, All-append,
  All-map, false≢true,
}
use mathlib.Core.Option.{some-injective, none-ne-some}
use open_blocklist.Base.Int.{ℤ}
use open_blocklist.Base.Dict.{Dict}
use open_blocklist.State.{App, Go, leave_write}
use open_blocklist.Http.{Method, get, head, put, delete_method, other_method, Request, Response}
use open_blocklist.CidrTable.{cidr_table_lookup}
use open_blocklist.IpTable.Laws.{ip_table_lookup-SameData}
use open_blocklist.Read.{
  find_blocked, find_network, auth_blocked, auth_network, count_lookup, count_auth, handle_list,
  handle_lookup, handle_auth, handle_health,
}
use open_blocklist.Metrics.{metrics_handler}
use open_blocklist.Metrics.Probes.{health_handler, live_handler, ready_handler, not_found_handler}
use open_blocklist.Tasks.{StartsDue}
use open_blocklist.Routes.Starts.{serve-StartsDue}
use open_blocklist.Routes.{
  Endpoint, list_endpoint, lookup_endpoint, auth_endpoint, health_endpoint, put_endpoint,
  delete_endpoint, put_network_endpoint, delete_network_endpoint, catch_all, metrics_endpoint,
  health_probe, live_probe, ready_probe, unknown_endpoint, Route, read_routes, write_routes,
  catch_all_routes, lookup_routes, api_routes, Call, method_fits, bind_shape, bind_route, covers,
  Found, better, choose, request_of, Runtime, serve, listen, answer_not_found,
}

-- The state of two processes in which nothing is blocked, unblocked or sent: only counters and
-- started goroutines differ.
pub record SameLists (a b : App) : Type 0 where
  pub ip_table : a.ip_table ≡ b.ip_table
  pub cidr_table : a.cidr_table ≡ b.cidr_table
  pub requests : a.requests ≡ b.requests
  pub revision : a.revision ≡ b.revision
  pub multi_instance : a.multi_instance ≡ b.multi_instance

-- The endpoints that write.
abbrev pub reads_only : Endpoint → Bool
reads_only put_endpoint = false
reads_only delete_endpoint = false
reads_only put_network_endpoint = false
reads_only delete_network_endpoint = false
reads_only _ = true

find_blocked-SameLists :
    (go : Go) (t : ℕ → ℤ) (ip : Bytes) (app : App) → SameLists (find_blocked go t ip app).0 app
unfolding find_blocked find_network cidr_table_lookup
find_blocked-SameLists go t ip app = ground (arith, ip_table_lookup-SameData (t 0) ip app)

auth_blocked-SameLists :
    (go : Go) (t : ℕ → ℤ) (ip : Bytes) (app : App) → SameLists (auth_blocked go t ip app).0 app
unfolding auth_blocked auth_network cidr_table_lookup
auth_blocked-SameLists go t ip app = ground (arith, ip_table_lookup-SameData (t 0) ip app)

-- Such an endpoint blocks and unblocks nothing.
pub serve-SameLists :
    (rt : Runtime) (e : Endpoint) (r : Request) (app : App)
    → reads_only e ≡ true
    → SameLists (serve rt e r app).0 app
unfolding serve handle_list handle_lookup handle_auth handle_health answer_not_found metrics_handler
    health_handler live_handler ready_handler not_found_handler leave_write
serve-SameLists rt list_endpoint r app h = ground arith
serve-SameLists rt lookup_endpoint r app h =
    ground (arith, find_blocked-SameLists rt.go rt.t r.ip (count_lookup app))
serve-SameLists rt auth_endpoint r app h =
    ground (arith, auth_blocked-SameLists rt.go rt.t r.ip (count_auth app))
serve-SameLists rt health_endpoint r app h = ground arith
serve-SameLists rt put_endpoint r app h = absurd (false≢true h)
serve-SameLists rt delete_endpoint r app h = absurd (false≢true h)
serve-SameLists rt put_network_endpoint r app h = absurd (false≢true h)
serve-SameLists rt delete_network_endpoint r app h = absurd (false≢true h)
serve-SameLists rt catch_all r app h = ground arith
serve-SameLists rt metrics_endpoint r app h = ground arith
serve-SameLists rt health_probe r app h = ground arith
serve-SameLists rt live_probe r app h = ground arith
serve-SameLists rt ready_probe r app h = ground arith
serve-SameLists rt unknown_endpoint r app h = ground arith

-- What every route gives a request that fits it, the chosen one gives it.
module _ (P : Found → Type 0) where
  abbrev Gives : Call → Route → Type 0
  Gives c r = (f : Endpoint × Dict Bytes) → bind_route r c ≡ some f → P (r, f)

  better-Gives :
      (r : Route) (o : Option (Endpoint × Dict Bytes)) (best : Option Found)
      → ((f : Endpoint × Dict Bytes) → o ≡ some f → P (r, f))
      → ((x : Found) → best ≡ some x → P x)
      → (x : Found) → better r o best ≡ some x
      → P x
  unfolding better
  better-Gives r none best h hb x e = hb x e
  better-Gives r (some f) none h hb x e = subst P (some-injective (r, f) x e) (h f refl)
  better-Gives r (some f) (some other) h hb x e = elim (Bool-cases (covers other.0 r)) [
    | inl it ↦ subst P (some-injective (r, f) x (ground (arith, it, e))) (h f refl)
    | inr other_one ↦ hb x (ground (arith, other_one, e))
  ]

  choose-Gives :
      (c : Call) (routes : List Route)
      → All (Gives c) routes
      → (x : Found) → choose routes c ≡ some x
      → P x
  unfolding choose
  choose-Gives c [] h x e = absurd (none-ne-some x e)
  choose-Gives c (r ∷ rs) (hr, h) x e =
      better-Gives r (bind_route r c) (choose rs c) hr (choose-Gives c rs h) x e

better-is_some :
    (r : Route) (o : Option (Endpoint × Dict Bytes)) (x : Found)
    → (y : Found) × (better r o (some x) ≡ some y)
unfolding better
better-is_some r none x = (x, refl)
better-is_some r (some f) x = elim (Bool-cases (covers x.0 r)) [
  | inl it ↦ ((r, f), ground (arith, it))
  | inr other_one ↦ (x, ground (arith, other_one))
]

-- With the catch-all every request is served.
choose-is_some :
    (rs : List Route) (c : Call) → (y : Found) × (choose (rs ++ catch_all_routes) c ≡ some y)
unfolding choose bind_route bind_shape better
choose-is_some [] c = (_, refl)
choose-is_some (r ∷ rs) c =
    let (x, e) = choose-is_some rs c in
    let (y, e') = better-is_some r (bind_route r c) x in (y, ap (better r (bind_route r c)) e ∙ e')

bind_route-endpoint :
    (r : Route) (c : Call) (f : Endpoint × Dict Bytes) → bind_route r c ≡ some f → f.0 ≡ r.endpoint
unfolding bind_route
bind_route-endpoint r c f e = elim (Bool-cases (method_fits r.method c.method)) [
  | inl fits ↦ elim (Option-cases (bind_shape r.shape c.path)) [
    | inl nothing ↦ ground (arith, e, fits, nothing)
    | inr (values, bound) ↦ ground (arith, e, fits, bound)
  ]
  | inr other ↦ ground (arith, e, other)
]

-- A route that cannot write for a request: its endpoint only reads, or it is not of its method.
abbrev CannotWrite : Call → Route → Type 0
CannotWrite c r = (reads_only r.endpoint ≡ true) ⊎ (method_fits r.method c.method ≡ false)

abbrev ReadsFound : Found → Type 0
ReadsFound x = reads_only x.1.0 ≡ true

CannotWrite-Gives : (c : Call) (r : Route) → CannotWrite c r → Gives ReadsFound c r
unfolding bind_route
CannotWrite-Gives c r (inl h) f e = ap reads_only (bind_route-endpoint r c f e) ∙ h
CannotWrite-Gives c r (inr h) f e = absurd (
    none-ne-some f (
      subst
        (λ b.
          (if b
            then elim (bind_shape r.shape c.path) [
              | none ↦ none
              | some values ↦ some (r.endpoint, values)
            ]
            else none)
          ≡ some f)
        h e))

listen-SameLists :
    (rs : List Route) (rt : Runtime) (c : Call) (app : App)
    → All (CannotWrite c) (rs ++ catch_all_routes)
    → (app' : App) × (answer : Response) × (listen (rs ++ catch_all_routes) rt c app
        ≡ some (app', answer))
      × SameLists app' app
      × StartsDue rt.t app app'
unfolding listen
listen-SameLists rs rt c app h =
    let (x, e) = choose-is_some rs c in
    let served = serve rt x.1.0 (request_of c x.1.1) app in
    (
      served.0,
      served.1,
      ap (λ o. o >>= (λ found. some (serve rt found.1.0 (request_of c found.1.1) app))) e,
      serve-SameLists rt x.1.0 (request_of c x.1.1) app (
          choose-Gives ReadsFound c (rs ++ catch_all_routes)
            (All-map (CannotWrite-Gives c) (rs ++ catch_all_routes) h) x e),
      serve-StartsDue rt x.1.0 (request_of c x.1.1) app,
    )

-- The methods that write.
fits-safe :
    (m : Method)
    → m ≢ put
    → m ≢ delete_method
    → (method_fits (some put) m ≡ false) × (method_fits (some delete_method) m ≡ false)
fits-safe get hp hd = (refl, refl)
fits-safe head hp hd = (refl, refl)
fits-safe put hp hd = absurd (hp refl)
fits-safe delete_method hp hd = absurd (hd refl)
fits-safe other_method hp hd = (refl, refl)

read_routes-CannotWrite : (c : Call) → All (CannotWrite c) read_routes
read_routes-CannotWrite c =
    (inl refl, (inl refl, (inl refl, (inl refl, (inl refl, (inl refl, tt))))))

write_routes-CannotWrite :
    (c : Call) → c.method ≢ put → c.method ≢ delete_method → All (CannotWrite c) write_routes
write_routes-CannotWrite c hp hd =
    let (p, d) = fits-safe c.method hp hd in (inr p, (inr d, (inr p, (inr d, tt))))

-- On the lookup listener every request is answered, whatever its method and path, and before its
-- answer no request changes a table, the revision or the mode, or posts anything to etcd. The only
-- goroutines that it starts, which delete later, are for entries of the tables that have expired at
-- a reading of its clock.
pub lookup_listener-SameLists :
    (rt : Runtime) (c : Call) (app : App)
    → (app' : App) × (answer : Response) × (listen lookup_routes rt c app ≡ some (app', answer))
      × SameLists app' app
      × StartsDue rt.t app app'
lookup_listener-SameLists rt c app = listen-SameLists read_routes rt c app (
    All-append (CannotWrite c) read_routes catch_all_routes (read_routes-CannotWrite c)
      (inl refl, tt))

-- On the API listener every request whose method is neither PUT nor DELETE is answered, and it changes
-- no table, not the revision and not the mode, and posts nothing to etcd before its answer; it starts
-- goroutines only for entries that have expired.
pub api_listener-SameLists :
    (rt : Runtime) (c : Call) (app : App)
    → c.method ≢ put
    → c.method ≢ delete_method
    → (app' : App) × (answer : Response) × (listen api_routes rt c app ≡ some (app', answer))
      × SameLists app' app
      × StartsDue rt.t app app'
api_listener-SameLists rt c app hp hd = listen-SameLists (read_routes ++ write_routes) rt c app (
    All-append (CannotWrite c) (read_routes ++ write_routes) catch_all_routes
      (All-append (CannotWrite c) read_routes write_routes (read_routes-CannotWrite c)
        (write_routes-CannotWrite c hp hd))
      (inl refl, tt))
