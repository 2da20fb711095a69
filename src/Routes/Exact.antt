-- ===== src/Routes/Exact.antt =====
-- main.go: the handlers that the write requests and the authorization requests reach.
use open_blocklist.Base.{
  ℕ, sym, ◌∙◌, Bytes, codes, some, false, List, [], ◌∷◌, str_eq, ◌≡◌, ◌≢◌, refl, ap,
}
use open_blocklist.Base.Int.{ℤ}
use open_blocklist.Base.Dict.{lookup}
use open_blocklist.State.{App, BlockEntry, is_expired}
use open_blocklist.Http.{Method, get, put, delete_method, Request, Response, entry_body}
use open_blocklist.Read.{handle_auth}
use open_blocklist.Write.{handle_put, handle_delete, handle_put_network, handle_delete_network}
use open_blocklist.Write.Effect.{put_forbids}
use open_blocklist.Routes.{
  Call, lookup_routes, api_routes, bind_path, bind_shape, bind_route, covers, better, choose,
  Runtime, serve, listen,
}

abbrev pub call : Method → List Bytes → List (Bytes × Bytes) → Call
call m path query = record { method = m; path = path; query = query }

-- The request of a handler whose path has the value `ip` only.
abbrev pub ip_request : Method → Bytes → List (Bytes × Bytes) → Request
ip_request m ip query = record { method = m; ip = ip; net = []; prefix = []; query = query }

abbrev network_request : Method → Bytes → Bytes → List (Bytes × Bytes) → Request
network_request m net prefix query = record {
  method = m;
  ip = [];
  net = net;
  prefix = prefix;
  query = query;
}

-- On the API listener a PUT or DELETE of /block/{ip} and of /block-network/{net}/{prefix}, none of
-- them empty, reaches the handler of that name with these values of the path and the whole query.
pub api_writes :
    (rt : Runtime) (ip net prefix : Bytes) (query : List (Bytes × Bytes)) (app : App)
    → ip ≢ []
    → net ≢ []
    → prefix ≢ []
    → (listen api_routes rt (call put (codes "block" ∷ ip ∷ []) query) app
        ≡ some (handle_put rt.go rt.t (ip_request put ip query) app))
      × (listen api_routes rt (call delete_method (codes "block" ∷ ip ∷ []) query) app
          ≡ some (handle_delete rt.go (ip_request delete_method ip query) app))
      × (listen api_routes rt (call put (codes "block-network" ∷ net ∷ prefix ∷ []) query) app
          ≡ some (handle_put_network rt.go rt.t (network_request put net prefix query) app))
      × (listen api_routes rt
            (call delete_method (codes "block-network" ∷ net ∷ prefix ∷ []) query)
            app
          ≡ some (handle_delete_network rt.go (network_request delete_method net prefix query) app))
unfolding listen choose better bind_route bind_shape bind_path covers str_eq serve lookup
api_writes rt [] net prefix query app hi hn hp = absurd (hi refl)
api_writes rt (i ∷ ip) [] prefix query app hi hn hp = absurd (hn refl)
api_writes rt (i ∷ ip) (n ∷ net) [] query app hi hn hp = absurd (hp refl)
api_writes rt (i ∷ ip) (n ∷ net) (p ∷ prefix) query app hi hn hp = (refl, refl, refl, refl)

pub put_block :
    (rt : Runtime) (ip : Bytes) (query : List (Bytes × Bytes)) (app : App)
    → ip ≢ []
    → listen api_routes rt (call put (codes "block" ∷ ip ∷ []) query) app
      ≡ some (handle_put rt.go rt.t (ip_request put ip query) app)
unfolding listen choose better bind_route bind_shape bind_path covers str_eq serve lookup
put_block rt [] query app h = absurd (h refl)
put_block rt (i ∷ ip) query app h = refl

pub delete_block :
    (rt : Runtime) (ip : Bytes) (query : List (Bytes × Bytes)) (app : App)
    → ip ≢ []
    → listen api_routes rt (call delete_method (codes "block" ∷ ip ∷ []) query) app
      ≡ some (handle_delete rt.go (ip_request delete_method ip query) app)
unfolding listen choose better bind_route bind_shape bind_path covers str_eq serve lookup
delete_block rt [] query app h = absurd (h refl)
delete_block rt (i ∷ ip) query app h = refl

-- GET of /auth/{ip} on the lookup listener.
pub lookup_auth :
    (rt : Runtime) (ip : Bytes) (query : List (Bytes × Bytes)) (app : App)
    → ip ≢ []
    → listen lookup_routes rt (call get (codes "auth" ∷ ip ∷ []) query) app
      ≡ some (handle_auth rt.go rt.t (ip_request get ip query) app)
unfolding listen choose better bind_route bind_shape bind_path covers str_eq serve lookup
lookup_auth rt [] query app h = absurd (h refl)
lookup_auth rt (i ∷ ip) query app h = refl

-- If a PUT of /block/{ip} on the API listener of a process in single-instance mode is answered with
-- 200 and the entry `e`, then a GET of /auth/{ip} that comes to the lookup listener next is answered
-- with 403, at every time at which `e` has not expired; for an address that is not empty.
pub put_then_forbidden :
    (rt : Runtime) (t' : ℕ → ℤ) (ip : Bytes) (query query' : List (Bytes × Bytes)) (app app' : App)
    (answer : Response) (e : BlockEntry)
    → ip ≢ []
    → app.multi_instance ≡ false
    → listen api_routes rt (call put (codes "block" ∷ ip ∷ []) query) app ≡ some (app', answer)
    → answer.status ≡ 200
    → answer.body ≡ entry_body e
    → is_expired e.expiration (t' 0) ≡ false
    → (app'' : App) × (answer' : Response) × (listen lookup_routes
          (record rt { t = t' })
          (call get (codes "auth" ∷ ip ∷ []) query')
          app'
        ≡ some (app'', answer'))
      × (answer'.status ≡ 403)
put_then_forbidden rt t' ip query query' app app' answer e nonempty single done status body live =
    let reached : (app', answer) ≡ handle_put rt.go rt.t (ip_request put ip query) app =
      cc (done, put_block rt ip query app nonempty) in
    let state = ap (λ p. p.0) reached in
    let response = ap (λ p. p.1) reached in
    let next = handle_auth rt.go t' (ip_request get ip query') app' in
    (
      next.0,
      next.1,
      lookup_auth (record rt { t = t' }) ip query' app' nonempty,
      rw state (
          put_forbids rt.go rt.t (ip_request put ip query) (ip_request get ip query') app e t'
            single (ap (λ (r : Response). r.status) (sym response) ∙ status)
            (ap (λ (r : Response). r.body) (sym response) ∙ body) live nonempty refl),
    )
