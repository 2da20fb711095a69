-- ===== src/Routes/Patterns.antt =====
-- main.go and metrics.go: the patterns that the listeners register, and the handler that a request
-- reaches. The router is http.ServeMux of Go's library: a request goes to the most specific pattern
-- that matches it, a GET pattern also matches HEAD, `{x}` matches one segment that is not empty, and
-- "/" matches every path. A path is the list of its unescaped segments, the last one empty where it
-- ends with a slash; one with "//", "." or ".." is redirected by the router and reaches no handler.
use open_blocklist.Base.{
  Bytes, codes, Option, none, some, Bool, true, false, ◌&&◌, List, [], ◌∷◌, ◌++◌, str_eq,
  if◌then◌else◌,
}
use open_blocklist.Base.Dict.{Dict}
use open_blocklist.Http.{Method, get, head, put, delete_method}

pub data Segment : Type 0 where
  literal : Bytes → Segment
  wildcard : Bytes → Segment

-- A path: its segments, or every path ("/").
pub data Shape : Type 0 where
  segments : List Segment → Shape
  everything : Shape

-- The functions that are registered.
pub data Endpoint : Type 0 where
  list_endpoint lookup_endpoint auth_endpoint health_endpoint : Endpoint
  put_endpoint delete_endpoint put_network_endpoint delete_network_endpoint : Endpoint
  catch_all : Endpoint
  metrics_endpoint health_probe live_probe ready_probe unknown_endpoint : Endpoint

pub record Route : Type 0 where
  pub method : Option Method
  pub shape : Shape
  pub endpoint : Endpoint

abbrev route : Method → List Segment → Endpoint → Route
route method path endpoint = record {
  method = some method;
  shape = segments path;
  endpoint = endpoint;
}

abbrev any_method : Bytes → Endpoint → Route
any_method path endpoint = record {
  method = none;
  shape = segments (literal path ∷ []);
  endpoint = endpoint;
}

-- RegisterReadHandler
abbrev pub read_routes : List Route
read_routes =
    route get (literal (codes "lookup") ∷ []) list_endpoint
    ∷ route get (literal (codes "lookup") ∷ wildcard (codes "ip") ∷ []) lookup_endpoint
    ∷ route head (literal (codes "lookup") ∷ wildcard (codes "ip") ∷ []) lookup_endpoint
    ∷ route get (literal (codes "auth") ∷ wildcard (codes "ip") ∷ []) auth_endpoint
    ∷ route head (literal (codes "auth") ∷ wildcard (codes "ip") ∷ []) auth_endpoint
    ∷ route get (literal (codes "health") ∷ []) health_endpoint
    ∷ []

-- RegisterWriteHandler
abbrev pub write_routes : List Route
write_routes =
    route put (literal (codes "block") ∷ wildcard (codes "ip") ∷ []) put_endpoint
    ∷ route delete_method (literal (codes "block") ∷ wildcard (codes "ip") ∷ []) delete_endpoint
    ∷ route put
        (literal (codes "block-network") ∷ wildcard (codes "net") ∷ wildcard (codes "prefix") ∷ [])
        put_network_endpoint
    ∷ route delete_method
        (literal (codes "block-network") ∷ wildcard (codes "net") ∷ wildcard (codes "prefix") ∷ [])
        delete_network_endpoint
    ∷ []

-- RegisterCatchAll
abbrev pub catch_all_routes : List Route
catch_all_routes = record { method = none; shape = everything; endpoint = catch_all } ∷ []

-- The patterns of startLookupListener, of startApiListener and of startMetricsListener.
abbrev pub lookup_routes : List Route
lookup_routes = read_routes ++ catch_all_routes

abbrev pub api_routes : List Route
api_routes = read_routes ++ (write_routes ++ catch_all_routes)

abbrev pub metrics_routes : List Route
metrics_routes =
    any_method (codes "metrics") metrics_endpoint
    ∷ any_method (codes "healthz") health_probe
    ∷ any_method (codes "livez") live_probe
    ∷ any_method (codes "readyz") ready_probe
    ∷ record { method = none; shape = everything; endpoint = unknown_endpoint }
    ∷ []

-- A request as it comes to a listener.
pub record Call : Type 0 where
  pub method : Method
  pub path : List Bytes
  pub query : List (Bytes × Bytes)

abbrev pub method_fits : Option Method → Method → Bool
method_fits none m = true
method_fits (some get) get = true
method_fits (some get) head = true
method_fits (some head) head = true
method_fits (some put) put = true
method_fits (some delete_method) delete_method = true
method_fits (some _) _ = false

-- The path values of a path that fits, by the names of its wildcards.
unfoldable pub bind_path : List Segment → List Bytes → Option (Dict Bytes)
bind_path [] [] = some []
bind_path [] (p ∷ ps) = none
bind_path (s ∷ ss) [] = none
bind_path (literal l ∷ ss) (p ∷ ps) =
    let rest = bind_path ss ps in if str_eq l p then rest else none
bind_path (wildcard x ∷ ss) (p ∷ ps) =
    let rest = bind_path ss ps in
    if str_eq p [] then none else elim rest [ none ↦ none | some values ↦ some ((x, p) ∷ values) ]

unfoldable pub bind_shape : Shape → List Bytes → Option (Dict Bytes)
unfolding bind_path
bind_shape (segments ss) ps = bind_path ss ps
bind_shape everything ps = some []

unfoldable pub bind_route : Route → Call → Option (Endpoint × Dict Bytes)
unfolding bind_shape
bind_route r c =
    if method_fits r.method c.method
    then elim (bind_shape r.shape c.path) [ none ↦ none | some values ↦ some (r.endpoint, values) ]
    else none

-- Whether a pattern matches all that another one matches.
abbrev method_covers : Option Method → Option Method → Bool
method_covers none m = true
method_covers (some m) none = false
method_covers (some m) (some n) = method_fits (some m) n

abbrev segment_covers : Segment → Segment → Bool
segment_covers (wildcard x) s = true
segment_covers (literal l) (literal k) = str_eq l k
segment_covers (literal l) (wildcard x) = false

abbrev path_covers : List Segment → List Segment → Bool
path_covers [] [] = true
path_covers [] (t ∷ ts) = false
path_covers (s ∷ ss) [] = false
path_covers (s ∷ ss) (t ∷ ts) = segment_covers s t && path_covers ss ts

abbrev shape_covers : Shape → Shape → Bool
shape_covers everything s = true
shape_covers (segments ss) (segments ts) = path_covers ss ts
shape_covers (segments ss) everything = false

unfoldable pub covers : Route → Route → Bool
covers r s = method_covers r.method s.method && shape_covers r.shape s.shape

-- A route, and the endpoint and path values that a request gets from it.
abbrev pub Found : Type 0
Found = Route × (Endpoint × Dict Bytes)

-- Of a route and the best one behind it, the more specific one that the request fits.
unfoldable pub better : Route → Option (Endpoint × Dict Bytes) → Option Found → Option Found
unfolding covers
better r none best = best
better r (some f) none = some (r, f)
better r (some f) (some other) = if covers other.0 r then some (r, f) else some other

-- The choice of the router.
unfoldable pub choose : List Route → Call → Option Found
unfolding bind_route better
choose [] c = none
choose (r ∷ rs) c = better r (bind_route r c) (choose rs c)
