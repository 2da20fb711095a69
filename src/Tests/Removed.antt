-- ===== src/Tests/Removed.antt =====
-- Addresses that are removed, and the loop of CrowdSec.
use open_blocklist.Base.{
  ℕ, zero, suc, ◌+◌, ◌⊎◌, Bytes, codes, none, some, true, false, [], ◌∷◌, ◌++◌, ◌≡◌, ◌≢◌, refl,
  arith, str_eq,
}
use open_blocklist.Base.Int.{ℤ, pos}
use open_blocklist.Ipv4.{is_ipv4, ipv4_str_to_uint32, scan, uint32_to_ipv4_bytes, append_uint8}
use open_blocklist.Ipv4.RoundTrip.{dotted}
use open_blocklist.State.{App, BlockEntry, EtcdRequest}
use open_blocklist.Http.{Request, Response, delete_method, get}
use open_blocklist.Read.{handle_auth}
use open_blocklist.Write.{handle_delete, delete_parsed}
use open_blocklist.Routes.{Runtime, listen, lookup_routes}
use open_blocklist.Routes.Exact.{call, ip_request, delete_block}
use open_blocklist.Etcd.{apply_event}
use open_blocklist.Etcd.Mirror.{parsed_quad}
use open_blocklist.Metrics.{other_kind}
use open_blocklist.System.Elsewhere.{event_of}
use open_blocklist.System.Removed.{networks_decide, delete_then_decided, delete_allows_elsewhere}
use open_blocklist.CrowdSec.{Clock, DecisionStream}
use open_blocklist.CrowdSec.Remove.{crowd_sec_reconcile}
use open_blocklist.CrowdSec.Loop.{Service, Transport, crowd_sec_loop}
use open_blocklist.CrowdSec.Loop.Once.{
  Answers, all_url, Follows, Unanswered, from, crowd_sec_loop-once,
}
use open_blocklist.Tests.Toy.{toy, empty_app, unmarshal-marshal}

abbrev t : ℕ → ℤ
t n = pos 100

abbrev runtime : Runtime
runtime = record {
  go = toy;
  build = record { platform = codes "linux"; go_version = codes "go1.26.1" };
  read = λ n. other_kind;
  t = t;
}

abbrev address : Bytes
address = dotted 203 0 113 200

abbrev blocked : BlockEntry
blocked = record {
  ip = codes "203.0.113.200";
  source = codes "openbl";
  scenario = [];
  action = codes "ban";
  create_revision = pos 0;
  mod_revision = pos 0;
  first_seen = pos 10;
  last_seen = pos 10;
  expiration = pos 500;
  return_code = 2130706434;
}

abbrev holding : App
holding = record empty_app { ip_table = (address, blocked) ∷ [] }

abbrev request : Request
request = ip_request delete_method address []

address-nonempty : address ≢ []
unfolding append_uint8
address-nonempty = grind arith

address-parsed : toy.parse_ip address ≡ some (parsed_quad 203 0 113 200)
unfolding is_ipv4 ipv4_str_to_uint32 scan str_eq uint32_to_ipv4_bytes append_uint8
address-parsed = refl

deleted : (handle_delete toy request holding).1.status ≡ 204
unfolding handle_delete delete_parsed is_ipv4 ipv4_str_to_uint32 scan str_eq append_uint8
deleted = refl

delete_then_decided_example :
    (parsed : Bytes) × (app'' : App) × (answer' : Response) × (toy.parse_ip address ≡ some parsed)
    × (listen lookup_routes
          (record runtime { t = t })
          (call get (codes "auth" ∷ address ∷ []) [])
          (handle_delete toy request holding).0
        ≡ some (app'', answer'))
    × (answer'.status ≡ networks_decide toy t parsed holding)
delete_then_decided_example =
    delete_then_decided runtime t address [] [] holding (handle_delete toy request holding).0
      (handle_delete toy request holding).1 (address-nonempty) refl
      (delete_block runtime address [] holding address-nonempty) (deleted)

delete_allows_elsewhere_example :
    (posted reverse : EtcdRequest) × ((handle_delete toy request holding).0.requests
      ≡ holding.requests ++ (posted ∷ reverse ∷ []))
    × ((handle_auth toy t
          (ip_request get address [])
          (apply_event toy (event_of (pos 7) (pos 8) posted) holding)).1.status
        ≡ networks_decide toy t (parsed_quad 203 0 113 200) holding)
delete_allows_elsewhere_example =
    delete_allows_elsewhere toy (λ s. refl) (unmarshal-marshal) 203 0 113 200 (omega arith)
      (omega arith) (omega arith) (omega arith) (address-parsed) t request
      (ip_request get address []) holding holding (pos 7) (pos 8) refl refl (deleted)

-- A service that does not answer at first.
abbrev transports : ℕ → Transport
transports i = record {
  get_with_key = λ url key. elim i [ zero ↦ none | suc _ ↦ some (200, codes "{}") ];
  decode = λ body. some (record { new = []; deleted = [] });
}

abbrev clocks : ℕ → ℕ → Clock
clocks i j = record { expiry = pos 10; now = pos 10; lookup = pos 10 }

abbrev service : Service
service = record { lapi_url = codes "http://crowdsec:8080"; api_key = codes "k3y" }

crowd_sec_loop-once_example :
    (Unanswered service transports 3
      × (crowd_sec_loop toy service transports clocks 3 (true, holding) ≡ (true, holding)))
    ⊎ ((i more : ℕ) × (stream : DecisionStream) × (app' : App) × (3 ≡ suc i + more)
        × Unanswered service transports i
        × Answers service (transports i) (all_url service) stream
        × Follows toy service
            (from (suc i) transports)
            (from (suc i) clocks)
            more
            (crowd_sec_reconcile toy (clocks i) stream holding)
            app'
        × (crowd_sec_loop toy service transports clocks 3 (true, holding) ≡ (false, app')))
crowd_sec_loop-once_example = crowd_sec_loop-once toy service transports clocks 3 holding
