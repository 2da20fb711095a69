-- ===== src/Tests/Listeners.antt =====
-- The listeners, the start, and an instance that follows another.
use open_blocklist.Base.{
  ℕ, Bytes, codes, none, some, Bool, true, List, [], ◌∷◌, ◌++◌, str_eq, ◌≢◌, ◌≡◌, refl, arith, ap,
}
use open_blocklist.Base.Int.{ℤ, pos}
use open_blocklist.Base.Dict.{lookup}
use open_blocklist.Ipv4.{is_ipv4, ipv4_str_to_uint32, scan, uint32_to_ipv4_bytes, append_uint8}
use open_blocklist.Ipv4.RoundTrip.{dotted}
use open_blocklist.Key.{rbl_key}
use open_blocklist.State.{App, BlockEntry, EtcdRequest, Go, is_expired}
use open_blocklist.IpTable.{ip_table_lookup}
use open_blocklist.Query.{
  Fields, read_fields, default_fields, is_in, set_time, expiration_after, check_params,
}
use open_blocklist.Http.{
  Method, get, put, delete_method, head, Request, Response, respond, entry_body, query_get,
}
use open_blocklist.Read.{handle_auth}
use open_blocklist.Write.{handle_put, put_parsed, finish_put, block_entry}
use open_blocklist.Routes.{Call, Runtime, listen, lookup_routes, api_routes}
use open_blocklist.Routes.Exact.{call, ip_request, put_block, put_then_forbidden}
use open_blocklist.Routes.Listeners.{SameLists, lookup_listener-SameLists}
use open_blocklist.Tasks.{StartsDue}
use open_blocklist.Etcd.{apply_event}
use open_blocklist.Etcd.Mirror.{parsed_quad}
use open_blocklist.Metrics.{other_kind}
use open_blocklist.Expiry.{expiration_round}
use open_blocklist.Etcd.{load_from_etcd, load_cidr_from_etcd, etcd_range, load_kvs}
use open_blocklist.System.{IsConsistent, Reaches, here, further, was_put, round_ended}
use open_blocklist.System.Elsewhere.{event_of, put_forbids_elsewhere}
use open_blocklist.System.Started.{start, new_app, started-IsConsistent}
use open_blocklist.Tests.Toy.{toy, empty_app, unmarshal-marshal}

abbrev t : ℕ → ℤ
t n = pos 100

abbrev later : ℕ → ℤ
later n = pos 200

abbrev runtime : Runtime
runtime = record {
  go = toy;
  build = record { platform = codes "linux"; go_version = codes "go1.26.1" };
  read = λ n. other_kind;
  t = t;
}

abbrev address : Bytes
address = dotted 203 0 113 200

abbrev query : List (Bytes × Bytes)
query = (codes "source", codes "ssh") ∷ []

abbrev request : Method → Request
request method = ip_request method address query

abbrev fields : Fields
fields = record {
  source = codes "ssh";
  scenario = [];
  action = codes "ban";
  return_code = 2130706434;
  last_seen = pos 100;
  expiration = pos 0;
}

abbrev entry : BlockEntry
entry = block_entry address (pos 100) fields

address-parsed : toy.parse_ip address ≡ some (parsed_quad 203 0 113 200)
unfolding is_ipv4 ipv4_str_to_uint32 scan str_eq uint32_to_ipv4_bytes append_uint8
address-parsed = refl

put_answer :
    (handle_put toy t (request put) empty_app).1
    ≡ respond 200
        ((codes "X-Service", codes "open-blocklist")
          ∷ (codes "Content-Type", codes "application/json")
          ∷ [])
        (entry_body entry)
unfolding handle_put put_parsed finish_put read_fields default_fields query_get lookup str_eq is_in
    check_params set_time is_ipv4 ipv4_str_to_uint32 scan expiration_after ip_table_lookup
    append_uint8
put_answer = refl

abbrev put_app : App
put_app = (handle_put toy t (request put) empty_app).0

abbrev answer : Response
answer = (handle_put toy t (request put) empty_app).1

address-nonempty : address ≢ []
unfolding append_uint8
address-nonempty = grind arith

put_reached :
    listen api_routes runtime (call put (codes "block" ∷ address ∷ []) query) empty_app
    ≡ some (put_app, answer)
put_reached = put_block runtime address query empty_app address-nonempty

put_then_forbidden_example :
    (app'' : App) × (answer' : Response) × (listen lookup_routes
        (record runtime { t = later })
        (call get (codes "auth" ∷ address ∷ []) ([]))
        put_app
      ≡ some (app'', answer'))
    × (answer'.status ≡ 403)
put_then_forbidden_example =
    put_then_forbidden runtime later address query ([]) empty_app put_app answer entry
      (address-nonempty) refl put_reached (ap (λ (x : Response). x.status) put_answer)
      (ap (λ (x : Response). x.body) put_answer) (unfold is_expired block_entry in refl)

abbrev delete_call : Call
delete_call = record { method = delete_method; path = codes "block" ∷ address ∷ []; query = [] }

abbrev head_call : Call
head_call = record { method = head; path = codes "lookup" ∷ address ∷ []; query = [] }

lookup_listener-SameLists_example :
    (app' : App) × (answer : Response) × (listen lookup_routes runtime delete_call put_app
      ≡ some (app', answer))
    × SameLists app' put_app
    × StartsDue runtime.t put_app app'
lookup_listener-SameLists_example = lookup_listener-SameLists runtime delete_call put_app

put_forbids_elsewhere_example :
    (posted reverse : EtcdRequest) × ((handle_put toy t (request put) empty_app).0.requests
      ≡ empty_app.requests ++ (posted ∷ reverse ∷ []))
    × ((handle_auth toy later (request get) (
          apply_event toy
            (event_of (pos 7) (pos 8) posted)
            (record empty_app { multi_instance = true }))).1.status
        ≡ 403)
put_forbids_elsewhere_example =
    put_forbids_elsewhere toy (λ s. refl) (unmarshal-marshal) 203 0 113 200 (omega arith)
      (omega arith) (omega arith) (omega arith) (address-parsed) t later (request put) (request get)
      empty_app (record empty_app { multi_instance = true }) entry (pos 7) (pos 8) refl refl
      (ap (λ (x : Response). x.status) put_answer) (ap (λ (x : Response). x.body) put_answer)
      (unfold is_expired block_entry in refl)

-- etcd with one address under the key of 203.0.113.200, at the revision that the answer's length says.
abbrev loading : Go
loading = record toy {
  unmarshal_range = λ s. (
    record {
      key = rbl_key (parsed_quad 203 0 113 200);
      value = s;
      create_revision = [];
      mod_revision = [];
    }
        ∷ [],
    s,
  );
}

abbrev loaded : App
loaded = load_cidr_from_etcd loading none (
    load_kvs loading (loading.unmarshal_range (codes "x")).0
      (record (new_app true) { revision = pos 1 }))

loaded-start : start loading true (some (codes "x")) none ≡ some loaded
unfolding start load_from_etcd etcd_range load_cidr_from_etcd load_kvs
loaded-start = refl

abbrev within : Bytes → Bytes → Bool
within zone name = true

abbrev last : App
last = expiration_round loading (pos 2000) (handle_put loading t (request put) loaded).0

a_run : Reaches loading within loaded last
a_run = further (further here (was_put t (request put))) (round_ended (pos 2000))

started-IsConsistent_example : IsConsistent last
started-IsConsistent_example =
    started-IsConsistent loading within true (some (codes "x")) none loaded last (loaded-start)
      a_run
