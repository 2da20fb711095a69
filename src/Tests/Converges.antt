-- ===== src/Tests/Converges.antt =====
-- An address that one instance blocks and another follows, over a connection that breaks.
use open_blocklist.Base.{
  ℕ, suc, ◌==◌, Bytes, codes, Option, none, some, true, [], ◌∷◌, ◌++◌, str_eq, if◌then◌else◌, ◌≡◌,
  refl, arith, ap,
}
use open_blocklist.Base.Int.{ℤ, pos}
use open_blocklist.Base.Dict.{lookup}
use open_blocklist.Ipv4.{is_ipv4, ipv4_str_to_uint32, scan, uint32_to_ipv4_bytes, append_uint8}
use open_blocklist.Ipv4.RoundTrip.{scan-dotted}
use open_blocklist.Key.{v4_in_v6}
use open_blocklist.State.{App, BlockEntry, EtcdRequest, Go, WatchResponse, is_expired}
use open_blocklist.IpTable.{ip_table_lookup}
use open_blocklist.Query.{
  Fields, read_fields, default_fields, is_in, set_time, expiration_after, check_params,
}
use open_blocklist.Http.{get, put, Request, Response, respond, entry_body, query_get}
use open_blocklist.Read.{handle_auth}
use open_blocklist.Write.{handle_put, put_parsed, finish_put, block_entry}
use open_blocklist.Routes.Exact.{ip_request}
use open_blocklist.Etcd.{WatchRequest}
use open_blocklist.Etcd.Mirror.{parsed_quad}
use open_blocklist.Etcd.Replica.{Address, IsAddress, text_of, put_at, delete_at, event_for}
use open_blocklist.Etcd.Reconnect.{Connection, watch_loop}
use open_blocklist.Etcd.Reconnect.Watched.{Watch}
use open_blocklist.Etcd.Reconnect.Entries.{entries}
use open_blocklist.System.Elsewhere.{event_of}
use open_blocklist.System.Converges.{readable, put_converges}
use open_blocklist.Tests.Toy.{toy, empty_app, unmarshal-marshal}
use open_blocklist.Tests.Connections.{connections, connections-Serves, whole-ServesAll}

abbrev t : ℕ → ℤ
t n = pos 100

abbrev one : Address
one = record { a = 203; b = 0; c = 113; d = 200 }

abbrev two : Address
two = record { a = 198; b = 51; c = 100; d = 7 }

abbrev fields : Fields
fields = record {
  source = codes "ssh";
  scenario = [];
  action = codes "ban";
  return_code = 2130706434;
  last_seen = pos 100;
  expiration = pos 0;
}

abbrev entry : BlockEntry
entry = block_entry (text_of one) (pos 100) fields

-- A parser of IPv4 addresses.
abbrev parse : Bytes → Option Bytes
parse s =
    let q = uint32_to_ipv4_bytes (ipv4_str_to_uint32 s) in
    some (v4_in_v6 ++ (q.b0 ∷ q.b1 ∷ q.b2 ∷ q.b3 ∷ []))

abbrev message : Bytes → Option WatchResponse
message [] = none
message (n ∷ line) = some (
    if n == 6
    then record {
      revision = codes "123456";
      events = event_for toy (put_at one entry (pos 6) (pos 6)) ∷ [];
    }
    else if n == 8
    then record { revision = codes "1234567"; events = [] }
    else record { revision = codes "1234567"; events = event_for toy (delete_at two) ∷ [] })

abbrev reader : Go
reader = record toy { parse_ip = parse; unmarshal_watch = message }

reader-reads :
    (y : Address) → IsAddress y → reader.parse_ip (text_of y) ≡ some (parsed_quad y.a y.b y.c y.d)
reader-reads y (ha, hb, hc, hd) =
    rw (scan-dotted y.a y.b y.c y.d ha hb hc hd) (unfold uint32_to_ipv4_bytes in ground arith)

abbrev request : Request
request = ip_request put (text_of one) ((codes "source", codes "ssh") ∷ [])

put_answer :
    (handle_put reader t request empty_app).1
    ≡ respond 200
        ((codes "X-Service", codes "open-blocklist")
          ∷ (codes "Content-Type", codes "application/json")
          ∷ [])
        (entry_body entry)
unfolding handle_put put_parsed finish_put read_fields default_fields query_get lookup str_eq is_in
    check_params set_time is_ipv4 ipv4_str_to_uint32 scan expiration_after ip_table_lookup
    append_uint8
put_answer = refl

abbrev addresses : Watch reader
addresses =
    entries reader (λ s. refl) (unmarshal-marshal)
      (readable reader (λ s. refl) (unmarshal-marshal) (reader-reads))

abbrev etcd : ℕ → WatchRequest → Connection
etcd =
    connections reader addresses (put_at one entry (pos 6) (pos 6)) (delete_at two) refl refl refl
      refl refl refl

abbrev follower : App
follower = record empty_app { revision = pos 5; multi_instance = true }

put_converges_example :
    (posted reverse : EtcdRequest) × ((handle_put reader t request empty_app).0.requests
      ≡ empty_app.requests ++ (posted ∷ reverse ∷ []))
    × (event_for reader (put_at one entry (pos 6) (pos 6)) ≡ event_of (pos 6) (pos 6) posted)
    × ((handle_auth reader t
          (ip_request get (text_of one) [])
          (watch_loop reader etcd (suc 1) follower)).1.status
        ≡ 403)
unfolding append_uint8
put_converges_example =
    put_converges reader (λ s. refl) (unmarshal-marshal) (reader-reads) one t t request
      (ip_request get (text_of one) []) empty_app follower entry (pos 6) (pos 6)
      (omega arith, omega arith, omega arith, omega arith) refl refl
      (ap (λ (x : Response). x.status) put_answer) (ap (λ (x : Response). x.body) put_answer)
      (unfold is_expired block_entry in refl) [] ((7, delete_at two) ∷ []) 6
      (unfold str_eq in refl, tt) etcd 1 5 0 (λ _. none)
      (connections-Serves reader addresses (put_at one entry (pos 6) (pos 6)) (delete_at two) refl
        refl refl refl refl refl)
      (whole-ServesAll reader addresses (put_at one entry (pos 6) (pos 6)) (delete_at two) refl refl
        refl refl refl refl)
      (omega arith, (omega arith, tt))
      (
        (
          ((omega arith, omega arith, omega arith, omega arith), unfold block_entry in omega arith),
          omega arith,
        ),
        (((omega arith, omega arith, omega arith, omega arith), omega arith), tt),
      )
      (omega arith) (omega arith) refl (λ k. unfold lookup in refl)
