-- ===== src/Tests/Handlers.antt =====
-- The handlers of HTTP and DNS requests.
use mathlib.Core.Option
use open_blocklist.Base.{
  ℕ, Bytes, codes, some, true, [], ◌∷◌, ◌++◌, str_eq, contains, has_prefix, inl, trim_suffix, split,
  if◌then◌else◌, ◌≡◌, refl, arith, ap,
}
use open_blocklist.Base.Int.{ℤ, pos}
use open_blocklist.Base.Dict.{lookup, insert}
use open_blocklist.Ipv4.{append_uint8, is_ipv4, ipv4_str_to_uint32, scan, uint32_to_ipv4_bytes}
use open_blocklist.Ipv4.RoundTrip.{dotted}
use open_blocklist.Key.{v4_in_v6}
use open_blocklist.State.{App, BlockEntry, is_expired}
use open_blocklist.IpTable.{ip_table_lookup}
use open_blocklist.Query.{
  Fields, ok, read_fields, default_fields, is_in, set_time, expiration_after, check_params,
}
use open_blocklist.Query.Laws.{IsRead, read_fields_ok}
use open_blocklist.Http.{Method, get, put, Request, Response, respond, entry_body, query_get}
use open_blocklist.Read.{handle_lookup, handle_auth}
use open_blocklist.Read.Agree.{
  listed, auth_status, is_fresh, handle_lookup_status, auth-lookup_agree,
}
use open_blocklist.Write.{
  handle_put, handle_delete, handle_put_network, handle_delete_network, put_parsed, finish_put,
  block_entry,
}
use open_blocklist.Write.Effect.{FirstSeen, put_requests, handle_put_ok}
use open_blocklist.Write.Networks.{put_network_forbids}
use open_blocklist.Tasks.{StartsDue}
use open_blocklist.Write.Reject.{Settled, write_handlers-Settled}
use open_blocklist.Dns.{
  Reply, success, name_error, type_a, handle_dns_request, rbl_zone, labels_of, Question,
}
use open_blocklist.Dns.Names.{query_to_ip-dotted}
use open_blocklist.Dns.Answers.{Counted, dns_code}
use open_blocklist.Dns.Total.{IsName, handle_dns_request-returns}
use open_blocklist.Tests.Toy.{toy, empty_app}

abbrev t : ℕ → ℤ
t n = pos 100

abbrev later : ℕ → ℤ
later n = pos 200

abbrev request : Method → Request
request method = record {
  method = method;
  ip = codes "203.0.113.200";
  net = codes "10.0.0.0";
  prefix = codes "8";
  query = (codes "source", codes "ssh") ∷ [];
}

abbrev parsed : Bytes
parsed = v4_in_v6 ++ (203 ∷ 0 ∷ 113 ∷ 200 ∷ [])

ip-parsed : toy.parse_ip (request get).ip ≡ some parsed
unfolding is_ipv4 ipv4_str_to_uint32 scan str_eq uint32_to_ipv4_bytes
ip-parsed = refl

abbrev fields : Fields
fields = record {
  source = codes "ssh";
  scenario = [];
  action = codes "ban";
  return_code = 2130706434;
  last_seen = pos 100;
  expiration = pos 0;
}

read : read_fields toy (pos 100) (request put) (default_fields (pos 100)) ≡ ok fields
unfolding read_fields default_fields query_get lookup str_eq is_in check_params set_time
    ipv4_str_to_uint32 scan expiration_after
read = refl

read_fields_ok_example : IsRead toy (pos 100) (request put) (default_fields (pos 100)) fields
read_fields_ok_example =
    read_fields_ok toy (pos 100) (request put) (default_fields (pos 100)) fields read

abbrev entry : BlockEntry
entry = block_entry (codes "203.0.113.200") (pos 100) fields

put_answer :
    (handle_put toy t (request put) empty_app).1
    ≡ respond 200
        ((codes "X-Service", codes "open-blocklist")
          ∷ (codes "Content-Type", codes "application/json")
          ∷ [])
        (entry_body entry)
unfolding handle_put put_parsed finish_put read_fields default_fields query_get lookup str_eq is_in
    check_params set_time is_ipv4 ipv4_str_to_uint32 scan expiration_after ip_table_lookup
put_answer = refl

handle_put_ok_example :
    (ip : Bytes) × (e : BlockEntry) × (toy.parse_ip (request put).ip ≡ some ip)
    × ((handle_put toy t (request put) empty_app).1.body ≡ entry_body e)
    × (e.ip ≡ (request put).ip)
    × FirstSeen (t 0) (t 1) (request put).ip empty_app e
    × ((handle_put toy t (request put) empty_app).0.ip_table ≡ (
        if empty_app.multi_instance
        then empty_app.ip_table
        else insert (request put).ip e empty_app.ip_table))
    × ((handle_put toy t (request put) empty_app).0.requests
        ≡ empty_app.requests ++ put_requests toy ip e)
handle_put_ok_example =
    handle_put_ok toy t (request put) empty_app (ap (λ (x : Response). x.status) put_answer)

write_handlers-Settled_example :
    (Settled 200 empty_app (handle_put toy t (request put) empty_app)
      × StartsDue t empty_app (handle_put toy t (request put) empty_app).0)
    × (Settled 204 empty_app (handle_delete toy (request put) empty_app)
        × StartsDue t empty_app (handle_delete toy (request put) empty_app).0)
    × (Settled 200 empty_app (handle_put_network toy t (request put) empty_app)
        × StartsDue t empty_app (handle_put_network toy t (request put) empty_app).0)
    × (Settled 204 empty_app (handle_delete_network toy (request put) empty_app)
        × StartsDue t empty_app (handle_delete_network toy (request put) empty_app).0)
write_handlers-Settled_example = write_handlers-Settled toy t (request put) empty_app

handle_lookup_status_example :
    (handle_lookup toy t (request get) empty_app).1.status
    ≡ (if listed toy t (request get).ip parsed empty_app then 200 else 204)
handle_lookup_status_example =
    handle_lookup_status toy t (request get) parsed empty_app (grind arith) (ip-parsed)

put_network_forbids_example :
    ((handle_put_network toy t (request put) empty_app).1.status ≡ 200)
    × ((handle_auth toy later
          (request get)
          (handle_put_network toy t (request put) empty_app).0).1.status
        ≡ 403)
put_network_forbids_example =
    put_network_forbids toy t later (request put) (request get) empty_app
      (record { ip = codes "10.0.0.0/8"; mask = v4_in_v6 }) fields parsed refl
      (unfold contains in refl) read (grind arith) (ip-parsed) (unfold has_prefix in refl)
      (unfold is_expired in refl) tt

auth-lookup_agree_example :
    (handle_auth toy t (request get) empty_app).1.status
    ≡ auth_status (handle_lookup toy t (request get) empty_app).1.status
auth-lookup_agree_example = auth-lookup_agree toy t (request get) empty_app

abbrev name : Bytes
name = (dotted 200 113 0 203 ++ codes ".") ++ rbl_zone

dns_code_example :
    Option.map
      (λ (p : App × Reply). p.1.rcode)
      (handle_dns_request
        (λ z n. true)
        (pos 100)
        (record { name = name; qtype = type_a } ∷ ([]))
        empty_app)
    ≡ some (
        if is_fresh (pos 100) (lookup (dotted 203 0 113 200) empty_app.ip_table)
        then success
        else name_error)
dns_code_example =
    dns_code (λ z n. true) (pos 100) name (dotted 203 0 113 200) ([]) empty_app refl
      ((query_to_ip-dotted 203 0 113 200 (omega arith) (omega arith) (omega arith) (omega arith)).0)

abbrev question : Question
question = record { name = name; qtype = type_a }

name-IsName : IsName name
name-IsName = record {
  labels = inl (unfold labels_of trim_suffix split str_eq append_uint8 in grind arith);
}

handle_dns_request-returns_example :
    (app' : App) × (r : Reply) × (handle_dns_request
        (λ z n. true)
        (pos 100)
        (question ∷ [])
        empty_app
      ≡ some (app', r))
    × Counted empty_app app'
handle_dns_request-returns_example =
    handle_dns_request-returns (λ z n. true) (pos 100) (question ∷ []) empty_app (name-IsName, tt)
