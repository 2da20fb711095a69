-- ===== src/Write.antt =====
-- main.go: the handlers that block and unblock addresses and networks. The function `t` gives the
-- readings of the clock, numbered in the order of the calls of time.Now.
pub mod Starts
pub mod Effect
pub mod Reject
pub mod Networks
use open_blocklist.Base.{
  ℕ, ◌+◌, Bytes, codes, Option, none, some, not, [], ◌∷◌, ◌++◌, if◌then◌else◌,
}
use open_blocklist.Base.Int.{ℤ, pos}
use open_blocklist.Base.Dict.{Dict, insert}
use open_blocklist.Ipv4.{uint32_to_ipv4_str}
use open_blocklist.Key.{rbl_key, reverse_key, cidr_to_etcd_key}
use open_blocklist.State.{
  App, BlockEntry, BlockRecord, PtrRecord, CidrEntry, IpNet, Go, enter_write, leave_write, etcd_put,
  etcd_delete,
}
use open_blocklist.IpTable.{ip_table_lookup, delete_keys, forget_ip}
use open_blocklist.CidrTable.{find_by_cidr, upsert, remove}
use open_blocklist.Query.{Outcome, ok, fail, Fields, read_fields, default_fields}
use open_blocklist.Http.{
  Request, Response, respond, no_body, object, entry_body, service_header, content_json, http_error,
  cidr_entry_to_map,
}

-- gRecordTTL and gPtrTTL
abbrev pub record_ttl : ℕ
record_ttl = 120

abbrev pub ptr_record : PtrRecord
ptr_record = record { host = codes "blocked.internal"; ttl = 120 }

-- FirstSeen of an entry that is already there, or now.
abbrev pub first_seen_of : ℤ → Option BlockEntry → ℤ
first_seen_of now none = now
first_seen_of now (some existing) = existing.first_seen

abbrev pub network_first_seen : ℤ → Option CidrEntry → ℤ
network_first_seen now none = now
network_first_seen now (some existing) = existing.first_seen

unfoldable pub block_entry : Bytes → ℤ → Fields → BlockEntry
block_entry ip first_seen f = record {
  ip = ip;
  source = f.source;
  scenario = f.scenario;
  action = f.action;
  create_revision = pos 0;
  mod_revision = pos 0;
  first_seen = first_seen;
  last_seen = f.last_seen;
  expiration = f.expiration;
  return_code = f.return_code;
}

unfoldable pub block_record : BlockEntry → BlockRecord
block_record e = record {
  version = 1;
  ttl = record_ttl;
  host = uint32_to_ipv4_str e.return_code;
  source = e.source;
  scenario = e.scenario;
  action = e.action;
  first_seen = e.first_seen;
  last_seen = e.last_seen;
  expiration = e.expiration;
}

-- etcdPut of the record and of the reverse record of an address.
unfoldable pub put_keys : Go → Bytes → BlockRecord → App → App
unfolding etcd_put
put_keys go ip rec app =
    etcd_put go (reverse_key ip) (go.marshal_ptr ptr_record)
      (etcd_put go (rbl_key ip) (go.marshal_record rec) app)

-- ipTable.entries[ip] = &entry, in single-instance mode only.
unfoldable pub store_ip : Bytes → BlockEntry → App → App
store_ip ip e app =
    if not app.multi_instance then record app { ip_table = insert ip e app.ip_table } else app

abbrev json_headers : Dict Bytes
json_headers = service_header ++ content_json ∷ []

abbrev refuse : Dict Bytes → App → Bytes → App × Response
refuse headers app message = (leave_write app, http_error headers message 400)

abbrev pub count_put : App → App
count_put app =
    enter_write
      (record app { stats = record app.stats { requests_put = app.stats.requests_put + 1 } })

abbrev pub count_delete : App → App
count_delete app =
    enter_write
      (record app { stats = record app.stats { requests_delete = app.stats.requests_delete + 1 } })

-- handlePut behind the reading of the query.
unfoldable pub finish_put : Go → Bytes → Bytes → ℤ → App → Outcome Fields → App × Response
unfolding put_keys store_ip leave_write http_error
finish_put go ipstr ip first_seen app (fail message) = refuse json_headers app message
finish_put go ipstr ip first_seen app (ok f) =
    let e = block_entry ipstr first_seen f in
    (
      leave_write (store_ip ipstr e (put_keys go ip (block_record e) app)),
      respond 200 json_headers (entry_body e),
    )

-- handlePut behind net.ParseIP
unfoldable pub put_parsed : Go → (ℕ → ℤ) → Request → App → Option Bytes → App × Response
unfolding leave_write http_error
put_parsed go t r app none = refuse json_headers app (codes "Invalid ip")
put_parsed go t r app (some ip) =
    let now = t 0 in
    let (app', existing) = ip_table_lookup (t 1) r.ip app in
    finish_put go r.ip ip (first_seen_of now existing) app'
      (read_fields go now r (default_fields now))

-- handlePut
unfoldable pub handle_put : Go → (ℕ → ℤ) → Request → App → App × Response
unfolding enter_write
handle_put go t r app = put_parsed go t r (count_put app) (go.parse_ip r.ip)

-- handleDelete behind net.ParseIP
unfoldable pub delete_parsed : Go → Request → App → Option Bytes → App × Response
unfolding delete_keys forget_ip leave_write http_error
delete_parsed go r app none = refuse service_header app (codes "Invalid ip")
delete_parsed go r app (some ip) =
    (leave_write (forget_ip r.ip (delete_keys go ip app)), respond 204 service_header no_body)

-- handleDelete
unfoldable pub handle_delete : Go → Request → App → App × Response
unfolding enter_write
handle_delete go r app = delete_parsed go r (count_delete app) (go.parse_ip r.ip)

-- r.PathValue("net") + "/" + r.PathValue("prefix")
abbrev pub cidr_path : Request → Bytes
cidr_path r = r.net ++ (b'/' ∷ r.prefix)

unfoldable pub cidr_entry : Bytes → IpNet → ℤ → Fields → CidrEntry
cidr_entry cidr net first_seen f = record {
  cidr = cidr;
  net = net;
  source = f.source;
  scenario = f.scenario;
  action = f.action;
  return_code = f.return_code;
  first_seen = first_seen;
  last_seen = f.last_seen;
  expiration = f.expiration;
}

unfoldable pub cidr_record : CidrEntry → BlockRecord
cidr_record e = record {
  version = 1;
  ttl = record_ttl;
  host = uint32_to_ipv4_str e.return_code;
  source = e.source;
  scenario = e.scenario;
  action = e.action;
  first_seen = e.first_seen;
  last_seen = e.last_seen;
  expiration = e.expiration;
}

-- cidrTable.upsert and cidrTable.remove, in single-instance mode only.
unfoldable pub store_cidr : CidrEntry → App → App
store_cidr e app =
    if not app.multi_instance then record app { cidr_table = upsert e app.cidr_table } else app

unfoldable pub forget_cidr : Bytes → App → App
forget_cidr cidr app =
    if not app.multi_instance then record app { cidr_table = remove cidr app.cidr_table } else app

-- handlePutNetwork behind the reading of the query.
unfoldable pub finish_put_network : Go → (ℕ → ℤ) → IpNet → ℤ → App → Outcome Fields → App × Response
unfolding etcd_put store_cidr leave_write http_error
finish_put_network go t net first_seen app (fail message) = refuse json_headers app message
finish_put_network go t net first_seen app (ok f) =
    let cidr = go.net_string net in
    let e = cidr_entry cidr net first_seen f in
    (
      leave_write (
          store_cidr e
            (etcd_put go (cidr_to_etcd_key cidr) (go.marshal_record (cidr_record e)) app)),
      respond 200 json_headers (object (cidr_entry_to_map go (t 1) (t 2) e)),
    )

-- handlePutNetwork behind net.ParseCIDR
unfoldable pub put_network_parsed : Go → (ℕ → ℤ) → Request → App → Option IpNet → App × Response
unfolding leave_write http_error
put_network_parsed go t r app none =
    refuse json_headers app (codes "Invalid network: " ++ cidr_path r)
put_network_parsed go t r app (some net) =
    let now = t 0 in
    finish_put_network go t net
      (network_first_seen now (find_by_cidr (go.net_string net) app.cidr_table)) app
      (read_fields go now r (default_fields now))

-- handlePutNetwork
unfoldable pub handle_put_network : Go → (ℕ → ℤ) → Request → App → App × Response
unfolding enter_write
handle_put_network go t r app =
    put_network_parsed go t r (count_put app) (go.parse_cidr (cidr_path r))

-- handleDeleteNetwork behind net.ParseCIDR
unfoldable pub delete_network_parsed : Go → Request → App → Option IpNet → App × Response
unfolding etcd_delete forget_cidr leave_write http_error
delete_network_parsed go r app none =
    refuse service_header app (codes "Invalid network: " ++ cidr_path r)
delete_network_parsed go r app (some net) =
    let cidr = go.net_string net in
    (
      leave_write (forget_cidr cidr (etcd_delete go (cidr_to_etcd_key cidr) app)),
      respond 204 service_header no_body,
    )

-- handleDeleteNetwork
unfoldable pub handle_delete_network : Go → Request → App → App × Response
unfolding enter_write
handle_delete_network go r app =
    delete_network_parsed go r (count_delete app) (go.parse_cidr (cidr_path r))
