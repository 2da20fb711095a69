-- ===== src/Etcd.antt =====
-- etcd.go: the tables that are loaded from etcd, and the watch events that keep them up to date. The
-- texts that etcd answers are arguments, `none` where the request fails.
pub mod Mirror
pub mod NetworkMirror
pub mod Replica
pub mod NetworkReplica
pub mod Reconnect
pub mod Revision
pub mod SharedRevision
use open_blocklist.Base.{
  Bytes, codes, Option, none, some, Bool, true, false, ◌&&◌, not, List, [], ◌∷◌, ltb, str_eq, split,
  join, length, if◌then◌else◌,
}
use open_blocklist.Base.Int.{ℤ, pos, ltb_ℤ, ◌+ℤ◌, wrap64}
use open_blocklist.Base.Dict.{insert, delete}
use open_blocklist.Ipv4.{ipv4_str_to_uint32}
use open_blocklist.Key.{ip_from_key, last_n, cidr_from_etcd_key, prefix_range_end}
use open_blocklist.State.{
  App, BlockEntry, BlockRecord, CidrEntry, IpNet, Go, EtcdKv, WatchEvent, WatchResponse,
}
use open_blocklist.CidrTable.{upsert, remove}

-- The entry of an address that is read back from etcd.
unfoldable pub loaded_entry : Bytes → BlockRecord → ℤ → ℤ → BlockEntry
loaded_entry ip rec create_revision mod_revision = record {
  ip = ip;
  source = rec.source;
  scenario = rec.scenario;
  action = rec.action;
  create_revision = create_revision;
  mod_revision = mod_revision;
  first_seen = rec.first_seen;
  last_seen = rec.last_seen;
  expiration = rec.expiration;
  return_code = ipv4_str_to_uint32 rec.host;
}

unfoldable pub loaded_cidr_entry : Bytes → IpNet → BlockRecord → CidrEntry
loaded_cidr_entry cidr net rec = record {
  cidr = cidr;
  net = net;
  source = rec.source;
  scenario = rec.scenario;
  action = rec.action;
  return_code = ipv4_str_to_uint32 rec.host;
  first_seen = rec.first_seen;
  last_seen = rec.last_seen;
  expiration = rec.expiration;
}

-- parseInt64
abbrev pub parse_int64 : Go → Bytes → ℤ
parse_int64 go s = (go.parse_int s).0

-- etcdRange behind its request, on the body of the answer.
unfoldable pub etcd_range : Go → Option Bytes → Option (List EtcdKv × ℤ)
etcd_range go none = none
etcd_range go (some raw) =
    let (kvs, revision) = go.unmarshal_range raw in some (kvs, parse_int64 go revision)

-- The body of loadFromEtcd's loop; the text of the address is not parsed.
unfoldable pub load_kv : Go → EtcdKv → App → App
unfolding loaded_entry
load_kv go kv app =
    let parts = split (go.b64d kv.key) b'/' in
    let (rec, _) = go.unmarshal_record (go.b64d kv.value) in
    let ip = join (last_n 4 parts) b'.' in
    if ltb (length parts) 4 then app else record app {
      ip_table =
          insert ip
            (loaded_entry ip rec (parse_int64 go kv.create_revision)
              (parse_int64 go kv.mod_revision))
            app.ip_table;
    }

unfoldable pub load_kvs : Go → List EtcdKv → App → App
load_kvs go [] app = app
load_kvs go (kv ∷ kvs) app = load_kvs go kvs (load_kv go kv app)

-- loadFromEtcd: `none` where the process ends.
unfoldable pub load_from_etcd : Go → Option Bytes → App → Option App
unfolding etcd_range
load_from_etcd go answer app = elim (etcd_range go answer) [
  | none ↦ none
  | some (kvs, revision) ↦ some (load_kvs go kvs (record app { revision = revision }))
]

-- The update of a network, as the load and the watch perform it, on the decoded record and the
-- parsed network.
unfoldable pub store_decoded : Bytes → BlockRecord × Bool → Option IpNet → App → App
unfolding loaded_cidr_entry
store_decoded cidr (rec, false) parsed app = app
store_decoded cidr (rec, true) none app = app
store_decoded cidr (rec, true) (some net) app = record app {
  cidr_table = upsert (loaded_cidr_entry cidr net rec) app.cidr_table;
}

unfoldable pub store_network : Go → Bytes → Bytes → App → App
store_network go cidr value app =
    store_decoded cidr (go.unmarshal_record value) (go.parse_cidr cidr) app

unfoldable pub load_cidr_kv : Go → EtcdKv → App → App
load_cidr_kv go kv app =
    let cidr = cidr_from_etcd_key (go.b64d kv.key) in
    if str_eq cidr [] then app else store_network go cidr (go.b64d kv.value) app

unfoldable pub load_cidr_kvs : Go → List EtcdKv → App → App
load_cidr_kvs go [] app = app
load_cidr_kvs go (kv ∷ kvs) app = load_cidr_kvs go kvs (load_cidr_kv go kv app)

-- loadCIDRFromEtcd
unfoldable pub load_cidr_from_etcd : Go → Option Bytes → App → App
unfolding etcd_range
load_cidr_from_etcd go answer app = elim (etcd_range go answer) [
  | none ↦ app
  | some (kvs, _) ↦ load_cidr_kvs go kvs app
]

-- The start of a watch: its range, and the first revision wanted if any is known.
pub record WatchRequest : Type 0 where
  pub key : Bytes
  pub range_end : Bytes
  pub start_revision : Option ℤ

unfoldable pub watch_request : Go → Bytes → ℤ → WatchRequest
watch_request go prefix rev = record {
  key = go.b64 prefix;
  range_end = go.b64 (prefix_range_end prefix);
  start_revision = if ltb_ℤ (pos 0) rev then some (wrap64 (rev +ℤ pos 1)) else none;
}

unfoldable pub update_revision : ℤ → App → App
update_revision rev app = if ltb_ℤ app.revision rev then record app { revision = rev } else app

-- The part of both watches that reads the header's revision.
unfoldable pub read_revision : Go → Bytes → App → App
unfolding update_revision
read_revision go text app =
    let (rev, parsed) = go.parse_int text in
    if not (str_eq text []) && parsed then update_revision rev app else app

-- An update event behind the decoding of its value and net.ParseIP.
unfoldable pub update_decoded : Bytes → WatchEvent → BlockRecord × Bool → Option Bytes → App → App
unfolding loaded_entry
update_decoded ip ev (rec, false) parsed app = app
update_decoded ip ev (rec, true) none app = app
update_decoded ip ev (rec, true) (some _) app = record app {
  ip_table = insert ip (loaded_entry ip rec ev.create_revision ev.mod_revision) app.ip_table;
}

unfoldable pub update_ip : Go → Bytes → WatchEvent → App → App
update_ip go ip ev app =
    update_decoded ip ev (go.unmarshal_record (go.b64d ev.value)) (go.parse_ip ip) app

-- The body of the loop over the events in watchLoop.
unfoldable pub apply_event : Go → WatchEvent → App → App
unfolding update_ip
apply_event go ev app =
    let ip = ip_from_key go.parse_ip (go.b64d ev.key) in
    if str_eq ip []
    then app
    else if str_eq ev.event_type (codes "DELETE")
    then record app { ip_table = delete ip app.ip_table }
    else update_ip go ip ev app

unfoldable pub apply_events : Go → List WatchEvent → App → App
apply_events go [] app = app
apply_events go (ev ∷ evs) app = apply_events go evs (apply_event go ev app)

-- One line of the answer to the watch of the addresses.
unfoldable pub watch_message : Go → Option WatchResponse → App → App
unfolding read_revision
watch_message go none app = app
watch_message go (some msg) app = apply_events go msg.events (read_revision go msg.revision app)

unfoldable pub watch_line : Go → Bytes → App → App
watch_line go line app = watch_message go (go.unmarshal_watch line) app

-- The loop over the lines of one connection.
unfoldable pub watch_lines : Go → List Bytes → App → App
watch_lines go [] app = app
watch_lines go (line ∷ lines) app = watch_lines go lines (watch_line go line app)

-- The body of the loop over the events in cidrWatchLoop.
unfoldable pub apply_cidr_event : Go → WatchEvent → App → App
unfolding store_network
apply_cidr_event go ev app =
    let cidr = cidr_from_etcd_key (go.b64d ev.key) in
    if str_eq cidr []
    then app
    else if str_eq ev.event_type (codes "DELETE")
    then record app { cidr_table = remove cidr app.cidr_table }
    else store_network go cidr (go.b64d ev.value) app

unfoldable pub apply_cidr_events : Go → List WatchEvent → App → App
apply_cidr_events go [] app = app
apply_cidr_events go (ev ∷ evs) app = apply_cidr_events go evs (apply_cidr_event go ev app)

-- One line of the answer to the watch of the networks.
unfoldable pub cidr_watch_message : Go → Option WatchResponse → App → App
unfolding read_revision
cidr_watch_message go none app = app
cidr_watch_message go (some msg) app =
    apply_cidr_events go msg.events (read_revision go msg.revision app)

unfoldable pub cidr_watch_line : Go → Bytes → App → App
cidr_watch_line go line app = cidr_watch_message go (go.unmarshal_watch line) app

unfoldable pub cidr_watch_lines : Go → List Bytes → App → App
cidr_watch_lines go [] app = app
cidr_watch_lines go (line ∷ lines) app = cidr_watch_lines go lines (cidr_watch_line go line app)
