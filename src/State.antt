-- ===== src/State.antt =====
-- main.go and cidr.go: the records of the program, its tables and counters, and the parts of Go's
-- library that the program calls and that this library does not implement.
use open_blocklist.Base.{ℕ, ◌+◌, ◌-◌, Bytes, Option, Bool, List, [], ◌∷◌, ◌++◌, ◌&&◌}
use open_blocklist.Base.Int.{ℤ, pos, ltb_ℤ, leb_ℤ}
use open_blocklist.Base.Dict.{Dict}

-- net.IPNet
pub record IpNet : Type 0 where
  pub ip : Bytes
  pub mask : Bytes

-- BlockRecord, without the two revisions that are never written.
pub record BlockRecord : Type 0 where
  pub version : ℕ
  pub ttl : ℕ
  pub host : Bytes
  pub source : Bytes
  pub scenario : Bytes
  pub action : Bytes
  pub first_seen : ℤ
  pub last_seen : ℤ
  pub expiration : ℤ

-- PTRRecord
pub record PtrRecord : Type 0 where
  pub host : Bytes
  pub ttl : ℕ

pub record BlockEntry : Type 0 where
  pub ip : Bytes
  pub source : Bytes
  pub scenario : Bytes
  pub action : Bytes
  pub create_revision : ℤ
  pub mod_revision : ℤ
  pub first_seen : ℤ
  pub last_seen : ℤ
  pub expiration : ℤ
  pub return_code : ℕ

-- CIDREntry
pub record CidrEntry : Type 0 where
  pub cidr : Bytes
  pub net : IpNet
  pub source : Bytes
  pub scenario : Bytes
  pub action : Bytes
  pub return_code : ℕ
  pub first_seen : ℤ
  pub last_seen : ℤ
  pub expiration : ℤ

-- EtcdKV
pub record EtcdKv : Type 0 where
  pub key : Bytes
  pub value : Bytes
  pub create_revision : Bytes
  pub mod_revision : Bytes

-- watchEvent
pub record WatchEvent : Type 0 where
  pub event_type : Bytes
  pub key : Bytes
  pub value : Bytes
  pub create_revision : ℤ
  pub mod_revision : ℤ

-- watchResponse: the revision of its header and its events.
pub record WatchResponse : Type 0 where
  pub revision : Bytes
  pub events : List WatchEvent

-- What the program calls of Go's packages net, time, encoding/json, encoding/base64 and fmt. A Go
-- error or nil is `none`; a time is its Unix seconds, a duration its nanoseconds. Decoding a record
-- gives what the decoder leaves behind, and whether it reported no error; so does strconv.ParseInt.
-- `unix_after` is Unix of the time that lies a duration after a reading of the clock in nanoseconds.
pub record Go : Type 0 where
  pub parse_ip : Bytes → Option Bytes
  pub ip_string : Bytes → Bytes
  pub parse_cidr : Bytes → Option IpNet
  pub net_string : IpNet → Bytes
  pub net_contains : IpNet → Bytes → Bool
  pub parse_time : Bytes → Option ℤ
  pub parse_duration : Bytes → Option ℤ
  pub unix_after : ℤ → ℤ → ℤ
  pub format_time : ℤ → Bytes
  pub duration_string : ℤ → Bytes
  pub format_int : ℤ → Bytes
  pub marshal_record : BlockRecord → Bytes
  pub marshal_ptr : PtrRecord → Bytes
  pub unmarshal_record : Bytes → BlockRecord × Bool
  pub unmarshal_watch : Bytes → Option WatchResponse
  pub unmarshal_range : Bytes → List EtcdKv × Bytes
  pub parse_int : Bytes → ℤ × Bool
  pub b64 : Bytes → Bytes
  pub b64d : Bytes → Bytes

-- The counters; atomic.Int64, of which none comes near its bound.
pub record Stats : Type 0 where
  pub requests_lookup : ℕ
  pub requests_auth : ℕ
  pub requests_put : ℕ
  pub requests_delete : ℕ
  pub requests_list : ℕ
  pub requests_health : ℕ
  pub metrics_requests : ℕ
  pub requests_write_active : ℕ
  pub invalid_endpoint_requests : ℕ
  pub config_errors : ℕ
  pub health_success : ℕ
  pub health_failure : ℕ
  pub liveness_success : ℕ
  pub liveness_failure : ℕ
  pub readiness_failure : ℕ
  pub readiness_success : ℕ
  pub req_dns_invalid_query : ℕ
  pub req_dns_wrong_zone : ℕ
  pub req_dns_blocked : ℕ
  pub req_dns_not_listed : ℕ
  pub req_dns_other_query_type : ℕ
  pub log_dropped : ℕ

-- The requests that etcdPut and etcdDelete post, with their base64 texts.
pub data EtcdRequest : Type 0 where
  kv_put : Bytes → Bytes → EtcdRequest
  kv_delete : Bytes → EtcdRequest

-- The goroutines that a lookup starts: `go deleteExpiredIP(ip)` and `go deleteExpiredCIDR(cidr)`.
pub data Task : Type 0 where
  expire_ip : Bytes → Task
  expire_cidr : Bytes → Task

-- The process: its tables and counters, gEtcdRevision, gMultiInstanceMode, the requests posted to
-- etcd (the last one last) and the goroutines started and not yet run.
pub record App : Type 0 where
  pub ip_table : Dict BlockEntry
  pub cidr_table : List CidrEntry
  pub stats : Stats
  pub revision : ℤ
  pub multi_instance : Bool
  pub requests : List EtcdRequest
  pub tasks : List Task

unfoldable pub etcd_delete : Go → Bytes → App → App
etcd_delete go key app = record app { requests = app.requests ++ kv_delete (go.b64 key) ∷ [] }

-- etcdPut of a marshalled value; every caller drops the error that it returns.
unfoldable pub etcd_put : Go → Bytes → Bytes → App → App
etcd_put go key json app = record app {
  requests = app.requests ++ kv_put (go.b64 key) (go.b64 json) ∷ [];
}

unfoldable pub spawn : Task → App → App
spawn t app = record app { tasks = app.tasks ++ t ∷ [] }

-- entry.Expiration > 0 && entry.Expiration <= now
unfoldable pub is_expired : ℤ → ℤ → Bool
is_expired expiration now = ltb_ℤ (pos 0) expiration && leb_ℤ expiration now

abbrev pub zero_stats : Stats
zero_stats = record {
  requests_lookup = 0;
  requests_auth = 0;
  requests_put = 0;
  requests_delete = 0;
  requests_list = 0;
  requests_health = 0;
  metrics_requests = 0;
  requests_write_active = 0;
  invalid_endpoint_requests = 0;
  config_errors = 0;
  health_success = 0;
  health_failure = 0;
  liveness_success = 0;
  liveness_failure = 0;
  readiness_failure = 0;
  readiness_success = 0;
  req_dns_invalid_query = 0;
  req_dns_wrong_zone = 0;
  req_dns_blocked = 0;
  req_dns_not_listed = 0;
  req_dns_other_query_type = 0;
  log_dropped = 0;
}

-- stats.RequestsWriteActive.Add(1), and the deferred Add(-1).
unfoldable pub enter_write : App → App
enter_write app = record app {
  stats = record app.stats { requests_write_active = app.stats.requests_write_active + 1 };
}

unfoldable pub leave_write : App → App
leave_write app = record app {
  stats = record app.stats { requests_write_active = app.stats.requests_write_active - 1 };
}
