-- ===== src/CrowdSec.antt =====
-- crowdsec.go: the decisions of a CrowdSec service, applied to the tables. `clock` is what the calls
-- of time.Now give in one decision: the readings of crowdSecApply's two calls and of the lookup's.
pub mod Remove
pub mod Applied
pub mod Loop
use open_blocklist.Base.{
  ℕ, suc, Bytes, codes, Option, none, some, ◌&&◌, not, List, [], ◌∷◌, ◌++◌, str_eq, contains,
  if◌then◌else◌,
}
use open_blocklist.Base.Int.{ℤ, pos}
use open_blocklist.Ipv4.{ipv4_str_to_uint32}
use open_blocklist.Key.{cidr_to_etcd_key}
use open_blocklist.State.{App, BlockEntry, BlockRecord, CidrEntry, IpNet, Go, etcd_put}
use open_blocklist.IpTable.{ip_table_lookup}
use open_blocklist.CidrTable.{find_by_cidr}
use open_blocklist.Query.{default_return}
use open_blocklist.Write.{
  record_ttl, put_keys, store_ip, first_seen_of, network_first_seen, store_cidr,
}

-- csDecision, without its identifier and scope, which nothing reads.
pub record Decision : Type 0 where
  pub value : Bytes
  pub kind : Bytes
  pub origin : Bytes
  pub scenario : Bytes
  pub duration : Bytes

-- csDecisionStream
pub record DecisionStream : Type 0 where
  pub new : List Decision
  pub deleted : List Decision

-- The reading in nanoseconds that an expiration is counted from, and two in seconds.
pub record Clock : Type 0 where
  pub expiry : ℤ
  pub now : ℤ
  pub lookup : ℤ

unfoldable pub source_of : Decision → Bytes
source_of d =
    if not (str_eq d.origin []) && not (str_eq d.origin (codes "crowdsec"))
    then codes "crowdsec:" ++ d.origin
    else codes "crowdsec"

-- Zero where there is no duration, or one that cannot be parsed.
unfoldable pub expiration_of : Go → ℤ → Bytes → ℤ
expiration_of go now duration =
    if str_eq duration []
    then pos 0
    else elim (go.parse_duration duration) [ none ↦ pos 0 | some d ↦ go.unix_after now d ]

unfoldable pub decision_entry : Bytes → Decision → ℤ → ℤ → ℤ → BlockEntry
unfolding source_of
decision_entry ip d first_seen now expiration = record {
  ip = ip;
  source = source_of d;
  scenario = d.scenario;
  action = d.kind;
  create_revision = pos 0;
  mod_revision = pos 0;
  first_seen = first_seen;
  last_seen = now;
  expiration = expiration;
  return_code = ipv4_str_to_uint32 default_return;
}

unfoldable pub decision_cidr_entry : Bytes → IpNet → Decision → ℤ → ℤ → ℤ → CidrEntry
unfolding source_of
decision_cidr_entry cidr net d first_seen now expiration = record {
  cidr = cidr;
  net = net;
  source = source_of d;
  scenario = d.scenario;
  action = d.kind;
  return_code = ipv4_str_to_uint32 default_return;
  first_seen = first_seen;
  last_seen = now;
  expiration = expiration;
}

unfoldable pub decision_record : Decision → ℤ → ℤ → ℤ → BlockRecord
unfolding source_of
decision_record d first_seen now expiration = record {
  version = 1;
  ttl = record_ttl;
  host = default_return;
  source = source_of d;
  scenario = d.scenario;
  action = d.kind;
  first_seen = first_seen;
  last_seen = now;
  expiration = expiration;
}

-- crowdSecApplyIP where the address can be parsed.
unfoldable pub block_ip : Go → Clock → Decision → ℤ → App → Bytes → App
unfolding put_keys store_ip decision_entry decision_record
block_ip go clock d expiration app ip =
    let ipstr = go.ip_string ip in
    let (app', existing) = ip_table_lookup clock.lookup ipstr app in
    let first_seen = first_seen_of clock.now existing in
    store_ip ipstr (decision_entry ipstr d first_seen clock.now expiration)
      (put_keys go ip (decision_record d first_seen clock.now expiration) app')

-- crowdSecApplyCIDR where the network can be parsed.
unfoldable pub block_network : Go → Clock → Decision → ℤ → App → IpNet → App
unfolding etcd_put store_cidr decision_cidr_entry decision_record
block_network go clock d expiration app net =
    let cidr = go.net_string net in
    let first_seen = network_first_seen clock.now (find_by_cidr cidr app.cidr_table) in
    store_cidr (decision_cidr_entry cidr net d first_seen clock.now expiration) (
      etcd_put go (cidr_to_etcd_key cidr)
        (go.marshal_record (decision_record d first_seen clock.now expiration)) app)

-- crowdSecApplyIP and crowdSecApplyCIDR, on what net.ParseIP and net.ParseCIDR return.
unfoldable pub crowd_sec_apply_ip : Go → Clock → Decision → ℤ → App → Option Bytes → App
unfolding block_ip
crowd_sec_apply_ip go clock d expiration app none = app
crowd_sec_apply_ip go clock d expiration app (some ip) = block_ip go clock d expiration app ip

unfoldable pub crowd_sec_apply_cidr : Go → Clock → Decision → ℤ → App → Option IpNet → App
unfolding block_network
crowd_sec_apply_cidr go clock d expiration app none = app
crowd_sec_apply_cidr go clock d expiration app (some net) =
    block_network go clock d expiration app net

-- crowdSecApply
unfoldable pub crowd_sec_apply : Go → Clock → Decision → App → App
unfolding crowd_sec_apply_ip crowd_sec_apply_cidr expiration_of
crowd_sec_apply go clock d app =
    let expiration = expiration_of go clock.expiry d.duration in
    if contains d.value b'/'
    then crowd_sec_apply_cidr go clock d expiration app (go.parse_cidr d.value)
    else crowd_sec_apply_ip go clock d expiration app (go.parse_ip d.value)

unfoldable pub crowd_sec_apply_all : Go → (ℕ → Clock) → List Decision → App → App
crowd_sec_apply_all go clocks [] app = app
crowd_sec_apply_all go clocks (d ∷ ds) app =
    crowd_sec_apply_all go (λ n. clocks (suc n)) ds (crowd_sec_apply go (clocks 0) d app)
