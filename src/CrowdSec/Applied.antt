-- ===== src/CrowdSec/Applied.antt =====
-- What the application of a decision does to the tables and to etcd.
use open_blocklist.Base.{Bytes, [], ◌∷◌, ◌++◌, if◌then◌else◌, ◌≡◌, refl, sym, arith}
use open_blocklist.Base.Int.{ℤ}
use open_blocklist.Base.Dict.{insert}
use open_blocklist.Ipv4.{ipv4_str_to_uint32, uint32_to_ipv4_str, append_uint8}
use open_blocklist.Key.{cidr_to_etcd_key}
use open_blocklist.State.{App, BlockEntry, BlockRecord, CidrEntry, IpNet, Go, kv_put, etcd_put}
use open_blocklist.IpTable.{ip_table_lookup}
use open_blocklist.IpTable.Laws.{SameData, ip_table_lookup-SameData}
use open_blocklist.CidrTable.{upsert, find_by_cidr}
use open_blocklist.Write.{
  block_record, cidr_record, put_keys, store_ip, store_cidr, first_seen_of, network_first_seen,
}
use open_blocklist.Write.Effect.{put_requests, put_keys_requests}
use open_blocklist.CrowdSec.{
  Decision, Clock, decision_entry, decision_cidr_entry, decision_record, block_ip, block_network,
}

-- The record that is put for a decision is the record of the entry that is stored.
block_record-decision_entry :
    (ip : Bytes) (d : Decision) (first_seen now expiration : ℤ)
    → block_record (decision_entry ip d first_seen now expiration)
      ≡ decision_record d first_seen now expiration
unfolding block_record decision_entry decision_record ipv4_str_to_uint32 uint32_to_ipv4_str
    append_uint8
block_record-decision_entry ip d first_seen now expiration = refl

cidr_record-decision :
    (cidr : Bytes) (net : IpNet) (d : Decision) (first_seen now expiration : ℤ)
    → cidr_record (decision_cidr_entry cidr net d first_seen now expiration)
      ≡ decision_record d first_seen now expiration
unfolding cidr_record decision_cidr_entry decision_record ipv4_str_to_uint32 uint32_to_ipv4_str
    append_uint8
cidr_record-decision cidr net d first_seen now expiration = refl

-- The entry that a decision on an address leads to: an entry that is already there and has not
-- expired keeps its first time.
abbrev pub blocked_entry : Go → Clock → Decision → ℤ → App → Bytes → BlockEntry
blocked_entry go clock d expiration app ip =
    let ipstr = go.ip_string ip in
    decision_entry ipstr d (first_seen_of clock.now (ip_table_lookup clock.lookup ipstr app).1)
      clock.now expiration

abbrev pub blocked_network : Go → Clock → Decision → ℤ → App → IpNet → CidrEntry
blocked_network go clock d expiration app net =
    let cidr = go.net_string net in
    decision_cidr_entry cidr net d (network_first_seen clock.now (find_by_cidr cidr app.cidr_table))
      clock.now expiration

put_keys-tables :
    (go : Go) (ip : Bytes) (rec : BlockRecord) (app : App)
    → ((put_keys go ip rec app).ip_table ≡ app.ip_table)
      × ((put_keys go ip rec app).cidr_table ≡ app.cidr_table)
      × ((put_keys go ip rec app).multi_instance ≡ app.multi_instance)
unfolding put_keys
put_keys-tables go ip rec app = (refl, refl, refl)

-- The entry is stored and its requests are posted, in a process that stands where `app` stands.
store-put_keys :
    (go : Go) (ipstr ip : Bytes) (e : BlockEntry) (b app : App)
    → SameData b app
    → ((store_ip ipstr e (put_keys go ip (block_record e) b)).ip_table
        ≡ (if app.multi_instance then app.ip_table else insert ipstr e app.ip_table))
      × ((store_ip ipstr e (put_keys go ip (block_record e) b)).requests
          ≡ app.requests ++ put_requests go ip e)
      × ((store_ip ipstr e (put_keys go ip (block_record e) b)).cidr_table ≡ app.cidr_table)
      × ((store_ip ipstr e (put_keys go ip (block_record e) b)).multi_instance ≡ app.multi_instance)
unfolding store_ip
store-put_keys go ipstr ip e b app same =
    let (ips, networks, mode) = put_keys-tables go ip (block_record e) b in
    (
      ground (arith, same.ip_table, same.multi_instance, ips, mode),
      ground (arith, put_keys_requests go ip (block_record e) b, same.requests),
      ground (arith, same.cidr_table, networks),
      ground (arith, same.multi_instance, mode),
    )

store-put_network :
    (go : Go) (e : CidrEntry) (app : App)
    → ((store_cidr e (
          etcd_put go (cidr_to_etcd_key e.cidr) (go.marshal_record (cidr_record e)) app)).cidr_table
        ≡ (if app.multi_instance then app.cidr_table else upsert e app.cidr_table))
      × ((store_cidr e (
            etcd_put go (cidr_to_etcd_key e.cidr) (go.marshal_record (cidr_record e)) app)).requests
          ≡ app.requests
            ++ kv_put
                (go.b64 (cidr_to_etcd_key e.cidr))
                (go.b64 (go.marshal_record (cidr_record e)))
              ∷ [])
      × ((store_cidr e (
            etcd_put go (cidr_to_etcd_key e.cidr) (go.marshal_record (cidr_record e)) app)).ip_table
          ≡ app.ip_table)
      × ((store_cidr e (
            etcd_put go
              (cidr_to_etcd_key e.cidr)
              (go.marshal_record (cidr_record e))
              app)).multi_instance
          ≡ app.multi_instance)
unfolding store_cidr etcd_put
store-put_network go e app = (ground arith, ground arith, ground arith, ground arith)

module _ (go : Go) (clock : Clock) (d : Decision) (expiration : ℤ) (app : App) where
  -- The application of a decision on an address stores its entry under the canonical text, in
  -- single-instance mode only; posts the two requests that a PUT of that entry would post; and
  -- leaves the networks and the mode as they are.
  pub block_ip_exact :
      (ip : Bytes)
      → ((block_ip go clock d expiration app ip).ip_table ≡ (
          if app.multi_instance
          then app.ip_table
          else insert (go.ip_string ip) (blocked_entry go clock d expiration app ip) app.ip_table))
        × ((block_ip go clock d expiration app ip).requests
            ≡ app.requests ++ put_requests go ip (blocked_entry go clock d expiration app ip))
        × ((block_ip go clock d expiration app ip).cidr_table ≡ app.cidr_table)
        × ((block_ip go clock d expiration app ip).multi_instance ≡ app.multi_instance)
  unfolding block_ip
  block_ip_exact ip =
      let (b, existing) = ip_table_lookup clock.lookup (go.ip_string ip) app in
      rw
        (sym (
          block_record-decision_entry (go.ip_string ip) d (first_seen_of clock.now existing)
            clock.now expiration))
        (store-put_keys go (go.ip_string ip) ip (blocked_entry go clock d expiration app ip) b app
          (ip_table_lookup-SameData clock.lookup (go.ip_string ip) app))

  -- The application of a decision on a network upserts its entry, in single-instance mode only; puts
  -- the record of that entry under the key of the network; and leaves the addresses and the mode as
  -- they are.
  pub block_network_exact :
      (net : IpNet)
      → ((block_network go clock d expiration app net).cidr_table ≡ (
          if app.multi_instance
          then app.cidr_table
          else upsert (blocked_network go clock d expiration app net) app.cidr_table))
        × ((block_network go clock d expiration app net).requests
            ≡ app.requests
              ++ kv_put (go.b64 (cidr_to_etcd_key (go.net_string net))) (
                  go.b64 (
                    go.marshal_record
                      (cidr_record (blocked_network go clock d expiration app net))))
                ∷ [])
        × ((block_network go clock d expiration app net).ip_table ≡ app.ip_table)
        × ((block_network go clock d expiration app net).multi_instance ≡ app.multi_instance)
  unfolding block_network
  block_network_exact net =
      let first_seen =
        network_first_seen clock.now (find_by_cidr (go.net_string net) app.cidr_table) in
      rw (sym (cidr_record-decision (go.net_string net) net d first_seen clock.now expiration))
        (store-put_network go (blocked_network go clock d expiration app net) app)
