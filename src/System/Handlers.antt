-- ===== src/System/Handlers.antt =====
-- The consistency of the tables under the handlers and the goroutines.
use open_blocklist.Base.{ℕ, Bytes, Option, none, some, ◌≡◌, refl, arith}
use open_blocklist.Base.Int.{ℤ}
use open_blocklist.Key.{cidr_to_etcd_key}
use open_blocklist.State.{App, IpNet, Go, Task, expire_ip, expire_cidr, enter_write, leave_write}
use open_blocklist.CidrTable.{cidr_table_lookup, delete_expired_cidr}
use open_blocklist.IpTable.{delete_keys, forget_ip, delete_expired_ip, ip_table_lookup}
use open_blocklist.IpTable.Laws.{ip_table_lookup-SameData}
use open_blocklist.Query.{Outcome, ok, fail, Fields}
use open_blocklist.Http.{Request}
use open_blocklist.Read.{
  find_network, find_blocked, auth_network, auth_blocked, handle_lookup, handle_auth, count_lookup,
  count_auth,
}
use open_blocklist.Write.{
  block_entry, block_record, cidr_entry, cidr_record, finish_put, put_parsed, handle_put, count_put,
  count_delete, delete_parsed, handle_delete, finish_put_network, put_network_parsed,
  handle_put_network, delete_network_parsed, handle_delete_network, cidr_path,
}
use open_blocklist.System.{IsConsistent, run_task}
use open_blocklist.System.Keeps.{
  IsConsistent-same, store_ip-IsConsistent, forget_ip-IsConsistent, store_cidr-IsConsistent,
  forget_cidr-IsConsistent, put_keys-IsConsistent, delete_keys-IsConsistent, etcd_put-IsConsistent,
  etcd_delete-IsConsistent, remove-IsConsistent, if-IsConsistent,
}

leave_write-IsConsistent : (app : App) → IsConsistent app → IsConsistent (leave_write app)
unfolding leave_write
leave_write-IsConsistent app h = IsConsistent-same app _ refl refl h

count_put-IsConsistent : (app : App) → IsConsistent app → IsConsistent (count_put app)
count_put-IsConsistent app h =
    IsConsistent-same app _ (unfold enter_write in refl) (unfold enter_write in refl) h

count_delete-IsConsistent : (app : App) → IsConsistent app → IsConsistent (count_delete app)
count_delete-IsConsistent app h =
    IsConsistent-same app _ (unfold enter_write in refl) (unfold enter_write in refl) h

module _ (go : Go) (t : ℕ → ℤ) where
  finish_put-IsConsistent :
      (ipstr ip : Bytes) (first_seen : ℤ) (app : App) (o : Outcome Fields)
      → IsConsistent app
      → IsConsistent (finish_put go ipstr ip first_seen app o).0
  unfolding finish_put block_entry
  finish_put-IsConsistent ipstr ip first_seen app (fail m) h = leave_write-IsConsistent app h
  finish_put-IsConsistent ipstr ip first_seen app (ok f) h =
      let e = block_entry ipstr first_seen f in
      leave_write-IsConsistent _
        (store_ip-IsConsistent ipstr e _ refl (put_keys-IsConsistent go ip (block_record e) app h))

  put_parsed-IsConsistent :
      (r : Request) (app : App) (o : Option Bytes)
      → IsConsistent app
      → IsConsistent (put_parsed go t r app o).0
  unfolding put_parsed
  put_parsed-IsConsistent r app none h = leave_write-IsConsistent app h
  put_parsed-IsConsistent r app (some ip) h =
      let same = ip_table_lookup-SameData (t 1) r.ip app in
      finish_put-IsConsistent r.ip ip _ (ip_table_lookup (t 1) r.ip app).0 _
        (IsConsistent-same app _ same.ip_table same.cidr_table h)

  pub handle_put-IsConsistent :
      (r : Request) (app : App) → IsConsistent app → IsConsistent (handle_put go t r app).0
  unfolding handle_put
  handle_put-IsConsistent r app h =
      put_parsed-IsConsistent r (count_put app) (go.parse_ip r.ip) (count_put-IsConsistent app h)

  finish_put_network-IsConsistent :
      (net : IpNet) (first_seen : ℤ) (app : App) (o : Outcome Fields)
      → IsConsistent app
      → IsConsistent (finish_put_network go t net first_seen app o).0
  unfolding finish_put_network
  finish_put_network-IsConsistent net first_seen app (fail m) h = leave_write-IsConsistent app h
  finish_put_network-IsConsistent net first_seen app (ok f) h =
      let e = cidr_entry (go.net_string net) net first_seen f in
      leave_write-IsConsistent _ (
        store_cidr-IsConsistent e _ (
          etcd_put-IsConsistent go (cidr_to_etcd_key (go.net_string net))
            (go.marshal_record (cidr_record e)) app h))

  put_network_parsed-IsConsistent :
      (r : Request) (app : App) (o : Option IpNet)
      → IsConsistent app
      → IsConsistent (put_network_parsed go t r app o).0
  unfolding put_network_parsed
  put_network_parsed-IsConsistent r app none h = leave_write-IsConsistent app h
  put_network_parsed-IsConsistent r app (some net) h = finish_put_network-IsConsistent net _ app _ h

  pub handle_put_network-IsConsistent :
      (r : Request) (app : App) → IsConsistent app → IsConsistent (handle_put_network go t r app).0
  unfolding handle_put_network
  handle_put_network-IsConsistent r app h =
      put_network_parsed-IsConsistent r (count_put app) (go.parse_cidr (cidr_path r))
        (count_put-IsConsistent app h)

  -- The two read handlers change neither table.
  find_blocked-same :
      (ip : Bytes) (app : App)
      → ((find_blocked go t ip app).0.ip_table ≡ app.ip_table)
        × ((find_blocked go t ip app).0.cidr_table ≡ app.cidr_table)
  unfolding find_blocked find_network cidr_table_lookup
  find_blocked-same ip app = ground (arith, ip_table_lookup-SameData (t 0) ip app)

  auth_blocked-same :
      (ip : Bytes) (app : App)
      → ((auth_blocked go t ip app).0.ip_table ≡ app.ip_table)
        × ((auth_blocked go t ip app).0.cidr_table ≡ app.cidr_table)
  unfolding auth_blocked auth_network cidr_table_lookup
  auth_blocked-same ip app = ground (arith, ip_table_lookup-SameData (t 0) ip app)

  pub handle_lookup-IsConsistent :
      (r : Request) (app : App) → IsConsistent app → IsConsistent (handle_lookup go t r app).0
  unfolding handle_lookup
  handle_lookup-IsConsistent r app h =
      let (ips, networks) = find_blocked-same r.ip (count_lookup app) in
      IsConsistent-same app _ (ground (arith, ips)) (ground (arith, networks)) h

  pub handle_auth-IsConsistent :
      (r : Request) (app : App) → IsConsistent app → IsConsistent (handle_auth go t r app).0
  unfolding handle_auth
  handle_auth-IsConsistent r app h =
      let (ips, networks) = auth_blocked-same r.ip (count_auth app) in
      IsConsistent-same app _ (ground (arith, ips)) (ground (arith, networks)) h

module _ (go : Go) where
  delete_parsed-IsConsistent :
      (r : Request) (app : App) (o : Option Bytes)
      → IsConsistent app
      → IsConsistent (delete_parsed go r app o).0
  unfolding delete_parsed
  delete_parsed-IsConsistent r app none h = leave_write-IsConsistent app h
  delete_parsed-IsConsistent r app (some ip) h =
      leave_write-IsConsistent _
        (forget_ip-IsConsistent r.ip _ (delete_keys-IsConsistent go ip app h))

  pub handle_delete-IsConsistent :
      (r : Request) (app : App) → IsConsistent app → IsConsistent (handle_delete go r app).0
  unfolding handle_delete
  handle_delete-IsConsistent r app h =
      delete_parsed-IsConsistent r (count_delete app) (go.parse_ip r.ip)
        (count_delete-IsConsistent app h)

  delete_network_parsed-IsConsistent :
      (r : Request) (app : App) (o : Option IpNet)
      → IsConsistent app
      → IsConsistent (delete_network_parsed go r app o).0
  unfolding delete_network_parsed
  delete_network_parsed-IsConsistent r app none h = leave_write-IsConsistent app h
  delete_network_parsed-IsConsistent r app (some net) h = leave_write-IsConsistent _ (
      forget_cidr-IsConsistent (go.net_string net) _
        (etcd_delete-IsConsistent go (cidr_to_etcd_key (go.net_string net)) app h))

  pub handle_delete_network-IsConsistent :
      (r : Request) (app : App) → IsConsistent app → IsConsistent (handle_delete_network go r app).0
  unfolding handle_delete_network
  handle_delete_network-IsConsistent r app h =
      delete_network_parsed-IsConsistent r (count_delete app) (go.parse_cidr (cidr_path r))
        (count_delete-IsConsistent app h)

  delete_expired_ip-IsConsistent :
      (ip : Bytes) (app : App) → IsConsistent app → IsConsistent (delete_expired_ip go ip app)
  unfolding delete_expired_ip
  delete_expired_ip-IsConsistent ip app h =
      elim (go.parse_ip ip)
        as (λ o.
          IsConsistent
            (elim o [ none ↦ app | some parsed ↦ forget_ip ip (delete_keys go parsed app) ])) [
              | none ↦ h
              | some parsed ↦ forget_ip-IsConsistent ip _ (delete_keys-IsConsistent go parsed app h)
            ]

  pub run_task-IsConsistent :
      (task : Task) (app : App) → IsConsistent app → IsConsistent (run_task go task app)
  unfolding run_task delete_expired_cidr
  run_task-IsConsistent (expire_ip ip) app h = delete_expired_ip-IsConsistent ip app h
  run_task-IsConsistent (expire_cidr cidr) app h =
      let posted = etcd_delete-IsConsistent go (cidr_to_etcd_key cidr) app h in
      if-IsConsistent _ _ _ (remove-IsConsistent cidr _ posted) posted
