-- ===== src/System/Decisions.antt =====
-- The consistency of the tables under the rounds of CrowdSec.
use open_blocklist.Base.{ℕ, suc, Bytes, Option, none, some, Bool, true, false, List, [], ◌∷◌, refl}
use open_blocklist.Base.Int.{ℤ}
use open_blocklist.Key.{cidr_to_etcd_key}
use open_blocklist.State.{App, IpNet, Go}
use open_blocklist.IpTable.{delete_keys, forget_ip, ip_table_lookup}
use open_blocklist.IpTable.Laws.{ip_table_lookup-SameData}
use open_blocklist.CrowdSec.{
  Decision, DecisionStream, Clock, block_ip, block_network, decision_entry, crowd_sec_apply_ip,
  crowd_sec_apply_cidr, crowd_sec_apply, crowd_sec_apply_all,
}
use open_blocklist.CrowdSec.Remove.{
  unblock_cidr, crowd_sec_remove, crowd_sec_remove_all, remove_stale_ip, remove_stale_ips,
  remove_stale_cidrs, remove_stale, crowd_sec_reconcile, crowd_sec_round,
}
use open_blocklist.System.{IsConsistent}
use open_blocklist.System.Keeps.{
  IsConsistent-same, store_ip-IsConsistent, forget_ip-IsConsistent, store_cidr-IsConsistent,
  forget_cidr-IsConsistent, put_keys-IsConsistent, delete_keys-IsConsistent, etcd_put-IsConsistent,
  etcd_delete-IsConsistent, if-IsConsistent,
}

module _ (go : Go) where
  block_ip-IsConsistent :
      (clock : Clock) (d : Decision) (expiration : ℤ) (app : App) (ip : Bytes)
      → IsConsistent app
      → IsConsistent (block_ip go clock d expiration app ip)
  unfolding block_ip decision_entry
  block_ip-IsConsistent clock d expiration app ip h =
      let same = ip_table_lookup-SameData clock.lookup (go.ip_string ip) app in
      store_ip-IsConsistent (go.ip_string ip) _ _ refl (
        put_keys-IsConsistent go ip _ (ip_table_lookup clock.lookup (go.ip_string ip) app).0
          (IsConsistent-same app _ same.ip_table same.cidr_table h))

  block_network-IsConsistent :
      (clock : Clock) (d : Decision) (expiration : ℤ) (app : App) (net : IpNet)
      → IsConsistent app
      → IsConsistent (block_network go clock d expiration app net)
  unfolding block_network
  block_network-IsConsistent clock d expiration app net h =
      store_cidr-IsConsistent _ _ (etcd_put-IsConsistent go _ _ app h)

  apply_ip-IsConsistent :
      (clock : Clock) (d : Decision) (expiration : ℤ) (app : App) (parsed : Option Bytes)
      → IsConsistent app
      → IsConsistent (crowd_sec_apply_ip go clock d expiration app parsed)
  unfolding crowd_sec_apply_ip
  apply_ip-IsConsistent clock d expiration app none h = h
  apply_ip-IsConsistent clock d expiration app (some ip) h =
      block_ip-IsConsistent clock d expiration app ip h

  apply_cidr-IsConsistent :
      (clock : Clock) (d : Decision) (expiration : ℤ) (app : App) (parsed : Option IpNet)
      → IsConsistent app
      → IsConsistent (crowd_sec_apply_cidr go clock d expiration app parsed)
  unfolding crowd_sec_apply_cidr
  apply_cidr-IsConsistent clock d expiration app none h = h
  apply_cidr-IsConsistent clock d expiration app (some net) h =
      block_network-IsConsistent clock d expiration app net h

  apply_all-IsConsistent :
      (clocks : ℕ → Clock) (ds : List Decision) (app : App)
      → IsConsistent app
      → IsConsistent (crowd_sec_apply_all go clocks ds app)
  unfolding crowd_sec_apply_all crowd_sec_apply
  apply_all-IsConsistent clocks [] app h = h
  apply_all-IsConsistent clocks (d ∷ ds) app h =
      apply_all-IsConsistent (λ n. clocks (suc n)) ds _
        (if-IsConsistent _ _ _ (apply_cidr-IsConsistent (clocks 0) d _ app _ h)
          (apply_ip-IsConsistent (clocks 0) d _ app _ h))

  unblock_cidr-IsConsistent :
      (cidr : Bytes) (app : App) → IsConsistent app → IsConsistent (unblock_cidr go cidr app)
  unfolding unblock_cidr
  unblock_cidr-IsConsistent cidr app h =
      forget_cidr-IsConsistent cidr _ (etcd_delete-IsConsistent go (cidr_to_etcd_key cidr) app h)

  -- A case on what a parser returns.
  case-IsConsistent {ℓ} :
      {A : Type ℓ} (o : Option A) (x : App) (f : A → App)
      → IsConsistent x
      → ((a : A) → IsConsistent (f a))
      → IsConsistent (elim o [ none ↦ x | some a ↦ f a ])
  case-IsConsistent none x f hx hf = hx
  case-IsConsistent (some a) x f hx hf = hf a

  crowd_sec_remove-IsConsistent :
      (d : Decision) (app : App) → IsConsistent app → IsConsistent (crowd_sec_remove go d app)
  unfolding crowd_sec_remove
  crowd_sec_remove-IsConsistent d app h =
      if-IsConsistent _ _ _
        (case-IsConsistent (go.parse_cidr d.value) app
          (λ net. unblock_cidr go (go.net_string net) app) h
          (λ net. unblock_cidr-IsConsistent (go.net_string net) app h))
        (case-IsConsistent (go.parse_ip d.value) app
          (λ ip. forget_ip (go.ip_string ip) (delete_keys go ip app)) h
          (λ ip. forget_ip-IsConsistent (go.ip_string ip) _ (delete_keys-IsConsistent go ip app h)))

  remove_all-IsConsistent :
      (ds : List Decision) (app : App)
      → IsConsistent app
      → IsConsistent (crowd_sec_remove_all go ds app)
  unfolding crowd_sec_remove_all
  remove_all-IsConsistent [] app h = h
  remove_all-IsConsistent (d ∷ ds) app h =
      remove_all-IsConsistent ds _ (crowd_sec_remove-IsConsistent d app h)

  remove_stale_ips-IsConsistent :
      (ips : List Bytes) (app : App) → IsConsistent app → IsConsistent (remove_stale_ips go ips app)
  unfolding remove_stale_ips remove_stale_ip
  remove_stale_ips-IsConsistent [] app h = h
  remove_stale_ips-IsConsistent (ip ∷ ips) app h = remove_stale_ips-IsConsistent ips _ (
      forget_ip-IsConsistent ip _ (
        case-IsConsistent (go.parse_ip ip) app (λ parsed. delete_keys go parsed app) h
          (λ parsed. delete_keys-IsConsistent go parsed app h)))

  remove_stale_cidrs-IsConsistent :
      (cs : List Bytes) (app : App) → IsConsistent app → IsConsistent (remove_stale_cidrs go cs app)
  unfolding remove_stale_cidrs
  remove_stale_cidrs-IsConsistent [] app h = h
  remove_stale_cidrs-IsConsistent (c ∷ cs) app h =
      remove_stale_cidrs-IsConsistent cs _ (unblock_cidr-IsConsistent c app h)

  reconcile-IsConsistent :
      (clocks : ℕ → Clock) (stream : DecisionStream) (app : App)
      → IsConsistent app
      → IsConsistent (crowd_sec_reconcile go clocks stream app)
  unfolding crowd_sec_reconcile remove_stale
  reconcile-IsConsistent clocks stream app h =
      apply_all-IsConsistent clocks stream.new _
        (remove_stale_cidrs-IsConsistent _ _ (remove_stale_ips-IsConsistent _ app h))

  pub crowd_sec_round-IsConsistent :
      (clocks : ℕ → Clock) (fetched : Option DecisionStream) (startup : Bool) (app : App)
      → IsConsistent app
      → IsConsistent (crowd_sec_round go clocks fetched startup app).1
  unfolding crowd_sec_round
  crowd_sec_round-IsConsistent clocks none startup app h = h
  crowd_sec_round-IsConsistent clocks (some stream) true app h =
      reconcile-IsConsistent clocks stream app h
  crowd_sec_round-IsConsistent clocks (some stream) false app h =
      remove_all-IsConsistent stream.deleted _ (apply_all-IsConsistent clocks stream.new app h)
