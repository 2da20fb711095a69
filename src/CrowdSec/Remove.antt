-- ===== src/CrowdSec/Remove.antt =====
-- crowdsec.go: the removal of a decision, the reconciliation at the start, and a round of the loop.
pub mod Stale
pub mod Reconciled
use open_blocklist.Base.{
  ℕ, Bytes, codes, Option, none, some, Bool, true, false, ◌&&◌, not, List, [], ◌∷◌, has_prefix,
  contains, if◌then◌else◌,
}
use mathlib.Core.Option
use open_blocklist.Base.Dict.{Dict}
use open_blocklist.Key.{cidr_to_etcd_key}
use open_blocklist.State.{App, BlockEntry, CidrEntry, Go, etcd_delete}
use open_blocklist.IpTable.{delete_keys, forget_ip}
use open_blocklist.Query.{is_in}
use open_blocklist.Write.{forget_cidr}
use open_blocklist.CrowdSec.{Decision, DecisionStream, Clock, crowd_sec_apply_all}

-- etcdDeleteCIDR and, in single-instance mode, cidrTable.remove.
unfoldable pub unblock_cidr : Go → Bytes → App → App
unfolding etcd_delete forget_cidr
unblock_cidr go cidr app = forget_cidr cidr (etcd_delete go (cidr_to_etcd_key cidr) app)

-- crowdSecRemove
unfoldable pub crowd_sec_remove : Go → Decision → App → App
unfolding unblock_cidr delete_keys forget_ip
crowd_sec_remove go d app =
    if contains d.value b'/'
    then elim (go.parse_cidr d.value) [
      | none ↦ app
      | some net ↦ unblock_cidr go (go.net_string net) app
    ]
    else elim (go.parse_ip d.value) [
      | none ↦ app
      | some ip ↦ forget_ip (go.ip_string ip) (delete_keys go ip app)
    ]

unfoldable pub crowd_sec_remove_all : Go → List Decision → App → App
crowd_sec_remove_all go [] app = app
crowd_sec_remove_all go (d ∷ ds) app = crowd_sec_remove_all go ds (crowd_sec_remove go d app)

-- The canonical text of a decision's address or network.
unfoldable pub canonical : Go → Decision → Option Bytes
canonical go d =
    if contains d.value b'/'
    then Option.map go.net_string (go.parse_cidr d.value)
    else Option.map go.ip_string (go.parse_ip d.value)

unfoldable pub add_value : Option Bytes → List Bytes → List Bytes
add_value none values = values
add_value (some value) values = value ∷ values

-- csValues
unfoldable pub cs_values : Go → List Decision → List Bytes
unfolding canonical add_value
cs_values go [] = []
cs_values go (d ∷ ds) = add_value (canonical go d) (cs_values go ds)

-- strings.HasPrefix(source, "crowdsec") && !csValues[value]
unfoldable pub is_stale : List Bytes → Bytes → Bytes → Bool
unfolding is_in has_prefix
is_stale values source value = has_prefix source (codes "crowdsec") && not (is_in value values)

unfoldable pub stale_ips : List Bytes → Dict BlockEntry → List Bytes
stale_ips values [] = []
stale_ips values ((ip, e) ∷ m) =
    if is_stale values e.source ip then ip ∷ stale_ips values m else stale_ips values m

unfoldable pub stale_cidrs : List Bytes → List CidrEntry → List Bytes
stale_cidrs values [] = []
stale_cidrs values (e ∷ es) =
    if is_stale values e.source e.cidr
    then e.cidr ∷ stale_cidrs values es
    else stale_cidrs values es

-- The bodies of the two loops over the stale values.
unfoldable pub remove_stale_ip : Go → Bytes → App → App
unfolding delete_keys forget_ip
remove_stale_ip go ipstr app =
    forget_ip ipstr
      (elim (go.parse_ip ipstr) [ none ↦ app | some parsed ↦ delete_keys go parsed app ])

unfoldable pub remove_stale_ips : Go → List Bytes → App → App
remove_stale_ips go [] app = app
remove_stale_ips go (ip ∷ ips) app = remove_stale_ips go ips (remove_stale_ip go ip app)

unfoldable pub remove_stale_cidrs : Go → List Bytes → App → App
remove_stale_cidrs go [] app = app
remove_stale_cidrs go (c ∷ cs) app = remove_stale_cidrs go cs (unblock_cidr go c app)

-- The first part of crowdSecReconcile, which removes what is stale.
unfoldable pub remove_stale : Go → List Bytes → App → App
remove_stale go values app =
    let app' = remove_stale_ips go (stale_ips values app.ip_table) app in
    remove_stale_cidrs go (stale_cidrs values app'.cidr_table) app'

-- crowdSecReconcile
unfoldable pub crowd_sec_reconcile : Go → (ℕ → Clock) → DecisionStream → App → App
unfolding remove_stale
crowd_sec_reconcile go clocks stream app =
    crowd_sec_apply_all go clocks stream.new (remove_stale go (cs_values go stream.new) app)

-- A round of crowdSecLoop: the flag `startup` and the process after it; `none` is a failed fetch.
unfoldable pub crowd_sec_round : Go → (ℕ → Clock) → Option DecisionStream → Bool → App → Bool × App
unfolding crowd_sec_reconcile
crowd_sec_round go clocks none startup app = (startup, app)
crowd_sec_round go clocks (some stream) true app = (false, crowd_sec_reconcile go clocks stream app)
crowd_sec_round go clocks (some stream) false app =
    (false, crowd_sec_remove_all go stream.deleted (crowd_sec_apply_all go clocks stream.new app))
