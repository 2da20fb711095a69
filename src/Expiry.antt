-- ===== src/Expiry.antt =====
-- main.go: one round of expirationWorker, at the time `now`.
pub mod Laws
use open_blocklist.Base.{Bytes, none, some, List, [], ◌∷◌, if◌then◌else◌}
use open_blocklist.Base.Int.{ℤ}
use open_blocklist.Base.Dict.{Dict, delete}
use open_blocklist.Key.{cidr_to_etcd_key}
use open_blocklist.State.{App, BlockEntry, CidrEntry, Go, is_expired, etcd_delete}
use open_blocklist.IpTable.{delete_keys}
use open_blocklist.CidrTable.{remove}

-- The keys of the expired entries, in the order of the iteration.
unfoldable pub expired_ips : ℤ → Dict BlockEntry → List Bytes
expired_ips now [] = []
expired_ips now ((ip, entry) ∷ m) =
    if is_expired entry.expiration now then ip ∷ expired_ips now m else expired_ips now m

-- The body of the loop over them; the entry is deleted in both modes.
unfoldable pub expire_ip : Go → Bytes → App → App
unfolding delete_keys
expire_ip go ipstr app = elim (go.parse_ip ipstr) [
  | none ↦ app
  | some ip ↦
      let app' = delete_keys go ip app in record app' { ip_table = delete ipstr app'.ip_table }
]

unfoldable pub expire_ips : Go → List Bytes → App → App
expire_ips go [] app = app
expire_ips go (ip ∷ ips) app = expire_ips go ips (expire_ip go ip app)

unfoldable pub expired_cidrs : ℤ → List CidrEntry → List Bytes
expired_cidrs now [] = []
expired_cidrs now (e ∷ es) =
    if is_expired e.expiration now then e.cidr ∷ expired_cidrs now es else expired_cidrs now es

unfoldable pub expire_cidr : Go → Bytes → App → App
unfolding etcd_delete
expire_cidr go cidr app =
    let app' = etcd_delete go (cidr_to_etcd_key cidr) app in
    record app' { cidr_table = remove cidr app'.cidr_table }

unfoldable pub expire_cidrs : Go → List Bytes → App → App
expire_cidrs go [] app = app
expire_cidrs go (cidr ∷ cidrs) app = expire_cidrs go cidrs (expire_cidr go cidr app)

unfoldable pub expiration_round : Go → ℤ → App → App
expiration_round go now app =
    let app' = expire_ips go (expired_ips now app.ip_table) app in
    expire_cidrs go (expired_cidrs now app'.cidr_table) app'
