-- ===== src/IpTable.antt =====
-- main.go: the table of addresses, a Go map from texts to entries, and the lazy removal of an entry
-- that a lookup finds expired.
pub mod Laws
use open_blocklist.Base.{Bytes, Option, none, some, not, if◌then◌else◌}
use open_blocklist.Base.Int.{ℤ}
use open_blocklist.Base.Dict.{lookup, delete}
use open_blocklist.Key.{rbl_key, reverse_key}
use open_blocklist.State.{BlockEntry, Go, App, expire_ip, is_expired, spawn, etcd_delete}

-- ipTableLookup behind its read of the map, at the time `now`.
unfoldable pub fresh_entry : ℤ → Bytes → Option BlockEntry → App → App × Option BlockEntry
unfolding spawn is_expired
fresh_entry now ip none app = (app, none)
fresh_entry now ip (some entry) app =
    if is_expired entry.expiration now then (spawn (expire_ip ip) app, none) else (app, some entry)

unfoldable pub ip_table_lookup : ℤ → Bytes → App → App × Option BlockEntry
unfolding fresh_entry
ip_table_lookup now ip app = fresh_entry now ip (lookup ip app.ip_table) app

-- etcdDelete of both keys of an address.
unfoldable pub delete_keys : Go → Bytes → App → App
unfolding etcd_delete
delete_keys go ip app = etcd_delete go (reverse_key ip) (etcd_delete go (rbl_key ip) app)

-- delete(ipTable.entries, ip), in single-instance mode only.
unfoldable pub forget_ip : Bytes → App → App
forget_ip ip app =
    if not app.multi_instance then record app { ip_table = delete ip app.ip_table } else app

-- deleteExpiredIP
unfoldable pub delete_expired_ip : Go → Bytes → App → App
unfolding delete_keys forget_ip
delete_expired_ip go ipstr app = elim (go.parse_ip ipstr) [
  | none ↦ app
  | some parsed ↦ forget_ip ipstr (delete_keys go parsed app)
]
