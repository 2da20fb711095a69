-- ===== src/CidrTable.antt =====
-- cidr.go: the table of networks, a slice of entries, and its lookup.
pub mod Laws
pub mod Replay
pub mod Scan
use open_blocklist.Base.{Bytes, Option, none, some, not, List, [], ◌∷◌, ◌++◌, str_eq, if◌then◌else◌}
use open_blocklist.Base.Int.{ℤ, pos}
use open_blocklist.Key.{cidr_to_etcd_key}
use open_blocklist.State.{
  CidrEntry, BlockEntry, Go, App, Task, expire_cidr, is_expired, etcd_delete,
}

-- findByCIDR
unfoldable pub find_by_cidr : Bytes → List CidrEntry → Option CidrEntry
find_by_cidr cidr [] = none
find_by_cidr cidr (e ∷ es) = if str_eq e.cidr cidr then some e else find_by_cidr cidr es

unfoldable pub upsert : CidrEntry → List CidrEntry → List CidrEntry
upsert e [] = e ∷ []
upsert e (existing ∷ es) = if str_eq existing.cidr e.cidr then e ∷ es else existing ∷ upsert e es

-- The last element of e ∷ es, and all but the last.
unfoldable pub last_entry : CidrEntry → List CidrEntry → CidrEntry
last_entry e [] = e
last_entry e (f ∷ es) = last_entry f es

unfoldable pub init_entries : CidrEntry → List CidrEntry → List CidrEntry
init_entries e [] = []
init_entries e (f ∷ es) = e ∷ init_entries f es

-- entries[i] = entries[last]; entries = entries[:last], where e is entries[i] and es stand behind it.
unfoldable pub swap_with_last : CidrEntry → List CidrEntry → List CidrEntry
swap_with_last e [] = []
swap_with_last e (f ∷ es) = last_entry f es ∷ init_entries f es

unfoldable pub remove : Bytes → List CidrEntry → List CidrEntry
unfolding swap_with_last last_entry init_entries
remove cidr [] = []
remove cidr (e ∷ es) = if str_eq e.cidr cidr then swap_with_last e es else e ∷ remove cidr es

-- The loop of lookup: it returns at the first entry that contains the address, with the goroutine
-- that it starts if that entry has expired.
unfoldable pub scan_nets : Go → ℤ → Bytes → List CidrEntry → Option CidrEntry × List Task
scan_nets go now ip [] = (none, [])
scan_nets go now ip (e ∷ es) =
    if go.net_contains e.net ip
    then (if is_expired e.expiration now then (none, expire_cidr e.cidr ∷ []) else (some e, []))
    else scan_nets go now ip es

-- cidrTable.lookup at the time `now`.
unfoldable pub cidr_table_lookup : Go → ℤ → Bytes → App → App × Option CidrEntry
cidr_table_lookup go now ip app =
    let (found, started) = scan_nets go now ip app.cidr_table in
    (record app { tasks = app.tasks ++ started }, found)

-- deleteExpiredCIDR
unfoldable pub delete_expired_cidr : Go → Bytes → App → App
unfolding etcd_delete
delete_expired_cidr go cidr app =
    let app' = etcd_delete go (cidr_to_etcd_key cidr) app in
    if not app'.multi_instance
    then record app' { cidr_table = remove cidr app'.cidr_table }
    else app'

unfoldable pub cidr_entry_to_block_entry : CidrEntry → BlockEntry
cidr_entry_to_block_entry e = record {
  ip = e.cidr;
  source = e.source;
  scenario = e.scenario;
  action = e.action;
  create_revision = pos 0;
  mod_revision = pos 0;
  first_seen = e.first_seen;
  last_seen = e.last_seen;
  expiration = e.expiration;
  return_code = e.return_code;
}
