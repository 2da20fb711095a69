-- ===== src/IpTable/Laws.antt =====
-- What a lookup and the lazy removal do to the process.
use open_blocklist.Base.{Bytes, Option, none, some, ◌≡◌, arith}
use open_blocklist.Base.Int.{ℤ}
use open_blocklist.Base.Dict.{lookup}
use open_blocklist.State.{App, BlockEntry}
use open_blocklist.IpTable.{ip_table_lookup, fresh_entry}

-- Two states with the same tables, counters and etcd requests: they differ in the goroutines only.
pub record SameData (a b : App) : Type 0 where
  pub ip_table : a.ip_table ≡ b.ip_table
  pub cidr_table : a.cidr_table ≡ b.cidr_table
  pub stats : a.stats ≡ b.stats
  pub revision : a.revision ≡ b.revision
  pub multi_instance : a.multi_instance ≡ b.multi_instance
  pub requests : a.requests ≡ b.requests

fresh_entry-SameData :
    (now : ℤ) (ip : Bytes) (e : Option BlockEntry) (app : App)
    → SameData (fresh_entry now ip e app).0 app
unfolding fresh_entry
fresh_entry-SameData now ip none app = ground arith
fresh_entry-SameData now ip (some e) app = ground arith

pub ip_table_lookup-SameData :
    (now : ℤ) (ip : Bytes) (app : App) → SameData (ip_table_lookup now ip app).0 app
unfolding ip_table_lookup
ip_table_lookup-SameData now ip app = fresh_entry-SameData now ip (lookup ip app.ip_table) app
