-- ===== src/System/Keeps.antt =====
-- What the operations on the tables keep.
use open_blocklist.Base.{
  Bytes, Bool, true, false, not, [], ◌∷◌, All, str_eq, if◌then◌else◌, ◌≡◌, Bool-cases, inl, inr,
}
use open_blocklist.Base.Dict.{Dict, insert, delete, insert-IsMap, delete-IsMap}
use open_blocklist.State.{App, BlockEntry, CidrEntry, Go, BlockRecord, etcd_put, etcd_delete}
use open_blocklist.CidrTable.{upsert, remove}
use open_blocklist.CidrTable.Laws.{upsert-IsKeyed, remove-IsKeyed}
use open_blocklist.IpTable.{delete_keys, forget_ip}
use open_blocklist.Write.{put_keys, store_ip, store_cidr, forget_cidr}
use open_blocklist.System.{IsConsistent}

abbrev IsNamed : Dict BlockEntry → Type 0
IsNamed = All (λ (p : Bytes × BlockEntry). p.1.ip ≡ p.0)

insert-IsNamed :
    (k : Bytes) (e : BlockEntry) (m : Dict BlockEntry)
    → e.ip ≡ k
    → IsNamed m
    → IsNamed (insert k e m)
unfolding insert
insert-IsNamed k e [] he h = (he, tt)
insert-IsNamed k e ((j, f) ∷ m) he (hf, h) = elim (Bool-cases (str_eq j k)) [
  | inl same ↦ rw same (he, h)
  | inr other ↦ rw other (hf, insert-IsNamed k e m he h)
]

delete-IsNamed : (k : Bytes) (m : Dict BlockEntry) → IsNamed m → IsNamed (delete k m)
unfolding delete
delete-IsNamed k [] h = tt
delete-IsNamed k ((j, f) ∷ m) (hf, h) = elim (Bool-cases (str_eq j k)) [
  | inl same ↦ rw same (delete-IsNamed k m h)
  | inr other ↦ rw other (hf, delete-IsNamed k m h)
]

-- It speaks of the two tables alone.
pub IsConsistent-same :
    (a b : App)
    → b.ip_table ≡ a.ip_table
    → b.cidr_table ≡ a.cidr_table
    → IsConsistent a
    → IsConsistent b
IsConsistent-same a b ips networks h = record {
  once = rw ips h.once;
  named = rw ips h.named;
  keyed = rw networks h.keyed;
}

pub insert-IsConsistent :
    (k : Bytes) (e : BlockEntry) (app : App)
    → e.ip ≡ k
    → IsConsistent app
    → IsConsistent (record app { ip_table = insert k e app.ip_table })
insert-IsConsistent k e app he h = record {
  once = insert-IsMap k e app.ip_table h.once;
  named = insert-IsNamed k e app.ip_table he h.named;
  keyed = h.keyed;
}

pub delete-IsConsistent :
    (k : Bytes) (app : App)
    → IsConsistent app
    → IsConsistent (record app { ip_table = delete k app.ip_table })
delete-IsConsistent k app h = record {
  once = delete-IsMap k app.ip_table h.once;
  named = delete-IsNamed k app.ip_table h.named;
  keyed = h.keyed;
}

pub upsert-IsConsistent :
    (e : CidrEntry) (app : App)
    → IsConsistent app
    → IsConsistent (record app { cidr_table = upsert e app.cidr_table })
upsert-IsConsistent e app h = record {
  once = h.once;
  named = h.named;
  keyed = upsert-IsKeyed e app.cidr_table h.keyed;
}

pub remove-IsConsistent :
    (cidr : Bytes) (app : App)
    → IsConsistent app
    → IsConsistent (record app { cidr_table = remove cidr app.cidr_table })
remove-IsConsistent cidr app h = record {
  once = h.once;
  named = h.named;
  keyed = remove-IsKeyed cidr app.cidr_table h.keyed;
}

pub if-IsConsistent :
    (b : Bool) (x y : App) → IsConsistent x → IsConsistent y → IsConsistent (if b then x else y)
if-IsConsistent true x y hx hy = hx
if-IsConsistent false x y hx hy = hy

pub store_ip-IsConsistent :
    (ip : Bytes) (e : BlockEntry) (app : App)
    → e.ip ≡ ip
    → IsConsistent app
    → IsConsistent (store_ip ip e app)
unfolding store_ip
store_ip-IsConsistent ip e app he h =
    if-IsConsistent (not app.multi_instance) _ app (insert-IsConsistent ip e app he h) h

pub forget_ip-IsConsistent :
    (ip : Bytes) (app : App) → IsConsistent app → IsConsistent (forget_ip ip app)
unfolding forget_ip
forget_ip-IsConsistent ip app h =
    if-IsConsistent (not app.multi_instance) _ app (delete-IsConsistent ip app h) h

pub store_cidr-IsConsistent :
    (e : CidrEntry) (app : App) → IsConsistent app → IsConsistent (store_cidr e app)
unfolding store_cidr
store_cidr-IsConsistent e app h =
    if-IsConsistent (not app.multi_instance) _ app (upsert-IsConsistent e app h) h

pub forget_cidr-IsConsistent :
    (cidr : Bytes) (app : App) → IsConsistent app → IsConsistent (forget_cidr cidr app)
unfolding forget_cidr
forget_cidr-IsConsistent cidr app h =
    if-IsConsistent (not app.multi_instance) _ app (remove-IsConsistent cidr app h) h

-- What is posted to etcd leaves the tables alone.
module _ (go : Go) where
  pub put_keys-IsConsistent :
      (ip : Bytes) (rec : BlockRecord) (app : App)
      → IsConsistent app
      → IsConsistent (put_keys go ip rec app)
  unfolding put_keys
  put_keys-IsConsistent ip rec app h = record { once = h.once; named = h.named; keyed = h.keyed }

  pub delete_keys-IsConsistent :
      (ip : Bytes) (app : App) → IsConsistent app → IsConsistent (delete_keys go ip app)
  unfolding delete_keys
  delete_keys-IsConsistent ip app h = record { once = h.once; named = h.named; keyed = h.keyed }

  pub etcd_put-IsConsistent :
      (k v : Bytes) (app : App) → IsConsistent app → IsConsistent (etcd_put go k v app)
  unfolding etcd_put
  etcd_put-IsConsistent k v app h = record { once = h.once; named = h.named; keyed = h.keyed }

  pub etcd_delete-IsConsistent :
      (k : Bytes) (app : App) → IsConsistent app → IsConsistent (etcd_delete go k app)
  unfolding etcd_delete
  etcd_delete-IsConsistent k app h = record { once = h.once; named = h.named; keyed = h.keyed }
