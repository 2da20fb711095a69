-- ===== src/System/Started.antt =====
-- main.go: the state that main builds before it starts the listeners, and what is reached from it.
use open_blocklist.Base.{
  Bytes, Option, none, some, Bool, true, false, List, [], ◌∷◌, ◌>>=◌, ◌≡◌, refl, sym, ap, subst,
  ◌∙◌, Option-cases, inl, inr,
}
use mathlib.Core.Option.{some-injective, none-ne-some}
use open_blocklist.Base.Int.{pos}
use open_blocklist.State.{App, BlockRecord, EtcdKv, Go, IpNet, zero_stats}
use open_blocklist.Etcd.{
  etcd_range, loaded_entry, load_kv, load_kvs, load_from_etcd, store_decoded, store_network,
  load_cidr_kv, load_cidr_kvs, load_cidr_from_etcd,
}
use open_blocklist.System.{IsConsistent, Reaches}
use open_blocklist.System.Keeps.{
  IsConsistent-same, insert-IsConsistent, upsert-IsConsistent, if-IsConsistent,
}
use open_blocklist.System.Reachable.{Reaches-IsConsistent}

-- The process before anything is loaded, in a mode.
abbrev pub new_app : Bool → App
new_app multi_instance = record {
  ip_table = [];
  cidr_table = [];
  stats = zero_stats;
  revision = pos 0;
  multi_instance = multi_instance;
  requests = [];
  tasks = [];
}

-- loadFromEtcd and loadCIDRFromEtcd in main, on what etcd answers to the two range requests; `none`
-- where the process ends.
unfoldable pub start : Go → Bool → Option Bytes → Option Bytes → Option App
unfolding load_from_etcd load_cidr_from_etcd
start go multi_instance addresses networks = do
  app ← load_from_etcd go addresses (new_app multi_instance)
  some (load_cidr_from_etcd go networks app)

module _ (go : Go) where
  load_kv-IsConsistent :
      (kv : EtcdKv) (app : App) → IsConsistent app → IsConsistent (load_kv go kv app)
  unfolding load_kv loaded_entry
  load_kv-IsConsistent kv app h = if-IsConsistent _ app _ h (insert-IsConsistent _ _ app refl h)

  load_kvs-IsConsistent :
      (kvs : List EtcdKv) (app : App) → IsConsistent app → IsConsistent (load_kvs go kvs app)
  unfolding load_kvs
  load_kvs-IsConsistent [] app h = h
  load_kvs-IsConsistent (kv ∷ kvs) app h =
      load_kvs-IsConsistent kvs (load_kv go kv app) (load_kv-IsConsistent kv app h)

  store_decoded-IsConsistent :
      (cidr : Bytes) (decoded : BlockRecord × Bool) (parsed : Option IpNet) (app : App)
      → IsConsistent app
      → IsConsistent (store_decoded cidr decoded parsed app)
  unfolding store_decoded
  store_decoded-IsConsistent cidr (rec, false) parsed app h = h
  store_decoded-IsConsistent cidr (rec, true) none app h = h
  store_decoded-IsConsistent cidr (rec, true) (some net) app h = upsert-IsConsistent _ app h

  load_cidr_kvs-IsConsistent :
      (kvs : List EtcdKv) (app : App) → IsConsistent app → IsConsistent (load_cidr_kvs go kvs app)
  unfolding load_cidr_kvs load_cidr_kv store_network
  load_cidr_kvs-IsConsistent [] app h = h
  load_cidr_kvs-IsConsistent (kv ∷ kvs) app h =
      load_cidr_kvs-IsConsistent kvs _
        (if-IsConsistent _ app _ h (store_decoded-IsConsistent _ _ _ app h))

  load_from_etcd-IsConsistent :
      (answer : Option Bytes) (app app' : App)
      → load_from_etcd go answer app ≡ some app'
      → IsConsistent app
      → IsConsistent app'
  unfolding load_from_etcd etcd_range
  load_from_etcd-IsConsistent none app app' e h = absurd (none-ne-some app' e)
  load_from_etcd-IsConsistent (some raw) app app' e h =
      subst IsConsistent (some-injective _ app' e)
        (load_kvs-IsConsistent (go.unmarshal_range raw).0 _ (IsConsistent-same app _ refl refl h))

  load_cidr_from_etcd-IsConsistent :
      (answer : Option Bytes) (app : App)
      → IsConsistent app
      → IsConsistent (load_cidr_from_etcd go answer app)
  unfolding load_cidr_from_etcd etcd_range
  load_cidr_from_etcd-IsConsistent none app h = h
  load_cidr_from_etcd-IsConsistent (some raw) app h =
      load_cidr_kvs-IsConsistent (go.unmarshal_range raw).0 app h

  start-IsConsistent :
      (multi : Bool) (addresses networks : Option Bytes) (app : App)
      → start go multi addresses networks ≡ some app
      → IsConsistent app
  unfolding start
  start-IsConsistent multi addresses networks app e =
      elim (Option-cases (load_from_etcd go addresses (new_app multi))) [
        | inl failed ↦ absurd (
            none-ne-some app
              (ap (λ o. o >>= (λ x. some (load_cidr_from_etcd go networks x))) (sym failed) ∙ e))
        | inr (loaded, done) ↦
            subst IsConsistent
              (some-injective _ app
                (ap (λ o. o >>= (λ x. some (load_cidr_from_etcd go networks x))) (sym done) ∙ e))
              (load_cidr_from_etcd-IsConsistent networks loaded (
                load_from_etcd-IsConsistent addresses (new_app multi) loaded done
                  (record { once = tt; named = tt; keyed = tt })))
      ]

  -- Whatever etcd holds and answers at the start: if the process starts, then in every state that it
  -- reaches by requests on its listeners, DNS queries, the goroutines that lookups started, the rounds of the
  -- worker and of CrowdSec and the lines of both watches, in whatever order they come, each address
  -- stands once, over an entry that carries it, and each network stands once.
  pub started-IsConsistent :
      (is_sub_domain : Bytes → Bytes → Bool) (multi : Bool) (addresses networks : Option Bytes)
      (app app' : App)
      → start go multi addresses networks ≡ some app
      → Reaches go is_sub_domain app app'
      → IsConsistent app'
  started-IsConsistent is_sub_domain multi addresses networks app app' started reached =
      Reaches-IsConsistent go is_sub_domain reached
        (start-IsConsistent multi addresses networks app started)
