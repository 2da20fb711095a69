-- ===== src/System/Rounds.antt =====
-- The consistency of the tables under the worker's round and the watches.
use open_blocklist.Base.{Bytes, Option, none, some, Bool, true, false, List, [], ◌∷◌, refl}
use open_blocklist.Base.Int.{ℤ}
use open_blocklist.Base.Dict.{delete}
use open_blocklist.Key.{cidr_to_etcd_key}
use open_blocklist.State.{App, BlockRecord, IpNet, Go, WatchEvent, WatchResponse}
use open_blocklist.IpTable.{delete_keys}
use open_blocklist.Expiry.{
  expired_ips, expire_ip, expire_ips, expire_cidr, expire_cidrs, expiration_round,
}
use open_blocklist.Etcd.{
  update_revision, read_revision, loaded_entry, loaded_cidr_entry, update_decoded, update_ip,
  apply_event, apply_events, watch_message, watch_line, store_decoded, store_network,
  apply_cidr_event, apply_cidr_events, cidr_watch_message, cidr_watch_line,
}
use open_blocklist.System.{IsConsistent}
use open_blocklist.System.Keeps.{
  IsConsistent-same, insert-IsConsistent, delete-IsConsistent, upsert-IsConsistent,
  delete_keys-IsConsistent, etcd_delete-IsConsistent, remove-IsConsistent, if-IsConsistent,
}

module _ (go : Go) where
  expire_ip-IsConsistent :
      (ip : Bytes) (app : App) → IsConsistent app → IsConsistent (expire_ip go ip app)
  unfolding expire_ip
  expire_ip-IsConsistent ip app h =
      elim (go.parse_ip ip)
        as (λ o. IsConsistent (elim o [
          | none ↦ app
          | some parsed ↦
              let app' = delete_keys go parsed app in
              record app' { ip_table = delete ip app'.ip_table }
        ])) [
          | none ↦ h
          | some parsed ↦ delete-IsConsistent ip _ (delete_keys-IsConsistent go parsed app h)
        ]

  expire_ips-IsConsistent :
      (ips : List Bytes) (app : App) → IsConsistent app → IsConsistent (expire_ips go ips app)
  unfolding expire_ips
  expire_ips-IsConsistent [] app h = h
  expire_ips-IsConsistent (ip ∷ ips) app h =
      expire_ips-IsConsistent ips _ (expire_ip-IsConsistent ip app h)

  expire_cidrs-IsConsistent :
      (cs : List Bytes) (app : App) → IsConsistent app → IsConsistent (expire_cidrs go cs app)
  unfolding expire_cidrs expire_cidr
  expire_cidrs-IsConsistent [] app h = h
  expire_cidrs-IsConsistent (c ∷ cs) app h =
      expire_cidrs-IsConsistent cs _
        (remove-IsConsistent c _ (etcd_delete-IsConsistent go (cidr_to_etcd_key c) app h))

  pub expiration_round-IsConsistent :
      (now : ℤ) (app : App) → IsConsistent app → IsConsistent (expiration_round go now app)
  unfolding expiration_round
  expiration_round-IsConsistent now app h =
      expire_cidrs-IsConsistent _ _ (expire_ips-IsConsistent (expired_ips now app.ip_table) app h)

  read_revision-IsConsistent :
      (text : Bytes) (app : App) → IsConsistent app → IsConsistent (read_revision go text app)
  unfolding read_revision update_revision
  read_revision-IsConsistent text app h =
      if-IsConsistent _ _ _ (if-IsConsistent _ _ app (IsConsistent-same app _ refl refl h) h) h

  update_decoded-IsConsistent :
      (ip : Bytes) (ev : WatchEvent) (decoded : BlockRecord × Bool) (parsed : Option Bytes)
      (app : App)
      → IsConsistent app
      → IsConsistent (update_decoded ip ev decoded parsed app)
  unfolding update_decoded loaded_entry
  update_decoded-IsConsistent ip ev (rec, false) parsed app h = h
  update_decoded-IsConsistent ip ev (rec, true) none app h = h
  update_decoded-IsConsistent ip ev (rec, true) (some _) app h =
      insert-IsConsistent ip (loaded_entry ip rec ev.create_revision ev.mod_revision) app refl h

  apply_event-IsConsistent :
      (ev : WatchEvent) (app : App) → IsConsistent app → IsConsistent (apply_event go ev app)
  unfolding apply_event update_ip
  apply_event-IsConsistent ev app h = if-IsConsistent _ app _ h (
      if-IsConsistent _ _ _ (delete-IsConsistent _ app h)
        (update_decoded-IsConsistent _ ev _ _ app h))

  apply_events-IsConsistent :
      (evs : List WatchEvent) (app : App)
      → IsConsistent app
      → IsConsistent (apply_events go evs app)
  unfolding apply_events
  apply_events-IsConsistent [] app h = h
  apply_events-IsConsistent (ev ∷ evs) app h =
      apply_events-IsConsistent evs _ (apply_event-IsConsistent ev app h)

  watch_message-IsConsistent :
      (msg : Option WatchResponse) (app : App)
      → IsConsistent app
      → IsConsistent (watch_message go msg app)
  unfolding watch_message
  watch_message-IsConsistent none app h = h
  watch_message-IsConsistent (some msg) app h =
      apply_events-IsConsistent msg.events _ (read_revision-IsConsistent msg.revision app h)

  pub watch_line-IsConsistent :
      (line : Bytes) (app : App) → IsConsistent app → IsConsistent (watch_line go line app)
  unfolding watch_line
  watch_line-IsConsistent line app h = watch_message-IsConsistent (go.unmarshal_watch line) app h

  store_decoded-IsConsistent :
      (cidr : Bytes) (decoded : BlockRecord × Bool) (parsed : Option IpNet) (app : App)
      → IsConsistent app
      → IsConsistent (store_decoded cidr decoded parsed app)
  unfolding store_decoded
  store_decoded-IsConsistent cidr (rec, false) parsed app h = h
  store_decoded-IsConsistent cidr (rec, true) none app h = h
  store_decoded-IsConsistent cidr (rec, true) (some net) app h =
      upsert-IsConsistent (loaded_cidr_entry cidr net rec) app h

  apply_cidr_event-IsConsistent :
      (ev : WatchEvent) (app : App) → IsConsistent app → IsConsistent (apply_cidr_event go ev app)
  unfolding apply_cidr_event store_network
  apply_cidr_event-IsConsistent ev app h =
      if-IsConsistent _ app _ h (
        if-IsConsistent _ _ _ (remove-IsConsistent _ app h)
          (store_decoded-IsConsistent _ _ _ app h))

  apply_cidr_events-IsConsistent :
      (evs : List WatchEvent) (app : App)
      → IsConsistent app
      → IsConsistent (apply_cidr_events go evs app)
  unfolding apply_cidr_events
  apply_cidr_events-IsConsistent [] app h = h
  apply_cidr_events-IsConsistent (ev ∷ evs) app h =
      apply_cidr_events-IsConsistent evs _ (apply_cidr_event-IsConsistent ev app h)

  cidr_watch_message-IsConsistent :
      (msg : Option WatchResponse) (app : App)
      → IsConsistent app
      → IsConsistent (cidr_watch_message go msg app)
  unfolding cidr_watch_message
  cidr_watch_message-IsConsistent none app h = h
  cidr_watch_message-IsConsistent (some msg) app h =
      apply_cidr_events-IsConsistent msg.events _ (read_revision-IsConsistent msg.revision app h)

  pub cidr_watch_line-IsConsistent :
      (line : Bytes) (app : App) → IsConsistent app → IsConsistent (cidr_watch_line go line app)
  unfolding cidr_watch_line
  cidr_watch_line-IsConsistent line app h =
      cidr_watch_message-IsConsistent (go.unmarshal_watch line) app h
