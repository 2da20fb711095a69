-- ===== src/Etcd/SharedRevision.antt =====
-- etcd.go: the two watches keep one revision.
use open_blocklist.Base.{
  ℕ, ◌+◌, ◌<◌, ◌^◌, Bytes, codes, Option, none, some, Bool, true, false, List, [], ◌∷◌, str_eq,
  if◌then◌else◌, ◌≡◌, ◌≢◌, refl, ap, ◌∙◌, arith, str_eq_iff,
}
use open_blocklist.Base.Int.{ℤ, pos, ltb_ℤ, ◌+ℤ◌, wrap64, wrap64_fits}
use open_blocklist.Key.{cidr_from_etcd_key}
use open_blocklist.CidrTable.{remove}
use open_blocklist.State.{App, BlockRecord, Go, IpNet, WatchEvent, WatchResponse}
use open_blocklist.Etcd.{
  watch_request, update_revision, read_revision, store_network, store_decoded, apply_cidr_event,
  apply_cidr_events, cidr_watch_message, cidr_watch_line,
}

-- Events of networks change the table of networks only.
pub record Apart (a b : App) : Type 0 where
  pub revision : a.revision ≡ b.revision
  pub ip_table : a.ip_table ≡ b.ip_table

store_decoded-Apart :
    (cidr : Bytes) (decoded : BlockRecord × Bool) (parsed : Option IpNet) (app : App)
    → Apart (store_decoded cidr decoded parsed app) app
unfolding store_decoded
store_decoded-Apart cidr (rec, false) parsed app = record { revision = refl; ip_table = refl }
store_decoded-Apart cidr (rec, true) none app = record { revision = refl; ip_table = refl }
store_decoded-Apart cidr (rec, true) (some net) app = record { revision = refl; ip_table = refl }

if-Apart : (b : Bool) (x y app : App) → Apart x app → Apart y app → Apart (if b then x else y) app
if-Apart true x y app hx hy = hx
if-Apart false x y app hx hy = hy

module _ (go : Go) where
  event-Apart : (ev : WatchEvent) (app : App) → Apart (apply_cidr_event go ev app) app
  unfolding apply_cidr_event store_network
  event-Apart ev app =
      let cidr = cidr_from_etcd_key (go.b64d ev.key) in
      let stored =
        store_decoded cidr (go.unmarshal_record (go.b64d ev.value)) (go.parse_cidr cidr) app in
      let removed : App = record app { cidr_table = remove cidr app.cidr_table } in
      let deleted = str_eq ev.event_type (codes "DELETE") in
      if-Apart (str_eq cidr []) app (if deleted then removed else stored) app
        (record { revision = refl; ip_table = refl })
        (if-Apart deleted removed stored app (record { revision = refl; ip_table = refl })
          (store_decoded-Apart cidr (go.unmarshal_record (go.b64d ev.value)) (go.parse_cidr cidr)
            app))

  pub events-Apart : (evs : List WatchEvent) (app : App) → Apart (apply_cidr_events go evs app) app
  unfolding apply_cidr_events
  events-Apart [] app = record { revision = refl; ip_table = refl }
  events-Apart (ev ∷ evs) app =
      let here = event-Apart ev app in
      let rest = events-Apart evs (apply_cidr_event go ev app) in
      record { revision = rest.revision ∙ here.revision; ip_table = rest.ip_table ∙ here.ip_table }

  pub read-newer :
      (text : Bytes) (n : ℕ) (app : App)
      → text ≢ []
      → go.parse_int text ≡ (pos n, true)
      → ltb_ℤ app.revision (pos n) ≡ true
      → read_revision go text app ≡ record app { revision = pos n }
  unfolding read_revision update_revision
  read-newer text n app h e newer = rw (e, newer) (ground (arith, h, str_eq_iff text []))

  pub asks-from :
      (prefix : Bytes) (n : ℕ)
      → 0 < n
      → n + 1 < 2 ^ 63
      → (watch_request go prefix (pos n)).start_revision ≡ some (pos (n + 1))
  unfolding watch_request
  asks-from prefix n h fits =
      let sum : (pos n +ℤ pos 1) ≡ pos (n + 1) = unfold ◌+ℤ◌ in ground arith in
      let next : wrap64 (pos n +ℤ pos 1) ≡ pos (n + 1) =
        ap wrap64 sum ∙ wrap64_fits (pos (n + 1)) fits in
      let positive : ltb_ℤ (pos 0) (pos n) ≡ true = ground (arith, h) in
      rw positive (ap {B = Option ℤ} some next)

  -- A line that the watch of the networks gets, whose header announces a revision n that is newer
  -- than the one both watches keep, leaves the table of addresses as it is, but the watch of the
  -- addresses that connects next, like any other, asks only for what follows n: changes of addresses
  -- up to n that it has not been told of yet are not asked for. For n + 1 within an int64.
  pub network_line_moves_watch :
      (line : Bytes) (msg : WatchResponse) (n : ℕ) (app : App) (prefix : Bytes)
      → go.unmarshal_watch line ≡ some msg
      → msg.revision ≢ []
      → go.parse_int msg.revision ≡ (pos n, true)
      → ltb_ℤ app.revision (pos n) ≡ true
      → 0 < n
      → n + 1 < 2 ^ 63
      → ((cidr_watch_line go line app).ip_table ≡ app.ip_table)
        × ((watch_request go prefix (cidr_watch_line go line app).revision).start_revision
            ≡ some (pos (n + 1)))
  unfolding cidr_watch_line cidr_watch_message
  network_line_moves_watch line msg n app prefix decoded announced parsed newer positive fits =
      let read = read-newer msg.revision n app announced parsed newer in
      let kept = events-Apart msg.events (read_revision go msg.revision app) in
      rw decoded (
        kept.ip_table ∙ ap (λ (a : App). a.ip_table) read,
        ap (λ r. (watch_request go prefix r).start_revision)
              (kept.revision ∙ ap (λ (a : App). a.revision) read)
            ∙ asks-from prefix n positive fits,
      )
