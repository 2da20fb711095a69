-- ===== src/Etcd/Replica.antt =====
-- etcd.go: an instance that loads the addresses that etcd holds and then follows their changes.
use open_blocklist.Base.{
  ℕ, ◌<◌, ◌^◌, Bytes, Option, none, some, true, List, [], ◌∷◌, All, map, str_eq, if◌then◌else◌, ◌≡◌,
  ◌≢◌, refl, ap, ◌∙◌,
}
use open_blocklist.Base.Int.{ℤ}
use open_blocklist.Base.Dict.{lookup, insert, delete, lookup-insert, lookup-delete}
use open_blocklist.Ipv4.RoundTrip.{dotted}
use open_blocklist.Key.{rbl_key, ip_from_key}
use open_blocklist.State.{App, BlockRecord, BlockEntry, EtcdKv, Go, WatchEvent}
use open_blocklist.Write.{block_record}
use open_blocklist.Etcd.{parse_int64, load_kvs, apply_event, apply_events}
use open_blocklist.Etcd.Mirror.{
  put_event, delete_event, stored, parsed_quad, watch_mirrors_put, watch_mirrors_delete,
  load_mirrors_put,
}

-- An IPv4 address by its octets.
pub record Address : Type 0 where
  pub a : ℕ
  pub b : ℕ
  pub c : ℕ
  pub d : ℕ

abbrev pub IsAddress : Address → Type 0
IsAddress x = (x.a < 256) × (x.b < 256) × (x.c < 256) × (x.d < 256)

abbrev pub text_of : Address → Bytes
text_of x = dotted x.a x.b x.c x.d

abbrev pub key_of : Address → Bytes
key_of x = rbl_key (parsed_quad x.a x.b x.c x.d)

-- An entry that an instance wrote, as etcd holds it: under the address, with the two revisions of
-- its key as texts.
pub record Holding : Type 0 where
  pub address : Address
  pub entry : BlockEntry
  pub create_revision : Bytes
  pub mod_revision : Bytes

-- A change of what etcd holds: of an address, or of another key that the watch is told of.
pub data Change : Type 0 where
  put_at : Address → BlockEntry → ℤ → ℤ → Change
  delete_at : Address → Change
  elsewhere : WatchEvent → Change

abbrev pub IsHolding : Holding → Type 0
IsHolding h = IsAddress h.address × (h.entry.return_code < 2 ^ 32)

-- The map from texts of addresses to entries that a table stands for, and what changes it.
abbrev pub View : Type 0
View = Bytes → Option BlockEntry

-- An entry under an address, with the revisions of its key.
abbrev pub revised : Address → BlockEntry → ℤ → ℤ → BlockEntry
revised x e cr mr = record e { ip = text_of x; create_revision = cr; mod_revision = mr }

abbrev pub set : Address → BlockEntry → ℤ → ℤ → View → View
set x e cr mr m k = if str_eq (text_of x) k then some (revised x e cr mr) else m k

abbrev pub update : Change → View → View
update (put_at x e cr mr) m k = set x e cr mr m k
update (delete_at x) m k = if str_eq (text_of x) k then none else m k
update (elsewhere ev) m k = m k

abbrev pub update_all : List Change → View → View
update_all [] m = m
update_all (c ∷ cs) m = update_all cs (update c m)

module _ (go : Go) where
  -- What etcd answers to a range request, and what it tells a watch.
  abbrev pub kv_of : Holding → EtcdKv
  kv_of h = stored go (key_of h.address) (block_record h.entry) h.create_revision h.mod_revision

  abbrev pub event_for : Change → WatchEvent
  event_for (put_at x e cr mr) = put_event go (key_of x) (block_record e) cr mr
  event_for (delete_at x) = delete_event go (key_of x)
  event_for (elsewhere ev) = ev

  -- A key that is not one of an address gives no text of one.
  abbrev pub IsChange : Change → Type 0
  IsChange (put_at x e cr mr) = IsAddress x × (e.return_code < 2 ^ 32)
  IsChange (delete_at x) = IsAddress x
  IsChange (elsewhere ev) = str_eq (ip_from_key go.parse_ip (go.b64d ev.key)) [] ≡ true

  apply_elsewhere :
      (ev : WatchEvent) (app : App)
      → str_eq (ip_from_key go.parse_ip (go.b64d ev.key)) [] ≡ true
      → apply_event go ev app ≡ app
  unfolding apply_event
  apply_elsewhere ev app h = rw h refl

  abbrev pub hold : List Holding → View → View
  hold [] m = m
  hold (h ∷ hs) m =
      hold hs
        (set h.address h.entry (parse_int64 go h.create_revision) (parse_int64 go h.mod_revision) m)

  module _ (decode_encode : (s : Bytes) → go.b64d (go.b64 s) ≡ s)
      (unmarshal_marshal : (r : BlockRecord)
        → go.unmarshal_record (go.marshal_record r) ≡ (r, true))
      (reads : (x : Address) → IsAddress x → go.parse_ip (text_of x) ≢ none) where
    pub follow :
        (cs : List Change) (app : App) (m : View)
        → All IsChange cs
        → ((k : Bytes) → lookup k app.ip_table ≡ m k)
        → (k : Bytes)
        → lookup k (apply_events go (map event_for cs) app).ip_table ≡ update_all cs m k
    unfolding apply_events
    follow [] app m h same k = same k
    follow (put_at x e cr mr ∷ cs) app m (((ha, hb, hc, hd), fits), h) same k =
        let e' = revised x e cr mr in
        ap (λ a. lookup k (apply_events go (map event_for cs) a).ip_table)
          (watch_mirrors_put go decode_encode unmarshal_marshal x.a x.b x.c x.d ha hb hc hd
            (reads x (ha, hb, hc, hd)) e cr mr app fits)
        ∙ follow cs (record app { ip_table = insert (text_of x) e' app.ip_table }) (set x e cr mr m)
            h
            (λ j.
              lookup-insert (text_of x) j e' app.ip_table
              ∙ ap (λ o. if str_eq (text_of x) j then some e' else o) (same j))
            k
    follow (delete_at x ∷ cs) app m ((ha, hb, hc, hd), h) same k =
        ap (λ a. lookup k (apply_events go (map event_for cs) a).ip_table)
          (watch_mirrors_delete go decode_encode unmarshal_marshal x.a x.b x.c x.d ha hb hc hd
            (reads x (ha, hb, hc, hd)) app)
        ∙ follow cs (record app { ip_table = delete (text_of x) app.ip_table })
            (update (delete_at x) m) h
            (λ j.
              lookup-delete (text_of x) j app.ip_table
              ∙ ap (λ o. if str_eq (text_of x) j then none else o) (same j))
            k
    follow (elsewhere ev ∷ cs) app m (hc, h) same k =
        ap (λ a. lookup k (apply_events go (map event_for cs) a).ip_table)
          (apply_elsewhere ev app hc)
        ∙ follow cs app m h same k

    load :
        (hs : List Holding) (app : App) (m : View)
        → All IsHolding hs
        → ((k : Bytes) → lookup k app.ip_table ≡ m k)
        → (k : Bytes) → lookup k (load_kvs go (map kv_of hs) app).ip_table ≡ hold hs m k
    unfolding load_kvs
    load [] app m h same k = same k
    load (x ∷ hs) app m (((ha, hb, hc, hd), fits), h) same k =
        let y = x.address in
        let cr = parse_int64 go x.create_revision in
        let mr = parse_int64 go x.mod_revision in
        let e' = revised y x.entry cr mr in
        ap (λ a. lookup k (load_kvs go (map kv_of hs) a).ip_table)
          (load_mirrors_put go decode_encode unmarshal_marshal y.a y.b y.c y.d ha hb hc hd x.entry
            x.create_revision x.mod_revision app fits)
        ∙ load hs (record app { ip_table = insert (text_of y) e' app.ip_table })
            (set y x.entry cr mr m) h
            (λ j.
              lookup-insert (text_of y) j e' app.ip_table
              ∙ ap (λ o. if str_eq (text_of y) j then some e' else o) (same j))
            k

    -- If base64 and JSON decode what they encoded and net.ParseIP accepts the dotted text of every
    -- address: an instance with an empty table that loads the IPv4 entries that etcd holds and then
    -- gets the events of any changes of them, puts and deletes in any order, among events of keys
    -- that are not those of an address, finds under every text what etcd then holds: the last entry
    -- put at that address, with the revisions of its key, or nothing where it was deleted; for
    -- entries whose return code is below 2^32.
    pub replica_follows :
        (hs : List Holding) (cs : List Change) (app : App)
        → app.ip_table ≡ []
        → All IsHolding hs
        → All IsChange cs
        → (k : Bytes)
        → lookup k (apply_events go (map event_for cs) (load_kvs go (map kv_of hs) app)).ip_table
          ≡ update_all cs (hold hs (λ _. none)) k
    replica_follows hs cs app empty hh hc k =
        follow cs (load_kvs go (map kv_of hs) app) (hold hs (λ _. none)) hc
          (load hs app (λ _. none) hh (λ j. rw empty (unfold lookup in refl))) k
