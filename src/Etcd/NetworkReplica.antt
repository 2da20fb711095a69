-- ===== src/Etcd/NetworkReplica.antt =====
-- etcd.go: an instance that loads the networks that etcd holds and then follows their changes.
use open_blocklist.Base.{
  ◌<◌, ◌^◌, Bytes, codes, none, some, false, true, List, [], ◌∷◌, ◌++◌, All, Lacks, map, str_eq,
  ◌≡◌, refl, sym, ap, subst, ◌∙◌,
}
use open_blocklist.Base.Int.{pos}
use open_blocklist.Key.{cidr_to_etcd_key}
use open_blocklist.Key.RoundTrip.{cidr_from-cidr_to}
use open_blocklist.State.{App, BlockRecord, CidrEntry, EtcdKv, Go, WatchEvent}
use open_blocklist.Write.{cidr_record}
use open_blocklist.CidrTable.{find_by_cidr, upsert, remove}
use open_blocklist.CidrTable.Laws.{IsKeyed}
use open_blocklist.CidrTable.Replay.{
  Change, put_entry, remove_cidr, change, change_all, update_all, change_all-refines,
}
use open_blocklist.Etcd.{load_cidr_kvs, apply_cidr_event, apply_cidr_events}
use open_blocklist.Etcd.NetworkMirror.{network_mirrors_put}
use open_blocklist.Etcd.Mirror.{put_event, delete_event, stored}

module _ (go : Go) where
  -- A text that a key of etcd gives back.
  abbrev pub IsCidr : Bytes → Type 0
  IsCidr cidr = Lacks b'_' cidr × (str_eq cidr [] ≡ false)

  -- An entry that an instance wrote: its text is one that is parsed as its net.
  abbrev pub IsPut : CidrEntry → Type 0
  IsPut e = IsCidr e.cidr × (go.parse_cidr e.cidr ≡ some e.net) × (e.return_code < 2 ^ 32)

  abbrev pub IsChange : Change → Type 0
  IsChange (put_entry e) = IsPut e
  IsChange (remove_cidr cidr) = IsCidr cidr

  -- What etcd answers to a range request and what it tells a watch; the loads and the watch of the
  -- networks do not use the revisions.
  abbrev pub kv_of : CidrEntry → EtcdKv
  kv_of e = stored go (cidr_to_etcd_key e.cidr) (cidr_record e) (codes "1") (codes "1")

  abbrev pub event_for : Change → WatchEvent
  event_for (put_entry e) = put_event go (cidr_to_etcd_key e.cidr) (cidr_record e) (pos 1) (pos 1)
  event_for (remove_cidr cidr) = delete_event go (cidr_to_etcd_key cidr)

  module _ (decode_encode : (s : Bytes) → go.b64d (go.b64 s) ≡ s)
      (unmarshal_marshal : (r : BlockRecord)
        → go.unmarshal_record (go.marshal_record r) ≡ (r, true)) where
    delete_cidr :
        (cidr : Bytes) (app : App)
        → IsCidr cidr
        → apply_cidr_event go (delete_event go (cidr_to_etcd_key cidr)) app
          ≡ record app { cidr_table = remove cidr app.cidr_table }
    unfolding apply_cidr_event
    delete_cidr cidr app (hl, hn) =
        rw (decode_encode (cidr_to_etcd_key cidr), cidr_from-cidr_to cidr hl, hn)
          (unfold str_eq in refl)

    pub follow :
        (cs : List Change) (app : App)
        → All IsChange cs
        → (apply_cidr_events go (map event_for cs) app).cidr_table ≡ change_all cs app.cidr_table
    unfolding apply_cidr_events change_all change
    follow [] app h = refl
    follow (put_entry e ∷ cs) app ((((hl, hn), hp, fits)), h) =
        ap (λ a. (apply_cidr_events go (map event_for cs) a).cidr_table)
          (network_mirrors_put go decode_encode unmarshal_marshal e (pos 1) (pos 1) [] [] app hl hn
            hp fits).0
        ∙ follow cs (record app { cidr_table = upsert e app.cidr_table }) h
    follow (remove_cidr cidr ∷ cs) app (hc, h) =
        ap (λ a. (apply_cidr_events go (map event_for cs) a).cidr_table) (delete_cidr cidr app hc)
        ∙ follow cs (record app { cidr_table = remove cidr app.cidr_table }) h

    load :
        (es : List CidrEntry) (cs : List Change) (app : App)
        → All IsPut es
        → change_all cs (load_cidr_kvs go (map kv_of es) app).cidr_table
          ≡ change_all (map put_entry es ++ cs) app.cidr_table
    unfolding load_cidr_kvs change_all change
    load [] cs app h = refl
    load (e ∷ es) cs app (((hl, hn), hp, fits), h) =
        ap (λ a. change_all cs (load_cidr_kvs go (map kv_of es) a).cidr_table)
          (network_mirrors_put go decode_encode unmarshal_marshal e (pos 1) (pos 1) (codes "1")
            (codes "1") app hl hn hp fits).1
        ∙ load es cs (record app { cidr_table = upsert e app.cidr_table }) h

    -- If base64 and JSON decode what they encoded: an instance with an empty table of networks that
    -- loads the networks that etcd holds and then gets the events of any changes of them, puts and
    -- deletes in any order, finds under every text what etcd then holds: the last entry put under it,
    -- or nothing where it was deleted; and it holds no text twice. The texts of the networks are not
    -- empty, hold no underscore and are parsed as the net of their entry, and the return codes are
    -- below 2^32.
    pub network_replica_follows :
        (es : List CidrEntry) (cs : List Change) (app : App)
        → app.cidr_table ≡ []
        → All IsPut es
        → All IsChange cs
        → IsKeyed
            (apply_cidr_events go
              (map event_for cs)
              (load_cidr_kvs go (map kv_of es) app)).cidr_table
          × ((k : Bytes)
              → find_by_cidr k
                  (apply_cidr_events go
                    (map event_for cs)
                    (load_cidr_kvs go (map kv_of es) app)).cidr_table
                ≡ update_all (map put_entry es ++ cs) (λ _. none) k)
    network_replica_follows es cs app empty he hc =
        let same : (apply_cidr_events go (map event_for cs)
              (load_cidr_kvs go (map kv_of es) app)).cidr_table
            ≡ change_all (map put_entry es ++ cs) [] =
          follow cs (load_cidr_kvs go (map kv_of es) app) hc
          ∙ load es cs app he
          ∙ ap (change_all (map put_entry es ++ cs)) empty in
        subst
          (λ table.
            IsKeyed table
            × ((k : Bytes)
                → find_by_cidr k table ≡ update_all (map put_entry es ++ cs) (λ _. none) k))
          (sym same) (change_all-refines (map put_entry es ++ cs))
