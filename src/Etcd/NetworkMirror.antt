-- ===== src/Etcd/NetworkMirror.antt =====
-- etcd.go: what an instance makes of the records of networks that another instance put.
use open_blocklist.Base.{◌^◌, ◌<◌, Bytes, some, true, false, [], Lacks, str_eq, ◌≡◌, refl, ap}
use open_blocklist.Base.Int.{ℤ}
use open_blocklist.Ipv4.RoundTrip.{parse-print}
use open_blocklist.Key.{cidr_to_etcd_key}
use open_blocklist.Key.RoundTrip.{cidr_from-cidr_to}
use open_blocklist.State.{App, BlockRecord, CidrEntry, Go}
use open_blocklist.CidrTable.{upsert}
use open_blocklist.Write.{cidr_record}
use open_blocklist.Etcd.{
  loaded_cidr_entry, apply_cidr_event, load_cidr_kv, store_network, store_decoded,
}
use open_blocklist.Etcd.Mirror.{put_event, stored}

loaded-cidr_record :
    (e : CidrEntry) → e.return_code < 2 ^ 32 → loaded_cidr_entry e.cidr e.net (cidr_record e) ≡ e
unfolding loaded_cidr_entry cidr_record
loaded-cidr_record e h = rw (parse-print e.return_code h) refl

-- base64 and JSON give back what they were given, and net.ParseIP reads dotted texts.
module _ (go : Go) (decode_encode : (s : Bytes) → go.b64d (go.b64 s) ≡ s)
    (unmarshal_marshal : (r : BlockRecord)
      → go.unmarshal_record (go.marshal_record r) ≡ (r, true)) where
  store_network-put :
      (e : CidrEntry) (app : App)
      → go.parse_cidr e.cidr ≡ some e.net
      → e.return_code < 2 ^ 32
      → store_network go e.cidr (go.marshal_record (cidr_record e)) app
        ≡ record app { cidr_table = upsert e app.cidr_table }
  unfolding store_network store_decoded
  store_network-put e app hp h =
      rw (unmarshal_marshal (cidr_record e), hp)
        (ap (λ x. record app { cidr_table = upsert x app.cidr_table }) (loaded-cidr_record e h))

  -- If base64 and JSON decode what they encoded: where an instance receives the update event of the
  -- record that another instance put for a
  -- network, or loads that record, its table is changed by upserting that instance's entry, and
  -- nothing else is; if the network's text is not empty, holds no underscore and is
  -- parsed as its net, and its return code is below 2^32.
  pub network_mirrors_put :
      (e : CidrEntry) (cr mr : ℤ) (cr' mr' : Bytes) (app : App)
      → Lacks b'_' e.cidr
      → str_eq e.cidr [] ≡ false
      → go.parse_cidr e.cidr ≡ some e.net
      → e.return_code < 2 ^ 32
      → (apply_cidr_event go (put_event go (cidr_to_etcd_key e.cidr) (cidr_record e) cr mr) app
          ≡ record app { cidr_table = upsert e app.cidr_table })
        × (load_cidr_kv go (stored go (cidr_to_etcd_key e.cidr) (cidr_record e) cr' mr') app
            ≡ record app { cidr_table = upsert e app.cidr_table })
  unfolding apply_cidr_event load_cidr_kv str_eq
  network_mirrors_put e cr mr cr' mr' app hl hn hp h = (
    rw
        (
          decode_encode (cidr_to_etcd_key e.cidr),
          cidr_from-cidr_to e.cidr hl,
          hn,
          decode_encode (go.marshal_record (cidr_record e)),
        )
        (store_network-put e app hp h),
    rw
        (
          decode_encode (cidr_to_etcd_key e.cidr),
          cidr_from-cidr_to e.cidr hl,
          hn,
          decode_encode (go.marshal_record (cidr_record e)),
        )
        (store_network-put e app hp h),
  )
