-- ===== src/Etcd/Mirror.antt =====
-- etcd.go: what an instance makes of the records that another instance put.
use open_blocklist.Base.{
  ℕ, ◌^◌, ◌<◌, Bytes, codes, none, true, false, [], ◌∷◌, ◌++◌, str_eq, ◌≡◌, ◌≢◌, refl, ap,
  Option-cases, inl, inr,
}
use open_blocklist.Base.Int.{ℤ, pos}
use open_blocklist.Base.Dict.{insert, delete}
use open_blocklist.Ipv4.{append_uint8}
use open_blocklist.Ipv4.RoundTrip.{dotted, parse-print}
use open_blocklist.Key.{rbl_key, ipv4_parts, v4_in_v6}
use open_blocklist.Key.RoundTrip.{ip_from_key-rbl_key, split-quad_key, join-decimal}
use open_blocklist.State.{App, BlockEntry, BlockRecord, Go, EtcdKv, WatchEvent}
use open_blocklist.Write.{block_record}
use open_blocklist.Etcd.{loaded_entry, load_kv, apply_event, update_ip, update_decoded, parse_int64}

-- What an update event holds of a value that was put under a key.
abbrev pub put_event : Go → Bytes → BlockRecord → ℤ → ℤ → WatchEvent
put_event go key rec create_revision mod_revision = record {
  event_type = codes "PUT";
  key = go.b64 key;
  value = go.b64 (go.marshal_record rec);
  create_revision = create_revision;
  mod_revision = mod_revision;
}

abbrev pub delete_event : Go → Bytes → WatchEvent
delete_event go key = record {
  event_type = codes "DELETE";
  key = go.b64 key;
  value = [];
  create_revision = pos 0;
  mod_revision = pos 0;
}

-- The key and value that a range request answers for it.
abbrev pub stored : Go → Bytes → BlockRecord → Bytes → Bytes → EtcdKv
stored go key rec create_revision mod_revision = record {
  key = go.b64 key;
  value = go.b64 (go.marshal_record rec);
  create_revision = create_revision;
  mod_revision = mod_revision;
}

-- The address a.b.c.d as net.ParseIP returns it, in sixteen bytes.
abbrev pub parsed_quad : ℕ → ℕ → ℕ → ℕ → Bytes
parsed_quad a b c d = v4_in_v6 ++ (a ∷ b ∷ c ∷ d ∷ [])

rbl_key-parsed : (a b c d : ℕ) → rbl_key (parsed_quad a b c d) ≡ rbl_key (a ∷ b ∷ c ∷ d ∷ [])
unfolding rbl_key ipv4_parts
rbl_key-parsed a b c d = refl

append-nonempty : (s t : Bytes) (c : ℕ) → str_eq (s ++ (c ∷ t)) [] ≡ false
unfolding str_eq
append-nonempty [] t c = refl
append-nonempty (x ∷ s) t c = refl

pub dotted-nonempty : (a b c d : ℕ) → str_eq (dotted a b c d) [] ≡ false
dotted-nonempty a b c d =
    append-nonempty (append_uint8 a)
      (append_uint8 b ++ (b'.' ∷ (append_uint8 c ++ (b'.' ∷ append_uint8 d)))) b'.'

loaded-block_record :
    (e : BlockEntry) (ip : Bytes) (cr mr : ℤ)
    → e.return_code < 2 ^ 32
    → loaded_entry ip (block_record e) cr mr
      ≡ record e { ip = ip; create_revision = cr; mod_revision = mr }
unfolding loaded_entry block_record
loaded-block_record e ip cr mr h = rw (parse-print e.return_code h) refl

module _ (go : Go) (decode_encode : (s : Bytes) → go.b64d (go.b64 s) ≡ s)
    (unmarshal_marshal : (r : BlockRecord)
      → go.unmarshal_record (go.marshal_record r) ≡ (r, true)) where
  update_ip-put :
      (key ip : Bytes)
      → go.parse_ip ip ≢ none
      → (e : BlockEntry) (cr mr : ℤ) (app : App) → e.return_code < 2 ^ 32
      → update_ip go ip (put_event go key (block_record e) cr mr) app ≡ record app {
        ip_table =
            insert ip (record e { ip = ip; create_revision = cr; mod_revision = mr }) app.ip_table;
      }
  unfolding update_ip update_decoded
  update_ip-put key ip hp e cr mr app h = elim (Option-cases (go.parse_ip ip)) [
    | inl nil ↦ absurd (hp nil)
    | inr (x, some_ip) ↦
        rw
          (
            decode_encode (go.marshal_record (block_record e)),
            unmarshal_marshal (block_record e),
            some_ip,
          )
          (ap (λ x. record app { ip_table = insert ip x app.ip_table })
            (loaded-block_record e ip cr mr h))
  ]

  module _ (a b c d : ℕ) (ha : a < 256) (hb : b < 256) (hc : c < 256) (hd : d < 256) where
    -- If base64 and JSON decode what they encoded and net.ParseIP reads the dotted text of four octets,
    -- then, where an instance receives the update event of the record that another instance put under the
    -- key of the IPv4 address a.b.c.d, it stores that instance's entry under the dotted text, with
    -- the event's revisions, and changes nothing else; for entries whose return code is below 2^32.
    pub watch_mirrors_put :
        (go.parse_ip (dotted a b c d) ≢ none)
        → (e : BlockEntry) (cr mr : ℤ) (app : App) → e.return_code < 2 ^ 32
        → apply_event go (put_event go (rbl_key (parsed_quad a b c d)) (block_record e) cr mr) app
          ≡ record app {
            ip_table =
                insert
                  (dotted a b c d)
                  (record e { ip = dotted a b c d; create_revision = cr; mod_revision = mr })
                  app.ip_table;
          }
    unfolding apply_event str_eq
    watch_mirrors_put hp e cr mr app h =
        rw
          (
            decode_encode (rbl_key (parsed_quad a b c d)),
            rbl_key-parsed a b c d,
            ip_from_key-rbl_key a b c d ha hb hc hd go.parse_ip hp,
            dotted-nonempty a b c d,
          )
          (update_ip-put (rbl_key (a ∷ b ∷ c ∷ d ∷ [])) (dotted a b c d) hp e cr mr app h)

    -- If base64 and JSON decode what they encoded and net.ParseIP reads the dotted text, an instance that
    -- receives the delete event of the key of the IPv4 address a.b.c.d drops the entry of the dotted text
    -- and changes nothing else.
    pub watch_mirrors_delete :
        (go.parse_ip (dotted a b c d) ≢ none)
        → (app : App)
        → apply_event go (delete_event go (rbl_key (parsed_quad a b c d))) app
          ≡ record app { ip_table = delete (dotted a b c d) app.ip_table }
    unfolding apply_event
    watch_mirrors_delete hp app =
        rw
          (
            decode_encode (rbl_key (parsed_quad a b c d)),
            rbl_key-parsed a b c d,
            ip_from_key-rbl_key a b c d ha hb hc hd go.parse_ip hp,
            dotted-nonempty a b c d,
          )
          (unfold str_eq in refl)

    -- If base64 and JSON decode what they encoded, the load at the start stores, for the record of an
    -- entry under the key of the IPv4 address a.b.c.d, that entry under the dotted text, with the
    -- revisions of the answer, and changes nothing else; for return codes below 2^32.
    pub load_mirrors_put :
        (e : BlockEntry) (cr mr : Bytes) (app : App)
        → e.return_code < 2 ^ 32
        → load_kv go (stored go (rbl_key (parsed_quad a b c d)) (block_record e) cr mr) app
          ≡ record app {
            ip_table =
                insert
                  (dotted a b c d)
                  (record e {
                    ip = dotted a b c d;
                    create_revision = parse_int64 go cr;
                    mod_revision = parse_int64 go mr;
                  })
                  app.ip_table;
          }
    unfolding load_kv
    load_mirrors_put e cr mr app h =
        rw
          (
            decode_encode (rbl_key (parsed_quad a b c d)),
            rbl_key-parsed a b c d,
            split-quad_key a b c d ha hb hc hd,
            decode_encode (go.marshal_record (block_record e)),
            unmarshal_marshal (block_record e),
            join-decimal a b c d ha hb hc hd,
          )
          (ap (λ x. record app { ip_table = insert (dotted a b c d) x app.ip_table })
            (loaded-block_record e (dotted a b c d) (parse_int64 go cr) (parse_int64 go mr) h))
