-- ===== src/System/Elsewhere.antt =====
-- An address that one instance blocks, at another instance that follows it through etcd.
use open_blocklist.Base.{
  ℕ, Bytes, codes, Option, none, some, Bool, true, false, [], ◌∷◌, ◌++◌, str_eq, str_eq_refl,
  false≢true, sym, ap, subst, if◌then◌else◌, ◌≡◌, ◌≢◌, ◌<◌, ◌^◌, refl, arith, ◌∙◌,
}
use open_blocklist.Base.Int.{ℤ}
use open_blocklist.Base.Dict.{lookup, insert, lookup-insert}
use open_blocklist.Ipv4.Bounds.{ipv4_str_to_uint32-fits}
use open_blocklist.Ipv4.RoundTrip.{dotted}
use open_blocklist.Key.{rbl_key, reverse_key}
use open_blocklist.State.{
  App, BlockRecord, BlockEntry, Go, EtcdRequest, kv_put, kv_delete, WatchEvent, is_expired,
}
use open_blocklist.Query.{Outcome, ok, fail, Fields, read_fields, default_fields}
use open_blocklist.Query.Parts.{read_fields-parts}
use open_blocklist.Http.{Request, entry_body, query_get}
use open_blocklist.Read.{handle_auth}
use open_blocklist.Read.Agree.{handle_auth_status, listed_entry}
use open_blocklist.Write.{
  block_entry, block_record, ptr_record, finish_put, put_parsed, handle_put, count_put,
}
use open_blocklist.Write.Effect.{handle_put_ok}
use open_blocklist.Etcd.{apply_event}
use open_blocklist.Etcd.Mirror.{parsed_quad, put_event, dotted-nonempty, watch_mirrors_put}

-- The event that the watch of another instance gets of a request that etcd has carried out, with the
-- revisions that etcd gives the key.
abbrev pub event_of : ℤ → ℤ → EtcdRequest → WatchEvent
event_of create_revision mod_revision (kv_put key value) = record {
  event_type = codes "PUT";
  key = key;
  value = value;
  create_revision = create_revision;
  mod_revision = mod_revision;
}
event_of create_revision mod_revision (kv_delete key) = record {
  event_type = codes "DELETE";
  key = key;
  value = [];
  create_revision = create_revision;
  mod_revision = mod_revision;
}

module _ (go : Go) where
  default_code-fits : (now : ℤ) → (default_fields now).return_code < 2 ^ 32
  unfolding default_fields
  default_code-fits now = ipv4_str_to_uint32-fits _

  read_code-fits :
      (now : ℤ) (r : Request) (f g : Fields)
      → read_fields go now r f ≡ ok g
      → f.return_code < 2 ^ 32
      → g.return_code < 2 ^ 32
  read_code-fits now r f g h hf =
      let (_, _, _, _, _, _, _, code) = read_fields-parts go now r f g h in
      rw code (ground (arith, hf, ipv4_str_to_uint32-fits (query_get (codes "return_code") r)))

  finish_put-fits :
      (ipstr ip : Bytes) (first_seen : ℤ) (app : App) (o : Outcome Fields) (e : BlockEntry)
      → ((g : Fields) → o ≡ ok g → g.return_code < 2 ^ 32)
      → (finish_put go ipstr ip first_seen app o).1.body ≡ entry_body e
      → e.return_code < 2 ^ 32
  unfolding finish_put block_entry
  finish_put-fits ipstr ip first_seen app (fail m) e h body = cc
  finish_put-fits ipstr ip first_seen app (ok g) e h body =
      let same : block_entry ipstr first_seen g ≡ e = cc body in
      subst (λ (x : BlockEntry). x.return_code < 2 ^ 32) same (h g refl)

  put_parsed-fits :
      (t : ℕ → ℤ) (r : Request) (app : App) (o : Option Bytes) (e : BlockEntry)
      → (put_parsed go t r app o).1.body ≡ entry_body e
      → e.return_code < 2 ^ 32
  unfolding put_parsed
  put_parsed-fits t r app none e body = cc
  put_parsed-fits t r app (some ip) e body =
      finish_put-fits r.ip ip _ _ _ e
        (λ g h. read_code-fits (t 0) r (default_fields (t 0)) g h (default_code-fits (t 0))) body

  handle_put-fits :
      (t : ℕ → ℤ) (r : Request) (app : App) (e : BlockEntry)
      → (handle_put go t r app).1.body ≡ entry_body e
      → e.return_code < 2 ^ 32
  unfolding handle_put
  handle_put-fits t r app e body = put_parsed-fits t r (count_put app) (go.parse_ip r.ip) e body

  -- At an instance that received the event, at a time at which the entry has not expired.
  event-forbids :
      ((s : Bytes) → go.b64d (go.b64 s) ≡ s)
      → ((x : BlockRecord) → go.unmarshal_record (go.marshal_record x) ≡ (x, true))
      → (a b c d : ℕ) → a < 256
      → b < 256
      → c < 256
      → d < 256
      → go.parse_ip (dotted a b c d) ≡ some (parsed_quad a b c d)
      → (t' : ℕ → ℤ) (r' : Request) (other : App) (e : BlockEntry) (cr mr : ℤ)
      → r'.ip ≡ dotted a b c d
      → e.return_code < 2 ^ 32
      → is_expired e.expiration (t' 0) ≡ false
      → (handle_auth go t' r' (
          apply_event go
            (put_event go (rbl_key (parsed_quad a b c d)) (block_record e) cr mr)
            other)).1.status
        ≡ 403
  unfolding str_eq
  event-forbids decode unmarshal a b c d ha hb hc hd reads t' r' other e cr mr at' fits live =
      let text = dotted a b c d in
      let here : BlockEntry = record e { ip = text; create_revision = cr; mod_revision = mr } in
      let state : App = record other { ip_table = insert text here other.ip_table } in
      let readable : go.parse_ip text ≢ none = cc in
      let nonempty : r'.ip ≢ [] =
        λ n. false≢true (sym (dotted-nonempty a b c d) ∙ ap (λ s. str_eq s []) (sym at' ∙ n)) in
      let found : lookup r'.ip state.ip_table ≡ some here =
        rw (at', lookup-insert, str_eq_refl) refl in
      rw (watch_mirrors_put go decode unmarshal a b c d ha hb hc hd readable e cr mr other fits) (
        handle_auth_status go t' r' (parsed_quad a b c d) state nonempty
          (ap go.parse_ip at' ∙ reads)
        ∙ ap (λ (b : Bool). if b then 403 else 200)
            (listed_entry go t' r'.ip (parsed_quad a b c d) state here found live))

  -- What a PUT posts that is answered with an entry.
  pub put_posts :
      (a b c d : ℕ)
      → go.parse_ip (dotted a b c d) ≡ some (parsed_quad a b c d)
      → (t : ℕ → ℤ) (r : Request) (app : App) (e : BlockEntry) → r.ip ≡ dotted a b c d
      → (handle_put go t r app).1.status ≡ 200
      → (handle_put go t r app).1.body ≡ entry_body e
      → (reverse : EtcdRequest) × ((handle_put go t r app).0.requests
          ≡ app.requests
            ++ (kv_put
                  (go.b64 (rbl_key (parsed_quad a b c d)))
                  (go.b64 (go.marshal_record (block_record e)))
                ∷ reverse
                ∷ []))
  put_posts a b c d reads t r app e at done body =
      let (ip, e', parsed, body', _, _, _, requests) = handle_put_ok go t r app done in
      let eq : e' ≡ e = cc in
      let same_ip : ip ≡ parsed_quad a b c d = cc (parsed, at, reads) in
      (
        kv_put (go.b64 (reverse_key ip)) (go.b64 (go.marshal_ptr ptr_record)),
        subst
            (λ (x : Bytes × BlockEntry).
              (handle_put go t r app).0.requests
              ≡ app.requests
                ++ (kv_put (go.b64 (rbl_key x.0)) (go.b64 (go.marshal_record (block_record x.1)))
                    ∷ kv_put (go.b64 (reverse_key ip)) (go.b64 (go.marshal_ptr ptr_record))
                    ∷ []))
            {x = (ip, e')} (cc (eq, same_ip)) requests,
      )

  -- If base64 and JSON decode what they encoded and net.ParseIP reads the dotted text of the octets
  -- a, b, c and d as that address: after a PUT on this text that is answered with 200 and the entry
  -- `e`, in either mode, the first of the two requests that it has posted to etcd has this effect. An
  -- instance in any state that receives the event of this request from etcd, whatever the revisions,
  -- forbids the address (403) next, at every time at which `e` has not expired.
  pub put_forbids_elsewhere :
      ((s : Bytes) → go.b64d (go.b64 s) ≡ s)
      → ((x : BlockRecord) → go.unmarshal_record (go.marshal_record x) ≡ (x, true))
      → (a b c d : ℕ) → a < 256
      → b < 256
      → c < 256
      → d < 256
      → go.parse_ip (dotted a b c d) ≡ some (parsed_quad a b c d)
      → (t t' : ℕ → ℤ) (r r' : Request) (app other : App) (e : BlockEntry) (cr mr : ℤ)
      → r.ip ≡ dotted a b c d
      → r'.ip ≡ dotted a b c d
      → (handle_put go t r app).1.status ≡ 200
      → (handle_put go t r app).1.body ≡ entry_body e
      → is_expired e.expiration (t' 0) ≡ false
      → (posted reverse : EtcdRequest) × ((handle_put go t r app).0.requests
          ≡ app.requests ++ (posted ∷ reverse ∷ []))
        × ((handle_auth go t' r' (apply_event go (event_of cr mr posted) other)).1.status ≡ 403)
  put_forbids_elsewhere decode unmarshal a b c d ha hb hc hd reads t t' r r' app other e cr mr at
        at' done body live =
      let (reverse, requests) = put_posts a b c d reads t r app e at done body in
      (
        kv_put (go.b64 (rbl_key (parsed_quad a b c d)))
            (go.b64 (go.marshal_record (block_record e))),
        reverse,
        requests,
        event-forbids decode unmarshal a b c d ha hb hc hd reads t' r' other e cr mr at'
            (handle_put-fits t r app e body) live,
      )
