-- ===== src/Write/Effect.antt =====
-- What the handlers that block and unblock do to the tables and to etcd.
use open_blocklist.Base.{
  ℕ, true, ◌⊎◌, inl, inr, Bool-cases, Option-cases, Bytes, Option, none, some, Bool, false, not,
  ◌&&◌, List, [], ◌∷◌, ◌++◌, str_eq, str_eq_refl, sym, if◌then◌else◌, ◌≡◌, ◌≢◌, refl, ap, arith,
  append_assoc, ◌∙◌,
}
use open_blocklist.Base.Int.{ℤ}
use open_blocklist.Base.Dict.{lookup, insert, delete, lookup-insert, lookup-delete}
use open_blocklist.Key.{rbl_key, reverse_key}
use open_blocklist.State.{
  App, BlockRecord, BlockEntry, Go, EtcdRequest, kv_put, kv_delete, is_expired,
}
use open_blocklist.IpTable.{ip_table_lookup, fresh_entry}
use open_blocklist.IpTable.Laws.{ip_table_lookup-SameData}
use open_blocklist.Query.{Outcome, ok, fail, Fields, read_fields, default_fields}
use open_blocklist.Http.{Request, entry_body}
use open_blocklist.Read.{handle_auth}
use open_blocklist.Read.Agree.{handle_auth_status, listed_entry}
use open_blocklist.Write.{
  block_entry, block_record, ptr_record, put_keys, finish_put, put_parsed, handle_put,
  delete_parsed, handle_delete, count_put, count_delete, first_seen_of,
}

-- The two requests that a blocked address posts to etcd.
abbrev pub put_requests : Go → Bytes → BlockEntry → List EtcdRequest
put_requests go ip e =
    kv_put (go.b64 (rbl_key ip)) (go.b64 (go.marshal_record (block_record e)))
    ∷ kv_put (go.b64 (reverse_key ip)) (go.b64 (go.marshal_ptr ptr_record))
    ∷ []

-- The first-seen time of a new entry: that of the entry under its address, if there is one that has not
-- expired at the time `later`, or else `now`.
abbrev pub FirstSeen : ℤ → ℤ → Bytes → App → BlockEntry → Type 0
FirstSeen now later ip app e =
    ((old : BlockEntry) × (lookup ip app.ip_table ≡ some old)
      × (is_expired old.expiration later ≡ false)
      × (e.first_seen ≡ old.first_seen))
    ⊎ ((e.first_seen ≡ now)
        × ((lookup ip app.ip_table ≡ none)
            ⊎ ((old : BlockEntry) × (lookup ip app.ip_table ≡ some old)
                × (is_expired old.expiration later ≡ true))))

first_seen-FirstSeen :
    (now later : ℤ) (ip : Bytes) (app : App) (e : BlockEntry)
    → e.first_seen ≡ first_seen_of now (ip_table_lookup later ip app).1
    → FirstSeen now later ip app e
unfolding ip_table_lookup fresh_entry
first_seen-FirstSeen now later ip app e h = elim (Option-cases (lookup ip app.ip_table)) [
  | inl nothing ↦ inr (rw nothing at h, inl nothing)
  | inr (old, found) ↦ elim (Bool-cases (is_expired old.expiration later)) [
    | inl over ↦ inr (rw (found, over) at h, inr (old, found, over))
    | inr live ↦ inl (old, found, live, rw (found, live) at h)
  ]
]

module _ (go : Go) where
  pub put_keys_requests :
      (ip : Bytes) (rec : BlockRecord) (app : App)
      → (put_keys go ip rec app).requests
        ≡ app.requests
          ++ (kv_put (go.b64 (rbl_key ip)) (go.b64 (go.marshal_record rec))
              ∷ kv_put (go.b64 (reverse_key ip)) (go.b64 (go.marshal_ptr ptr_record))
              ∷ [])
  unfolding put_keys
  put_keys_requests ip rec app = simp append_assoc

  finish_put_ok :
      (ipstr ip : Bytes) (first_seen : ℤ) (app : App) (o : Outcome Fields)
      → (finish_put go ipstr ip first_seen app o).1.status ≡ 200
      → (e : BlockEntry) × ((finish_put go ipstr ip first_seen app o).1.body ≡ entry_body e)
        × (e.ip ≡ ipstr)
        × (e.first_seen ≡ first_seen)
        × ((finish_put go ipstr ip first_seen app o).0.ip_table
            ≡ (if app.multi_instance then app.ip_table else insert ipstr e app.ip_table))
        × ((finish_put go ipstr ip first_seen app o).0.requests
            ≡ app.requests ++ put_requests go ip e)
  unfolding finish_put
  finish_put_ok ipstr ip first_seen app (fail m) h = absurd (omega arith)
  finish_put_ok ipstr ip first_seen app (ok f) h = (
    block_entry ipstr first_seen f,
    refl,
    unfold block_entry in refl,
    unfold block_entry in refl,
    ground arith,
    ground (arith, put_keys_requests ip (block_record (block_entry ipstr first_seen f)) app),
  )

  module _ (t : ℕ → ℤ) where
    put_parsed_ok :
        (r : Request) (app : App) (o : Option Bytes)
        → (put_parsed go t r app o).1.status ≡ 200
        → (ip : Bytes) × (e : BlockEntry) × (o ≡ some ip)
          × ((put_parsed go t r app o).1.body ≡ entry_body e)
          × (e.ip ≡ r.ip)
          × FirstSeen (t 0) (t 1) r.ip app e
          × ((put_parsed go t r app o).0.ip_table
              ≡ (if app.multi_instance then app.ip_table else insert r.ip e app.ip_table))
          × ((put_parsed go t r app o).0.requests ≡ app.requests ++ put_requests go ip e)
    unfolding put_parsed
    put_parsed_ok r app none h = absurd (omega arith)
    put_parsed_ok r app (some ip) h =
        let same = ip_table_lookup-SameData (t 1) r.ip app in
        let (app', existing) = ip_table_lookup (t 1) r.ip app in
        let (e, body, own, seen, stored, posted) =
          finish_put_ok r.ip ip (first_seen_of (t 0) existing) app'
            (read_fields go (t 0) r (default_fields (t 0))) h in
        (
          ip,
          e,
          refl,
          body,
          own,
          first_seen-FirstSeen (t 0) (t 1) r.ip app e seen,
          ground (arith, stored, same),
          ground (arith, posted, same),
        )

    -- A PUT that is answered with 200 has built an entry for the address of the path. It returns that
    -- entry, keeps the first-seen time of an entry that was there and had not expired (else it is the
    -- first reading of the clock), stores the entry under its address in single-instance mode and
    -- leaves the table alone in multi-instance mode, and posts its two records to etcd, in this order.
    pub handle_put_ok :
        (r : Request) (app : App)
        → (handle_put go t r app).1.status ≡ 200
        → (ip : Bytes) × (e : BlockEntry) × (go.parse_ip r.ip ≡ some ip)
          × ((handle_put go t r app).1.body ≡ entry_body e)
          × (e.ip ≡ r.ip)
          × FirstSeen (t 0) (t 1) r.ip app e
          × ((handle_put go t r app).0.ip_table
              ≡ (if app.multi_instance then app.ip_table else insert r.ip e app.ip_table))
          × ((handle_put go t r app).0.requests ≡ app.requests ++ put_requests go ip e)
    unfolding handle_put
    handle_put_ok r app h = put_parsed_ok r (count_put app) (go.parse_ip r.ip) h

    -- After a PUT answered with 200 in single-instance mode, a request on the same address is
    -- forbidden (403) at every time at which the entry that the PUT returned has not expired.
    pub put_forbids :
        (r r' : Request) (app : App) (e : BlockEntry) (t' : ℕ → ℤ)
        → app.multi_instance ≡ false
        → (handle_put go t r app).1.status ≡ 200
        → (handle_put go t r app).1.body ≡ entry_body e
        → is_expired e.expiration (t' 0) ≡ false
        → r.ip ≢ []
        → r'.ip ≡ r.ip
        → (handle_auth go t' r' (handle_put go t r app).0).1.status ≡ 403
    put_forbids r r' app e t' single done body live h same =
        let (ip, e', parsed, body', _, _, stored, _) = handle_put_ok r app done in
        let eq : e' ≡ e = cc in
        let found : lookup r'.ip (handle_put go t r app).0.ip_table ≡ some e =
          rw (stored, single, lookup-insert, same, str_eq_refl)
            (ap {B = Option BlockEntry} some eq) in
        handle_auth_status go t' r' ip _ (λ n. h (sym same ∙ n)) (ap go.parse_ip same ∙ parsed)
        ∙ ap (λ (b : Bool). if b then 403 else 200)
            (listed_entry go t' r'.ip ip (handle_put go t r app).0 e found live)

  delete_parsed_ok :
      (r : Request) (app : App) (o : Option Bytes)
      → (delete_parsed go r app o).1.status ≡ 204
      → (ip : Bytes) × (o ≡ some ip)
        × ((delete_parsed go r app o).0.ip_table
            ≡ (if app.multi_instance then app.ip_table else delete r.ip app.ip_table))
        × ((delete_parsed go r app o).0.requests
            ≡ app.requests
              ++ (kv_delete (go.b64 (rbl_key ip)) ∷ kv_delete (go.b64 (reverse_key ip)) ∷ []))
  unfolding delete_parsed
  delete_parsed_ok r app none h = absurd (omega arith)
  delete_parsed_ok r app (some ip) h = (ip, refl, ground arith, simp append_assoc (ground arith))

  -- A DELETE that is answered with 204 removes the address of the path, and no other, from the table
  -- in single-instance mode, leaves the table alone in multi-instance mode, and posts the removal of
  -- its two keys to etcd, in this order.
  pub handle_delete_ok :
      (r : Request) (app : App)
      → (handle_delete go r app).1.status ≡ 204
      → (ip : Bytes) × (go.parse_ip r.ip ≡ some ip)
        × ((k : Bytes)
            → lookup k (handle_delete go r app).0.ip_table
              ≡ (if not app.multi_instance && str_eq r.ip k then none else lookup k app.ip_table))
        × ((handle_delete go r app).0.requests
            ≡ app.requests
              ++ (kv_delete (go.b64 (rbl_key ip)) ∷ kv_delete (go.b64 (reverse_key ip)) ∷ []))
  unfolding handle_delete
  handle_delete_ok r app h =
      let (ip, parsed, removed, posted) =
        delete_parsed_ok r (count_delete app) (go.parse_ip r.ip) h in
      (ip, parsed, (λ k. rw removed (ground (arith, lookup-delete r.ip k app.ip_table))), posted)
