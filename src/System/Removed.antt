-- ===== src/System/Removed.antt =====
-- An address that is removed, at the process that removes it and at another that follows it.
use open_blocklist.Base.{
  ℕ, Bytes, codes, Option, none, some, Bool, true, false, false≢true, List, [], ◌∷◌, ◌++◌, str_eq,
  str_eq_refl, sym, ap, subst, if◌then◌else◌, ◌≡◌, ◌≢◌, ◌<◌, refl, arith, ◌∙◌,
}
use open_blocklist.Base.Int.{ℤ}
use open_blocklist.Base.Dict.{lookup, delete, lookup-delete}
use open_blocklist.Ipv4.RoundTrip.{dotted}
use open_blocklist.Key.{rbl_key, reverse_key}
use open_blocklist.State.{App, Go, EtcdRequest, kv_delete, BlockRecord}
use open_blocklist.CidrTable.Scan.{first_match}
use open_blocklist.Http.{Request, Response, get, delete_method}
use open_blocklist.Read.{handle_auth}
use open_blocklist.Read.Agree.{is_fresh_network, listed, handle_auth_status}
use open_blocklist.Write.{delete_parsed, handle_delete, count_delete}
use open_blocklist.Write.Effect.{handle_delete_ok}
use open_blocklist.Routes.{Runtime, listen, lookup_routes, api_routes}
use open_blocklist.Routes.Exact.{call, ip_request, delete_block, lookup_auth}
use open_blocklist.Etcd.{apply_event}
use open_blocklist.Etcd.Mirror.{parsed_quad, delete_event, dotted-nonempty, watch_mirrors_delete}
use open_blocklist.System.Elsewhere.{event_of}

-- What is answered to an authorization request where only networks decide.
abbrev pub networks_decide : Go → (ℕ → ℤ) → Bytes → App → ℕ
networks_decide go t parsed app =
    if is_fresh_network (t 1) (first_match go parsed app.cidr_table) then 403 else 200

module _ (go : Go) where
  unlisted :
      (t : ℕ → ℤ) (r : Request) (parsed : Bytes) (app : App)
      → r.ip ≢ []
      → go.parse_ip r.ip ≡ some parsed
      → lookup r.ip app.ip_table ≡ none
      → (handle_auth go t r app).1.status ≡ networks_decide go t parsed app
  unfolding listed
  unlisted t r parsed app h e gone =
      handle_auth_status go t r parsed app h e
      ∙ ap (λ (b : Bool). if b then 403 else 200) {x = listed go t r.ip parsed app} (rw gone refl)

  delete_parsed-networks :
      (r : Request) (app : App) (o : Option Bytes)
      → (delete_parsed go r app o).0.cidr_table ≡ app.cidr_table
  unfolding delete_parsed
  delete_parsed-networks r app none = refl
  delete_parsed-networks r app (some ip) = ground arith

  handle_delete-networks :
      (r : Request) (app : App) → (handle_delete go r app).0.cidr_table ≡ app.cidr_table
  unfolding handle_delete
  handle_delete-networks r app = delete_parsed-networks r (count_delete app) (go.parse_ip r.ip)

  delete_decides :
      (t' : ℕ → ℤ) (r r' : Request) (app : App)
      → app.multi_instance ≡ false
      → (handle_delete go r app).1.status ≡ 204
      → r.ip ≢ []
      → r'.ip ≡ r.ip
      → (parsed : Bytes) × (go.parse_ip r.ip ≡ some parsed)
        × ((handle_auth go t' r' (handle_delete go r app).0).1.status
            ≡ networks_decide go t' parsed app)
  delete_decides t' r r' app single done nonempty same =
      let (parsed, reads, removed, _) = handle_delete_ok go r app done in
      let state = (handle_delete go r app).0 in
      let gone : lookup r'.ip state.ip_table ≡ none =
        ap (λ k. lookup k state.ip_table) same
        ∙ removed r.ip
        ∙ rw (single, str_eq_refl r.ip) refl in
      (
        parsed,
        reads,
        unlisted t' r' parsed state (λ n. nonempty (sym same ∙ n)) (ap go.parse_ip same ∙ reads)
              gone
            ∙ ap (λ nets. if is_fresh_network (t' 1) (first_match go parsed nets) then 403 else 200)
                (handle_delete-networks r app),
      )

-- If a DELETE of /block/{ip} on the API listener of a process in single-instance mode is answered
-- with 204, then a GET of /auth/{ip} that comes to the lookup listener next is answered by the table
-- of networks alone, as it was: with 403 if the first network that contains the address has not
-- expired, and with 200 otherwise, where README.md says 204; for an address that is not empty.
pub delete_then_decided :
    (rt : Runtime) (t' : ℕ → ℤ) (ip : Bytes) (query query' : List (Bytes × Bytes)) (app app' : App)
    (answer : Response)
    → ip ≢ []
    → app.multi_instance ≡ false
    → listen api_routes rt (call delete_method (codes "block" ∷ ip ∷ []) query) app
      ≡ some (app', answer)
    → answer.status ≡ 204
    → (parsed : Bytes) × (app'' : App) × (answer' : Response) × (rt.go.parse_ip ip ≡ some parsed)
      × (listen lookup_routes (record rt { t = t' }) (call get (codes "auth" ∷ ip ∷ []) query') app'
          ≡ some (app'', answer'))
      × (answer'.status ≡ networks_decide rt.go t' parsed app)
delete_then_decided rt t' ip query query' app app' answer nonempty single done status =
    let r = ip_request delete_method ip query in
    let r' = ip_request get ip query' in
    let reached : (app', answer) ≡ handle_delete rt.go r app =
      cc (done, delete_block rt ip query app nonempty) in
    let (parsed, reads, status') =
      delete_decides rt.go t' r r' app single
        (ap (λ (p : App × Response). p.1.status) (sym reached) ∙ status) nonempty refl in
    let next = handle_auth rt.go t' r' app' in
    (
      parsed,
      next.0,
      next.1,
      reads,
      lookup_auth (record rt { t = t' }) ip query' app' nonempty,
      ap (λ (p : App × Response). (handle_auth rt.go t' r' p.0).1.status) reached ∙ status',
    )

module _ (go : Go) where
  -- Any instance, whatever its mode, that is told of the first request of a DELETE.
  event-removes :
      ((s : Bytes) → go.b64d (go.b64 s) ≡ s)
      → ((x : BlockRecord) → go.unmarshal_record (go.marshal_record x) ≡ (x, true))
      → (a b c d : ℕ) → a < 256
      → b < 256
      → c < 256
      → d < 256
      → go.parse_ip (dotted a b c d) ≢ none
      → (cr mr : ℤ) (other : App)
      → apply_event go (event_of cr mr (kv_delete (go.b64 (rbl_key (parsed_quad a b c d))))) other
        ≡ record other { ip_table = delete (dotted a b c d) other.ip_table }
  unfolding apply_event str_eq
  event-removes decode unmarshal a b c d ha hb hc hd hp cr mr other =
      same-event ∙ watch_mirrors_delete go decode unmarshal a b c d ha hb hc hd hp other
    where
      same-event :
          apply_event go (event_of cr mr (kv_delete (go.b64 (rbl_key (parsed_quad a b c d))))) other
          ≡ apply_event go (delete_event go (rbl_key (parsed_quad a b c d))) other
      same-event = refl

  -- If base64 and JSON decode what they encoded and net.ParseIP reads the dotted text of the octets
  -- a, b, c and d as that address: after a DELETE of this text that is answered with 204, in either
  -- mode, the first of the two requests that it has posted to etcd has this effect. An instance in any
  -- state that receives the event of this request from etcd, whatever the revisions, answers the next
  -- authorization request on the address by its table of networks alone: with 403, or with 200, where
  -- README.md says 204.
  pub delete_allows_elsewhere :
      ((s : Bytes) → go.b64d (go.b64 s) ≡ s)
      → ((x : BlockRecord) → go.unmarshal_record (go.marshal_record x) ≡ (x, true))
      → (a b c d : ℕ) → a < 256
      → b < 256
      → c < 256
      → d < 256
      → go.parse_ip (dotted a b c d) ≡ some (parsed_quad a b c d)
      → (t : ℕ → ℤ) (r r' : Request) (app other : App) (cr mr : ℤ) → r.ip ≡ dotted a b c d
      → r'.ip ≡ dotted a b c d
      → (handle_delete go r app).1.status ≡ 204
      → (posted reverse : EtcdRequest) × ((handle_delete go r app).0.requests
          ≡ app.requests ++ (posted ∷ reverse ∷ []))
        × ((handle_auth go t r' (apply_event go (event_of cr mr posted) other)).1.status
            ≡ networks_decide go t (parsed_quad a b c d) other)
  unfolding str_eq
  delete_allows_elsewhere decode unmarshal a b c d ha hb hc hd reads t r r' app other cr mr at at'
        done =
      let (ip, parsed, _, requests) = handle_delete_ok go r app done in
      let same_ip : ip ≡ parsed_quad a b c d = cc (parsed, at, reads) in
      let readable : go.parse_ip (dotted a b c d) ≢ none = cc in
      let nonempty : r'.ip ≢ [] =
        λ n. false≢true (sym (dotted-nonempty a b c d) ∙ ap (λ s. str_eq s []) (sym at' ∙ n)) in
      let state : App = record other { ip_table = delete (dotted a b c d) other.ip_table } in
      let gone : lookup r'.ip state.ip_table ≡ none = rw (at', lookup-delete, str_eq_refl) refl in
      (
        kv_delete (go.b64 (rbl_key (parsed_quad a b c d))),
        kv_delete (go.b64 (reverse_key ip)),
        subst
            (λ (x : Bytes).
              (handle_delete go r app).0.requests
              ≡ app.requests
                ++ (kv_delete (go.b64 (rbl_key x)) ∷ kv_delete (go.b64 (reverse_key ip)) ∷ []))
            same_ip requests,
        rw (event-removes decode unmarshal a b c d ha hb hc hd readable cr mr other) (
            unlisted go t r' (parsed_quad a b c d) state nonempty (ap go.parse_ip at' ∙ reads)
              gone),
      )
