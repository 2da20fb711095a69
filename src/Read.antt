-- ===== src/Read.antt =====
-- main.go: the handlers that only read the tables. The function `t` gives the readings of the clock,
-- numbered in the order of the calls of time.Now.
pub mod Starts
pub mod Agree
use open_blocklist.Base.{
  ℕ, ◌+◌, Bytes, codes, Option, none, some, Bool, true, false, ◌||◌, not, List, [], ◌∷◌, ◌++◌,
  str_eq, if◌then◌else◌,
}
use open_blocklist.Base.Int.{ℤ}
use open_blocklist.Base.Dict.{Dict, insert}
use open_blocklist.Ipv4.{uint32_to_ipv4_str}
use open_blocklist.State.{App, BlockEntry, CidrEntry, Go, enter_write, leave_write}
use open_blocklist.IpTable.{ip_table_lookup}
use open_blocklist.CidrTable.{cidr_table_lookup, cidr_entry_to_block_entry}
use open_blocklist.Http.{
  Method, head, Request, Response, respond, Body, no_body, plain, object, array, Json, text, flag,
  service_header, content_json, query_get, epoch_to_iso, remaining_seconds, remaining_duration,
  entry_to_map,
}

-- IsValidIP
unfoldable pub is_valid_ip : Go → Bytes → Bool
is_valid_ip go s = elim (go.parse_ip s) [ none ↦ false | some _ ↦ true ]

-- The entry that a lookup answers with, and the network that matched, or no bytes.
pub record Found : Type 0 where
  pub entry : BlockEntry
  pub matched_cidr : Bytes

abbrev found_network : Bytes → CidrEntry → Found
found_network ip c = record {
  entry = record (cidr_entry_to_block_entry c) { ip = ip };
  matched_cidr = c.cidr;
}

-- The second half of the search: the table of networks, for the parsed address.
unfoldable pub find_network : Go → ℤ → Bytes → App → App × Option Found
unfolding cidr_table_lookup cidr_entry_to_block_entry
find_network go now ip app = elim (go.parse_ip ip) [
  | none ↦ (app, none)
  | some parsed ↦
      let (app', entry) = cidr_table_lookup go now parsed app in
      (app', elim entry [ none ↦ none | some c ↦ some (found_network ip c) ])
]

-- ipTableLookup, and where that finds nothing the table of networks.
unfoldable pub find_blocked : Go → (ℕ → ℤ) → Bytes → App → App × Option Found
unfolding ip_table_lookup find_network
find_blocked go t ip app =
    let (app', entry) = ip_table_lookup (t 0) ip app in
    elim entry [
      | some e ↦ (app', some (record { entry = e; matched_cidr = [] }))
      | none ↦ find_network go (t 1) ip app'
    ]

-- The headers of a HEAD request on a blocked address, set one by one.
unfoldable pub blocked_headers : Go → (ℕ → ℤ) → Found → Dict Bytes → Dict Bytes
unfolding epoch_to_iso remaining_seconds remaining_duration
blocked_headers go t f h0 =
    let e = f.entry in
    let h1 = insert (codes "X-Blocklist-IP") e.ip h0 in
    let h2 = insert (codes "X-Blocklist-CreateRevision") (go.format_int e.create_revision) h1 in
    let h3 = insert (codes "X-Blocklist-ModRevision") (go.format_int e.mod_revision) h2 in
    let h4 = insert (codes "X-Blocklist-Source") e.source h3 in
    let h5 = insert (codes "X-Blocklist-Return") (uint32_to_ipv4_str e.return_code) h4 in
    let h6 = insert (codes "X-Blocklist-First-Seen") (go.format_int e.first_seen) h5 in
    let h7 = insert (codes "X-Blocklist-First-Seen-ISO") (epoch_to_iso go e.first_seen) h6 in
    let h8 = insert (codes "X-Blocklist-Expiration") (go.format_int e.expiration) h7 in
    let h9 = insert (codes "X-Blocklist-Expiration-ISO") (epoch_to_iso go e.expiration) h8 in
    let ha =
      insert (codes "X-Blocklist-Remaining-Seconds")
        (go.format_int (remaining_seconds (t 2) e.expiration)) h9 in
    let hb =
      insert (codes "X-Blocklist-Remaining-Duration") (remaining_duration go (t 3) e.expiration)
        ha in
    let hc =
      if str_eq f.matched_cidr []
      then hb
      else insert (codes "X-Blocklist-Matched-CIDR") f.matched_cidr hb in
    insert (codes "X-Blocklist-Status") (codes "blocked") hc

abbrev line : Bytes → Bytes → Bytes → Bytes
line name value rest = name ++ (value ++ (10 ∷ rest))

-- The answer to format=text.
unfoldable pub text_body : Go → (ℕ → ℤ) → BlockEntry → Bytes
unfolding epoch_to_iso remaining_seconds remaining_duration
text_body go t e = line (codes "blocked=") (codes "true") (
    line (codes "ip=") e.ip (
      line (codes "create_revision=") (go.format_int e.create_revision) (
        line (codes "mod_revision=") (go.format_int e.mod_revision) (
          line (codes "source=") e.source (
            line (codes "first_seen=") (go.format_int e.first_seen) (
              line (codes "first_seen_iso=") (epoch_to_iso go e.first_seen) (
                line (codes "expiration=") (go.format_int e.expiration) (
                  line (codes "expiration_iso=") (epoch_to_iso go e.expiration) (
                    line (codes "remaining_seconds=")
                      (go.format_int (remaining_seconds (t 4) e.expiration))
                      (line (codes "remaining_duration=") (remaining_duration go (t 5) e.expiration)
                        []))))))))))

-- The JSON answer.
unfoldable pub lookup_object : Go → (ℕ → ℤ) → Found → Dict Json
unfolding entry_to_map
lookup_object go t f =
    let resp = insert (codes "blocked") (flag true) (entry_to_map go (t 4) (t 5) f.entry) in
    if str_eq f.matched_cidr []
    then resp
    else insert (codes "matched_cidr") (text f.matched_cidr) resp

abbrev is_head : Method → Bool
is_head head = true
is_head _ = false

-- The answer once the search is done.
unfoldable pub answer_lookup : Go → (ℕ → ℤ) → Request → Option Found → Response
unfolding blocked_headers text_body lookup_object query_get
answer_lookup go t r none =
    respond 204
      (if is_head r.method
        then insert (codes "X-Blocklist-Status") (codes "clean") service_header
        else service_header)
      no_body
answer_lookup go t r (some f) =
    let headers =
      if is_head r.method then blocked_headers go t f service_header else service_header in
    if str_eq (query_get (codes "format") r) (codes "text")
    then respond 200 (insert (codes "Content-Type") (codes "text/plain") headers)
        (plain (text_body go t f.entry))
    else respond 200 (insert (codes "Content-Type") (codes "application/json") headers)
        (object (lookup_object go t f))

abbrev pub count_lookup : App → App
count_lookup app = record app {
  stats = record app.stats { requests_lookup = app.stats.requests_lookup + 1 };
}

abbrev pub count_auth : App → App
count_auth app =
    enter_write
      (record app { stats = record app.stats { requests_auth = app.stats.requests_auth + 1 } })

-- handleLookup
unfoldable pub handle_lookup : Go → (ℕ → ℤ) → Request → App → App × Response
handle_lookup go t r app0 =
    let app = count_lookup app0 in
    let (app', found) = find_blocked go t r.ip app in
    if str_eq r.ip [] || not (is_valid_ip go r.ip)
    then (app, respond 400 ((codes "X-Blocklist-Status", codes "error") ∷ []) no_body)
    else (app', answer_lookup go t r found)

-- `cidrTable.lookup(parsed) != nil` in handleAuth.
unfoldable pub auth_network : Go → ℤ → Bytes → App → App × Bool
unfolding cidr_table_lookup
auth_network go now ip app = elim (go.parse_ip ip) [
  | none ↦ (app, false)
  | some parsed ↦
      let (app', entry) = cidr_table_lookup go now parsed app in
      (app', elim entry [ none ↦ false | some _ ↦ true ])
]

unfoldable pub auth_blocked : Go → (ℕ → ℤ) → Bytes → App → App × Bool
unfolding ip_table_lookup auth_network
auth_blocked go t ip app =
    let (app', entry) = ip_table_lookup (t 0) ip app in
    elim entry [ some _ ↦ (app', true) | none ↦ auth_network go (t 1) ip app' ]

-- handleAuth
unfoldable pub handle_auth : Go → (ℕ → ℤ) → Request → App → App × Response
unfolding enter_write leave_write
handle_auth go t r app0 =
    let app = count_auth app0 in
    let (app', blocked) = auth_blocked go t r.ip app in
    if str_eq r.ip [] || not (is_valid_ip go r.ip)
    then (leave_write app, respond 400 service_header no_body)
    else if blocked
    then (leave_write app', respond 403 service_header no_body)
    else (leave_write app', respond 200 service_header no_body)

-- The maps of handleList, two readings of the clock for each entry.
unfoldable pub list_maps : Go → (ℕ → ℤ) → ℕ → Dict BlockEntry → List (Dict Json)
unfolding entry_to_map
list_maps go t i [] = []
list_maps go t i ((k, e) ∷ m) = entry_to_map go (t i) (t (i + 1)) e ∷ list_maps go t (i + 2) m

abbrev list_body : Go → (ℕ → ℤ) → Dict BlockEntry → Body
list_body go t [] = plain (codes "[]")
list_body go t (p ∷ m) = array (list_maps go t 0 (p ∷ m))

-- handleList
unfoldable pub handle_list : Go → (ℕ → ℤ) → Request → App → App × Response
unfolding list_maps
handle_list go t r app = (
  record app { stats = record app.stats { requests_list = app.stats.requests_list + 1 } },
  respond 200 (service_header ++ content_json ∷ []) (list_body go t app.ip_table),
)

-- handleHealth
unfoldable pub handle_health : Request → App → App × Response
handle_health r app = (
  record app { stats = record app.stats { requests_health = app.stats.requests_health + 1 } },
  respond 200 service_header (plain (codes "OK")),
)
