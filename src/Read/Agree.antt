-- ===== src/Read/Agree.antt =====
-- main.go: what the two lookup handlers answer.
use open_blocklist.Base.{
  ℕ, Bytes, Option, none, some, Bool, true, false, ◌||◌, not, [], str_eq, str_eq_iff, Bool-cases,
  Option-cases, inl, inr, ap, ◌∙◌, ◌==◌, if◌then◌else◌, ◌≡◌, refl, arith, ◌≢◌,
}
use open_blocklist.Base.Int.{ℤ}
use open_blocklist.Base.Dict.{lookup}
use open_blocklist.State.{App, BlockEntry, CidrEntry, Go, is_expired, enter_write}
use open_blocklist.IpTable.{fresh_entry}
use open_blocklist.CidrTable.Scan.{first_match, scan_nets_first}
use open_blocklist.Http.{Request}
use open_blocklist.Read.{
  count_auth, Found, is_valid_ip, find_blocked, find_network, auth_blocked, handle_lookup,
  handle_auth, answer_lookup,
}

-- The status of handleAuth that goes with a status of handleLookup.
abbrev pub auth_status : ℕ → ℕ
auth_status s = if s == 400 then 400 else if s == 200 then 403 else 200

abbrev is_found : Option Found → Bool
is_found none = false
is_found (some _) = true

-- What it means that an address is listed: its own entry, or the first network that contains it,
-- is there and has not expired.
abbrev pub is_fresh : ℤ → Option BlockEntry → Bool
is_fresh now none = false
is_fresh now (some e) = not (is_expired e.expiration now)

abbrev pub is_fresh_network : ℤ → Option CidrEntry → Bool
is_fresh_network now none = false
is_fresh_network now (some e) = not (is_expired e.expiration now)

unfoldable pub listed : Go → (ℕ → ℤ) → Bytes → Bytes → App → Bool
listed go t ip parsed app =
    is_fresh (t 0) (lookup ip app.ip_table)
    || is_fresh_network (t 1) (first_match go parsed app.cidr_table)

module _ (go : Go) (t : ℕ → ℤ) where
  fresh_same :
      (now : ℤ) (ip : Bytes) (e : Option BlockEntry) (app : App)
      → (fresh_entry now ip e app).0.cidr_table ≡ app.cidr_table
  unfolding fresh_entry
  fresh_same now ip none app = refl
  fresh_same now ip (some e) app = ground arith

  -- A live entry of its own makes an address listed.
  pub listed_entry :
      (ip parsed : Bytes) (app : App) (e : BlockEntry)
      → lookup ip app.ip_table ≡ some e
      → is_expired e.expiration (t 0) ≡ false
      → listed go t ip parsed app ≡ true
  unfolding listed
  listed_entry ip parsed app e found live = rw (found, live)

  -- So does a live network that is the first to contain it.
  pub listed_network :
      (ip parsed : Bytes) (app : App)
      → is_fresh_network (t 1) (first_match go parsed app.cidr_table) ≡ true
      → listed go t ip parsed app ≡ true
  unfolding listed
  listed_network ip parsed app h = ground (arith, h)

  network_listed :
      (ip parsed : Bytes) (app : App)
      → go.parse_ip ip ≡ some parsed
      → is_found (find_network go (t 1) ip app).1
        ≡ is_fresh_network (t 1) (first_match go parsed app.cidr_table)
  unfolding find_network
  network_listed ip parsed app h = ground (arith, scan_nets_first go (t 1) parsed app.cidr_table)

  find_blocked-listed :
      (ip parsed : Bytes) (app : App)
      → go.parse_ip ip ≡ some parsed
      → is_found (find_blocked go t ip app).1 ≡ listed go t ip parsed app
  unfolding find_blocked listed
  find_blocked-listed ip parsed app h =
      ground (arith, scan_nets_first go (t 1) parsed app.cidr_table)

  auth_blocked-listed :
      (ip parsed : Bytes) (app : App)
      → go.parse_ip ip ≡ some parsed
      → (auth_blocked go t ip app).1 ≡ listed go t ip parsed app
  unfolding auth_blocked listed
  auth_blocked-listed ip parsed app h =
      ground (arith, scan_nets_first go (t 1) parsed app.cidr_table)

  answer_status :
      (r : Request) (f : Option Found)
      → (answer_lookup go t r f).status ≡ (if is_found f then 200 else 204)
  unfolding answer_lookup
  answer_status r none = refl
  answer_status r (some f) = ground arith

  valid :
      (ip parsed : Bytes)
      → ip ≢ []
      → go.parse_ip ip ≡ some parsed
      → (str_eq ip [] || not (is_valid_ip go ip)) ≡ false
  unfolding is_valid_ip
  valid ip parsed h e = ground (arith, str_eq_iff ip [])

  -- On an address that is not empty and that net.ParseIP reads, handleLookup answers 200 exactly if
  -- the address is listed (its own entry, or the first network that contains it, has not expired), and
  -- 204 otherwise.
  pub handle_lookup_status :
      (r : Request) (parsed : Bytes) (app : App)
      → r.ip ≢ []
      → go.parse_ip r.ip ≡ some parsed
      → (handle_lookup go t r app).1.status ≡ (if listed go t r.ip parsed app then 200 else 204)
  unfolding handle_lookup listed
  handle_lookup_status r parsed app h e = rw (valid r.ip parsed h e) (
      answer_status r _
      ∙ ap (λ (b : Bool). if b then 200 else 204) (find_blocked-listed r.ip parsed _ e))

  -- On an address that is not empty and that net.ParseIP reads, handleAuth answers 403 exactly if the
  -- address is listed, and 200 otherwise.
  pub handle_auth_status :
      (r : Request) (parsed : Bytes) (app : App)
      → r.ip ≢ []
      → go.parse_ip r.ip ≡ some parsed
      → (handle_auth go t r app).1.status ≡ (if listed go t r.ip parsed app then 403 else 200)
  unfolding handle_auth listed enter_write
  handle_auth_status r parsed app h e =
      rw (valid r.ip parsed h e)
        (ground (arith, auth_blocked-listed r.ip parsed (count_auth app) e))

  usable :
      (ip : Bytes)
      → (str_eq ip [] || not (is_valid_ip go ip)) ≡ false
      → (parsed : Bytes) × (ip ≢ []) × (go.parse_ip ip ≡ some parsed)
  unfolding is_valid_ip
  usable ip h = elim (Option-cases (go.parse_ip ip)) [
    | inl e ↦ absurd (ground (arith, str_eq_iff ip []))
    | inr (parsed, e) ↦ (parsed, ground (arith, str_eq_iff ip []), e)
  ]

  refused :
      (r : Request)
      → (str_eq r.ip [] || not (is_valid_ip go r.ip)) ≡ true
      → (app : App)
      → ((handle_lookup go t r app).1.status ≡ 400) × ((handle_auth go t r app).1.status ≡ 400)
  unfolding handle_lookup handle_auth
  refused r h app = rw h (refl, refl)

  -- On the same state and readings of the clock the two handlers agree, whatever the request: 400
  -- goes with 400, blocked (200) with forbidden (403), and not blocked (204) with allowed, for which
  -- the code answers 200 and README.md says 204.
  pub auth-lookup_agree :
      (r : Request) (app : App)
      → (handle_auth go t r app).1.status ≡ auth_status (handle_lookup go t r app).1.status
  auth-lookup_agree r app = elim (Bool-cases (str_eq r.ip [] || not (is_valid_ip go r.ip))) [
    | inl bad ↦ let (l, a) = refused r bad app in rw (l, a)
    | inr good ↦
        let (parsed, h, e) = usable r.ip good in
        rw (handle_lookup_status r parsed app h e, handle_auth_status r parsed app h e)
          (ground arith)
  ]
