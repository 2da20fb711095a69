-- ===== src/Write/Networks.antt =====
-- main.go: what blocking a network does to the addresses in it.
use open_blocklist.Base.{
  ℕ, Bytes, some, Bool, true, false, List, [], ◌∷◌, All, if◌then◌else◌, ◌≡◌, ◌≢◌, ap, arith, ◌∙◌,
}
use open_blocklist.Base.Int.{ℤ}
use open_blocklist.State.{App, CidrEntry, Go, IpNet, is_expired}
use open_blocklist.CidrTable.{find_by_cidr, upsert}
use open_blocklist.CidrTable.Scan.{first_match}
use open_blocklist.Query.{ok, Fields, read_fields, default_fields}
use open_blocklist.Http.{Request}
use open_blocklist.Read.{handle_auth}
use open_blocklist.Read.Agree.{is_fresh_network, listed_network, handle_auth_status}
use open_blocklist.Write.{
  cidr_entry, cidr_path, network_first_seen, finish_put_network, put_network_parsed,
  handle_put_network, count_put,
}

abbrev pub Lives : ℤ → CidrEntry → Type 0
Lives now e = is_expired e.expiration now ≡ false

-- Among entries that live, one that contains the address is found.
upsert-found :
    (go : Go) (now : ℤ) (ip : Bytes) (e : CidrEntry) (es : List CidrEntry)
    → go.net_contains e.net ip ≡ true
    → Lives now e
    → All (Lives now) es
    → is_fresh_network now (first_match go ip (upsert e es)) ≡ true
unfolding upsert first_match
upsert-found go now ip e [] hit live h = ground arith
upsert-found go now ip e (f ∷ es) hit live (hf, h) =
    ground (arith, upsert-found go now ip e es hit live h)

module _ (go : Go) (t : ℕ → ℤ) where
  finish-stores :
      (net : IpNet) (first_seen : ℤ) (app : App) (f : Fields)
      → app.multi_instance ≡ false
      → ((finish_put_network go t net first_seen app (ok f)).1.status ≡ 200)
        × ((finish_put_network go t net first_seen app (ok f)).0.cidr_table
            ≡ upsert (cidr_entry (go.net_string net) net first_seen f) app.cidr_table)
  unfolding finish_put_network
  finish-stores net first_seen app f single = ground (arith, single)

  put_network-stores :
      (r : Request) (app : App) (net : IpNet) (f : Fields)
      → app.multi_instance ≡ false
      → go.parse_cidr (cidr_path r) ≡ some net
      → read_fields go (t 0) r (default_fields (t 0)) ≡ ok f
      → ((handle_put_network go t r app).1.status ≡ 200)
        × ((handle_put_network go t r app).0.cidr_table
            ≡ upsert
                (cidr_entry
                  (go.net_string net)
                  net
                  (network_first_seen (t 0) (find_by_cidr (go.net_string net) app.cidr_table))
                  f)
                app.cidr_table)
  unfolding handle_put_network put_network_parsed
  put_network-stores r app net f single parsed read =
      rw (parsed, read) (finish-stores net _ (count_put app) f single)

  -- A PUT of a network that is parsed and whose query is read is answered with 200 in single-instance
  -- mode, and a request on an address that the network contains is forbidden (403) next, at every
  -- time at which neither the new entry nor an entry that was in the table of networks has expired.
  pub put_network_forbids :
      (t' : ℕ → ℤ) (r r' : Request) (app : App) (net : IpNet) (f : Fields) (parsed : Bytes)
      → app.multi_instance ≡ false
      → go.parse_cidr (cidr_path r) ≡ some net
      → read_fields go (t 0) r (default_fields (t 0)) ≡ ok f
      → r'.ip ≢ []
      → go.parse_ip r'.ip ≡ some parsed
      → go.net_contains net parsed ≡ true
      → is_expired f.expiration (t' 1) ≡ false
      → All (Lives (t' 1)) app.cidr_table
      → ((handle_put_network go t r app).1.status ≡ 200)
        × ((handle_auth go t' r' (handle_put_network go t r app).0).1.status ≡ 403)
  unfolding cidr_entry
  put_network_forbids t' r r' app net f parsed single known read nonempty reads hit live others =
      let (done, stored) = put_network-stores r app net f single known read in
      let e =
        cidr_entry (go.net_string net) net
          (network_first_seen (t 0) (find_by_cidr (go.net_string net) app.cidr_table)) f in
      let found = upsert-found go (t' 1) parsed e app.cidr_table hit live others in
      (
        done,
        handle_auth_status go t' r' parsed _ nonempty reads
            ∙ ap (λ (b : Bool). if b then 403 else 200)
                (listed_network go t' r'.ip parsed (handle_put_network go t r app).0
                  (rw stored found)),
      )
