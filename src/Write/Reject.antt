-- ===== src/Write/Reject.antt =====
-- What the handlers leave alone when they refuse a request, and the gauge of active writes.
use open_blocklist.Base.{ℕ, ◌-◌, Bytes, Option, none, some, ◌≡◌, ◌⊎◌, inl, inr, refl, arith}
use open_blocklist.Base.Int.{ℤ}
use open_blocklist.State.{App, IpNet, Go, leave_write}
use open_blocklist.IpTable.{ip_table_lookup}
use open_blocklist.IpTable.Laws.{ip_table_lookup-SameData}
use open_blocklist.Query.{Outcome, ok, fail, Fields, read_fields, default_fields}
use open_blocklist.Http.{Request, Response}
use open_blocklist.Tasks.{StartsDue}
use open_blocklist.Write.Starts.{
  handle_put-StartsDue, handle_delete-StartsDue, handle_put_network-StartsDue,
  handle_delete_network-StartsDue,
}
use open_blocklist.Write.{
  finish_put, put_parsed, handle_put, delete_parsed, handle_delete, finish_put_network,
  put_network_parsed, handle_put_network, delete_network_parsed, handle_delete_network, count_put,
  count_delete, first_seen_of, cidr_path,
}

-- Nothing that the program keeps or sends has changed, counters and started goroutines apart.
pub record Untouched (before after : App) : Type 0 where
  pub ip_table : after.ip_table ≡ before.ip_table
  pub cidr_table : after.cidr_table ≡ before.cidr_table
  pub requests : after.requests ≡ before.requests

left-Untouched : (app : App) → Untouched app (leave_write app)
unfolding leave_write
left-Untouched app = record { ip_table = refl; cidr_table = refl; requests = refl }

-- The answer is the success code and the gauge is back, or the answer is 400 and nothing changed.
abbrev pub Settled : ℕ → App → App × Response → Type 0
Settled code app (app', r) =
    (app'.stats.requests_write_active ≡ app.stats.requests_write_active)
    × ((r.status ≡ code) ⊎ ((r.status ≡ 400) × Untouched app app'))

-- The same, for a state in which the handler has entered the gauge.
abbrev pub Settles : ℕ → App → App × Response → Type 0
Settles code app (app', r) =
    (app'.stats.requests_write_active ≡ app.stats.requests_write_active - 1)
    × ((r.status ≡ code) ⊎ ((r.status ≡ 400) × Untouched app app'))

module _ (go : Go) (t : ℕ → ℤ) where
  finish_put-Settles :
      (ipstr ip : Bytes) (first_seen : ℤ) (app : App) (o : Outcome Fields)
      → Settles 200 app (finish_put go ipstr ip first_seen app o)
  unfolding finish_put
  finish_put-Settles ipstr ip first_seen app (fail m) = (refl, inr (refl, left-Untouched app))
  finish_put-Settles ipstr ip first_seen app (ok f) = (ground arith, inl refl)

  put_parsed-Settles :
      (r : Request) (app : App) (o : Option Bytes) → Settles 200 app (put_parsed go t r app o)
  unfolding put_parsed
  put_parsed-Settles r app none = (refl, inr (refl, left-Untouched app))
  put_parsed-Settles r app (some ip) = ground (
    arith,
    ip_table_lookup-SameData (t 1) r.ip app,
    finish_put-Settles r.ip ip (first_seen_of (t 0) (ip_table_lookup (t 1) r.ip app).1)
        (ip_table_lookup (t 1) r.ip app).0 (read_fields go (t 0) r (default_fields (t 0))),
  )

  delete_parsed-Settles :
      (r : Request) (app : App) (o : Option Bytes) → Settles 204 app (delete_parsed go r app o)
  unfolding delete_parsed
  delete_parsed-Settles r app none = (refl, inr (refl, left-Untouched app))
  delete_parsed-Settles r app (some ip) = (ground arith, inl refl)

  finish_put_network-Settles :
      (net : IpNet) (first_seen : ℤ) (app : App) (o : Outcome Fields)
      → Settles 200 app (finish_put_network go t net first_seen app o)
  unfolding finish_put_network
  finish_put_network-Settles net first_seen app (fail m) = (refl, inr (refl, left-Untouched app))
  finish_put_network-Settles net first_seen app (ok f) = (ground arith, inl refl)

  put_network_parsed-Settles :
      (r : Request) (app : App) (o : Option IpNet)
      → Settles 200 app (put_network_parsed go t r app o)
  unfolding put_network_parsed
  put_network_parsed-Settles r app none = (refl, inr (refl, left-Untouched app))
  put_network_parsed-Settles r app (some net) = finish_put_network-Settles net _ app _

  delete_network_parsed-Settles :
      (r : Request) (app : App) (o : Option IpNet)
      → Settles 204 app (delete_network_parsed go r app o)
  unfolding delete_network_parsed
  delete_network_parsed-Settles r app none = (refl, inr (refl, left-Untouched app))
  delete_network_parsed-Settles r app (some net) = (ground arith, inl refl)

  -- Each of the four write handlers answers with its success code (200 for PUT, 204 for DELETE), or
  -- with 400 and then it has stored and sent nothing to etcd; in every case the gauge of active writes
  -- is back where it was, and the only goroutines that it started, which delete later, are for entries
  -- of the tables that have expired at a reading of its clock.
  pub write_handlers-Settled :
      (r : Request) (app : App)
      → (Settled 200 app (handle_put go t r app) × StartsDue t app (handle_put go t r app).0)
        × (Settled 204 app (handle_delete go r app) × StartsDue t app (handle_delete go r app).0)
        × (Settled 200 app (handle_put_network go t r app)
            × StartsDue t app (handle_put_network go t r app).0)
        × (Settled 204 app (handle_delete_network go r app)
            × StartsDue t app (handle_delete_network go r app).0)
  unfolding handle_put handle_delete handle_put_network handle_delete_network
  write_handlers-Settled r app = (
    (
      ground (arith, put_parsed-Settles r (count_put app) (go.parse_ip r.ip)),
      handle_put-StartsDue go t r app,
    ),
    (
      ground (arith, delete_parsed-Settles r (count_delete app) (go.parse_ip r.ip)),
      handle_delete-StartsDue go t r app,
    ),
    (
      ground (arith, put_network_parsed-Settles r (count_put app) (go.parse_cidr (cidr_path r))),
      handle_put_network-StartsDue go t r app,
    ),
    (
      ground
          (arith, delete_network_parsed-Settles r (count_delete app) (go.parse_cidr (cidr_path r))),
      handle_delete_network-StartsDue go t r app,
    ),
  )
