-- ===== src/Write/Starts.antt =====
-- main.go: the goroutines that the write handlers start.
use open_blocklist.Base.{ℕ, Bytes, Option, none, some, ◌≡◌, refl, arith}
use open_blocklist.Base.Int.{ℤ}
use open_blocklist.State.{App, IpNet, Go}
use open_blocklist.IpTable.{ip_table_lookup}
use open_blocklist.Query.{Outcome, ok, fail, Fields, read_fields, default_fields}
use open_blocklist.Http.{Request}
use open_blocklist.Write.{
  finish_put, put_parsed, handle_put, delete_parsed, handle_delete, finish_put_network,
  put_network_parsed, handle_put_network, delete_network_parsed, handle_delete_network, count_put,
  count_delete, first_seen_of, cidr_path,
}
use open_blocklist.Tasks.{StartsDue, none_started, with_same_tasks, ip_table_lookup-StartsDue}

module _ (go : Go) (t : ℕ → ℤ) where
  finish_put-tasks :
      (ipstr ip : Bytes) (first_seen : ℤ) (app : App) (o : Outcome Fields)
      → (finish_put go ipstr ip first_seen app o).0.tasks ≡ app.tasks
  unfolding finish_put
  finish_put-tasks ipstr ip first_seen app (fail m) = refl
  finish_put-tasks ipstr ip first_seen app (ok f) = ground arith

  put_parsed-StartsDue :
      (r : Request) (app : App) (o : Option Bytes) → StartsDue t app (put_parsed go t r app o).0
  unfolding put_parsed
  put_parsed-StartsDue r app none = none_started t app _ refl
  put_parsed-StartsDue r app (some ip) =
      let (app', existing) = ip_table_lookup (t 1) r.ip app in
      with_same_tasks t app app' _
        (finish_put-tasks r.ip ip (first_seen_of (t 0) existing) app'
          (read_fields go (t 0) r (default_fields (t 0))))
        (ip_table_lookup-StartsDue t 1 r.ip app)

  pub handle_put-StartsDue : (r : Request) (app : App) → StartsDue t app (handle_put go t r app).0
  unfolding handle_put
  handle_put-StartsDue r app =
      let s = put_parsed-StartsDue r (count_put app) (go.parse_ip r.ip) in
      record { started = s.started; tasks = s.tasks; due = s.due }

  delete_parsed-tasks :
      (r : Request) (app : App) (o : Option Bytes) → (delete_parsed go r app o).0.tasks ≡ app.tasks
  unfolding delete_parsed
  delete_parsed-tasks r app none = refl
  delete_parsed-tasks r app (some ip) = ground arith

  pub handle_delete-StartsDue :
      (r : Request) (app : App) → StartsDue t app (handle_delete go r app).0
  unfolding handle_delete
  handle_delete-StartsDue r app =
      none_started t app _ (delete_parsed-tasks r (count_delete app) (go.parse_ip r.ip))

  finish_put_network-tasks :
      (net : IpNet) (first_seen : ℤ) (app : App) (o : Outcome Fields)
      → (finish_put_network go t net first_seen app o).0.tasks ≡ app.tasks
  unfolding finish_put_network
  finish_put_network-tasks net first_seen app (fail m) = refl
  finish_put_network-tasks net first_seen app (ok f) = ground arith

  put_network_parsed-tasks :
      (r : Request) (app : App) (o : Option IpNet)
      → (put_network_parsed go t r app o).0.tasks ≡ app.tasks
  unfolding put_network_parsed
  put_network_parsed-tasks r app none = refl
  put_network_parsed-tasks r app (some net) = finish_put_network-tasks net _ app _

  pub handle_put_network-StartsDue :
      (r : Request) (app : App) → StartsDue t app (handle_put_network go t r app).0
  unfolding handle_put_network
  handle_put_network-StartsDue r app =
      none_started t app _
        (put_network_parsed-tasks r (count_put app) (go.parse_cidr (cidr_path r)))

  delete_network_parsed-tasks :
      (r : Request) (app : App) (o : Option IpNet)
      → (delete_network_parsed go r app o).0.tasks ≡ app.tasks
  unfolding delete_network_parsed
  delete_network_parsed-tasks r app none = refl
  delete_network_parsed-tasks r app (some net) = ground arith

  pub handle_delete_network-StartsDue :
      (r : Request) (app : App) → StartsDue t app (handle_delete_network go r app).0
  unfolding handle_delete_network
  handle_delete_network-StartsDue r app =
      none_started t app _
        (delete_network_parsed-tasks r (count_delete app) (go.parse_cidr (cidr_path r)))
