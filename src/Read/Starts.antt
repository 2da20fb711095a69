-- ===== src/Read/Starts.antt =====
-- main.go: the goroutines that the lookups of the read handlers start.
use open_blocklist.Base.{ℕ, Bytes, refl, Option-cases, inl, inr, str_eq, ◌||◌, not, []}
use open_blocklist.Base.Int.{ℤ}
use open_blocklist.State.{App, Go, leave_write}
use open_blocklist.IpTable.{ip_table_lookup}
use open_blocklist.IpTable.Laws.{ip_table_lookup-SameData}
use open_blocklist.Http.{Request}
use open_blocklist.Read.{
  find_blocked, find_network, auth_blocked, auth_network, count_lookup, count_auth, is_valid_ip,
  handle_lookup, handle_auth,
}
use open_blocklist.Tasks.{
  if-StartsDue, StartsDue, none_started, also_started, ip_table_lookup-StartsDue,
  cidr_table_lookup-StartsDue,
}

module _ (go : Go) (t : ℕ → ℤ) where
  find_network-StartsDue :
      (i : ℕ) (ip : Bytes) (app : App) → StartsDue t app (find_network go (t i) ip app).0
  unfolding find_network
  find_network-StartsDue i ip app = elim (Option-cases (go.parse_ip ip)) [
    | inl refused ↦ rw (refused, find_network) (none_started t app app refl)
    | inr (parsed, e) ↦ rw (e, find_network) (cidr_table_lookup-StartsDue t go i parsed app)
  ]

  auth_network-StartsDue :
      (i : ℕ) (ip : Bytes) (app : App) → StartsDue t app (auth_network go (t i) ip app).0
  unfolding auth_network
  auth_network-StartsDue i ip app = elim (Option-cases (go.parse_ip ip)) [
    | inl refused ↦ rw (refused, auth_network) (none_started t app app refl)
    | inr (parsed, e) ↦ rw (e, auth_network) (cidr_table_lookup-StartsDue t go i parsed app)
  ]

  pub find_blocked-StartsDue :
      (ip : Bytes) (app : App) → StartsDue t app (find_blocked go t ip app).0
  unfolding find_blocked
  find_blocked-StartsDue ip app =
      let app' = (ip_table_lookup (t 0) ip app).0 in
      let same = ip_table_lookup-SameData (t 0) ip app in
      let first = ip_table_lookup-StartsDue t 0 ip app in
      elim (Option-cases (ip_table_lookup (t 0) ip app).1) [
        | inl nothing ↦
            rw (nothing, find_blocked)
              (also_started t app app' (find_network go (t 1) ip app').0 same.ip_table
                same.cidr_table first (find_network-StartsDue 1 ip app'))
        | inr (e, found) ↦ rw (found, find_blocked) first
      ]

  pub auth_blocked-StartsDue :
      (ip : Bytes) (app : App) → StartsDue t app (auth_blocked go t ip app).0
  unfolding auth_blocked
  auth_blocked-StartsDue ip app =
      let app' = (ip_table_lookup (t 0) ip app).0 in
      let same = ip_table_lookup-SameData (t 0) ip app in
      let first = ip_table_lookup-StartsDue t 0 ip app in
      elim (Option-cases (ip_table_lookup (t 0) ip app).1) [
        | inl nothing ↦
            rw (nothing, auth_blocked)
              (also_started t app app' (auth_network go (t 1) ip app').0 same.ip_table
                same.cidr_table first (auth_network-StartsDue 1 ip app'))
        | inr (e, found) ↦ rw (found, auth_blocked) first
      ]

  pub handle_lookup-StartsDue :
      (r : Request) (app : App) → StartsDue t app (handle_lookup go t r app).0
  unfolding handle_lookup
  handle_lookup-StartsDue r app =
      let s = find_blocked-StartsDue r.ip (count_lookup app) in
      if-StartsDue t app (str_eq r.ip [] || not (is_valid_ip go r.ip)) _ _
        (none_started t app (count_lookup app) refl)
        (record { started = s.started; tasks = s.tasks; due = s.due })

  pub handle_auth-StartsDue : (r : Request) (app : App) → StartsDue t app (handle_auth go t r app).0
  unfolding handle_auth leave_write
  handle_auth-StartsDue r app =
      let s = auth_blocked-StartsDue r.ip (count_auth app) in
      let started : StartsDue t app (leave_write (auth_blocked go t r.ip (count_auth app)).0) =
        record { started = s.started; tasks = s.tasks; due = s.due } in
      if-StartsDue t app (str_eq r.ip [] || not (is_valid_ip go r.ip)) _ _
        (none_started t app (leave_write (count_auth app)) refl)
        (if-StartsDue t app (auth_blocked go t r.ip (count_auth app)).1 _ _ started started)
