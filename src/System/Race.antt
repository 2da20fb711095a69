-- ===== src/System/Race.antt =====
-- A PUT over an expired entry, and the goroutine that its lookup starts.
use open_blocklist.Base.{
  ℕ, Bytes, none, some, true, false, [], ◌∷◌, ◌++◌, str_eq_refl, ◌≡◌, refl, ap, ◌∙◌, arith,
}
use open_blocklist.Base.Int.{ℤ}
use open_blocklist.Base.Dict.{lookup, lookup-delete}
use open_blocklist.State.{App, BlockEntry, Go, expire_ip, is_expired, leave_write}
use open_blocklist.IpTable.{delete_keys, forget_ip, delete_expired_ip, ip_table_lookup, fresh_entry}
use open_blocklist.Query.{Outcome, ok, fail, Fields, read_fields, default_fields}
use open_blocklist.Http.{Request}
use open_blocklist.Write.{finish_put, put_parsed, handle_put, count_put, first_seen_of}
use open_blocklist.System.{run_task}

module _ (go : Go) (t : ℕ → ℤ) where
  -- The rest of a PUT starts no goroutine and keeps the mode.
  finish_put-tasks :
      (ipstr ip : Bytes) (first_seen : ℤ) (app : App) (o : Outcome Fields)
      → ((finish_put go ipstr ip first_seen app o).0.tasks ≡ app.tasks)
        × ((finish_put go ipstr ip first_seen app o).0.multi_instance ≡ app.multi_instance)
  unfolding finish_put
  finish_put-tasks ipstr ip first_seen app (fail m) =
      (unfold leave_write in refl, unfold leave_write in refl)
  finish_put-tasks ipstr ip first_seen app (ok f) = (ground arith, ground arith)

  lookup-expired :
      (now : ℤ) (ip : Bytes) (old : BlockEntry) (app : App)
      → lookup ip app.ip_table ≡ some old
      → is_expired old.expiration now ≡ true
      → ((ip_table_lookup now ip app).0.tasks ≡ app.tasks ++ expire_ip ip ∷ [])
        × ((ip_table_lookup now ip app).0.multi_instance ≡ app.multi_instance)
  unfolding ip_table_lookup fresh_entry
  lookup-expired now ip old app found over = rw (found, over) (refl, refl)

  put_parsed-expired :
      (r : Request) (ip : Bytes) (old : BlockEntry) (app : App)
      → lookup r.ip app.ip_table ≡ some old
      → is_expired old.expiration (t 1) ≡ true
      → ((put_parsed go t r app (some ip)).0.tasks ≡ app.tasks ++ expire_ip r.ip ∷ [])
        × ((put_parsed go t r app (some ip)).0.multi_instance ≡ app.multi_instance)
  unfolding put_parsed
  put_parsed-expired r ip old app found over =
      let (app', existing) = ip_table_lookup (t 1) r.ip app in
      let (tasks, mode) = lookup-expired (t 1) r.ip old app found over in
      let (tasks', mode') =
        finish_put-tasks r.ip ip (first_seen_of (t 0) existing) app'
          (read_fields go (t 0) r (default_fields (t 0))) in
      (tasks' ∙ tasks, mode' ∙ mode)

  delete_expired_ip-gone :
      (ipstr ip : Bytes) (app : App)
      → go.parse_ip ipstr ≡ some ip
      → app.multi_instance ≡ false
      → lookup ipstr (delete_expired_ip go ipstr app).ip_table ≡ none
  unfolding delete_expired_ip forget_ip delete_keys
  delete_expired_ip-gone ipstr ip app parsed single =
      ground (arith, parsed, single, lookup-delete ipstr ipstr app.ip_table, str_eq_refl ipstr)

  -- A PUT on an address whose entry in the table has expired starts the goroutine that deletes the
  -- address, and where that goroutine runs after the PUT in single-instance mode, the address is not
  -- in the table any more: the block that the PUT made is lost.
  pub put_over_expired_lost :
      (r : Request) (ip : Bytes) (old : BlockEntry) (app : App)
      → go.parse_ip r.ip ≡ some ip
      → lookup r.ip app.ip_table ≡ some old
      → is_expired old.expiration (t 1) ≡ true
      → app.multi_instance ≡ false
      → ((handle_put go t r app).0.tasks ≡ app.tasks ++ expire_ip r.ip ∷ [])
        × (lookup r.ip (run_task go (expire_ip r.ip) (handle_put go t r app).0).ip_table ≡ none)
  unfolding handle_put run_task
  put_over_expired_lost r ip old app parsed found over single =
      let (tasks, mode) = put_parsed-expired r ip old (count_put app) found over in
      let same : put_parsed go t r (count_put app) (go.parse_ip r.ip)
          ≡ put_parsed go t r (count_put app) (some ip) =
        ap (put_parsed go t r (count_put app)) parsed in
      (
        ap (λ x. x.0.tasks) same ∙ tasks,
        delete_expired_ip-gone r.ip ip _ parsed (ap (λ x. x.0.multi_instance) same ∙ mode ∙ single),
      )
