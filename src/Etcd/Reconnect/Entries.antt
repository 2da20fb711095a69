-- ===== src/Etcd/Reconnect/Entries.antt =====
-- etcd.go: watchLoop, whose changes are those of addresses.
use open_blocklist.Base.{
  ℕ, zero, suc, ◌+◌, ◌≤◌, ◌<◌, ◌^◌, Bytes, some, none, true, List, [], ◌∷◌, ◌++◌, All, map, ◌≡◌,
  ◌≢◌, refl, ap, ◌∙◌, arith,
}
use open_blocklist.Base.Int.{pos}
use open_blocklist.Base.Dict.{lookup}
use open_blocklist.Key.{rbl_prefix}
use open_blocklist.State.{App, BlockRecord, Go}
use open_blocklist.Etcd.{
  WatchRequest, watch_request, update_revision, read_revision, watch_message, watch_line,
  watch_lines,
}
use open_blocklist.Etcd.Replica.{
  Address, IsAddress, text_of, Change, IsChange, View, update, update_all, event_for, follow,
}
use open_blocklist.Etcd.Revision.{revision-apply_events}
use open_blocklist.Etcd.Reconnect.{Connection, lines_of, watch_round, watch_loop}
use open_blocklist.Etcd.Reconnect.History.{changes, upto, Ascending}
use open_blocklist.Etcd.Reconnect.Watched.{Watch, IsStep, Serves, ServesAll}
use open_blocklist.Etcd.Reconnect.Advance.{over_lines, one_round}
use open_blocklist.Etcd.Reconnect.Resume.{rounds, rounds-Stands, round-all, rounds-last}

pub update_all-append :
    (cs ds : List Change) (m : View) → update_all (cs ++ ds) m ≡ update_all ds (update_all cs m)
update_all-append [] ds m = refl
update_all-append (c ∷ cs) ds m = update_all-append cs ds (update c m)

read-table :
    (go : Go) (text : Bytes) (app : App) → (read_revision go text app).ip_table ≡ app.ip_table
unfolding read_revision update_revision
read-table go text app = ground arith

module _ (go : Go) (decode_encode : (s : Bytes) → go.b64d (go.b64 s) ≡ s)
    (unmarshal_marshal : (r : BlockRecord) → go.unmarshal_record (go.marshal_record r) ≡ (r, true))
    (reads : (x : Address) → IsAddress x → go.parse_ip (text_of x) ≢ none) where
  abbrev pub Shows : View → App → Type 0
  Shows m app = (k : Bytes) → lookup k app.ip_table ≡ m k

  pub told :
      (l text : Bytes) (cs : List Change) (m : View) (app : App)
      → All (IsChange go) cs
      → go.unmarshal_watch l ≡ some (record { revision = text; events = map (event_for go) cs })
      → Shows m app
      → ((watch_line go l app).revision ≡ (read_revision go text app).revision)
        × Shows (update_all cs m) (watch_line go l app)
  unfolding watch_line watch_message
  told l text cs m app hc decoded shown = rw decoded (
    revision-apply_events go (map (event_for go) cs) (read_revision go text app),
    follow go decode_encode unmarshal_marshal reads cs (read_revision go text app) m hc
        (λ j. ap (lookup j) (read-table go text app) ∙ shown j),
  )

  pub skipped : (l : Bytes) (app : App) → go.unmarshal_watch l ≡ none → watch_line go l app ≡ app
  unfolding watch_line watch_message
  skipped l app e = rw e refl

  abbrev pub entries : Watch go
  entries = record {
    Change = Change;
    View = View;
    IsChange = IsChange go;
    Shows = Shows;
    prefix = rbl_prefix;
    event_for = event_for go;
    update = update_all;
    line = watch_line go;
    update_nil = λ m. refl;
    update_append = update_all-append;
    line_undecoded = skipped;
    line_told = told;
  }

  lines-same : (ls : List Bytes) (app : App) → watch_lines go ls app ≡ over_lines go entries ls app
  unfolding watch_lines over_lines
  lines-same [] app = refl
  lines-same (l ∷ ls) app = lines-same ls (watch_line go l app)

  pub loop-same :
      (etcd : ℕ → WatchRequest → Connection) (n : ℕ) (app : App)
      → watch_loop go etcd n app ≡ rounds go entries etcd n app
  unfolding watch_loop watch_round rounds one_round
  loop-same etcd zero app = refl
  loop-same etcd (suc n) app =
      loop-same (λ i. etcd (suc i)) n (watch_round go (etcd 0) app)
      ∙ ap (rounds go entries (λ i. etcd (suc i)) n)
          (lines-same (lines_of (etcd 0 (watch_request go rbl_prefix app.revision))) app)

  -- If base64 and JSON decode what they encoded, net.ParseIP accepts the dotted text of every
  -- address, and etcd sends to each request of watchLoop, on each connection, the changes of
  -- addresses, and of keys from which no address is read, that follow the revision it asks from, in
  -- their order and until the connection breaks. The lines announce revisions that may be ahead of
  -- the changes sent, as that of the line which says that the watch is created, but no connection
  -- breaks while a change is left unsent whose revision has been announced on it. Then a process
  -- whose table is that of a revision r > 0 has, after any number of connections, refused, broken, or
  -- with lines that cannot be decoded, and with no line of the other watch in between, the table of
  -- the revision that it then knows, at least r: no change up to there is lost or applied out of its
  -- order. For int64 revisions.
  pub watch_loop-resumes :
      (history : List (ℕ × Change)) (etcd : ℕ → WatchRequest → Connection) (n r base : ℕ) (m : View)
      (app : App)
      → ((i : ℕ) → Serves go entries history (etcd i))
      → Ascending base history
      → All (IsStep go entries) history
      → 0 < r
      → r + 1 < 2 ^ 63
      → app.revision ≡ pos r
      → ((k : Bytes) → lookup k app.ip_table ≡ update_all (upto r history) m k)
      → (s : ℕ) × (r ≤ s)
        × ((watch_loop go etcd n app).revision ≡ pos s)
        × ((k : Bytes)
            → lookup k (watch_loop go etcd n app).ip_table ≡ update_all (upto s history) m k)
  watch_loop-resumes history etcd n r base m app serves asc steps positive fits at same =
      let (s, le, st) =
        rounds-Stands go entries history etcd n r base m app serves asc steps
          (record { positive = positive; fits = fits; revision = at; shows = same }) in
      rw (loop-same etcd n app) (s, le, st.revision, st.shows)

  -- Under the conditions of watch_loop-resumes, one more connection on which etcd sends all changes that follow
  -- the revision it is asked from, whatever revisions its lines announce before them, brings the table
  -- to that of the whole history of changes, however many connections broke before.
  pub watch_loop-catches_up :
      (history : List (ℕ × Change)) (etcd : ℕ → WatchRequest → Connection) (n r base : ℕ) (m : View)
      (app : App)
      → ((i : ℕ) → Serves go entries history (etcd i))
      → ServesAll go entries history (etcd n)
      → Ascending base history
      → All (IsStep go entries) history
      → 0 < r
      → r + 1 < 2 ^ 63
      → app.revision ≡ pos r
      → ((k : Bytes) → lookup k app.ip_table ≡ update_all (upto r history) m k)
      → (k : Bytes)
      → lookup k (watch_loop go etcd (suc n) app).ip_table ≡ update_all (changes history) m k
  watch_loop-catches_up history etcd n r base m app serves all asc steps positive fits at same k =
      let (s, le, st) =
        rounds-Stands go entries history etcd n r base m app serves asc steps
          (record { positive = positive; fits = fits; revision = at; shows = same }) in
      ap (λ (a : App). lookup k a.ip_table)
        (loop-same etcd (suc n) app ∙ rounds-last go entries etcd n app)
      ∙ round-all go entries history (etcd n) s base m (rounds go entries etcd n app) all asc steps
          st k
