-- ===== src/Etcd/Reconnect/Networks.antt =====
-- etcd.go: cidrWatchLoop, whose changes are those of networks.
use open_blocklist.Base.{
  ℕ, zero, suc, ◌+◌, ◌≤◌, ◌<◌, ◌^◌, Bytes, some, none, true, List, [], ◌∷◌, ◌++◌, All, map, ◌≡◌,
  refl, ap, ◌∙◌, arith,
}
use open_blocklist.Base.Int.{pos}
use open_blocklist.Key.{cidr_prefix}
use open_blocklist.State.{App, BlockRecord, CidrEntry, Go}
use open_blocklist.CidrTable.Replay.{Change, change, change_all}
use open_blocklist.Etcd.{
  WatchRequest, watch_request, update_revision, read_revision, cidr_watch_message, cidr_watch_line,
  cidr_watch_lines,
}
use open_blocklist.Etcd.NetworkReplica.{IsChange, event_for, follow}
use open_blocklist.Etcd.SharedRevision.{events-Apart}
use open_blocklist.Etcd.Reconnect.{Connection, lines_of, cidr_watch_round, cidr_watch_loop}
use open_blocklist.Etcd.Reconnect.History.{changes, upto, Ascending}
use open_blocklist.Etcd.Reconnect.Watched.{Watch, IsStep, Serves, ServesAll}
use open_blocklist.Etcd.Reconnect.Advance.{over_lines, one_round}
use open_blocklist.Etcd.Reconnect.Resume.{rounds, rounds-Stands, round-all, rounds-last}

pub change_all-nil : (es : List CidrEntry) → change_all [] es ≡ es
unfolding change_all
change_all-nil es = refl

pub change_all-append :
    (cs ds : List Change) (es : List CidrEntry)
    → change_all (cs ++ ds) es ≡ change_all ds (change_all cs es)
unfolding change_all
change_all-append [] ds es = refl
change_all-append (c ∷ cs) ds es = change_all-append cs ds (change c es)

read-networks :
    (go : Go) (text : Bytes) (app : App) → (read_revision go text app).cidr_table ≡ app.cidr_table
unfolding read_revision update_revision
read-networks go text app = ground arith

module _ (go : Go) (decode_encode : (s : Bytes) → go.b64d (go.b64 s) ≡ s)
    (unmarshal_marshal : (r : BlockRecord)
      → go.unmarshal_record (go.marshal_record r) ≡ (r, true)) where
  abbrev pub Shows : List CidrEntry → App → Type 0
  Shows es app = app.cidr_table ≡ es

  pub told :
      (l text : Bytes) (cs : List Change) (es : List CidrEntry) (app : App)
      → All (IsChange go) cs
      → go.unmarshal_watch l ≡ some (record { revision = text; events = map (event_for go) cs })
      → Shows es app
      → ((cidr_watch_line go l app).revision ≡ (read_revision go text app).revision)
        × Shows (change_all cs es) (cidr_watch_line go l app)
  unfolding cidr_watch_line cidr_watch_message
  told l text cs es app hc decoded shown = rw decoded (
    (events-Apart go (map (event_for go) cs) (read_revision go text app)).revision,
    follow go decode_encode unmarshal_marshal cs (read_revision go text app) hc
        ∙ ap (change_all cs) (read-networks go text app ∙ shown),
  )

  pub skipped :
      (l : Bytes) (app : App) → go.unmarshal_watch l ≡ none → cidr_watch_line go l app ≡ app
  unfolding cidr_watch_line cidr_watch_message
  skipped l app e = rw e refl

  abbrev pub networks : Watch go
  networks = record {
    Change = Change;
    View = List CidrEntry;
    IsChange = IsChange go;
    Shows = Shows;
    prefix = cidr_prefix;
    event_for = event_for go;
    update = change_all;
    line = cidr_watch_line go;
    update_nil = change_all-nil;
    update_append = change_all-append;
    line_undecoded = skipped;
    line_told = told;
  }

  lines-same :
      (ls : List Bytes) (app : App) → cidr_watch_lines go ls app ≡ over_lines go networks ls app
  unfolding cidr_watch_lines over_lines
  lines-same [] app = refl
  lines-same (l ∷ ls) app = lines-same ls (cidr_watch_line go l app)

  loop-same :
      (etcd : ℕ → WatchRequest → Connection) (n : ℕ) (app : App)
      → cidr_watch_loop go etcd n app ≡ rounds go networks etcd n app
  unfolding cidr_watch_loop cidr_watch_round rounds one_round
  loop-same etcd zero app = refl
  loop-same etcd (suc n) app =
      loop-same (λ i. etcd (suc i)) n (cidr_watch_round go (etcd 0) app)
      ∙ ap (rounds go networks (λ i. etcd (suc i)) n)
          (lines-same (lines_of (etcd 0 (watch_request go cidr_prefix app.revision))) app)

  -- If base64 and JSON decode what they encoded, and etcd sends to each request of cidrWatchLoop,
  -- on each connection, the changes of networks that follow the revision it asks from, in their
  -- order and until the connection breaks. The lines announce revisions that may be ahead of the
  -- changes sent, but no connection breaks while a change is left unsent whose revision has been
  -- announced on it. Then a process whose table of networks is that of a revision r > 0 has, after any
  -- number of connections that break and with no line of the other watch in between, the table of
  -- a revision, at least r, and one more connection on which all that follows is sent, whatever its
  -- lines announce before, brings it to that of the whole history. The tables are equal entry by
  -- entry, in their order. For int64 revisions, and networks as network_replica_follows takes them.
  pub cidr_watch_loop-resumes :
      (history : List (ℕ × Change)) (etcd : ℕ → WatchRequest → Connection) (n r base : ℕ)
      (es : List CidrEntry) (app : App)
      → ((i : ℕ) → Serves go networks history (etcd i))
      → ServesAll go networks history (etcd n)
      → Ascending base history
      → All (IsStep go networks) history
      → 0 < r
      → r + 1 < 2 ^ 63
      → app.revision ≡ pos r
      → app.cidr_table ≡ change_all (upto r history) es
      → ((s : ℕ) × (r ≤ s)
          × ((cidr_watch_loop go etcd n app).revision ≡ pos s)
          × ((cidr_watch_loop go etcd n app).cidr_table ≡ change_all (upto s history) es))
        × ((cidr_watch_loop go etcd (suc n) app).cidr_table ≡ change_all (changes history) es)
  cidr_watch_loop-resumes history etcd n r base es app serves all asc steps positive fits at same =
      let (s, le, st) =
        rounds-Stands go networks history etcd n r base es app serves asc steps
          (record { positive = positive; fits = fits; revision = at; shows = same }) in
      (
        rw (loop-same etcd n app) (s, le, st.revision, st.shows),
        ap (λ (a : App). a.cidr_table)
              (loop-same etcd (suc n) app ∙ rounds-last go networks etcd n app)
            ∙ round-all go networks history (etcd n) s base es (rounds go networks etcd n app) all
                asc steps st,
      )
