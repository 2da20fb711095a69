-- ===== src/System/Lost.antt =====
-- etcd.go: a connection of watchLoop that breaks behind the line which says that the watch is created.
use open_blocklist.Base.{
  ℕ, ◌+◌, ◌<◌, ◌^◌, Bytes, some, none, true, List, [], ◌∷◌, All, ◌≡◌, ◌≢◌, refl, sym, ap, ◌∙◌,
  subst, arith, ltb, if◌then◌else◌,
}
use open_blocklist.Base.Int.{pos}
use open_blocklist.Base.Dict.{lookup}
use open_blocklist.Key.{rbl_prefix}
use open_blocklist.State.{App, BlockRecord, Go}
use open_blocklist.Etcd.{WatchRequest, watch_request, watch_line, watch_lines}
use open_blocklist.Etcd.Replica.{Address, IsAddress, text_of, Change, update_all}
use open_blocklist.Etcd.Reconnect.{Connection, answered, lines_of, watch_loop, watch_round}
use open_blocklist.Etcd.Reconnect.History.{
  changes, after, Ascending, Ascending-after, All-after, after-after, upto-Ascending, upto-all,
}
use open_blocklist.Etcd.Reconnect.Watched.{read-latest, IsStep, ServesAll, Sends}
use open_blocklist.Etcd.Reconnect.Advance.{one_round}
use open_blocklist.Etcd.Reconnect.Resume.{rounds, starts_behind, round-Stands}
use open_blocklist.Etcd.Reconnect.Entries.{entries, told, loop-same}
use open_blocklist.System.Converges.{IsApart, update_all-others}

module _ (go : Go) (decode_encode : (s : Bytes) → go.b64d (go.b64 s) ≡ s)
    (unmarshal_marshal : (r : BlockRecord) → go.unmarshal_record (go.marshal_record r) ≡ (r, true))
    (reads : (x : Address) → IsAddress x → go.parse_ip (text_of x) ≢ none) where
  -- The process asks for what follows the announced revision, whatever it was sent.
  next_gets_later :
      (history : List (ℕ × Change)) (etcd : WatchRequest → Connection) (n base : ℕ) (app : App)
      → ServesAll go (entries go decode_encode unmarshal_marshal reads) history etcd
      → Ascending base history
      → All (IsStep go (entries go decode_encode unmarshal_marshal reads)) history
      → 0 < n
      → n + 1 < 2 ^ 63
      → app.revision ≡ pos n
      → (k : Bytes)
      → lookup k (one_round go (entries go decode_encode unmarshal_marshal reads) etcd app).ip_table
        ≡ update_all (changes (after n history)) (λ j. lookup j app.ip_table) k
  unfolding watch_request
  next_gets_later history etcd n base app serves asc steps positive fits at k =
      let w = entries go decode_encode unmarshal_marshal reads in
      let behind = Ascending-after base n history asc in
      let sends =
        serves n (watch_request go rbl_prefix app.revision) refl refl
          (starts_behind go w n app positive fits at) in
      let (s, _, none_left, st) =
        round-Stands go w (after n history) [] etcd n n (λ j. lookup j app.ip_table) app behind
          (All-after (IsStep go w) n history steps)
          (record {
            positive = positive;
            fits = fits;
            revision = at;
            shows = λ j.
                ap (λ cs. update_all cs (λ i. lookup i app.ip_table) j)
                  (sym (upto-Ascending n (after n history) behind));
          })
          (subst
            (λ pending.
              Sends go w n pending [] (lines_of (etcd (watch_request go rbl_prefix app.revision))))
            (sym (after-after n n history (omega arith))) sends) in
      st.shows k
      ∙ ap (λ cs. update_all cs (λ j. lookup j app.ip_table) k)
          (upto-all s (after n history) none_left)

  created-known :
      (line text : Bytes) (r n : ℕ) (app : App)
      → go.unmarshal_watch line ≡ some (record { revision = text; events = [] })
      → text ≢ []
      → go.parse_int text ≡ (pos n, true)
      → r < n
      → app.revision ≡ pos r
      → ((watch_line go line app).revision ≡ pos n)
        × ((j : Bytes) → lookup j (watch_line go line app).ip_table ≡ lookup j app.ip_table)
  created-known line text r n app decoded filled e lt at =
      let (same, shown) =
        told go decode_encode unmarshal_marshal reads line text [] (λ j. lookup j app.ip_table) app
          tt decoded (λ j. refl) in
      let behind : ltb r n ≡ true = ground (arith, lt) in
      (
        same ∙ read-latest go text r n app filled e at ∙ ap (λ b. pos (if b then n else r)) behind,
        shown,
      )

  -- If base64 and JSON decode what they encoded and net.ParseIP accepts the dotted text of every
  -- address: let a process that knows revision r connect its watch of the addresses, and let the
  -- connection break behind one line without changes, as the one by which etcd says that the watch is
  -- created, whose header announces etcd's own revision n > r. Then the next connection, even one on
  -- which etcd sends all that it is asked for, leaves the table as it was at every address whose
  -- changes all have revisions up to n: those between r and n are lost. For int64 revisions.
  pub created_line_loses :
      (x : Address) (history : List (ℕ × Change)) (etcd : ℕ → WatchRequest → Connection)
      (line text : Bytes) (r n base : ℕ) (app : App)
      → etcd 0 (watch_request go rbl_prefix app.revision) ≡ answered (line ∷ [])
      → go.unmarshal_watch line ≡ some (record { revision = text; events = [] })
      → text ≢ []
      → go.parse_int text ≡ (pos n, true)
      → r < n
      → n + 1 < 2 ^ 63
      → app.revision ≡ pos r
      → ServesAll go (entries go decode_encode unmarshal_marshal reads) history (etcd 1)
      → Ascending base history
      → All (IsStep go (entries go decode_encode unmarshal_marshal reads)) history
      → All (IsApart x) (after n history)
      → lookup (text_of x) (watch_loop go etcd 2 app).ip_table ≡ lookup (text_of x) app.ip_table
  unfolding watch_loop watch_round watch_lines watch_request rounds one_round
  created_line_loses x history etcd line text r n base app first decoded filled e lt fits at serves
        asc steps others =
      let w = entries go decode_encode unmarshal_marshal reads in
      let (known, same) = created-known line text r n app decoded filled e lt at in
      let told_only : watch_round go (etcd 0) app ≡ watch_line go line app =
        ap (λ c. watch_lines go (lines_of c) app) first in
      ap (λ (a : App). lookup (text_of x) a.ip_table)
        (ap (watch_round go (etcd 1)) told_only
          ∙ loop-same go decode_encode unmarshal_marshal reads (λ i. etcd 1) 1
              (watch_line go line app))
      ∙ next_gets_later history (etcd 1) n base (watch_line go line app) serves asc steps
          (omega (arith, lt)) fits known (text_of x)
      ∙ update_all-others x (after n history) (λ j. lookup j (watch_line go line app).ip_table)
          others
      ∙ same (text_of x)
