-- ===== src/Etcd/Reconnect/Advance.antt =====
-- etcd.go: how far the lines of one connection bring a watch.
use open_blocklist.Base.{
  ℕ, Bool-cases, inl, inr, ltb, true, ◌≤◌, Bytes, some, List, [], ◌∷◌, All, map, ◌≡◌, ◌≢◌, sym, ap,
  subst, ◌∙◌, arith,
}
use open_blocklist.Base.Int.{pos}
use open_blocklist.State.{App, Go}
use open_blocklist.Etcd.{WatchRequest, watch_request}
use open_blocklist.Etcd.Reconnect.{Connection, lines_of}
use open_blocklist.Etcd.Reconnect.History.{
  changes, upto, after, Ascending, last_revision, upto-Ascending, after-Ascending, Ascending-after,
  Ascending-weaker, last-Ascending, upto-batch, after-batch, last-All, All-after,
}
use open_blocklist.Etcd.Reconnect.Watched.{
  Watch, Fits, latest, read-latest, History, IsStep, changes-All, Sends, closed, undecoded, told,
}

module _ (go : Go) (w : Watch go) where
  unfoldable pub over_lines : List Bytes → App → App
  over_lines [] app = app
  over_lines (l ∷ ls) app = over_lines ls (w.line l app)

  unfoldable pub one_round : (WatchRequest → Connection) → App → App
  unfolding over_lines watch_request
  one_round etcd app = over_lines (lines_of (etcd (watch_request go w.prefix app.revision))) app

  -- The process knows revision `r`, and its table is that of a view.
  pub record Knows (r : ℕ) (m : w.View) (app : App) : Type 0 where
    pub revision : app.revision ≡ pos r
    pub shows : w.Shows m app

  -- What the process has come to from a view by the next changes, and which are left.
  pub record Advanced (r : ℕ) (pending left : History go w) (m : w.View) (app : App) : Type 0 where
    pub reached : ℕ
    pub knows : Knows reached (w.update (upto reached pending) m) app
    pub grows : r ≤ reached
    pub fits : Fits reached
    pub rest : after reached pending ≡ left

  latest-low : (r n : ℕ) → (r ≤ latest r n) × (n ≤ latest r n)
  latest-low r n = elim (Bool-cases (ltb r n)) [
    | inl behind ↦ rw behind (ground (arith, behind), omega arith)
    | inr ahead ↦ rw ahead (omega arith, ground (arith, ahead))
  ]

  latest-Fits : (r n : ℕ) → Fits r → Fits n → Fits (latest r n)
  latest-Fits r n fr fn = elim (Bool-cases (ltb r n)) [
    | inl behind ↦ rw behind fn
    | inr ahead ↦ rw ahead fr
  ]

  told-Knows :
      (line text : Bytes) (r n : ℕ) (h : History go w) (m : w.View) (app : App)
      → All (IsStep go w) h
      → go.unmarshal_watch line
        ≡ some (record { revision = text; events = map w.event_for (changes h) })
      → text ≢ []
      → go.parse_int text ≡ (pos n, true)
      → Knows r m app
      → Knows (latest r n) (w.update (changes h) m) (w.line line app)
  told-Knows line text r n h m app steps decoded nonempty e k =
      let (at, shown) =
        w.line_told line text (changes h) m app (changes-All go w h steps) decoded k.shows in
      record { revision = at ∙ read-latest go text r n app nonempty e k.revision; shows = shown }

  pub lines-Advanced :
      {lines : List Bytes} {r : ℕ} {pending left : History go w} (m : w.View) (app : App)
      → Sends go w r pending left lines
      → Ascending 0 pending
      → All (IsStep go w) pending
      → Fits r
      → Knows r m app
      → Advanced r pending left m (over_lines lines app)
  unfolding over_lines
  lines-Advanced {r = r} {pending} m app (closed behind) asc steps fits k = record {
    reached = r;
    knows =
        subst (λ m'. Knows r m' app)
          (sym (ap (λ cs. w.update cs m) (upto-Ascending r pending behind) ∙ w.update_nil m)) k;
    grows = omega arith;
    fits = fits;
    rest = after-Ascending r pending behind;
  }
  lines-Advanced {r = r} m app (undecoded line e sends) asc steps fits k =
      lines-Advanced m (w.line line app) sends asc steps fits
        (subst (Knows r m) (sym (w.line_undecoded line app e)) k)
  lines-Advanced {r = r} m app
        (told line text n batch rest {lines = ls} split e h p covers fn sends) asc steps fits k =
      let asc' = subst (Ascending 0) split asc in
      let (le, later) = last-Ascending 0 batch rest asc' in
      let (_, of_batch, of_rest) =
        last-All (IsStep go w) (λ _. Unit) (λ x s. tt) 0 batch rest tt
          (subst (All (IsStep go w)) split steps) in
      let (low, announced) = latest-low r n in
      let a =
        lines-Advanced (w.update (changes batch) m) (w.line line app) sends
          (Ascending-weaker 0 (last_revision 0 batch) rest le later) of_rest
          (latest-Fits r n fits fn) (told-Knows line text r n batch m app of_batch e h p k) in
      let sent : last_revision 0 batch ≤ a.reached = omega (arith, covers, announced, a.grows) in
      record {
        reached = a.reached;
        knows =
            subst (λ view. Knows a.reached view (over_lines ls (w.line line app)))
              (sym (w.update_append (changes batch) (upto a.reached rest) m)
                ∙ ap (λ cs. w.update cs m)
                    (sym (upto-batch 0 a.reached batch rest asc' sent)
                      ∙ ap (upto a.reached) (sym split)))
              a.knows;
        grows = omega (arith, low, a.grows);
        fits = a.fits;
        rest = ap (after a.reached) split ∙ after-batch 0 a.reached batch rest asc' sent ∙ a.rest;
      }

  pub round-Advanced :
      (history left : History go w) (etcd : WatchRequest → Connection) (r base : ℕ) (m : w.View)
      (app : App)
      → Ascending base history
      → All (IsStep go w) history
      → Fits r
      → Knows r m app
      → Sends go w r
          (after r history)
          left
          (lines_of (etcd (watch_request go w.prefix app.revision)))
      → Advanced r (after r history) left m (one_round etcd app)
  unfolding one_round
  round-Advanced history left etcd r base m app asc steps fits k sends =
      lines-Advanced m app sends
        (Ascending-weaker 0 r (after r history) (omega arith) (Ascending-after base r history asc))
        (All-after (IsStep go w) r history steps) fits k
