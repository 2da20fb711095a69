-- ===== src/Etcd/Reconnect/Resume.antt =====
-- etcd.go: what a watch has applied after any number of connections.
use open_blocklist.Base.{
  ℕ, zero, suc, ◌+◌, ◌≤◌, ◌<◌, ◌^◌, some, [], All, ◌≡◌, refl, sym, ap, subst, ◌∙◌, arith,
}
use open_blocklist.Base.Int.{pos}
use open_blocklist.State.{App, Go}
use open_blocklist.Etcd.{WatchRequest, watch_request}
use open_blocklist.Etcd.SharedRevision.{asks-from}
use open_blocklist.Etcd.Reconnect.{Connection, lines_of}
use open_blocklist.Etcd.Reconnect.History.{
  changes, upto, after, Ascending, upto-after, after-after, upto-all,
}
use open_blocklist.Etcd.Reconnect.Watched.{Watch, Fits, History, IsStep, Sends, Serves, ServesAll}
use open_blocklist.Etcd.Reconnect.Advance.{one_round, Advanced, round-Advanced}

module _ (go : Go) (w : Watch go) where
  unfoldable pub rounds : (ℕ → WatchRequest → Connection) → ℕ → App → App
  unfolding one_round
  rounds etcd zero app = app
  rounds etcd (suc n) app = rounds (λ i. etcd (suc i)) n (one_round go w (etcd 0) app)

  pub starts_behind :
      (r : ℕ) (app : App)
      → 0 < r
      → Fits r
      → app.revision ≡ pos r
      → (watch_request go w.prefix app.revision).start_revision ≡ some (pos (r + 1))
  starts_behind r app positive fits at =
      ap (λ v. (watch_request go w.prefix v).start_revision) at
      ∙ asks-from go w.prefix r positive fits

  -- The process stands at a revision of the history.
  pub record Stands (history : History go w) (m : w.View) (r : ℕ) (app : App) : Type 0 where
    pub positive : 0 < r
    pub fits : r + 1 < 2 ^ 63
    pub revision : app.revision ≡ pos r
    pub shows : w.Shows (w.update (upto r history) m) app

  joined :
      (r s : ℕ) (history : History go w) (m : w.View)
      → r ≤ s
      → w.update (upto s (after r history)) (w.update (upto r history) m)
        ≡ w.update (upto s history) m
  joined r s history m le =
      sym (w.update_append (upto r history) (upto s (after r history)) m)
      ∙ ap (λ cs. w.update cs m) (upto-after r s history le)

  Advanced-Stands :
      (r : ℕ) (history left : History go w) (m : w.View) (app app' : App)
      → Stands history m r app
      → Advanced go w r (after r history) left (w.update (upto r history) m) app'
      → (s : ℕ) × (r ≤ s) × (after s history ≡ left) × Stands history m s app'
  Advanced-Stands r history left m app app' st a = (
    a.reached,
    a.grows,
    sym (after-after r a.reached history a.grows) ∙ a.rest,
    record {
      positive = omega (arith, st.positive, a.grows);
      fits = a.fits;
      revision = a.knows.revision;
      shows = subst (λ v. w.Shows v app') (joined r a.reached history m a.grows) a.knows.shows;
    },
  )

  pub round-Stands :
      (history left : History go w) (etcd : WatchRequest → Connection) (r base : ℕ) (m : w.View)
      (app : App)
      → Ascending base history
      → All (IsStep go w) history
      → Stands history m r app
      → Sends go w r
          (after r history)
          left
          (lines_of (etcd (watch_request go w.prefix app.revision)))
      → (s : ℕ) × (r ≤ s) × (after s history ≡ left) × Stands history m s (one_round go w etcd app)
  round-Stands history left etcd r base m app asc steps st sends =
      Advanced-Stands r history left m app (one_round go w etcd app) st (
        round-Advanced go w history left etcd r base (w.update (upto r history) m) app asc steps
          st.fits (record { revision = st.revision; shows = st.shows }) sends)

  -- Connections that break keep the process at a revision of the history.
  pub rounds-Stands :
      (history : History go w) (etcd : ℕ → WatchRequest → Connection) (n r base : ℕ) (m : w.View)
      (app : App)
      → ((i : ℕ) → Serves go w history (etcd i))
      → Ascending base history
      → All (IsStep go w) history
      → Stands history m r app
      → (s : ℕ) × (r ≤ s) × Stands history m s (rounds etcd n app)
  unfolding rounds
  rounds-Stands history etcd zero r base m app serves asc steps st = (r, omega arith, st)
  rounds-Stands history etcd (suc n) r base m app serves asc steps st =
      let (left, sends) =
        serves 0 r (watch_request go w.prefix app.revision) (unfold watch_request in refl)
          (unfold watch_request in refl) (starts_behind r app st.positive st.fits st.revision) in
      let (s, le, _, st') = round-Stands history left (etcd 0) r base m app asc steps st sends in
      let (s', le', st'') =
        rounds-Stands history (λ i. etcd (suc i)) n s base m (one_round go w (etcd 0) app)
          (λ i. serves (suc i)) asc steps st' in
      (s', omega (arith, le, le'), st'')

  -- One that sends all that is left brings it to the whole history.
  pub round-all :
      (history : History go w) (etcd : WatchRequest → Connection) (r base : ℕ) (m : w.View)
      (app : App)
      → ServesAll go w history etcd
      → Ascending base history
      → All (IsStep go w) history
      → Stands history m r app
      → w.Shows (w.update (changes history) m) (one_round go w etcd app)
  round-all history etcd r base m app serves asc steps st =
      let sends =
        serves r (watch_request go w.prefix app.revision) (unfold watch_request in refl)
          (unfold watch_request in refl) (starts_behind r app st.positive st.fits st.revision) in
      let (s, _, none_left, st') = round-Stands history [] etcd r base m app asc steps st sends in
      subst (λ cs. w.Shows (w.update cs m) (one_round go w etcd app)) (upto-all s history none_left)
        st'.shows

  pub rounds-last :
      (etcd : ℕ → WatchRequest → Connection) (n : ℕ) (app : App)
      → rounds etcd (suc n) app ≡ one_round go w (etcd n) (rounds etcd n app)
  unfolding rounds
  rounds-last etcd zero app = refl
  rounds-last etcd (suc n) app = rounds-last (λ i. etcd (suc i)) n (one_round go w (etcd 0) app)
