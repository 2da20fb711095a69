-- ===== src/Etcd/Reconnect/Watched.antt =====
-- etcd.go: a watch that is connected again and again, over what both watches do with a line.
use open_blocklist.Base.{
  ℕ, Bool, sym, ◌∙◌, ltb, if◌then◌else◌, ◌+◌, ◌≤◌, ◌<◌, ◌^◌, Bytes, none, some, true, false, List,
  [], ◌∷◌, ◌++◌, All, map, str_eq, str_eq_iff, ◌≡◌, ◌≢◌, ap, arith, Bool-cases, inl, inr,
}
use open_blocklist.Base.Int.{pos, ltb_ℤ}
use open_blocklist.Key.{prefix_range_end}
use open_blocklist.State.{App, Go, WatchEvent}
use open_blocklist.Etcd.{WatchRequest, update_revision, read_revision}
use open_blocklist.Etcd.SharedRevision.{read-newer}
use open_blocklist.Etcd.Reconnect.{Connection, lines_of}
use open_blocklist.Etcd.Reconnect.History.{changes, after, Ascending, last_revision}

-- What a watch is told of: its changes, the view that they change, the tables that show a view, and what
-- the process does with a line.
pub record Watch (go : Go) : Type 1 where
  pub Change : Type 0
  pub View : Type 0
  pub IsChange : Change → Type 0
  pub Shows : View → App → Type 0
  pub prefix : Bytes
  pub event_for : Change → WatchEvent
  pub update : List Change → View → View
  pub line : Bytes → App → App
  pub update_nil : (m : View) → update [] m ≡ m
  pub update_append :
      (cs ds : List Change) (m : View) → update (cs ++ ds) m ≡ update ds (update cs m)
  pub line_undecoded : (l : Bytes) (app : App) → go.unmarshal_watch l ≡ none → line l app ≡ app
  pub line_told :
      (l text : Bytes) (cs : List Change) (m : View) (app : App)
      → All IsChange cs
      → go.unmarshal_watch l ≡ some (record { revision = text; events = map event_for cs })
      → Shows m app
      → ((line l app).revision ≡ (read_revision go text app).revision)
        × Shows (update cs m) (line l app)

abbrev pub Fits : ℕ → Type 0
Fits r = r + 1 < 2 ^ 63

-- The revision that a process which knows `r` knows after a line that announces `n`.
abbrev pub latest : ℕ → ℕ → ℕ
latest r n = if ltb r n then n else r

pub read-latest :
    (go : Go) (text : Bytes) (r n : ℕ) (app : App)
    → text ≢ []
    → go.parse_int text ≡ (pos n, true)
    → app.revision ≡ pos r
    → (read_revision go text app).revision ≡ pos (latest r n)
unfolding read_revision update_revision
read-latest go text r n app h e at = elim (Bool-cases (ltb_ℤ app.revision (pos n))) [
  | inl newer ↦
      let behind : ltb r n ≡ true = ground (arith, sym (ap (λ z. ltb_ℤ z (pos n)) at) ∙ newer) in
      ap (λ (a : App). a.revision) (read-newer go text n app h e newer)
      ∙ ap (λ (b : Bool). pos (if b then n else r)) (sym behind)
  | inr old ↦
      let filled : str_eq text [] ≡ false = ground (arith, h, str_eq_iff text []) in
      let ahead : ltb r n ≡ false = ground (arith, sym (ap (λ z. ltb_ℤ z (pos n)) at) ∙ old) in
      rw (e, filled, old, ahead) at
]

module _ (go : Go) (w : Watch go) where
  abbrev pub History : Type 0
  History = List (ℕ × w.Change)

  -- A change that the watch understands, at a revision that an int64 can follow.
  abbrev pub IsStep : ℕ × w.Change → Type 0
  IsStep (n, c) = w.IsChange c × (n + 1 < 2 ^ 63)

  pub changes-All : (h : History) → All IsStep h → All w.IsChange (changes h)
  changes-All [] a = tt
  changes-All ((n, c) ∷ h) ((p, _), a) = (p, changes-All h a)

-- The lines of a connection on which etcd sends the changes that are pending to a process that knows
-- `r`, and what is left of them when it closes. A line carries the next changes, or none, as the line
-- that says that the watch is created. Its header announces a revision of etcd's own, which may be ahead
-- of the changes that have been sent, but not behind those of the line. Lines that cannot be decoded may
-- be among them. The connection closes when no change up to the latest revision that it announced is
-- left to be sent.
pub data Sends (go : Go) (w : Watch go)
    : ℕ → List (ℕ × w.Change) → List (ℕ × w.Change) → List Bytes → Type 0 where
  closed :
      {r : ℕ} {pending : List (ℕ × w.Change)}
      → Ascending r pending
      → Sends go w r pending pending []
  undecoded :
      (line : Bytes) {r : ℕ} {pending left : List (ℕ × w.Change)} {lines : List Bytes}
      → go.unmarshal_watch line ≡ none
      → Sends go w r pending left lines
      → Sends go w r pending left (line ∷ lines)
  told :
      (line revision : Bytes) (n : ℕ) (batch rest : List (ℕ × w.Change)) {r : ℕ}
      {pending left : List (ℕ × w.Change)} {lines : List Bytes}
      → pending ≡ batch ++ rest
      → go.unmarshal_watch line
        ≡ some (record { revision = revision; events = map w.event_for (changes batch) })
      → revision ≢ []
      → go.parse_int revision ≡ (pos n, true)
      → last_revision 0 batch ≤ n
      → Fits n
      → Sends go w (latest r n) rest left lines
      → Sends go w r pending left (line ∷ lines)

-- What etcd sends on a connection to a request of the watch that asks for the changes from r + 1 on:
-- those behind r, as far as it gets, or all. The changes to come are part of the history.
abbrev pub Serves :
    (go : Go) (w : Watch go) → List (ℕ × w.Change) → (WatchRequest → Connection) → Type 0
Serves go w history etcd =
    (r : ℕ) (req : WatchRequest)
    → req.key ≡ go.b64 w.prefix
    → req.range_end ≡ go.b64 (prefix_range_end w.prefix)
    → req.start_revision ≡ some (pos (r + 1))
    → (left : List (ℕ × w.Change)) × Sends go w r (after r history) left (lines_of (etcd req))

abbrev pub ServesAll :
    (go : Go) (w : Watch go) → List (ℕ × w.Change) → (WatchRequest → Connection) → Type 0
ServesAll go w history etcd =
    (r : ℕ) (req : WatchRequest)
    → req.key ≡ go.b64 w.prefix
    → req.range_end ≡ go.b64 (prefix_range_end w.prefix)
    → req.start_revision ≡ some (pos (r + 1))
    → Sends go w r (after r history) [] (lines_of (etcd req))
