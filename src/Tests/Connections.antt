-- ===== src/Tests/Connections.antt =====
-- Connections that break after one change, and others that send all, for either watch.
use open_blocklist.Base.{
  ℕ, zero, suc, ◌+◌, ◌==◌, ==_iff, leb, codes, none, some, true, false, List, [], ◌∷◌,
  if◌then◌else◌, ◌≡◌, refl, sym, subst, arith, Bool-cases, inl, inr,
}
use open_blocklist.Base.Int.{ℤ, pos, negsuc}
use open_blocklist.State.{Go}
use open_blocklist.Etcd.{WatchRequest}
use open_blocklist.Etcd.Reconnect.{Connection, refused, answered, lines_of}
use open_blocklist.Etcd.Reconnect.History.{after, Ascending-after}
use open_blocklist.Etcd.Reconnect.Watched.{Watch, Sends, closed, undecoded, told, Serves, ServesAll}

-- From a revision on, up to the first change, and all behind a line that announces the last revision.
abbrev pub broken : ℤ → Connection
broken (negsuc n) = refused
broken (pos n) =
    if n == 6
    then answered ([] ∷ (6 ∷ []) ∷ [])
    else if n == 7
    then answered ((7 ∷ []) ∷ [])
    else refused

abbrev pub whole : ℤ → Connection
whole (negsuc n) = refused
whole (pos n) =
    if leb n 6
    then answered ((8 ∷ []) ∷ (6 ∷ []) ∷ (7 ∷ []) ∷ [])
    else if n == 7
    then answered ((7 ∷ []) ∷ [])
    else answered []

abbrev pub by_start : (ℤ → Connection) → WatchRequest → Connection
by_start f req = elim req.start_revision [ none ↦ refused | some z ↦ f z ]

-- The lines from one change on, for either watch.
module _ (go : Go) (w : Watch go) (one two : w.Change)
    (says_one : go.unmarshal_watch (6 ∷ [])
      ≡ some (record { revision = codes "123456"; events = w.event_for one ∷ [] }))
    (says_two : go.unmarshal_watch (7 ∷ [])
      ≡ some (record { revision = codes "1234567"; events = w.event_for two ∷ [] }))
    (says_created : go.unmarshal_watch (8 ∷ [])
      ≡ some (record { revision = codes "1234567"; events = [] }))
    (says_none : go.unmarshal_watch [] ≡ none) (six : go.parse_int (codes "123456") ≡ (pos 6, true))
    (seven : go.parse_int (codes "1234567") ≡ (pos 7, true)) where
  abbrev pub kept : List (ℕ × w.Change)
  kept = (6, one) ∷ (7, two) ∷ []

  second_line : {r : ℕ} → Sends go w r ((7, two) ∷ []) [] ((7 ∷ []) ∷ [])
  second_line =
      told (7 ∷ []) (codes "1234567") 7 ((7, two) ∷ []) [] refl says_two (grind arith) seven
        (omega arith) (omega arith) (closed tt)

  both_lines : {r : ℕ} → Sends go w r kept [] ((8 ∷ []) ∷ (6 ∷ []) ∷ (7 ∷ []) ∷ [])
  both_lines =
      told (8 ∷ []) (codes "1234567") 7 [] kept refl says_created (grind arith) seven (omega arith)
        (omega arith)
        (told (6 ∷ []) (codes "123456") 6 ((6, one) ∷ []) ((7, two) ∷ []) refl says_one
          (grind arith) six (omega arith) (omega arith) second_line)

  first_line : Sends go w 5 (after 5 kept) ((7, two) ∷ []) (lines_of (broken (pos (5 + 1))))
  first_line = undecoded [] says_none (
      told (6 ∷ []) (codes "123456") 6 ((6, one) ∷ []) ((7, two) ∷ []) refl says_one (grind arith)
        six (omega arith) (omega arith) (closed (omega arith, tt)))

  abbrev Sent : ℕ → Type 0
  Sent r =
      (left : List (ℕ × w.Change)) × Sends go w r (after r kept) left
        (lines_of (broken (pos (r + 1))))

  broken-Sent : (r : ℕ) → Sent r
  broken-Sent r = elim (Bool-cases (r == 5)) [
    | inl five ↦ subst Sent (sym ((==_iff r 5).0 five)) ((7, two) ∷ [], first_line)
    | inr not_five ↦ elim (Bool-cases (r == 6)) [
      | inl at_six ↦ subst Sent (sym ((==_iff r 6).0 at_six)) ([], second_line)
      | inr not_six ↦
          let other : ((r + 1) == 6) ≡ false = ground (arith, not_five) in
          let other' : ((r + 1) == 7) ≡ false = ground (arith, not_six) in
          rw (other, other')
            (after r kept, closed (Ascending-after 0 r kept (omega arith, (omega arith, tt))))
    ]
  ]

  whole-Sends : (r : ℕ) → Sends go w r (after r kept) [] (lines_of (whole (pos (r + 1))))
  whole-Sends r = elim (Bool-cases (leb r 5)) [
    | inl early ↦
        let behind : leb 6 r ≡ false = ground (arith, early) in
        let asked : leb (r + 1) 6 ≡ true = ground (arith, early) in rw (behind, asked) both_lines
    | inr late ↦ elim (Bool-cases (r == 6)) [
      | inl at_six ↦
          subst (λ q. Sends go w q (after q kept) [] (lines_of (whole (pos (q + 1)))))
            (sym ((==_iff r 6).0 at_six)) second_line
      | inr not_six ↦
          let old : leb 6 r ≡ true = ground (arith, late) in
          let old' : leb 7 r ≡ true = ground (arith, late, not_six) in
          let asked : leb (r + 1) 6 ≡ false = ground (arith, late) in
          let asked' : ((r + 1) == 7) ≡ false = ground (arith, not_six) in
          rw (old, old', asked, asked') (closed tt)
    ]
  ]

  broken-Serves : Serves go w kept (by_start broken)
  broken-Serves r req key range e = rw e (broken-Sent r)

  pub whole-ServesAll : ServesAll go w kept (by_start whole)
  whole-ServesAll r req key range e = rw e (whole-Sends r)

  abbrev pub connections : ℕ → WatchRequest → Connection
  connections i = elim i [ zero ↦ by_start broken | suc _ ↦ by_start whole ]

  pub connections-Serves : (i : ℕ) → Serves go w kept (connections i)
  connections-Serves zero = broken-Serves
  connections-Serves (suc i) = λ r req key range e. ([], whole-ServesAll r req key range e)
