-- ===== src/Etcd/Reconnect/History.antt =====
-- etcd.go: the changes that etcd keeps with their revisions, and what stands before and behind a
-- revision.
use open_blocklist.Base.{
  ℕ, ◌≤◌, ◌<◌, leb, Bool, true, false, List, [], ◌∷◌, ◌++◌, All, if◌then◌else◌, ◌≡◌, refl, ap,
  arith, Bool-cases, inl, inr,
}
use mathlib.Core.List.{cons-ne-nil}

module _ {C : Type 0} where
  abbrev pub changes : List (ℕ × C) → List C
  changes [] = []
  changes ((n, c) ∷ h) = c ∷ changes h

  -- The changes up to a revision, and those behind it.
  abbrev pub upto : ℕ → List (ℕ × C) → List C
  upto r [] = []
  upto r ((n, c) ∷ h) = if leb n r then c ∷ upto r h else []

  abbrev pub after : ℕ → List (ℕ × C) → List (ℕ × C)
  after r [] = []
  after r ((n, c) ∷ h) = if leb n r then after r h else (n, c) ∷ h

  -- The revisions grow, from above one on.
  abbrev pub Ascending : ℕ → List (ℕ × C) → Type 0
  Ascending r [] = Unit
  Ascending r ((n, c) ∷ h) = (r < n) × Ascending n h

  abbrev pub last_revision : ℕ → List (ℕ × C) → ℕ
  last_revision r [] = r
  last_revision r ((n, c) ∷ h) = last_revision n h

  -- What has been told up to one revision, and then up to a later one.
  pub upto-after : (r s : ℕ) (h : List (ℕ × C)) → r ≤ s → upto r h ++ upto s (after r h) ≡ upto s h
  upto-after r s [] le = refl
  upto-after r s ((n, c) ∷ h) le = elim (Bool-cases (leb n r)) [
    | inl old ↦
        let older : leb n s ≡ true = ground (arith, le, old) in
        rw (old, older) (ap (λ cs. c ∷ cs) (upto-after r s h le))
    | inr new ↦ rw new refl
  ]

  pub upto-Ascending : (r : ℕ) (h : List (ℕ × C)) → Ascending r h → upto r h ≡ []
  upto-Ascending r [] a = refl
  upto-Ascending r ((n, c) ∷ h) (lt, a) =
      let new : leb n r ≡ false = ground (arith, lt) in rw new refl

  pub after-Ascending : (r : ℕ) (h : List (ℕ × C)) → Ascending r h → after r h ≡ h
  after-Ascending r [] a = refl
  after-Ascending r ((n, c) ∷ h) (lt, a) =
      let new : leb n r ≡ false = ground (arith, lt) in rw new refl

  -- What is behind one revision, and then behind a later one.
  pub after-after : (r s : ℕ) (h : List (ℕ × C)) → r ≤ s → after s (after r h) ≡ after s h
  after-after r s [] le = refl
  after-after r s ((n, c) ∷ h) le = elim (Bool-cases (leb n r)) [
    | inl old ↦
        let older : leb n s ≡ true = ground (arith, le, old) in
        rw (old, older) (after-after r s h le)
    | inr new ↦ rw new refl
  ]

  all-if :
      (b : Bool) (c : C) (told : List C) (h rest : List (ℕ × C)) (n : ℕ)
      → (rest ≡ [] → told ≡ changes h)
      → (if b then rest else (n, c) ∷ h) ≡ []
      → (if b then c ∷ told else []) ≡ c ∷ changes h
  all-if true c told h rest n f e = ap (λ cs. c ∷ cs) (f e)
  all-if false c told h rest n f e = absurd (cons-ne-nil (n, c) h e)

  -- Where nothing is behind a revision, all has been told.
  pub upto-all : (s : ℕ) (h : List (ℕ × C)) → after s h ≡ [] → upto s h ≡ changes h
  upto-all s [] e = refl
  upto-all s ((n, c) ∷ h) e = all-if (leb n s) c (upto s h) h (after s h) n (upto-all s h) e

  pub Ascending-after : (b r : ℕ) (h : List (ℕ × C)) → Ascending b h → Ascending r (after r h)
  Ascending-after b r [] a = tt
  Ascending-after b r ((n, c) ∷ h) (lt, a) = elim (Bool-cases (leb n r)) [
    | inl old ↦ rw old (Ascending-after n r h a)
    | inr new ↦ rw new (ground (arith, new), a)
  ]

  -- A batch of the pending changes, and those behind it.
  pub last-Ascending :
      (r : ℕ) (batch rest : List (ℕ × C))
      → Ascending r (batch ++ rest)
      → (r ≤ last_revision r batch) × Ascending (last_revision r batch) rest
  last-Ascending r [] rest a = (omega arith, a)
  last-Ascending r ((n, c) ∷ batch) rest (lt, a) =
      let (le, b) = last-Ascending n batch rest a in (omega (arith, lt, le), b)

  pub Ascending-weaker : (r s : ℕ) (h : List (ℕ × C)) → r ≤ s → Ascending s h → Ascending r h
  Ascending-weaker r s [] le a = tt
  Ascending-weaker r s ((n, c) ∷ h) le (lt, a) = (omega (arith, le, lt), a)

  pub upto-batch :
      (r s : ℕ) (batch rest : List (ℕ × C))
      → Ascending r (batch ++ rest)
      → last_revision r batch ≤ s
      → upto s (batch ++ rest) ≡ changes batch ++ upto s rest
  upto-batch r s [] rest a le = refl
  upto-batch r s ((n, c) ∷ batch) rest (lt, a) le =
      let (low, _) = last-Ascending n batch rest a in
      let told_of : leb n s ≡ true = ground (arith, low, le) in
      rw told_of (ap (λ cs. c ∷ cs) (upto-batch n s batch rest a le))

  pub after-batch :
      (r s : ℕ) (batch rest : List (ℕ × C))
      → Ascending r (batch ++ rest)
      → last_revision r batch ≤ s
      → after s (batch ++ rest) ≡ after s rest
  after-batch r s [] rest a le = refl
  after-batch r s ((n, c) ∷ batch) rest (lt, a) le =
      let (low, _) = last-Ascending n batch rest a in
      let told_of : leb n s ≡ true = ground (arith, low, le) in
      rw told_of (after-batch n s batch rest a le)

  pub last-All :
      (P : ℕ × C → Type 0) (Q : ℕ → Type 0)
      → ((x : ℕ × C) → P x → Q x.0)
      → (r : ℕ) (batch rest : List (ℕ × C)) → Q r
      → All P (batch ++ rest)
      → Q (last_revision r batch) × All P batch × All P rest
  last-All P Q f r [] rest q h = (q, tt, h)
  last-All P Q f r ((n, c) ∷ batch) rest q (p, h) =
      let (q', hb, hr) = last-All P Q f n batch rest (f (n, c) p) h in (q', (p, hb), hr)

  pub All-after : (P : ℕ × C → Type 0) (r : ℕ) (h : List (ℕ × C)) → All P h → All P (after r h)
  All-after P r [] hs = tt
  All-after P r ((n, c) ∷ h) (p, hs) = elim (Bool-cases (leb n r)) [
    | inl old ↦ rw old (All-after P r h hs)
    | inr new ↦ rw new (p, hs)
  ]
