-- ===== src/Log/Pool/Lines.antt =====
-- log.go: the lines on their way as values.
use open_blocklist.Base.{
  ℕ, ◌+◌, ◌==◌, Bytes, false, List, [], ◌∷◌, ◌++◌, map, length, length-map, ltb, if◌then◌else◌, ◌≡◌,
  refl, sym, ap, ◌∙◌, arith, Bool-cases, inl, inr,
}
use mathlib.Core.List.{map-append}
use open_blocklist.Log.Pool.{
  Memory, store, allocate, get_from, put, copy_out, Flow, has_room, deliver, Machine,
}
use open_blocklist.Log.Pool.Counts.{count, count-append, map-away, self}

-- The lines as values: what goroutines and the worker do where each line is built for itself alone.
pub data LineStep : Flow Bytes → Flow Bytes → Type 0 where
  line_began : {f : Flow Bytes} → LineStep f (record f { building = [] ∷ f.building })
  line_appended :
      (piece t : Bytes) (before behind : List Bytes) {f : Flow Bytes}
      → f.building ≡ before ++ t ∷ behind
      → LineStep f (record f { building = before ++ (t ++ piece) ∷ behind })
  line_abandoned :
      (t : Bytes) (before behind : List Bytes) {f : Flow Bytes}
      → f.building ≡ before ++ t ∷ behind
      → LineStep f (record f { building = before ++ behind })
  line_copied :
      (t : Bytes) (before behind : List Bytes) {f : Flow Bytes}
      → f.building ≡ before ++ t ∷ behind
      → LineStep f (record f { building = before ++ behind; in_hand = t ∷ f.in_hand })
  line_delivered :
      (t : Bytes) (before behind : List Bytes) {f : Flow Bytes}
      → f.in_hand ≡ before ++ t ∷ behind
      → LineStep f (deliver t t (record f { in_hand = before ++ behind }))
  line_worked :
      (t : Bytes) (rest : List Bytes) {f : Flow Bytes}
      → f.queued ≡ t ∷ rest
      → LineStep f (record f { queued = rest; written = f.written ++ t ∷ [] })

pub data LineReaches (s : Flow Bytes) : Flow Bytes → Type 0 where
  line_here : LineReaches s s
  line_further : {t u : Flow Bytes} → LineReaches s t → LineStep t u → LineReaches s u

-- The lines that the pointers lead to.
abbrev pub lines_in : (ℕ → Bytes) → Flow ℕ → Flow Bytes
lines_in cell f = record {
  capacity = f.capacity;
  building = map cell f.building;
  in_hand = map cell f.in_hand;
  queued = map cell f.queued;
  written = f.written;
  dropped = f.dropped;
}

abbrev pub view : Machine → Flow Bytes
view s = lines_in s.memory.cell s.flow

abbrev pub in_flow : Flow ℕ → ℕ → ℕ
in_flow f p = count p f.building + count p f.in_hand + count p f.queued

-- A store to a pointer that is not on the way.
pub lines_in-away :
    (cell : ℕ → Bytes) (b : ℕ) (bytes : Bytes) (f : Flow ℕ)
    → in_flow f b ≡ 0
    → lines_in (λ p. if b == p then bytes else cell p) f ≡ lines_in cell f
lines_in-away cell b bytes f h =
    rw
      (
        map-away cell b bytes f.building (omega (arith, h)),
        map-away cell b bytes f.in_hand (omega (arith, h)),
        map-away cell b bytes f.queued (omega (arith, h)),
      )
      refl

-- The lines of a goroutine's buffer and of the others'.
pub lines-split :
    (cell : ℕ → Bytes) (b : ℕ) (before behind ps : List ℕ)
    → ps ≡ before ++ b ∷ behind
    → map cell ps ≡ map cell before ++ cell b ∷ map cell behind
lines-split cell b before behind ps e = ap (map cell) e ∙ map-append cell before (b ∷ behind)

pub lines_in-put :
    (b : ℕ) (m : Memory) (f : Flow ℕ)
    → in_flow f b ≡ 0
    → lines_in (put b m).cell f ≡ lines_in m.cell f
unfolding put store
lines_in-put b m f h = elim (Bool-cases (ltb (length m.pool) 256)) [
  | inl room ↦ rw (room, lines_in-away m.cell b [] f h) refl
  | inr full ↦ rw (full, lines_in-away m.cell b [] f h) refl
]

-- What a buffer out of the pool or a new one leaves of the memory.
pub get_from-cell :
    (pool : List ℕ) (m : Memory)
    → (get_from pool m).1.cell ≡ (λ p. if (get_from pool m).0 == p then [] else m.cell p)
unfolding get_from allocate store
get_from-cell [] m = refl
get_from-cell (b ∷ rest) m = refl

pub with_line-eq :
    (cell : ℕ → Bytes) (b : ℕ) (bytes : Bytes) (f : Flow ℕ)
    → in_flow f b ≡ 0
    → record (lines_in cell f) { building = bytes ∷ map cell f.building }
      ≡ lines_in (λ p. if b == p then bytes else cell p) (record f { building = b ∷ f.building })
with_line-eq cell b bytes f h =
    rw
      (
        map-away cell b bytes f.building (omega (arith, h)),
        map-away cell b bytes f.in_hand (omega (arith, h)),
        map-away cell b bytes f.queued (omega (arith, h)),
        self b,
      )
      refl

-- The bytes of the buffer that a goroutine appends to, and of the others.
pub appended-line :
    (cell : ℕ → Bytes) (b : ℕ) (bytes : Bytes) (before behind : List ℕ) (f : Flow ℕ)
    → f.building ≡ before ++ b ∷ behind
    → in_flow (record f { building = before ++ behind }) b ≡ 0
    → record (lines_in cell f) { building = map cell before ++ bytes ∷ map cell behind }
      ≡ lines_in (λ p. if b == p then bytes else cell p) f
appended-line cell b bytes before behind f e h =
    rw
      (
        lines-split (λ p. if b == p then bytes else cell p) b before behind f.building e,
        map-away cell b bytes before (omega (arith, count-append b before behind, h)),
        map-away cell b bytes behind (omega (arith, count-append b before behind, h)),
        map-away cell b bytes f.in_hand (omega (arith, h)),
        map-away cell b bytes f.queued (omega (arith, h)),
        self b,
      )
      refl

-- The message that send makes of a buffer's bytes, before the buffer is put back and after.
pub allocated-line :
    (m : Memory) (bytes : Bytes) (f : Flow ℕ)
    → in_flow f m.next ≡ 0
    → record (lines_in m.cell f) { in_hand = bytes ∷ map m.cell f.in_hand }
      ≡ lines_in (allocate bytes m).1.cell (record f { in_hand = m.next ∷ f.in_hand })
unfolding allocate store
allocated-line m bytes f new =
    rw
      (
        map-away m.cell m.next bytes f.building (omega (arith, new)),
        map-away m.cell m.next bytes f.in_hand (omega (arith, new)),
        map-away m.cell m.next bytes f.queued (omega (arith, new)),
        self m.next,
      )
      refl

pub copied-line :
    (m : Memory) (b : ℕ) (f : Flow ℕ)
    → in_flow f m.next ≡ 0
    → in_flow f b ≡ 0
    → (b == m.next) ≡ false
    → record (lines_in m.cell f) { in_hand = m.cell b ∷ map m.cell f.in_hand }
      ≡ lines_in (copy_out b m).1.cell (record f { in_hand = m.next ∷ f.in_hand })
unfolding copy_out
copied-line m b f new old other =
    allocated-line m (m.cell b) f new
    ∙ sym (
        lines_in-put b (allocate (m.cell b) m).1 (record f { in_hand = m.next ∷ f.in_hand })
          (rw other (omega (arith, old))))

pub lines_in-deliver :
    (msg : ℕ) (cell : ℕ → Bytes) (f : Flow ℕ)
    → deliver (cell msg) (cell msg) (lines_in cell f) ≡ lines_in cell (deliver msg (cell msg) f)
unfolding deliver
lines_in-deliver msg cell f =
    rw (length-map cell f.queued) elim (Bool-cases (has_room f.capacity (length f.queued))) [
      | inl room ↦ rw (room, map-append cell f.queued (msg ∷ [])) refl
      | inr full ↦ rw full refl
    ]
