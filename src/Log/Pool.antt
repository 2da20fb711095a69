-- ===== src/Log/Pool.antt =====
-- log.go: the buffers that lines are built in, the pool that keeps them, and the messages that send
-- copies out of them, with the memory that all goroutines share. A buffer is known by its pointer. One
-- that grows gets an array of its own, so that its bytes go with the pointer.
pub mod Counts
pub mod Owned
pub mod Lines
pub mod Simulates
pub mod Private
use open_blocklist.Base.{
  ℕ, zero, suc, ◌+◌, ◌==◌, ltb, Bytes, Option, none, some, Bool, false, List, [], ◌∷◌, ◌++◌, length,
  if◌then◌else◌, ◌≡◌,
}

-- The pointers below `next` are allocated; the bytes of the slice that a pointer leads to; p.ch.
pub record Memory : Type 0 where
  pub next : ℕ
  pub cell : ℕ → Bytes
  pub pool : List ℕ

unfoldable pub store : ℕ → Bytes → Memory → Memory
store b bytes m = record m { cell = λ p. if b == p then bytes else m.cell p }

-- make, with the address of the new slice.
unfoldable pub allocate : Bytes → Memory → ℕ × Memory
unfolding store
allocate bytes m = (m.next, store m.next bytes (record m { next = suc m.next }))

-- The select of pool.get, on what p.ch holds.
unfoldable pub get_from : List ℕ → Memory → ℕ × Memory
unfolding store allocate
get_from [] m = allocate [] m
get_from (b ∷ rest) m = (b, store b [] (record m { pool = rest }))

-- pool.get
unfoldable pub get : Memory → ℕ × Memory
unfolding get_from
get m = get_from m.pool m

-- pool.put; a full pool forgets the buffer.
unfoldable pub put : ℕ → Memory → Memory
unfolding store
put b m =
    let emptied = store b [] m in
    if ltb (length m.pool) 256 then record emptied { pool = m.pool ++ b ∷ [] } else emptied

-- append, with the assignment to *bp.
unfoldable pub append_to : ℕ → Bytes → Memory → Memory
unfolding store
append_to b piece m = store b (m.cell b ++ piece) m

-- The first lines of send: the message and the buffer's return to the pool.
unfoldable pub copy_out : ℕ → Memory → ℕ × Memory
unfolding allocate put
copy_out b m = let (msg, m') = allocate (m.cell b) m in (msg, put b m')

-- newBufPool: 64 buffers.
unfoldable pub fill : ℕ → Memory → Memory
unfolding allocate
fill zero m = m
fill (suc n) m = let (b, m') = allocate [] m in fill n (record m' { pool = m.pool ++ b ∷ [] })

unfoldable pub new_memory : Memory
unfolding fill
new_memory = fill 64 (record { next = 0; cell = λ _. []; pool = [] })

-- The lines on their way, each as an `A`: those that goroutines build, those that send has copied,
-- those in logCh, and what was written. The capacity is `none` while logCh is nil.
pub record Flow (A : Type 0) : Type 0 where
  pub capacity : Option ℕ
  pub building : List A
  pub in_hand : List A
  pub queued : List A
  pub written : List Bytes
  pub dropped : ℕ

abbrev pub has_room : Option ℕ → ℕ → Bool
has_room none n = false
has_room (some capacity) n = ltb n capacity

-- The select of send, for a message with these bytes.
unfoldable pub deliver : {A : Type 0} → A → Bytes → Flow A → Flow A
deliver msg bytes f =
    if has_room f.capacity (length f.queued)
    then record f { queued = f.queued ++ msg ∷ [] }
    else record f { written = f.written ++ bytes ∷ []; dropped = f.dropped + 1 }

abbrev pub idle : {A : Type 0} → Option ℕ → Flow A
idle capacity = record {
  capacity = capacity;
  building = [];
  in_hand = [];
  queued = [];
  written = [];
  dropped = 0;
}

pub record Machine : Type 0 where
  pub memory : Memory
  pub flow : Flow ℕ

-- What goroutines and the worker do, one at a time. A goroutine takes a buffer, appends to it, and
-- gives it back or sends it; the worker's Write and its put of the message are one step.
pub data Step : Machine → Machine → Type 0 where
  began :
      {m : Memory} {f : Flow ℕ}
      → Step
          (record { memory = m; flow = f })
          (record { memory = (get m).1; flow = record f { building = (get m).0 ∷ f.building } })
  appended :
      (piece : Bytes) (b : ℕ) (before behind : List ℕ) {m : Memory} {f : Flow ℕ}
      → f.building ≡ before ++ b ∷ behind
      → Step (record { memory = m; flow = f }) (record { memory = append_to b piece m; flow = f })
  abandoned :
      (b : ℕ) (before behind : List ℕ) {m : Memory} {f : Flow ℕ}
      → f.building ≡ before ++ b ∷ behind
      → Step
          (record { memory = m; flow = f })
          (record { memory = put b m; flow = record f { building = before ++ behind } })
  copied :
      (b : ℕ) (before behind : List ℕ) {m : Memory} {f : Flow ℕ}
      → f.building ≡ before ++ b ∷ behind
      → Step
          (record { memory = m; flow = f })
          (record {
            memory = (copy_out b m).1;
            flow = record f { building = before ++ behind; in_hand = (copy_out b m).0 ∷ f.in_hand };
          })
  delivered :
      (msg : ℕ) (before behind : List ℕ) {m : Memory} {f : Flow ℕ}
      → f.in_hand ≡ before ++ msg ∷ behind
      → Step
          (record { memory = m; flow = f })
          (record {
            memory = m;
            flow = deliver msg (m.cell msg) (record f { in_hand = before ++ behind });
          })
  worked :
      (msg : ℕ) (rest : List ℕ) {m : Memory} {f : Flow ℕ}
      → f.queued ≡ msg ∷ rest
      → Step
          (record { memory = m; flow = f })
          (record {
            memory = put msg m;
            flow = record f { queued = rest; written = f.written ++ m.cell msg ∷ [] };
          })

pub data Reaches (s : Machine) : Machine → Type 0 where
  here : Reaches s s
  further : {t u : Machine} → Reaches s t → Step t u → Reaches s u
