-- ===== src/Log/Pool/Private.antt =====
-- log.go: goroutines and the worker share buffers through the pool as if each line were a value.
use open_blocklist.Base.{ℕ, ◌+◌, ◌≤◌, Option, length}
use open_blocklist.Log.Pool.{new_memory, idle, Machine, Reaches, here, further}
use open_blocklist.Log.Pool.Counts.{count}
use open_blocklist.Log.Pool.Owned.{IsOwned, new_memory-IsOwned}
use open_blocklist.Log.Pool.Lines.{LineReaches, line_here, line_further, view, in_flow}
use open_blocklist.Log.Pool.Simulates.{Step-Simulates}

abbrev pub started : Option ℕ → Machine
started capacity = record { memory = new_memory; flow = idle capacity }

reached :
    (capacity : Option ℕ) {s : Machine}
    → Reaches (started capacity) s
    → IsOwned s.memory (in_flow s.flow) × LineReaches (idle capacity) (view s)
reached capacity here = (new_memory-IsOwned, line_here)
reached capacity (further r step) =
    let (o, lines) = reached capacity r in
    let (o', line_step) = Step-Simulates step o in (o', line_further lines line_step)

-- Whatever the capacity of the channel, and without one: in every state that is reached, in whatever
-- order, by goroutines that take buffers from the pool of newBufPool, append to them, give them back
-- or send them and by the worker that puts its messages into the pool, the lines that are built, on
-- their way and written are reached, from none, where each line is a value of its own that only its
-- goroutine appends to; the pool holds 256 buffers at most; and no buffer is held twice, by the pool,
-- by goroutines or as a message.
pub pool-refines :
    (capacity : Option ℕ) (s : Machine)
    → Reaches (started capacity) s
    → LineReaches (idle capacity) (view s)
      × (length s.memory.pool ≤ 256)
      × ((b : ℕ) → count b s.memory.pool + in_flow s.flow b ≤ 1)
pool-refines capacity s r = let (o, lines) = reached capacity r in (lines, o.small, o.once)
