-- ===== src/Log/Queue.antt =====
-- log.go: the channel of lines, the worker that writes them, and the flush at the end.
pub mod Flush
pub mod Direct
use open_blocklist.Base.{
  ℕ, ◌+◌, ltb, Bytes, Option, none, some, Bool, true, false, List, [], ◌∷◌, ◌++◌, length, ◌>>=◌,
  if◌then◌else◌,
}
use open_blocklist.Base.Int.{ℤ, pos, leb_ℤ, pos_part}

-- logCh: its capacity, the lines in it, the next one first, and whether it is closed.
pub record Channel : Type 0 where
  pub capacity : ℕ
  pub queued : List Bytes
  pub closed : Bool

-- logCh, nil before LogInit; the lines that were written, the last one last; stats.LogDropped.
pub record Log : Type 0 where
  pub channel : Option Channel
  pub written : List Bytes
  pub dropped : ℕ

abbrev pub new_log : Log
new_log = record { channel = none; written = []; dropped = 0 }

-- The channel's capacity for the size that LogInit is given.
unfoldable pub capacity_of : ℤ → ℕ
capacity_of size = if leb_ℤ size (pos 0) then 50000 else pos_part size

-- LogInit
unfoldable pub log_init : ℤ → Log → Log
unfolding capacity_of
log_init size log = record log {
  channel = some (record { capacity = capacity_of size; queued = []; closed = false });
}

-- The fallback of send.
unfoldable pub write_now : Bytes → Log → Log
write_now msg log = record log { written = log.written ++ msg ∷ []; dropped = log.dropped + 1 }

-- The select of send: a nil channel is never ready, a closed one panics.
unfoldable pub send_to : Option Channel → Bytes → Log → Option Log
unfolding write_now
send_to none msg log = some (write_now msg log)
send_to (some ch) msg log =
    if ch.closed
    then none
    else if ltb (length ch.queued) ch.capacity
    then some (record log { channel = some (record ch { queued = ch.queued ++ msg ∷ [] }) })
    else some (write_now msg log)

unfoldable pub send : Bytes → Log → Option Log
unfolding send_to
send msg log = send_to log.channel msg log

-- One round of asyncLogWorker, which waits where there is no line.
unfoldable pub work_on : Option Channel → List Bytes → Log → Log
work_on none queued log = log
work_on (some ch) [] log = log
work_on (some ch) (msg ∷ rest) log = record log {
  channel = some (record ch { queued = rest });
  written = log.written ++ msg ∷ [];
}

abbrev pub queued_in : Option Channel → List Bytes
queued_in none = []
queued_in (some ch) = ch.queued

unfoldable pub work : Log → Log
unfolding work_on
work log = work_on log.channel (queued_in log.channel) log

-- The worker from the close of the channel to its end: a round for each line that is queued.
unfoldable pub drain : List Bytes → Log → Log
drain [] log = log
drain (_ ∷ rest) log = drain rest (work log)

-- LogFlush; closing a closed channel panics.
unfoldable pub flush_channel : Option Channel → Log → Option Log
unfolding drain
flush_channel none log = some log
flush_channel (some ch) log =
    if ch.closed
    then none
    else some (drain ch.queued (record log { channel = some (record ch { closed = true }) }))

unfoldable pub log_flush : Log → Option Log
unfolding flush_channel
log_flush log = flush_channel log.channel log

-- What happens to the log over time, in any order: a goroutine sends a line, the worker does a round.
pub data Event : Type 0 where
  sent : Bytes → Event
  worked : Event

unfoldable pub happen : Event → Log → Option Log
unfolding send work
happen (sent msg) log = send msg log
happen worked log = some (work log)

unfoldable pub run : List Event → Log → Option Log
unfolding happen
run [] log = some log
run (e ∷ es) log = do log' ← happen e log; run es log'

-- The lines that are sent.
abbrev pub lines_of : List Event → List Bytes
lines_of [] = []
lines_of (sent msg ∷ es) = msg ∷ lines_of es
lines_of (worked ∷ es) = lines_of es
