-- ===== src/Log/Queue/Direct.antt =====
-- log.go: the log as the program runs it, which never calls LogInit.
use open_blocklist.Base.{
  ℕ, ◌+◌, Bytes, none, some, List, [], ◌∷◌, ◌++◌, append_assoc, append-nil, length, ◌≡◌, refl, sym,
  ap, ◌∙◌, arith,
}
use open_blocklist.Log.Queue.{
  Log, new_log, write_now, send_to, send, work_on, work, flush_channel, log_flush, Event, sent,
  worked, happen, run, lines_of,
}

-- The log without a channel.
abbrev direct : List Bytes → ℕ → Log
direct written dropped = record { channel = none; written = written; dropped = dropped }

run-direct :
    (es : List Event) (written : List Bytes) (dropped : ℕ)
    → run es (direct written dropped)
      ≡ some (direct (written ++ lines_of es) (dropped + length (lines_of es)))
unfolding run happen send send_to write_now work work_on
run-direct [] w d =
    ap some (ap (λ l. direct l d) (sym (append-nil w)) ∙ ap (direct (w ++ [])) (omega arith))
run-direct (sent msg ∷ es) w d =
    run-direct es (w ++ msg ∷ []) (d + 1)
    ∙ ap some (
        ap (λ l. direct l (d + 1 + length (lines_of es))) (append_assoc w (msg ∷ []) (lines_of es))
        ∙ ap (direct (w ++ msg ∷ lines_of es)) (omega arith))
run-direct (worked ∷ es) w d = run-direct es w d

-- Without LogInit every line is written at once, in the order in which the lines are sent, and each
-- is counted as dropped; LogFlush changes nothing.
pub direct-in_order :
    (es : List Event)
    → (log : Log) × (run es new_log ≡ some log)
      × (log_flush log ≡ some log)
      × (log.written ≡ lines_of es)
      × (log.dropped ≡ length (lines_of es))
unfolding log_flush flush_channel
direct-in_order es = (
  direct (lines_of es) (length (lines_of es)),
  run-direct es [] 0 ∙ ap some (ap (direct (lines_of es)) (omega arith)),
  refl,
  refl,
  refl,
)
