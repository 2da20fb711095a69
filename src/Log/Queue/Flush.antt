-- ===== src/Log/Queue/Flush.antt =====
-- log.go: which lines are written after a flush.
use open_blocklist.Base.{
  ℕ, ◌+◌, ◌≤◌, ◌<◌, ◌==◌, ==_iff, ◌⊎◌, ltb, Bytes, Option, some, true, false, List, [], ◌∷◌, ◌++◌,
  append_assoc, append-nil, length, ◌≡◌, refl, sym, ap, subst, ◌∙◌, arith, Bool-cases, inl, inr,
}
use mathlib.Core.List.{Perm, perm_middle}
use mathlib.Core.List.Perm
use open_blocklist.Base.Int.{ℤ}
use open_blocklist.Log.Queue.{
  Log, new_log, capacity_of, log_init, write_now, send_to, send, work_on, work, drain,
  flush_channel, log_flush, Event, sent, worked, happen, run, lines_of,
}

-- The log while its channel is open, and once it is closed.
abbrev opened : ℕ → List Bytes → List Bytes → ℕ → Log
opened capacity queued written dropped = record {
  channel = some (record { capacity = capacity; queued = queued; closed = false });
  written = written;
  dropped = dropped;
}

abbrev ended : ℕ → List Bytes → List Bytes → ℕ → Log
ended capacity queued written dropped = record {
  channel = some (record { capacity = capacity; queued = queued; closed = true });
  written = written;
  dropped = dropped;
}

-- The lines that were there and that the events send: they are written or queued, and in their
-- order if none was dropped since `before` were.
record Kept (capacity before : ℕ) (lines : List Bytes) (log : Option Log) : Type 0 where
  queued : List Bytes
  written : List Bytes
  dropped : ℕ
  is_open : log ≡ some (opened capacity queued written dropped)
  grows : before ≤ dropped
  all : Perm lines (written ++ queued)
  ordered : dropped ≡ before → lines ≡ written ++ queued

dropped-Perm :
    (w q : List Bytes) (msg : Bytes) (rest : List Bytes)
    → Perm (w ++ q ++ msg ∷ rest) ((w ++ msg ∷ []) ++ q ++ rest)
dropped-Perm w q msg rest =
    rw
      (
        append_assoc w q (msg ∷ rest),
        append_assoc (w ++ msg ∷ []) q rest,
        append_assoc w (msg ∷ []) (q ++ rest),
      )
      (Perm.append_left w (perm_middle q rest))

-- A line that was dropped is written at once.
Kept-dropped :
    (capacity before : ℕ) (w q : List Bytes) (msg : Bytes) (rest : List Bytes) (log : Option Log)
    → Kept capacity (before + 1) ((w ++ msg ∷ []) ++ q ++ rest) log
    → Kept capacity before (w ++ q ++ msg ∷ rest) log
Kept-dropped size d w q msg rest log k = record {
  queued = k.queued;
  written = k.written;
  dropped = k.dropped;
  is_open = k.is_open;
  grows = omega (arith, k.grows);
  all = Perm.trans (dropped-Perm w q msg rest) k.all;
  ordered = λ z. absurd (omega (arith, z, k.grows));
}

run-Kept :
    (capacity : ℕ) (es : List Event) (queued written : List Bytes) (dropped : ℕ)
    → Kept capacity dropped
        (written ++ queued ++ lines_of es)
        (run es (opened capacity queued written dropped))
unfolding run happen send send_to write_now work work_on
run-Kept size [] q w d = rw (append-nil (w ++ q)) record {
  queued = q;
  written = w;
  dropped = d;
  is_open = refl;
  grows = omega arith;
  all = Perm.refl (w ++ q);
  ordered = λ _. refl;
}
run-Kept size (sent msg ∷ es) q w d = elim (Bool-cases (ltb (length q) size)) [
  | inl room ↦ rw room (
      subst (λ ls. Kept size d ls (run es (opened size (q ++ msg ∷ []) w d)))
        (ap (λ ls. ls ++ lines_of es) (sym (append_assoc w q (msg ∷ [])))
          ∙ append_assoc (w ++ q) (msg ∷ []) (lines_of es))
        (run-Kept size es (q ++ msg ∷ []) w d))
  | inr full ↦ rw full (
      Kept-dropped size d w q msg (lines_of es) (run es (opened size q (w ++ msg ∷ []) (d + 1)))
        (run-Kept size es q (w ++ msg ∷ []) (d + 1)))
]
run-Kept size (worked ∷ es) [] w d = run-Kept size es [] w d
run-Kept size (worked ∷ es) (x ∷ q) w d =
    subst (λ ls. Kept size d (ls ++ lines_of es) (run es (opened size q (w ++ x ∷ []) d)))
      (append_assoc w (x ∷ []) q) (run-Kept size es q (w ++ x ∷ []) d)

drain-all :
    (capacity : ℕ) (q w : List Bytes) (d : ℕ)
    → drain q (ended capacity q w d) ≡ ended capacity [] (w ++ q) d
unfolding drain work work_on
drain-all size [] w d = ap (λ t. ended size [] t d) (sym (append-nil w))
drain-all size (x ∷ q) w d =
    drain-all size q (w ++ x ∷ []) d ∙ ap (λ t. ended size [] t d) (append_assoc w (x ∷ []) q)

-- In order, or some were dropped.
Kept-order :
    (capacity : ℕ) (lines : List Bytes) (log : Option Log) (k : Kept capacity 0 lines log)
    → (k.written ++ k.queued ≡ lines) ⊎ (0 < k.dropped)
Kept-order capacity lines log k = elim (Bool-cases (k.dropped == 0)) [
  | inl none_dropped ↦ inl (sym (k.ordered ((==_iff k.dropped 0).0 none_dropped)))
  | inr some_dropped ↦ inr (ground (arith, some_dropped))
]

-- Whatever the capacity that is asked for, and in whatever order goroutines send lines and the
-- worker does its rounds after LogInit: none of these panics, LogFlush ends, and then every line
-- that was sent has been written, as often as it was sent; and either the lines have been written in
-- the order in which they were sent, or some found the channel full and were counted as dropped.
pub log_flush-writes_all :
    (size : ℤ) (es : List Event)
    → (log log' : Log) × (run es (log_init size new_log) ≡ some log)
      × (log_flush log ≡ some log')
      × Perm (lines_of es) log'.written
      × ((log'.written ≡ lines_of es) ⊎ (0 < log'.dropped))
unfolding log_init log_flush flush_channel
log_flush-writes_all size es =
    let k = run-Kept (capacity_of size) es [] [] 0 in
    (
      opened (capacity_of size) k.queued k.written k.dropped,
      ended (capacity_of size) [] (k.written ++ k.queued) k.dropped,
      k.is_open,
      ap some (drain-all (capacity_of size) k.queued k.written k.dropped),
      k.all,
      Kept-order (capacity_of size) (lines_of es) _ k,
    )
