-- ===== src/Tests/Output.antt =====
-- The log, the metrics, the units, the wait for etcd and the table of networks.
use open_blocklist.Base.{
  ℕ, zero, suc, ◌+◌, ◌*◌, ◌<◌, Bytes, codes, some, Bool, true, false, List, [], ◌∷◌, ◌++◌, ◌⊎◌,
  length, take, drop, Lacks, ◌≡◌, refl, arith,
}
use mathlib.Core.List.{Perm}
use open_blocklist.Base.Int.{ℤ, pos, negsuc}
use open_blocklist.State.{CidrEntry, Go}
use open_blocklist.CidrTable.Replay.{Change, put_entry, remove_cidr}
use open_blocklist.Log.{
  LogLevel, LogConfig, DurationText, append_quoted, log_line, log_http_req, log_dns_req,
}
use open_blocklist.Log.Quoted.{read_quoted, read-append_quoted}
use open_blocklist.Log.Lines.{IsLine, IsSent, json_records-IsLine}
use open_blocklist.Log.Queue.{Log, new_log, log_init, log_flush, Event, sent, worked, run, lines_of}
use open_blocklist.Log.Queue.Direct.{direct-in_order}
use open_blocklist.Log.Queue.Flush.{log_flush-writes_all}
use open_blocklist.Metrics.{Build, SampleValue, float64}
use open_blocklist.Units.{Size, format_bytes}
use open_blocklist.Units.Bounds.{FitsUnit, format_bytes-FitsUnit}
use open_blocklist.Tests.Toy.{toy}

read-append_quoted_example :
    (take (length (codes "msg=")) (append_quoted (codes "msg=") (34 ∷ 10 ∷ 200 ∷ []))
      ≡ (codes "msg="))
    × (read_quoted (
          drop
            (length (codes "msg="))
            (append_quoted (codes "msg=") (34 ∷ 10 ∷ 200 ∷ []) ++ (codes "}")))
        ≡ some ((34 ∷ 10 ∷ 200 ∷ []), (codes "}")))
read-append_quoted_example = read-append_quoted (codes "msg=") (34 ∷ 10 ∷ 200 ∷ []) (codes "}")

abbrev json_log : LogConfig
json_log = record { json = true; level = 2 }

abbrev took : DurationText
took = record { value = codes "1ms"; seconds = codes "0.001000" }

json_records-IsLine_example :
    ((level : LogLevel) (msg : Bytes)
      → IsLine (log_line json_log (codes "2026-01-02T03:04:05Z") level msg))
    × ((request method uri status : Bytes)
        → IsSent
            (log_http_req json_log (codes "2026-01-02T03:04:05Z") took request method uri status)
            IsLine)
    × ((name qtype status : Bytes)
        → IsSent
            (log_dns_req json_log (codes "2026-01-02T03:04:05Z") took name qtype status)
            IsLine)
json_records-IsLine_example =
    json_records-IsLine json_log (codes "2026-01-02T03:04:05Z") took refl (omega arith)
      (omega arith)

-- Two lines for a channel that holds one.
abbrev events : List Event
events = sent (codes "a") ∷ sent (codes "b") ∷ worked ∷ sent (codes "c") ∷ []

log_flush-writes_all_example :
    (log log' : Log) × (run events (log_init (pos 1) new_log) ≡ some log)
    × (log_flush log ≡ some log')
    × Perm (lines_of events) log'.written
    × ((log'.written ≡ lines_of events) ⊎ (0 < log'.dropped))
log_flush-writes_all_example = log_flush-writes_all (pos 1) events

direct-in_order_example :
    (log : Log) × (run events new_log ≡ some log)
    × (log_flush log ≡ some log)
    × (log.written ≡ lines_of events)
    × (log.dropped ≡ length (lines_of events))
direct-in_order_example = direct-in_order events

abbrev tally : ℕ → Bytes
tally zero = []
tally (suc n) = b'1' ∷ tally n

tally-Lacks : (n : ℕ) → Lacks 10 (tally n)
tally-Lacks zero = tt
tally-Lacks (suc n) = (omega arith, tally-Lacks n)

abbrev tally_int : ℤ → Bytes
tally_int (pos n) = tally n
tally_int (negsuc n) = b'-' ∷ tally (suc n)

tally_int-Lacks : (z : ℤ) → Lacks 10 (tally_int z)
tally_int-Lacks (pos n) = tally-Lacks n
tally_int-Lacks (negsuc n) = (omega arith, tally-Lacks (suc n))

-- Numbers as strokes.
abbrev strokes : Go
strokes = record toy { format_int = tally_int }

abbrev build : Build
build = record { platform = codes "linux"; go_version = codes "go1.26.1" }

abbrev samples : Bytes → SampleValue
samples n = float64 (codes "0.5")

format_bytes-FitsUnit_example : (s : Size) × (format_bytes (pos 1536) ≡ some s) × FitsUnit 1536 s
format_bytes-FitsUnit_example = format_bytes-FitsUnit 1536 (omega arith)

-- etcd answers in the third round, five seconds each.
abbrev answers : ℕ → Bool
answers n = elim n [ zero ↦ false | suc m ↦ elim m [ zero ↦ false | suc _ ↦ true ] ]

abbrev clock : ℕ → ℕ
clock n = 100 + n * 5000000000

abbrev network : CidrEntry
network = record {
  cidr = codes "10.0.0.0/8";
  net = record { ip = []; mask = [] };
  source = codes "openbl";
  scenario = [];
  action = codes "ban";
  return_code = 2130706434;
  first_seen = pos 1;
  last_seen = pos 1;
  expiration = pos 0;
}

abbrev changes : List Change
changes =
    put_entry network
    ∷ put_entry (record network { cidr = codes "10.1.0.0/16" })
    ∷ remove_cidr (codes "10.0.0.0/8")
    ∷ []
