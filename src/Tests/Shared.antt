-- ===== src/Tests/Shared.antt =====
-- Buffers that goroutines share, and a start.
use open_blocklist.Base.{
  ℕ, ◌+◌, ◌*◌, ◌≤◌, ◌==◌, ◌/◌, codes, none, some, true, false, [], ◌∷◌, str_eq, length, ◌≡◌, refl,
  arith,
}
use open_blocklist.Environment.{Env, Texts, read_config}
use open_blocklist.Start.{retry_interval}
use open_blocklist.Start.Launch.{Flags, Launched, World, main, max_wait}
use open_blocklist.Start.Launch.Exact.{IsRight, main_exact}
use open_blocklist.Log.Pool.{
  Machine, get, append_to, copy_out, Reaches, here, further, began, appended, copied, idle,
}
use open_blocklist.Log.Pool.Counts.{count}
use open_blocklist.Log.Pool.Lines.{LineReaches, view, in_flow}
use open_blocklist.Log.Pool.Private.{started, pool-refines}
use open_blocklist.Tests.Toy.{toy}

-- An environment that names the key of CrowdSec and an empty address.
abbrev env : Env
env =
    (codes "OPENBL_DNS_LISTEN_ADDR", [])
    ∷ (codes "OPENBL_CROWDSEC_ENABLED", codes "1")
    ∷ (codes "OPENBL_CROWDSEC_API_KEY", codes "k3y")
    ∷ []

abbrev texts : Texts
texts = record {
  trim_space = λ s. s;
  to_lower = λ s. s;
  parse_bool = λ s. some (str_eq s (codes "1"));
}

abbrev flags : Flags
flags = record { version = false; go_version = false }

abbrev world : World
world = record {
  opens = λ s. true;
  tests_pass = true;
  binds = λ s. true;
  probe = λ n. n == 1;
  clock = λ n. 100 + n * 2000000001;
  start_time = 100;
  addresses = some [];
  networks = none;
}

main_exact_example :
    (s : Launched) × (main toy texts env flags world (max_wait / retry_interval + 2) ≡ some s)
    × IsRight toy (read_config toy texts env) flags world s
main_exact_example = main_exact toy texts env flags world (omega arith) (λ i. omega arith)

-- A goroutine begins a line, writes into it, and sends it.
abbrev at_start : Machine
at_start = started none

abbrev with_buffer : Machine
with_buffer = record {
  memory = (get at_start.memory).1;
  flow = record at_start.flow { building = (get at_start.memory).0 ∷ [] };
}

abbrev with_text : Machine
with_text = record with_buffer {
  memory = append_to (get at_start.memory).0 (codes "up") with_buffer.memory;
}

abbrev with_message : Machine
with_message = record {
  memory = (copy_out (get at_start.memory).0 with_text.memory).1;
  flow = record with_text.flow {
    building = [];
    in_hand = (copy_out (get at_start.memory).0 with_text.memory).0 ∷ [];
  };
}

sent : Reaches at_start with_message
sent =
    further
      (further (further here began) (appended (codes "up") (get at_start.memory).0 [] [] refl))
      (copied (get at_start.memory).0 [] [] refl)

pool-refines_example :
    LineReaches (idle none) (view with_message)
    × (length with_message.memory.pool ≤ 256)
    × ((b : ℕ) → count b with_message.memory.pool + in_flow with_message.flow b ≤ 1)
pool-refines_example = pool-refines none with_message sent
