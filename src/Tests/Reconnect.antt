-- ===== src/Tests/Reconnect.antt =====
-- The watches over connections that break after one change, and others that send all.
use open_blocklist.Base.{
  ℕ, zero, suc, ◌≤◌, ◌==◌, Bytes, codes, Option, none, some, List, [], ◌∷◌, All, str_eq, contains,
  if◌then◌else◌, ◌≢◌, ◌≡◌, refl, arith,
}
use open_blocklist.Base.Int.{pos}
use open_blocklist.Base.Dict.{lookup}
use open_blocklist.Key.{v4_in_v6}
use open_blocklist.State.{App, BlockEntry, CidrEntry, Go, WatchResponse}
use open_blocklist.CidrTable.Replay.{change_all, put_entry, remove_cidr}
use open_blocklist.CidrTable.Replay
use open_blocklist.Etcd.{WatchRequest}
use open_blocklist.Etcd.Replica.{
  Address, IsAddress, text_of, Change, put_at, delete_at, update_all, event_for,
}
use open_blocklist.Etcd.NetworkReplica
use open_blocklist.Etcd.Reconnect.{answered, Connection, watch_loop, cidr_watch_loop}
use open_blocklist.Etcd.Reconnect.History.{upto, changes}
use open_blocklist.Etcd.Reconnect.Watched.{Watch, IsStep, Serves, ServesAll}
use open_blocklist.Etcd.Reconnect.Entries.{entries, watch_loop-resumes, watch_loop-catches_up}
use open_blocklist.Etcd.Reconnect.Networks.{networks, cidr_watch_loop-resumes}
use open_blocklist.Tests.Toy.{toy, empty_app, unmarshal-marshal}
use open_blocklist.System.Lost.{created_line_loses}
use open_blocklist.Tests.Connections.{
  whole, by_start, connections, connections-Serves, whole-ServesAll,
}

abbrev blocked : BlockEntry
blocked = record {
  ip = codes "203.0.113.200";
  source = codes "openbl";
  scenario = [];
  action = codes "ban";
  create_revision = pos 0;
  mod_revision = pos 0;
  first_seen = pos 10;
  last_seen = pos 10;
  expiration = pos 500;
  return_code = 2130706434;
}

abbrev two : Address
two = record { a = 198; b = 51; c = 100; d = 7 }

abbrev history : List (ℕ × Change)
history = (6, put_at two blocked (pos 6) (pos 6)) ∷ (7, delete_at two) ∷ []

abbrev first : WatchResponse
first = record {
  revision = codes "123456";
  events = event_for toy (put_at two blocked (pos 6) (pos 6)) ∷ [];
}

abbrev second : WatchResponse
second = record { revision = codes "1234567"; events = event_for toy (delete_at two) ∷ [] }

-- The line that etcd sends first, with its own revision.
abbrev created : WatchResponse
created = record { revision = codes "1234567"; events = [] }

-- A parser that reads every text as an address, and lines that carry the number of a message.
abbrev message : Bytes → Option WatchResponse
message [] = none
message (n ∷ line) = some (if n == 6 then first else if n == 8 then created else second)

abbrev reader : Go
reader = record toy { parse_ip = λ s. some s; unmarshal_watch = message }

reader-reads : (x : Address) → IsAddress x → reader.parse_ip (text_of x) ≢ none
reader-reads x h = grind arith

abbrev addresses : Watch reader
addresses = entries reader (λ s. refl) (unmarshal-marshal) (reader-reads)

abbrev at_five : App
at_five = record empty_app { revision = pos 5 }

abbrev etcd : ℕ → WatchRequest → Connection
etcd =
    connections reader addresses (put_at two blocked (pos 6) (pos 6)) (delete_at two) refl refl refl
      refl refl refl

etcd-Serves : (i : ℕ) → Serves reader addresses history (etcd i)
etcd-Serves =
    connections-Serves reader addresses (put_at two blocked (pos 6) (pos 6)) (delete_at two) refl
      refl refl refl refl refl

etcd-ServesAll : ServesAll reader addresses history (etcd 1)
etcd-ServesAll =
    whole-ServesAll reader addresses (put_at two blocked (pos 6) (pos 6)) (delete_at two) refl refl
      refl refl refl refl

history-IsStep : All (IsStep reader addresses) history
history-IsStep = (
  (((omega arith, omega arith, omega arith, omega arith), omega arith), omega arith),
  (((omega arith, omega arith, omega arith, omega arith), omega arith), tt),
)

watch_loop-resumes_example :
    (s : ℕ) × (5 ≤ s)
    × ((watch_loop reader etcd 2 at_five).revision ≡ pos s)
    × ((k : Bytes)
        → lookup k (watch_loop reader etcd 2 at_five).ip_table
          ≡ update_all (upto s history) (λ _. none) k)
watch_loop-resumes_example =
    watch_loop-resumes reader (λ s. refl) (unmarshal-marshal) (reader-reads) history etcd 2 5 0
      (λ _. none) at_five (etcd-Serves) (omega arith, (omega arith, tt)) (history-IsStep)
      (omega arith) (omega arith) refl (λ k. unfold lookup in refl)

watch_loop-catches_up_example :
    lookup (codes "198.51.100.7") (watch_loop reader etcd (suc 1) at_five).ip_table
    ≡ update_all (changes history) (λ _. none) (codes "198.51.100.7")
watch_loop-catches_up_example =
    watch_loop-catches_up reader (λ s. refl) (unmarshal-marshal) (reader-reads) history etcd 1 5 0
      (λ _. none) at_five (etcd-Serves) (etcd-ServesAll) (omega arith, (omega arith, tt))
      (history-IsStep) (omega arith) (omega arith) refl (λ k. unfold lookup in refl)
      (codes "198.51.100.7")

-- A first connection that breaks behind the line that says that the watch is created.
abbrev early_break : ℕ → WatchRequest → Connection
early_break zero req = answered ((8 ∷ []) ∷ [])
early_break (suc i) req = by_start whole req

created_line_loses_example :
    lookup (text_of two) (watch_loop reader early_break 2 at_five).ip_table
    ≡ lookup (text_of two) at_five.ip_table
created_line_loses_example =
    created_line_loses reader (λ s. refl) (unmarshal-marshal) (reader-reads) two history early_break
      (8 ∷ []) (codes "1234567") 5 7 0 at_five refl refl (grind arith) refl (omega arith)
      (omega arith) refl (etcd-ServesAll) (omega arith, (omega arith, tt)) (history-IsStep) tt

abbrev network : CidrEntry
network = record {
  cidr = codes "10.0.0.0/8";
  net = record { ip = codes "10.0.0.0/8"; mask = v4_in_v6 };
  source = codes "openbl";
  scenario = [];
  action = codes "ban";
  return_code = 2130706434;
  first_seen = pos 10;
  last_seen = pos 10;
  expiration = pos 500;
}

abbrev network_history : List (ℕ × Replay.Change)
network_history = (6, put_entry network) ∷ (7, remove_cidr (codes "10.0.0.0/8")) ∷ []

abbrev network_message : Bytes → Option WatchResponse
network_message [] = none
network_message (n ∷ line) = some (
    if n == 6
    then record {
      revision = codes "123456";
      events = NetworkReplica.event_for toy (put_entry network) ∷ [];
    }
    else if n == 8
    then created
    else record {
      revision = codes "1234567";
      events = NetworkReplica.event_for toy (remove_cidr (codes "10.0.0.0/8")) ∷ [];
    })

abbrev network_reader : Go
network_reader = record toy { unmarshal_watch = network_message }

abbrev ranges : Watch network_reader
ranges = networks network_reader (λ s. refl) (unmarshal-marshal)

abbrev network_etcd : ℕ → WatchRequest → Connection
network_etcd =
    connections network_reader ranges (put_entry network) (remove_cidr (codes "10.0.0.0/8")) refl
      refl refl refl refl refl

cidr_watch_loop-resumes_example :
    ((s : ℕ) × (5 ≤ s)
      × ((cidr_watch_loop network_reader network_etcd 1 at_five).revision ≡ pos s)
      × ((cidr_watch_loop network_reader network_etcd 1 at_five).cidr_table
          ≡ change_all (upto s network_history) []))
    × ((cidr_watch_loop network_reader network_etcd (suc 1) at_five).cidr_table
        ≡ change_all (changes network_history) [])
cidr_watch_loop-resumes_example =
    cidr_watch_loop-resumes network_reader (λ s. refl) (unmarshal-marshal) network_history
      network_etcd 1 5 0 [] at_five
      (connections-Serves network_reader ranges (put_entry network)
        (remove_cidr (codes "10.0.0.0/8")) refl refl refl refl refl refl)
      (whole-ServesAll network_reader ranges (put_entry network) (remove_cidr (codes "10.0.0.0/8"))
        refl refl refl refl refl refl)
      (omega arith, (omega arith, tt))
      (
        (((omega arith, unfold str_eq in refl), unfold contains in refl, omega arith), omega arith),
        (((omega arith, unfold str_eq in refl), omega arith), tt),
      )
      (omega arith) (omega arith) refl (unfold change_all in refl)
