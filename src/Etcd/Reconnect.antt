-- ===== src/Etcd/Reconnect.antt =====
-- etcd.go: the loops of the two watches over their connections. Each asks etcd from the revision that
-- the process knows, and what etcd answers to a request in a round is an argument.
pub mod History
pub mod Watched
pub mod Advance
pub mod Resume
pub mod Entries
pub mod Networks
use open_blocklist.Base.{ℕ, zero, suc, Bytes, List, []}
use open_blocklist.Key.{rbl_prefix, cidr_prefix}
use open_blocklist.State.{App, Go}
use open_blocklist.Etcd.{WatchRequest, watch_request, watch_lines, cidr_watch_lines}

-- A request that could not be sent, or the lines that came before the connection was closed.
pub data Connection : Type 0 where
  refused : Connection
  answered : List Bytes → Connection

abbrev pub lines_of : Connection → List Bytes
lines_of refused = []
lines_of (answered lines) = lines

-- A round of watchLoop.
unfoldable pub watch_round : Go → (WatchRequest → Connection) → App → App
unfolding watch_request watch_lines
watch_round go etcd app =
    watch_lines go (lines_of (etcd (watch_request go rbl_prefix app.revision))) app

-- The first rounds of watchLoop.
unfoldable pub watch_loop : Go → (ℕ → WatchRequest → Connection) → ℕ → App → App
unfolding watch_round
watch_loop go etcd zero app = app
watch_loop go etcd (suc n) app = watch_loop go (λ i. etcd (suc i)) n (watch_round go (etcd 0) app)

-- A round of cidrWatchLoop, and its first rounds.
unfoldable pub cidr_watch_round : Go → (WatchRequest → Connection) → App → App
unfolding watch_request cidr_watch_lines
cidr_watch_round go etcd app =
    cidr_watch_lines go (lines_of (etcd (watch_request go cidr_prefix app.revision))) app

unfoldable pub cidr_watch_loop : Go → (ℕ → WatchRequest → Connection) → ℕ → App → App
unfolding cidr_watch_round
cidr_watch_loop go etcd zero app = app
cidr_watch_loop go etcd (suc n) app =
    cidr_watch_loop go (λ i. etcd (suc i)) n (cidr_watch_round go (etcd 0) app)
