-- ===== src/Lib.antt =====
-- open-blocklist: a service that keeps a list of blocked IP addresses and networks in memory, answers
-- HTTP and DNS queries about it, and stores it in etcd, from which other instances follow it.
--
-- How the program's parts stand in these files:
-- - src/helpers.go (addresses as texts and as numbers): Ipv4. IPv4StrToUint32 is
--   ipv4_str_to_uint32, Uint32ToIPv4Str is uint32_to_ipv4_str, and so on: a function of the
--   program keeps its name, in lower case with underscores. Wrap-around is written out (% 2 ^ 32,
--   % 2 ^ 8).
-- - src/helpers.go and src/etcd.go (the keys under which etcd holds an address or a network, and
--   the ranges of keys that are read and watched): Key.
-- - src/main.go, src/cidr.go and src/etcd.go (the records): State. App is the process: the two
--   tables, the counters, the revision and mode, the requests that were posted to etcd (the last
--   one last) and the goroutines that were started and have not run. A Go map is an association
--   list (Base/Dict), its order of iteration the list's, which no theorem relies on.
-- - src/cidr.go: CidrTable. src/main.go, the table of addresses and the lazy deletion: IpTable. Tasks is
--   about the goroutines that lookups in both start.
-- - src/main.go, the handlers: Read (lookup, authorization, list, health), Query (the query of a
--   PUT), Write (PUT and DELETE of addresses and networks), over Http (requests, responses and the
--   maps that become JSON). A handler takes the readings of the clock as a function of the number
--   of the call of time.Now.
-- - src/main.go, expirationWorker: Expiry, one round of it.
-- - src/dns.go: Dns.
-- - src/etcd.go: Etcd, the loads at the start and what the two watches do with a line, and
--   Etcd/Reconnect for their loops over connections.
-- - src/crowdsec.go: CrowdSec, and CrowdSec/Remove for removal and reconciliation,
--   and CrowdSec/Loop for the requests and the loop.
-- - src/log.go: Log (the lines), Log/Queue for the channel, its worker and the flush, Log/Startup for
--   the lines of the start and of an end, and Log/Pool for the buffers that goroutines share: there a
--   buffer is a pointer into a memory, and the steps of goroutines are interleaved.
-- - src/metrics.go: Metrics, and Metrics/Probes for the other handlers of its listener. The version of
--   the program and of Go, from src/main.go and src/helpers.go: Version.
-- - src/main.go and src/metrics.go, the patterns that the listeners register: Routes. A listener maps
--   the process and a call (method, segments of the path, query) to the process and a response.
-- - src/etcd.go, waitForEtcd: Start. src/main.go, main and handleSignals: Start/Launch and
--   Start/Signals. src/helpers.go, readOSRelease: OsRelease. src/helpers.go, formatBytes: Units. The settings, from
--   src/main.go, src/helpers.go and src/crowdsec.go: Environment.
-- - src/unittest_enabled.go: UnitTests.
-- - System: the process over time, as a relation of one step, what it reaches, the state with which it
--   starts (System/Started), a second instance (System/Elsewhere, and System/Converges over broken
--   connections), what a removal leaves at both (System/Removed), and what a connection that breaks too
--   early loses (System/Lost).
-- - Base holds what these share. Tests holds runs at concrete inputs.
--
-- Each part works on App: a handler maps the process and a request to the process and a response;
-- a lookup may start the goroutine that deletes an expired entry; PUT and DELETE change the tables
-- themselves only in single-instance mode, and else leave that to the events of the watch.
--
-- The parts of Go's library that are not modelled (net, time, encoding/json, encoding/base64,
-- strconv.ParseInt) are the fields of the record Go in State, arguments of all that uses them. A
-- theorem that relies on them says so in its hypotheses: base64 decodes what it encoded, JSON
-- decodes a record that it encoded, net.ParseIP reads dotted texts. net.IP.To4 and To16, and what
-- the code uses of strings, are written out. github.com/miekg/dns is an argument in the same way
-- (is_sub_domain), and an answer record is kept as the text that is handed to it.
--
-- Two definitions take fuel, every other loop goes over a list or a text, or is cut off after a number
-- of rounds that a theorem lets be any. wait_for_etcd, and main which calls it, count its rounds down;
-- with a clock that advances two seconds in a round, the timeout divided by two seconds,
-- and two more, are enough (Start/Wait). scale, the loop of formatBytes, has seven rounds; an int64 is
-- divided by 1024 at most six times before it is below 1024 (Units/Bounds).
--
-- Go's http.ServeMux is written out as far as the patterns use it (Routes). The readings of the
-- runtime's metrics, strings.TrimSpace, strings.ToLower and strconv.ParseBool are arguments.
--
-- Not modelled: the exchange of HTTP requests with etcd and CrowdSec and their encoding, which are
-- arguments, sockets, servers that stop after they were started, figures of the system that are only
-- printed, and locks. Each handler, event and round is one step of System; what several of them do to
-- each other is their sequence.
mod Base
pub mod Ipv4
pub mod Key
pub mod State
pub mod CidrTable
pub mod IpTable
pub mod Tasks
pub mod Http
pub mod Read
pub mod Query
pub mod Write
pub mod Dns
pub mod Expiry
pub mod Etcd
pub mod CrowdSec
pub mod System
pub mod Log
pub mod Version
pub mod Metrics
pub mod Routes
pub mod UnitTests
pub mod Units
pub mod OsRelease
pub mod Environment
pub mod Start
mod Tests
