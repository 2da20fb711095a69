-- ===== src/System.antt =====
-- The process over time: its handlers and listeners, the goroutines that a lookup started, the rounds of the worker
-- and of CrowdSec, and the lines of the two watches, in any order.
mod Keeps
mod Handlers
mod Rounds
mod Decisions
mod Listeners
pub mod Reachable
pub mod Race
pub mod Started
pub mod Elsewhere
pub mod Removed
pub mod Converges
pub mod Lost
use open_blocklist.Base.{ℕ, Bytes, Option, some, Bool, List, ◌∷◌, ◌++◌, All, ◌≡◌}
use open_blocklist.Base.Int.{ℤ}
use open_blocklist.Base.Dict.{IsMap}
use open_blocklist.State.{App, BlockEntry, Go, Task, expire_ip, expire_cidr}
use open_blocklist.IpTable.{delete_expired_ip}
use open_blocklist.CidrTable.{delete_expired_cidr}
use open_blocklist.CidrTable.Laws.{IsKeyed}
use open_blocklist.Http.{Request, Response}
use open_blocklist.Routes.{Route, Runtime, Call, listen}
use open_blocklist.Read.{handle_lookup, handle_auth}
use open_blocklist.Write.{handle_put, handle_delete, handle_put_network, handle_delete_network}
use open_blocklist.Dns.{Question, Reply, handle_dns_request}
use open_blocklist.Expiry.{expiration_round}
use open_blocklist.Etcd.{watch_line, cidr_watch_line}
use open_blocklist.CrowdSec.{DecisionStream, Clock}
use open_blocklist.CrowdSec.Remove.{crowd_sec_round}

-- Each key of the table of addresses stands once, over an entry that carries it as its own address;
-- each network stands once.
pub record IsConsistent (app : App) : Type 0 where
  pub once : IsMap app.ip_table
  pub named : All (λ (p : Bytes × BlockEntry). p.1.ip ≡ p.0) app.ip_table
  pub keyed : IsKeyed app.cidr_table

-- A goroutine that a lookup started, when it runs.
unfoldable pub run_task : Go → Task → App → App
run_task go (expire_ip ip) app = delete_expired_ip go ip app
run_task go (expire_cidr cidr) app = delete_expired_cidr go cidr app

pub data Step (go : Go) (is_sub_domain : Bytes → Bytes → Bool) : App → App → Type 0 where
  looked_up :
      (t : ℕ → ℤ) (r : Request) {app : App} → Step go is_sub_domain app (handle_lookup go t r app).0
  authorized :
      (t : ℕ → ℤ) (r : Request) {app : App} → Step go is_sub_domain app (handle_auth go t r app).0
  was_put :
      (t : ℕ → ℤ) (r : Request) {app : App} → Step go is_sub_domain app (handle_put go t r app).0
  was_deleted : (r : Request) {app : App} → Step go is_sub_domain app (handle_delete go r app).0
  network_put :
      (t : ℕ → ℤ) (r : Request) {app : App}
      → Step go is_sub_domain app (handle_put_network go t r app).0
  network_deleted :
      (r : Request) {app : App} → Step go is_sub_domain app (handle_delete_network go r app).0
  asked :
      (now : ℤ) (qs : List Question) (reply : Reply) {app app' : App}
      → handle_dns_request is_sub_domain now qs app ≡ some (app', reply)
      → Step go is_sub_domain app app'
  ran :
      (before behind : List Task) (task : Task) {app : App}
      → app.tasks ≡ before ++ task ∷ behind
      → Step go is_sub_domain app (run_task go task (record app { tasks = before ++ behind }))
  round_ended : (now : ℤ) {app : App} → Step go is_sub_domain app (expiration_round go now app)
  line_came : (line : Bytes) {app : App} → Step go is_sub_domain app (watch_line go line app)
  network_line_came :
      (line : Bytes) {app : App} → Step go is_sub_domain app (cidr_watch_line go line app)
  called :
      (routes : List Route) (rt : Runtime) (c : Call) (answer : Response) {app app' : App}
      → rt.go ≡ go
      → listen routes rt c app ≡ some (app', answer)
      → Step go is_sub_domain app app'
  polled :
      (clocks : ℕ → Clock) (fetched : Option DecisionStream) (startup : Bool) {app : App}
      → Step go is_sub_domain app (crowd_sec_round go clocks fetched startup app).1

pub data Reaches (go : Go) (is_sub_domain : Bytes → Bytes → Bool) : App → App → Type 0 where
  here : {app : App} → Reaches go is_sub_domain app app
  further :
      {a b c : App}
      → Reaches go is_sub_domain a b
      → Step go is_sub_domain b c
      → Reaches go is_sub_domain a c
