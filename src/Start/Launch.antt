-- ===== src/Start/Launch.antt =====
-- main.go, crowdsec.go and dns.go: main, from the environment to the parts that it starts. The flags,
-- what the operating system answers, and what etcd answers are arguments.
pub mod Exact
use open_blocklist.Base.{
  ℕ, ◌*◌, Bytes, Option, none, some, Bool, ◌&&◌, not, List, [], ◌∷◌, ◌++◌, str_eq, if◌then◌else◌,
}
use open_blocklist.State.{App, Go}
use open_blocklist.Environment.{Config, Env, Texts, read_config}
use open_blocklist.Start.{second, Waited, available, gave_up, wait_for_etcd}
use open_blocklist.System.Started.{start}

-- What runs behind main until the process ends.
pub data Part : Type 0 where
  lookup_listener api_listener dns_listener metrics_listener : Bytes → Part
  expiration_worker entry_watch network_watch crowd_sec_loop : Part

pub data Launched : Type 0 where
  -- main returned behind a flag, or the process ended with the exit code 1.
  returned failed : Launched
  serving : App → List Part → Launched

-- The flags -version and -goversion.
pub record Flags : Type 0 where
  pub version : Bool
  pub go_version : Bool

-- Whether LogSetFile opens a path, runUnitTests passes and the DNS listener gets an address; in which
-- round etcd answers, and the time in it; the answers to the two range requests.
pub record World : Type 0 where
  pub opens : Bytes → Bool
  pub tests_pass : Bool
  pub binds : Bytes → Bool
  pub probe : ℕ → Bool
  pub clock : ℕ → ℕ
  pub start_time : ℕ
  pub addresses : Option Bytes
  pub networks : Option Bytes

-- startLookupListener
unfoldable pub start_lookup_listener : Bytes → List Part
start_lookup_listener addr = if str_eq addr [] then [] else lookup_listener addr ∷ []

-- startApiListener
unfoldable pub start_api_listener : Bytes → List Part
start_api_listener addr = if str_eq addr [] then [] else api_listener addr ∷ []

-- startDNSListener; `none` where the address cannot be bound, which ends the process.
unfoldable pub start_dns_listener : (Bytes → Bool) → Bytes → Option (List Part)
start_dns_listener binds addr =
    if str_eq addr [] then some [] else if binds addr then some (dns_listener addr ∷ []) else none

-- startCrowdSecBouncer
unfoldable pub start_crowd_sec_bouncer : Config → List Part
start_crowd_sec_bouncer config =
    if not config.crowd_sec_enabled
    then []
    else if str_eq config.crowd_sec_api_key []
    then []
    else crowd_sec_loop ∷ []

-- The parts of main from the listeners on, around what startDNSListener does.
unfoldable pub parts_with : Config → Option (List Part) → Option (List Part)
unfolding start_lookup_listener start_api_listener start_crowd_sec_bouncer
parts_with config none = none
parts_with config (some dns) = some (
    start_lookup_listener config.lookup_listen_addr
    ++ start_api_listener config.api_listen_addr
    ++ dns
    ++ (if not (str_eq config.metric_listen_addr [])
        then metrics_listener config.metric_listen_addr ∷ []
        else [])
    ++ expiration_worker
      ∷ (if config.multi_instance_mode then entry_watch ∷ network_watch ∷ [] else [])
    ++ start_crowd_sec_bouncer config)

unfoldable pub start_parts : (Bytes → Bool) → Config → Option (List Part)
unfolding parts_with start_dns_listener
start_parts binds config = parts_with config (start_dns_listener binds config.dns_listen_addr)

abbrev pub or_failed : App → Option (List Part) → Launched
or_failed app none = failed
or_failed app (some parts) = serving app parts

-- main behind the loads.
unfoldable pub serve_loaded : (Bytes → Bool) → Config → Option App → Launched
unfolding start_parts
serve_loaded binds config none = failed
serve_loaded binds config (some app) = or_failed app (start_parts binds config)

-- main behind waitForEtcd.
unfoldable pub load_and_start : Go → Config → World → Waited → Launched
unfolding start serve_loaded
load_and_start go config w (gave_up i rs) = failed
load_and_start go config w (available i rs) =
    serve_loaded w.binds config (start go config.multi_instance_mode w.addresses w.networks)

-- 2*time.Minute
abbrev pub max_wait : ℕ
max_wait = 120 * second

abbrev after_wait : Go → Config → World → Option Waited → Option Launched
after_wait go config w none = none
after_wait go config w (some waited) = some (load_and_start go config w waited)

unfoldable pub launch : Go → Config → Flags → World → ℕ → Option Launched
unfolding wait_for_etcd load_and_start
launch go config flags w fuel =
    if flags.version
    then some returned
    else if not (str_eq config.log_file_path []) && not (w.opens config.log_file_path)
    then some failed
    else if not w.tests_pass
    then some failed
    else if flags.go_version
    then some returned
    else after_wait go config w (wait_for_etcd w.probe w.clock w.start_time max_wait fuel)

-- main; the fuel is waitForEtcd's, `none` where it is not enough.
unfoldable pub main : Go → Texts → Env → Flags → World → ℕ → Option Launched
unfolding read_config launch
main go texts env flags w fuel = launch go (read_config go texts env) flags w fuel
