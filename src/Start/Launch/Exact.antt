-- ===== src/Start/Launch/Exact.antt =====
-- main.go: what a start of the process comes to, for every environment.
use open_blocklist.Base.{
  ℕ, suc, ◌+◌, ◌-◌, ◌/◌, ◌≤◌, ◌<◌, Bytes, codes, Option, none, some, Bool, true, false, ◌&&◌, not,
  List, [], ◌∷◌, ◌++◌, str_eq, if◌then◌else◌, ◌≡◌, ◌⊎◌, inl, inr, refl, sym, subst, Bool-cases,
  arith,
}
use open_blocklist.State.{App, Go}
use open_blocklist.Environment.{Config, Env, Texts, get_env, read_config}
use open_blocklist.Start.{Waited, available, gave_up, retry_interval}
use open_blocklist.Start.Wait.{IsEnd, Silent, wait_for_etcd-ends}
use open_blocklist.System.Started.{start}
use open_blocklist.Start.Launch.{
  Part, lookup_listener, api_listener, dns_listener, metrics_listener, expiration_worker,
  entry_watch, network_watch, crowd_sec_loop, Launched, returned, failed, serving, Flags, World,
  start_lookup_listener, start_api_listener, start_dns_listener, start_crowd_sec_bouncer,
  parts_with, start_parts, or_failed, serve_loaded, load_and_start, max_wait, launch, main,
}

-- Why a start fails: the log file, the unit tests, etcd within the timeout, the load, or the address of
-- the DNS listener.
pub data Fails (go : Go) (c : Config) (w : World) : Type 0 where
  no_log_file : str_eq c.log_file_path [] ≡ false → w.opens c.log_file_path ≡ false → Fails go c w
  tests_failed : w.tests_pass ≡ false → Fails go c w
  etcd_silent :
      (i : ℕ) → max_wait < w.clock i - w.start_time → Silent w.probe 0 (suc i) → Fails go c w
  not_loaded : start go c.multi_instance_mode w.addresses w.networks ≡ none → Fails go c w
  address_taken : w.binds c.dns_listen_addr ≡ false → Fails go c w

-- The parts that a configuration asks for.
abbrev pub parts_of : Config → List Part
parts_of c =
    lookup_listener c.lookup_listen_addr
    ∷ api_listener c.api_listen_addr
    ∷ dns_listener c.dns_listen_addr
    ∷ metrics_listener c.metric_listen_addr
    ∷ expiration_worker
    ∷ ((if c.multi_instance_mode then entry_watch ∷ network_watch ∷ [] else [])
        ++ (if c.crowd_sec_enabled && not (str_eq c.crowd_sec_api_key [])
            then crowd_sec_loop ∷ []
            else []))

-- etcd answered, in a round before which it did not.
abbrev pub Answered : World → Type 0
Answered w = (i : ℕ) × (w.probe i ≡ true) × Silent w.probe 0 i

abbrev pub IsRight : Go → Config → Flags → World → Launched → Type 0
IsRight go c flags w returned = (flags.version ≡ true) ⊎ (flags.go_version ≡ true)
IsRight go c flags w failed = (flags.version ≡ false) × Fails go c w
IsRight go c flags w (serving app parts) =
    (flags.version ≡ false)
    × (flags.go_version ≡ false)
    × Answered w
    × (start go c.multi_instance_mode w.addresses w.networks ≡ some app)
    × (parts ≡ parts_of c)

-- No listener without an address.
abbrev HasAddresses : Config → Type 0
HasAddresses c =
    (str_eq c.lookup_listen_addr [] ≡ false)
    × (str_eq c.api_listen_addr [] ≡ false)
    × (str_eq c.dns_listen_addr [] ≡ false)
    × (str_eq c.metric_listen_addr [] ≡ false)

bouncer-parts :
    (c : Config)
    → start_crowd_sec_bouncer c ≡ (
        if c.crowd_sec_enabled && not (str_eq c.crowd_sec_api_key [])
        then crowd_sec_loop ∷ []
        else [])
unfolding start_crowd_sec_bouncer
bouncer-parts c = ground arith

start_dns_listener-bound :
    (binds : Bytes → Bool) (addr : Bytes)
    → str_eq addr [] ≡ false
    → binds addr ≡ true
    → start_dns_listener binds addr ≡ some (dns_listener addr ∷ [])
unfolding start_dns_listener
start_dns_listener-bound binds addr h bound = rw (h, bound) refl

start_dns_listener-taken :
    (binds : Bytes → Bool) (addr : Bytes)
    → str_eq addr [] ≡ false
    → binds addr ≡ false
    → start_dns_listener binds addr ≡ none
unfolding start_dns_listener
start_dns_listener-taken binds addr h taken = rw (h, taken) refl

start_parts-cases :
    (binds : Bytes → Bool) (c : Config)
    → HasAddresses c
    → ((binds c.dns_listen_addr ≡ false) × (start_parts binds c ≡ none))
      ⊎ (start_parts binds c ≡ some (parts_of c))
unfolding start_parts parts_with start_lookup_listener start_api_listener
start_parts-cases binds c (l, a, d, m) = elim (Bool-cases (binds c.dns_listen_addr)) [
  | inl bound ↦
      inr (
        rw (start_dns_listener-bound binds c.dns_listen_addr d bound, l, a, m, bouncer-parts c)
          refl)
  | inr taken ↦ inl (taken, rw (start_dns_listener-taken binds c.dns_listen_addr d taken) refl)
]

serve_loaded-IsRight :
    (go : Go) (c : Config) (flags : Flags) (w : World) (loaded : Option App)
    → HasAddresses c
    → flags.version ≡ false
    → flags.go_version ≡ false
    → Answered w
    → start go c.multi_instance_mode w.addresses w.networks ≡ loaded
    → IsRight go c flags w (serve_loaded w.binds c loaded)
unfolding serve_loaded
serve_loaded-IsRight go c flags w none h v g once e = (v, not_loaded e)
serve_loaded-IsRight go c flags w (some app) h v g once e = elim (start_parts-cases w.binds c h) [
  | inl (taken, none_started) ↦
      subst (λ parts. IsRight go c flags w (or_failed app parts)) (sym none_started)
        (v, address_taken taken)
  | inr started ↦
      subst (λ parts. IsRight go c flags w (or_failed app parts)) (sym started)
        (v, g, once, e, refl)
]

load_and_start-IsRight :
    (go : Go) (c : Config) (flags : Flags) (w : World) (waited : Waited)
    → HasAddresses c
    → flags.version ≡ false
    → flags.go_version ≡ false
    → IsEnd w.probe w.clock w.start_time max_wait 0 waited
    → IsRight go c flags w (load_and_start go c w waited)
unfolding load_and_start
load_and_start-IsRight go c flags w (gave_up i rs) h v g (n, at, over, before) =
    (v, etcd_silent i over (subst (λ k. Silent w.probe 0 (suc k)) (omega (arith, at)) before))
load_and_start-IsRight go c flags w (available i rs) h v g (n, at, answered, before) =
    let once : Answered w = (i, answered, subst (Silent w.probe 0) (omega (arith, at)) before) in
    serve_loaded-IsRight go c flags w (start go c.multi_instance_mode w.addresses w.networks) h v g
      once refl

log_file-cases :
    (c : Config) (w : World)
    → ((str_eq c.log_file_path [] ≡ false) × (w.opens c.log_file_path ≡ false))
      ⊎ ((not (str_eq c.log_file_path []) && not (w.opens c.log_file_path)) ≡ false)
log_file-cases c w = elim (Bool-cases (str_eq c.log_file_path [])) [
  | inl unnamed ↦ inr (rw unnamed refl)
  | inr named ↦ elim (Bool-cases (w.opens c.log_file_path)) [
    | inl opened ↦ inr (rw (named, opened) refl)
    | inr closed ↦ inl (named, closed)
  ]
]

launch-IsRight :
    (go : Go) (c : Config) (flags : Flags) (w : World)
    → HasAddresses c
    → w.start_time ≤ w.clock 0
    → ((i : ℕ) → w.clock i + 2000000000 ≤ w.clock (suc i))
    → (s : Launched) × (launch go c flags w (max_wait / retry_interval + 2) ≡ some s)
      × IsRight go c flags w s
unfolding launch
launch-IsRight go c flags w h began steps = elim (Bool-cases flags.version) [
  | inl v ↦ (returned, rw v refl, inl v)
  | inr v ↦ elim (log_file-cases c w) [
    | inl (named, closed) ↦ (failed, rw (v, named, closed) refl, (v, no_log_file named closed))
    | inr opened ↦ elim (Bool-cases w.tests_pass) [
      | inr broken ↦ (failed, rw (v, opened, broken) refl, (v, tests_failed broken))
      | inl pass ↦ elim (Bool-cases flags.go_version) [
        | inl g ↦ (returned, rw (v, opened, pass, g) refl, inr g)
        | inr g ↦
            let (waited, e, end) =
              wait_for_etcd-ends w.probe w.clock w.start_time max_wait began steps in
            (
              load_and_start go c w waited,
              rw (v, opened, pass, g, e) refl,
              load_and_start-IsRight go c flags w waited h v g end,
            )
      ]
    ]
  ]
]

get_env-nonempty :
    (env : Env) (key fallback : Bytes)
    → str_eq fallback [] ≡ false
    → str_eq (get_env env key fallback) [] ≡ false
unfolding get_env
get_env-nonempty env key fallback h = ground (arith, h)

read_config-HasAddresses :
    (go : Go) (texts : Texts) (env : Env) → HasAddresses (read_config go texts env)
unfolding read_config
read_config-HasAddresses go texts env = (
  get_env-nonempty env (codes "OPENBL_LOOKUP_LISTEN_ADDR") (codes ":8090") (unfold str_eq in refl),
  get_env-nonempty env (codes "OPENBL_API_LISTEN_ADDR") (codes ":8091") (unfold str_eq in refl),
  get_env-nonempty env (codes "OPENBL_DNS_LISTEN_ADDR") (codes ":5353") (unfold str_eq in refl),
  get_env-nonempty env (codes "OPENBL_METRICS_LISTEN_ADDR") (codes ":9100") (unfold str_eq in refl),
)

-- In every environment, if the clock does not stand before the start of the wait and each round of it
-- takes two seconds at least, and with fuel for two rounds more than the 120 seconds of the timeout
-- have: main comes to an end behind a flag, to a failure of the log file, the unit tests, the wait, the
-- load or the DNS address, or it serves, with the tables that it loaded after etcd had answered. Then
-- all four listeners have been started, with no setting to leave one out, and the worker, and both
-- watches where the mode is multi-instance, and the loop of CrowdSec where it is enabled with a key.
pub main_exact :
    (go : Go) (texts : Texts) (env : Env) (flags : Flags) (w : World)
    → w.start_time ≤ w.clock 0
    → ((i : ℕ) → w.clock i + 2000000000 ≤ w.clock (suc i))
    → (s : Launched) × (main go texts env flags w (max_wait / retry_interval + 2) ≡ some s)
      × IsRight go (read_config go texts env) flags w s
unfolding main
main_exact go texts env flags w began steps =
    launch-IsRight go (read_config go texts env) flags w (read_config-HasAddresses go texts env)
      began steps
