-- ===== src/Environment.antt =====
-- main.go, helpers.go and crowdsec.go: the configuration, read from the environment.
pub mod Levels
use open_blocklist.Base.{
  ◌*◌, ◌^◌, Bytes, codes, Option, none, some, Bool, true, false, [], str_eq, if◌then◌else◌,
}
use open_blocklist.Base.Int.{ℤ, pos}
use open_blocklist.Base.Dict.{Dict, lookup}
use open_blocklist.State.{Go}
use open_blocklist.Http.{or_empty}
use open_blocklist.Log.{LogLevel, log_none, log_error, log_info, log_verbose, log_debug}

-- What the reading of a text calls of Go's packages strings and strconv; `none` is an error.
pub record Texts : Type 0 where
  pub trim_space : Bytes → Bytes
  pub to_lower : Bytes → Bytes
  pub parse_bool : Bytes → Option Bool

-- The switch of ParseLogLevel.
unfoldable pub level_of : Bytes → Option LogLevel
unfolding str_eq
level_of s =
    if str_eq s (codes "none")
    then some log_none
    else if str_eq s (codes "error")
    then some log_error
    else if str_eq s (codes "info")
    then some log_info
    else if str_eq s (codes "verbose")
    then some log_verbose
    else if str_eq s (codes "debug")
    then some log_debug
    else none

-- ParseLogLevel
unfoldable pub parse_log_level : Texts → Bytes → Option LogLevel
unfolding level_of
parse_log_level texts s = level_of (texts.to_lower (texts.trim_space s))

-- The variables of the environment: os.LookupEnv is `lookup`, and os.Getenv gives the empty text for
-- one that is not set.
abbrev pub Env : Type 0
Env = Dict Bytes

abbrev getenv : Env → Bytes → Bytes
getenv env key = or_empty (lookup key env)

abbrev or_fallback {ℓ} : {A : Type ℓ} → Option A → A → A
or_fallback none fallback = fallback
or_fallback (some a) fallback = a

-- getEnv
unfoldable pub get_env : Env → Bytes → Bytes → Bytes
get_env env key fallback = let v = getenv env key in if str_eq v [] then fallback else v

-- getEnvLogLevel
unfoldable pub get_env_log_level : Texts → Env → Bytes → LogLevel → LogLevel
unfolding parse_log_level
get_env_log_level texts env key fallback =
    let v = getenv env key in
    if str_eq v [] then fallback else or_fallback (parse_log_level texts v) fallback

-- getEnvBool; `val == ""` covers a variable that is not set.
unfoldable pub get_env_bool : Texts → Env → Bytes → Bool → Bool
get_env_bool texts env key fallback = elim (lookup key env) [
  | none ↦ fallback
  | some val ↦ if str_eq val [] then fallback else or_fallback (texts.parse_bool val) fallback
]

-- getEnvInt64
unfoldable pub get_env_int64 : Go → Env → Bytes → ℤ → ℤ
get_env_int64 go env key fallback =
    let v = getenv env key in
    let (n, parsed) = go.parse_int v in
    if str_eq v [] then fallback else if parsed then n else fallback

-- The settings that main and initCrowdSec read; the interval is in nanoseconds.
pub record Config : Type 0 where
  pub log_level : LogLevel
  pub multi_instance_mode : Bool
  pub log_json : Bool
  pub crowd_sec_enabled : Bool
  pub crowd_sec_lapi_url : Bytes
  pub crowd_sec_api_key : Bytes
  pub crowd_sec_poll_interval : ℤ
  pub log_file_path : Bytes
  pub lookup_listen_addr : Bytes
  pub api_listen_addr : Bytes
  pub dns_listen_addr : Bytes
  pub metric_listen_addr : Bytes
  pub etcd_endpoint : Bytes

-- 30 * time.Second
abbrev pub default_poll_interval : ℤ
default_poll_interval = pos (30 * 10 ^ 9)

unfoldable pub poll_interval : Go → Bytes → ℤ
poll_interval go s =
    if str_eq s []
    then default_poll_interval
    else or_fallback (go.parse_duration s) default_poll_interval

unfoldable pub read_config : Go → Texts → Env → Config
unfolding get_env get_env_log_level get_env_bool poll_interval
read_config go texts env = record {
  log_level = get_env_log_level texts env (codes "OPENBL_LOGLEVEL") log_info;
  multi_instance_mode = get_env_bool texts env (codes "OPENBL_MULTI_INSTANCE_MODE") true;
  log_json = get_env_bool texts env (codes "OPENBL_LOGJSON") false;
  crowd_sec_enabled = get_env_bool texts env (codes "OPENBL_CROWDSEC_ENABLED") false;
  crowd_sec_lapi_url =
      get_env env (codes "OPENBL_CROWDSEC_LAPI_URL") (codes "http://crowdsec:8080");
  crowd_sec_api_key = get_env env (codes "OPENBL_CROWDSEC_API_KEY") [];
  crowd_sec_poll_interval =
      poll_interval go (get_env env (codes "OPENBL_CROWDSEC_POLL_INTERVAL") []);
  log_file_path = get_env env (codes "OPENBL_LOG_FILENAME") [];
  lookup_listen_addr = get_env env (codes "OPENBL_LOOKUP_LISTEN_ADDR") (codes ":8090");
  api_listen_addr = get_env env (codes "OPENBL_API_LISTEN_ADDR") (codes ":8091");
  dns_listen_addr = get_env env (codes "OPENBL_DNS_LISTEN_ADDR") (codes ":5353");
  metric_listen_addr = get_env env (codes "OPENBL_METRICS_LISTEN_ADDR") (codes ":9100");
  etcd_endpoint = get_env env (codes "OPENBL_ETCD_ENDPOINT") (codes "http://etcd:2379");
}
