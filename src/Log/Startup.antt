-- ===== src/Log/Startup.antt =====
-- log.go: the lines of the start, and the last line of a process that ends. Names and values are ASCII
-- texts, as "%v" writes them, so that a byte is a column.
use open_blocklist.Base.{
  ℕ, zero, suc, ◌+◌, ◌-◌, Bytes, codes, Option, none, some, [], ◌∷◌, ◌++◌, ◌>>=◌, length, str_eq,
  if◌then◌else◌, ◌≡◌, refl,
}
use open_blocklist.Log.{LogConfig, log_msg, log_line, log_info, log_error}
use open_blocklist.Log.Queue.{Log, send, send_to, write_now, log_flush, flush_channel}

abbrev spaces : ℕ → Bytes
spaces zero = []
spaces (suc n) = b' ' ∷ spaces n

-- "%-nv" of fmt
unfoldable pub pad : ℕ → Bytes → Bytes
pad n s = s ++ spaces (n - length s)

-- showCfg
unfoldable pub show_cfg : LogConfig → Bytes → Bytes → Bytes → Bytes → Bytes → Option Bytes
unfolding log_msg pad
show_cfg config now description variable_name default_value current_value =
    log_msg config now log_info (
      pad 34 variable_name
      ++ codes "  "
      ++ pad 40 description
      ++ codes " "
      ++ pad 40 default_value
      ++ codes "  "
      ++ current_value)

-- showInfo
unfoldable pub show_info : LogConfig → Bytes → Bytes → Bytes → Option Bytes
unfolding log_msg pad
show_info config now description current_value =
    log_msg config now log_info (pad 15 description ++ codes ":  " ++ current_value)

-- logListerner
unfoldable pub log_listerner : LogConfig → Bytes → Bytes → Bytes → Option Bytes
unfolding log_msg pad str_eq
log_listerner config now info addr =
    if str_eq addr []
    then none
    else log_msg config now log_info (codes "Listening  [" ++ pad 10 info ++ codes "]  on " ++ addr)

-- logFatal, up to os.Exit; it does not look at the level.
unfoldable pub log_fatal : LogConfig → Bytes → Bytes → Log → Option Log
unfolding log_line send log_flush
log_fatal config now msg log = do
  sent ← send (log_line config now log_error msg) log
  log_flush sent

-- Without a channel the last line is written before the process ends.
pub log_fatal-direct :
    (config : LogConfig) (now msg : Bytes) (log : Log)
    → log.channel ≡ none
    → log_fatal config now msg log
      ≡ some (record log {
        written = log.written ++ log_line config now log_error msg ∷ [];
        dropped = log.dropped + 1;
      })
unfolding log_fatal send send_to write_now log_flush flush_channel
log_fatal-direct config now msg log h = rw h refl
