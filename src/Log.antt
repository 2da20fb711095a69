-- ===== src/Log.antt =====
-- log.go and main.go: the levels of the log and the lines that are written. A time is the text that
-- AppendFormat gives, a duration the texts that "%v" and "%f" give.
pub mod Quoted
pub mod Lines
pub mod Queue
pub mod Pool
pub mod Startup
use open_blocklist.Base.{
  ℕ, ◌/◌, ◌%◌, ◌==◌, ltb, Bytes, codes, Option, none, some, Bool, [], ◌∷◌, ◌++◌, if◌then◌else◌,
}
use open_blocklist.Key.{hex_digit}

-- LogLevel; the constants count from 0.
abbrev pub LogLevel : Type 0
LogLevel = ℕ

abbrev pub log_none : LogLevel
log_none = 0

abbrev pub log_error : LogLevel
log_error = 1

abbrev pub log_info : LogLevel
log_info = 2

abbrev pub log_verbose : LogLevel
log_verbose = 3

abbrev pub log_debug : LogLevel
log_debug = 4

-- LogLevel.String
unfoldable pub level_string : LogLevel → Bytes
level_string l =
    if l == log_none
    then codes "NONE"
    else if l == log_error
    then codes "ERROR"
    else if l == log_info
    then codes "INFO"
    else if l == log_verbose
    then codes "VERBOSE"
    else if l == log_debug
    then codes "DEBUG"
    else codes "UNKNOWN"

-- LogLevel.LowerCaseStr
unfoldable pub lower_case_str : LogLevel → Bytes
lower_case_str l =
    if l == log_none
    then codes "none"
    else if l == log_error
    then codes "error"
    else if l == log_info
    then codes "info"
    else if l == log_verbose
    then codes "verbose"
    else if l == log_debug
    then codes "debug"
    else codes "unknown"

-- What appendQuoted appends for one byte.
unfoldable pub quoted_byte : ℕ → Bytes
unfolding hex_digit
quoted_byte c =
    if c == b'"'
    then b'\\' ∷ b'"' ∷ []
    else if c == b'\\'
    then b'\\' ∷ b'\\' ∷ []
    else if c == 10
    then b'\\' ∷ b'n' ∷ []
    else if c == 13
    then b'\\' ∷ b'r' ∷ []
    else if c == 9
    then b'\\' ∷ b't' ∷ []
    else if ltb c 0x20
    then codes "\\u00" ++ (hex_digit (c / 16) ∷ hex_digit (c % 16) ∷ [])
    else c ∷ []

-- The loop of appendQuoted.
unfoldable pub append_bytes : Bytes → Bytes → Bytes
unfolding quoted_byte
append_bytes b [] = b
append_bytes b (c ∷ s) = append_bytes (b ++ quoted_byte c) s

unfoldable pub append_quoted : Bytes → Bytes → Bytes
unfolding append_bytes
append_quoted b s = append_bytes (b ++ b'"' ∷ []) s ++ b'"' ∷ []

-- gLogJSON and gLogLevel
pub record LogConfig : Type 0 where
  pub json : Bool
  pub level : LogLevel

-- logLine: the line it sends.
unfoldable pub log_line : LogConfig → Bytes → LogLevel → Bytes → Bytes
unfolding append_quoted level_string lower_case_str
log_line config now level msg =
    if config.json
    then append_quoted
        (codes "{\"ts\":\""
          ++ now
          ++ codes "\",\"type\":\"event\",\"level\":\""
          ++ lower_case_str level
          ++ codes "\",\"msg\":")
        msg
      ++ b'}' ∷ 10 ∷ []
    else now ++ codes "   " ++ level_string level ++ codes ": " ++ msg ++ 10 ∷ []

-- logMsg, on the formatted message: the line it sends, if any.
unfoldable pub log_msg : LogConfig → Bytes → LogLevel → Bytes → Option Bytes
log_msg config now level msg =
    if ltb config.level level then none else some (log_line config now level msg)

-- logSpace
unfoldable pub log_space : LogConfig → Bytes → Option Bytes
log_space config now =
    if config.json then none else if ltb config.level log_info then none else some (now ++ 10 ∷ [])

-- The texts of a duration: "%v", and the seconds as "%f" and as "%.6f" write them.
pub record DurationText : Type 0 where
  pub value : Bytes
  pub seconds : Bytes

-- logHttpReq
unfoldable pub log_http_req :
    LogConfig → Bytes → DurationText → Bytes → Bytes → Bytes → Bytes → Option Bytes
unfolding append_quoted
log_http_req config now d request_name method uri status =
    if config.json
    then some (
        append_quoted
          (append_quoted
              (append_quoted
                  (append_quoted
                      (codes "{\"ts\":\"" ++ now ++ codes "\",\"type\":\"http\",\"request\":")
                      request_name
                    ++ codes ",\"method\":")
                  method
                ++ codes ",\"uri\":")
              uri
            ++ codes ",\"duration_seconds\":"
            ++ d.seconds
            ++ codes ",\"status\":")
          status
        ++ b'}' ∷ 10 ∷ [])
    else if ltb config.level log_debug
    then none
    else some (
        now
        ++ codes "   DEBUG: [HTTP-REQ: "
        ++ request_name
        ++ codes "] "
        ++ method
        ++ codes " "
        ++ uri
        ++ codes " "
        ++ d.value
        ++ codes " ("
        ++ d.seconds
        ++ codes " seconds) -> "
        ++ status
        ++ 10 ∷ [])

-- logDnsReq, on the name of the first question and the text of its type; without a question the
-- code would panic, and its caller returns before it.
unfoldable pub log_dns_req : LogConfig → Bytes → DurationText → Bytes → Bytes → Bytes → Option Bytes
unfolding append_quoted
log_dns_req config now d name qtype status =
    if config.json
    then some (
        append_quoted
          (append_quoted
              (append_quoted (codes "{\"ts\":\"" ++ now ++ codes "\",\"type\":\"dns\",\"request\":")
                  name
                ++ codes ",\"qtype\":")
              qtype
            ++ codes ",\"duration_seconds\":"
            ++ d.seconds
            ++ codes ",\"status\":")
          status
        ++ b'}' ∷ 10 ∷ [])
    else if ltb config.level log_debug
    then none
    else some (
        now
        ++ codes "   DEBUG: [DNS-REQ: "
        ++ qtype
        ++ codes "] "
        ++ name
        ++ codes " "
        ++ d.value
        ++ codes " ("
        ++ d.seconds
        ++ codes " seconds) -> "
        ++ status
        ++ 10 ∷ [])
