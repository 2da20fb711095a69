-- ===== src/Log/Lines.antt =====
-- log.go: the lines in JSON.
use open_blocklist.Base.{
  ℕ, ◌/◌, ◌%◌, ◌≢◌, Bytes, codes, Option, none, some, true, [], ◌∷◌, ◌++◌, append_assoc, All-append,
  Lacks, ◌≡◌, sym, arith,
}
use mathlib.Core.List.{flat_map}
use open_blocklist.Key.{hex_digit}
use open_blocklist.Log.{
  LogLevel, LogConfig, DurationText, quoted_byte, append_quoted, lower_case_str, log_line,
  log_http_req, log_dns_req,
}
use open_blocklist.Log.Quoted.{append_quoted-flat_map}

abbrev pub newline : ℕ
newline = 10

-- A text that ends with a newline and has no other.
pub record IsLine (l : Bytes) : Type 0 where
  pub body : Bytes
  pub ends : l ≡ body ++ newline ∷ []
  pub single : Lacks newline body

hex_digit-ne-newline : (n : ℕ) → hex_digit n ≢ newline
unfolding hex_digit
hex_digit-ne-newline n = ground arith

quoted_byte-Lacks : (c : ℕ) → Lacks newline (quoted_byte c)
unfolding quoted_byte
quoted_byte-Lacks c = ground (arith, hex_digit-ne-newline (c / 16), hex_digit-ne-newline (c % 16))

flat_map-Lacks : (s : Bytes) → Lacks newline (flat_map quoted_byte s)
unfolding flat_map
flat_map-Lacks [] = tt
flat_map-Lacks (c ∷ s) =
    All-append _ (quoted_byte c) (flat_map quoted_byte s) (quoted_byte-Lacks c) (flat_map-Lacks s)

append-Lacks : (s t : Bytes) → Lacks newline s → Lacks newline t → Lacks newline (s ++ t)
append-Lacks s t hs ht = All-append _ s t hs ht

append_quoted-Lacks : (b s : Bytes) → Lacks newline b → Lacks newline (append_quoted b s)
append_quoted-Lacks b s h = rw (append_quoted-flat_map b s) (
    append-Lacks b (b'"' ∷ (flat_map quoted_byte s ++ b'"' ∷ [])) h (
      omega arith,
      append-Lacks (flat_map quoted_byte s) (b'"' ∷ []) (flat_map-Lacks s) (omega arith),
    ))

lower_case_str-Lacks : (l : LogLevel) → Lacks newline (lower_case_str l)
unfolding lower_case_str
lower_case_str-Lacks l = ground arith

-- The last piece of a line in JSON.
closed-IsLine : (s : Bytes) → Lacks newline s → IsLine (s ++ b'}' ∷ newline ∷ [])
closed-IsLine s h = record {
  body = s ++ b'}' ∷ [];
  ends = sym (append_assoc s (b'}' ∷ []) (newline ∷ []));
  single = append-Lacks s (b'}' ∷ []) h (omega arith);
}

-- A quoted text between two others.
field-Lacks :
    (b s t : Bytes) → Lacks newline b → Lacks newline t → Lacks newline (append_quoted b s ++ t)
field-Lacks b s t hb ht = append-Lacks (append_quoted b s) t (append_quoted-Lacks b s hb) ht

-- A text between two others.
between-Lacks :
    (s t u : Bytes)
    → Lacks newline s
    → Lacks newline t
    → Lacks newline u
    → Lacks newline (s ++ t ++ u)
between-Lacks s t u hs ht hu = append-Lacks (s ++ t) u (append-Lacks s t hs ht) hu

quoted_end-IsLine :
    (b s : Bytes) → Lacks newline b → IsLine (append_quoted b s ++ b'}' ∷ newline ∷ [])
quoted_end-IsLine b s h = closed-IsLine (append_quoted b s) (append_quoted-Lacks b s h)

-- What is sent, if anything is.
abbrev pub IsSent : Option Bytes → (Bytes → Type 0) → Type 0
IsSent none P = ⊥
IsSent (some l) P = P l

-- In JSON each of the three kinds of log records is sent, as one line: whatever the message, the
-- method, the URI, the name and the status hold, no newline stands before its end. The texts of the
-- time and of the seconds hold none.
pub json_records-IsLine :
    (config : LogConfig) (now : Bytes) (d : DurationText)
    → config.json ≡ true
    → Lacks newline now
    → Lacks newline d.seconds
    → ((level : LogLevel) (msg : Bytes) → IsLine (log_line config now level msg))
      × ((request method uri status : Bytes)
          → IsSent (log_http_req config now d request method uri status) IsLine)
      × ((name qtype status : Bytes) → IsSent (log_dns_req config now d name qtype status) IsLine)
unfolding log_line log_http_req log_dns_req
json_records-IsLine config now d json hn hd =
    let ts = codes "{\"ts\":\"" in
    let seconds = codes ",\"duration_seconds\":" in
    let last = codes ",\"status\":" in
    (
      λ level msg. rw json (
          quoted_end-IsLine
            (ts
              ++ now
              ++ codes "\",\"type\":\"event\",\"level\":\""
              ++ lower_case_str level
              ++ codes "\",\"msg\":")
            msg
            (between-Lacks (ts ++ now ++ codes "\",\"type\":\"event\",\"level\":\"")
              (lower_case_str level) (codes "\",\"msg\":")
              (between-Lacks ts now (codes "\",\"type\":\"event\",\"level\":\"") (omega arith) hn
                (omega arith))
              (lower_case_str-Lacks level) (omega arith))),
      λ request method uri status. rw json (
          quoted_end-IsLine _ status (
            append-Lacks _ last
              (append-Lacks _ d.seconds
                (field-Lacks _ uri seconds
                  (field-Lacks _ method (codes ",\"uri\":")
                    (field-Lacks (ts ++ now ++ codes "\",\"type\":\"http\",\"request\":") request
                      (codes ",\"method\":")
                      (between-Lacks ts now (codes "\",\"type\":\"http\",\"request\":")
                        (omega arith) hn (omega arith))
                      (omega arith))
                    (omega arith))
                  (omega arith))
                hd)
              (omega arith))),
      λ name qtype status. rw json (
          quoted_end-IsLine _ status (
            append-Lacks _ last
              (append-Lacks _ d.seconds
                (field-Lacks _ qtype seconds
                  (field-Lacks (ts ++ now ++ codes "\",\"type\":\"dns\",\"request\":") name
                    (codes ",\"qtype\":")
                    (between-Lacks ts now (codes "\",\"type\":\"dns\",\"request\":") (omega arith)
                      hn (omega arith))
                    (omega arith))
                  (omega arith))
                hd)
              (omega arith))),
    )
