-- ===== src/Http.antt =====
-- The requests and responses of the HTTP handlers, and the maps that they encode as JSON.
use open_blocklist.Base.{
  ℕ, zero, ◌^◌, Bytes, codes, Option, none, some, Bool, List, [], ◌∷◌, ◌++◌, if◌then◌else◌,
}
use open_blocklist.Base.Int.{ℤ, pos, ltb_ℤ, ◌-ℤ◌, ◌*ℤ◌, wrap64}
use open_blocklist.Base.Dict.{Dict, lookup, insert}
use open_blocklist.Ipv4.{uint32_to_ipv4_str}
use open_blocklist.State.{BlockEntry, CidrEntry, Go}

pub data Method : Type 0 where
  get head put delete_method other_method : Method

-- A request behind the router: its method, the path values, and the query in its order.
pub record Request : Type 0 where
  pub method : Method
  pub ip : Bytes
  pub net : Bytes
  pub prefix : Bytes
  pub query : List (Bytes × Bytes)

-- r.URL.Query().Get: the first value of a key, or the empty text.
abbrev pub or_empty : Option Bytes → Bytes
or_empty none = []
or_empty (some v) = v

unfoldable pub query_get : Bytes → Request → Bytes
query_get k r = or_empty (lookup k r.query)

-- A value in a JSON object.
pub data Json : Type 0 where
  text : Bytes → Json
  number : ℤ → Json
  flag : Bool → Json

pub data Body : Type 0 where
  no_body : Body
  plain : Bytes → Body
  object : Dict Json → Body
  array : List (Dict Json) → Body
  entry_body : BlockEntry → Body

pub record Response : Type 0 where
  pub status : ℕ
  pub headers : Dict Bytes
  pub body : Body

abbrev pub respond : ℕ → Dict Bytes → Body → Response
respond status headers body = record { status = status; headers = headers; body = body }

-- w.Header().Set(HTTP_HEADER_X_SERVICE, OPEN_BLOCK_LIST)
abbrev pub service_header : Dict Bytes
service_header = (codes "X-Service", codes "open-blocklist") ∷ []

abbrev pub content_json : Bytes × Bytes
content_json = (codes "Content-Type", codes "application/json")

-- http.Error: it replaces the content type, forbids browsers to guess another, and writes the message
-- with a newline.
unfoldable pub http_error : Dict Bytes → Bytes → ℕ → Response
http_error headers message status =
    respond status
      (insert (codes "X-Content-Type-Options") (codes "nosniff")
        (insert (codes "Content-Type") (codes "text/plain; charset=utf-8") headers))
      (plain (message ++ 10 ∷ []))

-- epochToISO
unfoldable pub epoch_to_iso : Go → ℤ → Bytes
epoch_to_iso go (pos zero) = []
epoch_to_iso go ts = go.format_time ts

-- remainingSeconds at the time `now`
unfoldable pub remaining_seconds : ℤ → ℤ → ℤ
remaining_seconds now (pos zero) = pos 0
remaining_seconds now exp =
    let remaining = wrap64 (exp -ℤ now) in if ltb_ℤ remaining (pos 0) then pos 0 else remaining

-- remainingDuration at the time `now`; time.Duration counts nanoseconds.
unfoldable pub remaining_duration : Go → ℤ → ℤ → Bytes
unfolding remaining_seconds
remaining_duration go now (pos zero) = codes "permanent"
remaining_duration go now exp =
    go.duration_string (wrap64 (remaining_seconds now exp *ℤ pos (10 ^ 9)))

-- entryToMap; the two readings of the clock are those of the two remaining times.
unfoldable pub entry_to_map : Go → ℤ → ℤ → BlockEntry → Dict Json
unfolding epoch_to_iso remaining_seconds remaining_duration
entry_to_map go now now' entry =
    (codes "ip", text entry.ip)
    ∷ (codes "source", text entry.source)
    ∷ (codes "scenario", text entry.scenario)
    ∷ (codes "action", text entry.action)
    ∷ (codes "create_revision", number entry.create_revision)
    ∷ (codes "mod_revision", number entry.mod_revision)
    ∷ (codes "first_seen", number entry.first_seen)
    ∷ (codes "first_seen_iso", text (epoch_to_iso go entry.first_seen))
    ∷ (codes "last_seen", number entry.last_seen)
    ∷ (codes "last_seen_iso", text (epoch_to_iso go entry.last_seen))
    ∷ (codes "expiration", number entry.expiration)
    ∷ (codes "expiration_iso", text (epoch_to_iso go entry.expiration))
    ∷ (codes "remaining_seconds", number (remaining_seconds now entry.expiration))
    ∷ (codes "remaining_duration", text (remaining_duration go now' entry.expiration))
    ∷ (codes "return_code", text (uint32_to_ipv4_str entry.return_code))
    ∷ []

-- cidrEntryToMap
unfoldable pub cidr_entry_to_map : Go → ℤ → ℤ → CidrEntry → Dict Json
unfolding epoch_to_iso remaining_seconds remaining_duration
cidr_entry_to_map go now now' e =
    (codes "cidr", text e.cidr)
    ∷ (codes "source", text e.source)
    ∷ (codes "scenario", text e.scenario)
    ∷ (codes "action", text e.action)
    ∷ (codes "first_seen", number e.first_seen)
    ∷ (codes "first_seen_iso", text (epoch_to_iso go e.first_seen))
    ∷ (codes "last_seen", number e.last_seen)
    ∷ (codes "last_seen_iso", text (epoch_to_iso go e.last_seen))
    ∷ (codes "expiration", number e.expiration)
    ∷ (codes "expiration_iso", text (epoch_to_iso go e.expiration))
    ∷ (codes "remaining_seconds", number (remaining_seconds now e.expiration))
    ∷ (codes "remaining_duration", text (remaining_duration go now' e.expiration))
    ∷ (codes "return_code", text (uint32_to_ipv4_str e.return_code))
    ∷ []
