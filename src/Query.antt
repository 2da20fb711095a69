-- ===== src/Query.antt =====
-- main.go: the query of the two PUT handlers, from the check of its names to the fields that it sets.
pub mod Parts
pub mod Laws
use open_blocklist.Base.{
  ℕ, zero, suc, ◌/◌, ◌^◌, Bytes, codes, Option, none, some, Bool, false, ◌||◌, ◌&&◌, not, List, [],
  ◌∷◌, ◌++◌, str_eq, if◌then◌else◌,
}
use open_blocklist.Base.Int.{ℤ, pos, negsuc, ◌+ℤ◌, wrap64}
use open_blocklist.Ipv4.{ipv4_str_to_uint32}
use open_blocklist.State.{Go}
use open_blocklist.Http.{Request, query_get}

-- The result of reading the query: a value, or the message of the error.
pub data Outcome {ℓ} (A : Type ℓ) : Type ℓ where
  ok : A → Outcome A
  fail : Bytes → Outcome A

infixl 5 ◌>>=◌
abbrev pub ◌>>=◌ {ℓ κ} : {A : Type ℓ} {B : Type κ} → Outcome A → (A → Outcome B) → Outcome B
ok a >>= f = f a
fail m >>= f = fail m

-- allowedPutParams
abbrev pub allowed_put_params : List Bytes
allowed_put_params =
    codes "duration"
    ∷ codes "expiration"
    ∷ codes "source"
    ∷ codes "return_code"
    ∷ codes "scenario"
    ∷ codes "action"
    ∷ codes "last_seen"
    ∷ []

unfoldable pub is_in : Bytes → List Bytes → Bool
is_in k [] = false
is_in k (a ∷ rest) = str_eq a k || is_in k rest

-- `for k := range q`: the map's order is open, so any parameter that is not allowed may be named.
unfoldable pub check_params : List (Bytes × Bytes) → Outcome (Unit {0})
unfolding is_in
check_params [] = ok tt
check_params ((k, v) ∷ q) =
    if is_in k allowed_put_params then check_params q else fail (codes "Invalid parameter: " ++ k)

-- The fields of an entry that the query can set.
pub record Fields : Type 0 where
  pub source : Bytes
  pub scenario : Bytes
  pub action : Bytes
  pub return_code : ℕ
  pub last_seen : ℤ
  pub expiration : ℤ

-- if v := q.Get(name); v != "" { field = v }
abbrev pub or_keep : Bytes → Bytes → Bytes
or_keep v old = if str_eq v [] then old else v

unfoldable pub or_message {ℓ} : {A : Type ℓ} → Bytes → Option A → Outcome A
or_message m none = fail m
or_message m (some a) = ok a

-- An optional time or duration.
unfoldable pub set_time : Bytes → Bytes → (Bytes → Option ℤ) → ℤ → Outcome ℤ
unfolding or_message
set_time v message parse old = if str_eq v [] then ok old else or_message message (parse v)

abbrev pub neg : ℕ → ℤ
neg zero = pos 0
neg (suc m) = negsuc m

-- d / time.Second, which truncates towards zero.
unfoldable pub seconds_of : ℤ → ℤ
seconds_of (pos n) = pos (n / 10 ^ 9)
seconds_of (negsuc n) = neg (suc n / 10 ^ 9)

-- now + int64(d/time.Second)
unfoldable pub expiration_after : Go → ℤ → Bytes → Option ℤ
unfolding seconds_of
expiration_after go now v = elim (go.parse_duration v) [
  | none ↦ none
  | some d ↦ some (wrap64 (now +ℤ seconds_of d))
]

-- The part of the two PUT handlers that checks and reads the query.
unfoldable pub read_fields : Go → ℤ → Request → Fields → Outcome Fields
unfolding check_params query_get set_time expiration_after
read_fields go now r f = do
  _ ← check_params r.query
  let duration = query_get (codes "duration") r
  let expiration = query_get (codes "expiration") r
  let return_code = query_get (codes "return_code") r
  if not (str_eq duration []) && not (str_eq expiration [])
      then fail (codes "Duration and expiration cannot be used together")
      else do
        last_seen ←
            set_time (query_get (codes "last_seen") r) (codes "Invalid last_seen timestamp")
              go.parse_time f.last_seen
        after ← set_time duration (codes "Invalid duration") (expiration_after go now) f.expiration
        until ← set_time expiration (codes "Invalid expiration timestamp") go.parse_time after
        ok (record {
          source = or_keep (query_get (codes "source") r) f.source;
          scenario = or_keep (query_get (codes "scenario") r) f.scenario;
          action = or_keep (query_get (codes "action") r) f.action;
          return_code =
              if str_eq return_code [] then f.return_code else ipv4_str_to_uint32 return_code;
          last_seen = last_seen;
          expiration = until;
        })

abbrev pub default_source : Bytes
default_source = codes "openbl"

abbrev pub default_return : Bytes
default_return = codes "127.0.0.2"

-- The fields of a new entry, before the query is read.
unfoldable pub default_fields : ℤ → Fields
default_fields now = record {
  source = default_source;
  scenario = [];
  action = codes "ban";
  return_code = ipv4_str_to_uint32 default_return;
  last_seen = now;
  expiration = pos 0;
}
