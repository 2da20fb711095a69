-- ===== src/Query/Laws.antt =====
-- What a query of a PUT sets that is accepted.
use open_blocklist.Base.{
  ℕ, zero, suc, ◌+◌, ◌*◌, ◌/◌, ◌^◌, ◌≤◌, ◌<◌, arith, Bytes, codes, Option, none, some, Option-cases,
  true, false, ◌&&◌, not, [], All, str_eq, str_eq_iff, false≢true, if◌then◌else◌, ◌≡◌, ◌≢◌, ◌⊎◌,
  inl, inr, Bool-cases, refl, ap, sym, subst, ◌∙◌,
}
use mathlib.Core.Option.{none-ne-some, some-injective}
use open_blocklist.Base.Int.{ℤ, pos, negsuc, ◌+ℤ◌, wrap64}
use open_blocklist.Ipv4.{ipv4_str_to_uint32}
use open_blocklist.State.{Go}
use open_blocklist.Http.{Request, query_get}
use open_blocklist.Query.{
  ok, allowed_put_params, is_in, Fields, or_message, neg, seconds_of, set_time, expiration_after,
  read_fields,
}
use open_blocklist.Query.Parts.{fail≢ok, ok-injective, read_fields-parts}

-- A value that a query's text sets where it is not empty.
abbrev pub Sets {ℓ} : {A : Type ℓ} → Bytes → (A → Type ℓ) → A → A → Type ℓ
Sets text says old new = ((text ≡ []) × (new ≡ old)) ⊎ ((text ≢ []) × says new)

-- The whole seconds of a duration in nanoseconds, cut off towards zero.
abbrev pub Truncates : ℤ → ℤ → Type 0
Truncates (pos n) (pos s) = (s * 1000000000 ≤ n) × (n < (s + 1) * 1000000000)
Truncates (pos n) (negsuc s) = ⊥
Truncates (negsuc n) (pos s) = (s ≡ 0) × (n + 1 < 1000000000)
Truncates (negsuc n) (negsuc s) = ((s + 1) * 1000000000 ≤ n + 1) × (n + 1 < (s + 2) * 1000000000)

-- A time so many whole seconds behind `now` as a text of a duration says.
abbrev pub Lasts : Go → ℤ → Bytes → ℤ → Type 0
Lasts go now text until =
    (d seconds : ℤ) × (go.parse_duration text ≡ some d)
    × Truncates d seconds
    × (until ≡ wrap64 (now +ℤ seconds))

neg-Truncates :
    (n q : ℕ) → q * 1000000000 ≤ n + 1 → n + 1 < (q + 1) * 1000000000 → Truncates (negsuc n) (neg q)
neg-Truncates n zero low high = (refl, omega (arith, high))
neg-Truncates n (suc q) low high = (omega (arith, low), omega (arith, high))

seconds_of-Truncates : (d : ℤ) → Truncates d (seconds_of d)
unfolding seconds_of
seconds_of-Truncates (pos n) = (omega arith, omega arith)
seconds_of-Truncates (negsuc n) = neg-Truncates n (suc n / 10 ^ 9) (omega arith) (omega arith)

after-Lasts :
    (go : Go) (now : ℤ) (text : Bytes) (until : ℤ)
    → expiration_after go now text ≡ some until
    → Lasts go now text until
unfolding expiration_after
after-Lasts go now text until h = elim (Option-cases (go.parse_duration text)) [
  | inl nothing ↦ absurd (none-ne-some until (rw (nothing, expiration_after) at h))
  | inr (d, e) ↦ (
    d,
    seconds_of d,
    e,
    seconds_of-Truncates d,
    sym (some-injective (wrap64 (now +ℤ seconds_of d)) until (rw (e, expiration_after) at h)),
  )
]

message-ok : {A : Type 0} (m : Bytes) (o : Option A) (a : A) → or_message m o ≡ ok a → o ≡ some a
unfolding or_message
message-ok m none a h = absurd (fail≢ok m a h)
message-ok m (some b) a h = ap some (ok-injective b a h)

set_time-Sets :
    (text message : Bytes) (parse : Bytes → Option ℤ) (old new : ℤ)
    → set_time text message parse old ≡ ok new
    → Sets text (λ v. parse text ≡ some v) old new
unfolding set_time
set_time-Sets text message parse old new h = elim (Bool-cases (str_eq text [])) [
  | inl empty ↦ inl ((str_eq_iff text []).0 empty, sym (ok-injective old new (rw empty at h)))
  | inr given ↦ inr (given-nonempty text given, message-ok message (parse text) new (rw given at h))
]
  where
    given-nonempty : (v : Bytes) → str_eq v [] ≡ false → v ≢ []
    given-nonempty v e n = false≢true (sym e ∙ (str_eq_iff v []).1 n)

if-Sets :
    {A : Type 0} (text : Bytes) (old given new : A)
    → new ≡ (if str_eq text [] then old else given)
    → Sets text (λ v. v ≡ given) old new
if-Sets text old given new h = elim (Bool-cases (str_eq text [])) [
  | inl empty ↦ inl ((str_eq_iff text []).0 empty, h ∙ ap (λ b. if b then old else given) empty)
  | inr filled ↦ inr (
    (λ n. false≢true (sym filled ∙ (str_eq_iff text []).1 n)),
    h ∙ ap (λ b. if b then old else given) filled,
  )
]

-- What a query of a PUT makes of the fields.
pub record IsRead (go : Go) (now : ℤ) (r : Request) (f g : Fields) : Type 0 where
  pub allowed : All (λ (p : Bytes × Bytes). is_in p.0 allowed_put_params ≡ true) r.query
  pub last_seen :
      Sets
        (query_get (codes "last_seen") r)
        (λ v. go.parse_time (query_get (codes "last_seen") r) ≡ some v)
        f.last_seen
        g.last_seen
  pub expiration :
      ((query_get (codes "expiration") r ≡ [])
        × Sets
            (query_get (codes "duration") r)
            (Lasts go now (query_get (codes "duration") r))
            f.expiration
            g.expiration)
      ⊎ ((query_get (codes "duration") r ≡ [])
          × (query_get (codes "expiration") r ≢ [])
          × (go.parse_time (query_get (codes "expiration") r) ≡ some g.expiration))
  pub source :
      Sets (query_get (codes "source") r) (λ v. v ≡ query_get (codes "source") r) f.source g.source
  pub scenario :
      Sets
        (query_get (codes "scenario") r)
        (λ v. v ≡ query_get (codes "scenario") r)
        f.scenario
        g.scenario
  pub action :
      Sets (query_get (codes "action") r) (λ v. v ≡ query_get (codes "action") r) f.action g.action
  pub return_code :
      Sets
        (query_get (codes "return_code") r)
        (λ v. v ≡ ipv4_str_to_uint32 (query_get (codes "return_code") r))
        f.return_code
        g.return_code

one_given :
    (duration expiration : Bytes)
    → (not (str_eq duration []) && not (str_eq expiration [])) ≡ false
    → duration ≢ []
    → expiration ≢ []
    → ⊥
one_given duration expiration h d e =
    ground (arith, h, str_eq_iff duration [], str_eq_iff expiration [], d, e)

expiration-parts :
    (go : Go) (now : ℤ) (duration expiration : Bytes) (old between new : ℤ)
    → (not (str_eq duration []) && not (str_eq expiration [])) ≡ false
    → Sets duration (λ v. expiration_after go now duration ≡ some v) old between
    → Sets expiration (λ v. go.parse_time expiration ≡ some v) between new
    → ((expiration ≡ []) × Sets duration (Lasts go now duration) old new)
      ⊎ ((duration ≡ []) × (expiration ≢ []) × (go.parse_time expiration ≡ some new))
expiration-parts go now d e old between new one (inl (no_d, same)) (inl (no_e, same')) =
    inl (no_e, inl (no_d, same' ∙ same))
expiration-parts go now d e old between new one (inl (no_d, same)) (inr (has_e, says)) =
    inr (no_d, has_e, says)
expiration-parts go now d e old between new one (inr (has_d, says)) (inl (no_e, same')) =
    inl (no_e, inr (has_d, subst (Lasts go now d) (sym same') (after-Lasts go now d between says)))
expiration-parts go now d e old between new one (inr (has_d, says)) (inr (has_e, says')) =
    absurd (one_given d e one has_d has_e)

-- A PUT's query that is read has only allowed names and not both of duration and expiration. A text
-- for the last time or the expiration is read as a time; one for the duration puts the expiration its
-- whole seconds, cut off towards zero, behind `now`, with the wrap-around of int64; one for the
-- return code is read as an IPv4 address; source, scenario and action are taken as they are; and what
-- has an empty text stays as it was.
pub read_fields_ok :
    (go : Go) (now : ℤ) (r : Request) (f g : Fields)
    → read_fields go now r f ≡ ok g
    → IsRead go now r f g
read_fields_ok go now r f g h =
    let (allowed, one, last, (between, after, until), source, scenario, action, code) =
      read_fields-parts go now r f g h in
    record {
      allowed = allowed;
      last_seen = set_time-Sets _ _ go.parse_time f.last_seen g.last_seen last;
      expiration =
          expiration-parts go now _ _ f.expiration between g.expiration one
            (set_time-Sets _ _ (expiration_after go now) f.expiration between after)
            (set_time-Sets _ _ go.parse_time between g.expiration until);
      source = if-Sets _ f.source _ g.source source;
      scenario = if-Sets _ f.scenario _ g.scenario scenario;
      action = if-Sets _ f.action _ g.action action;
      return_code = if-Sets _ f.return_code _ g.return_code code;
    }
