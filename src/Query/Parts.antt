-- ===== src/Query/Parts.antt =====
-- The steps of the reading of a query that is accepted.
use open_blocklist.Base.{
  Bytes, codes, Bool, true, false, ◌&&◌, not, List, [], ◌∷◌, ◌++◌, All, str_eq, if◌then◌else◌, ◌≡◌,
  refl, ap, sym, subst, ◌∙◌,
}
use open_blocklist.Base.Int.{ℤ}
use open_blocklist.Ipv4.{ipv4_str_to_uint32}
use open_blocklist.State.{Go}
use open_blocklist.Http.{Request, query_get}
use open_blocklist.Query.{
  Outcome, ok, fail, ◌>>=◌, allowed_put_params, is_in, check_params, Fields, or_keep, set_time,
  expiration_after, read_fields,
}

abbrev IsOk {ℓ} : {A : Type ℓ} → Outcome A → Type 0
IsOk (ok a) = Unit
IsOk (fail m) = ⊥

pub fail≢ok {ℓ} : {A : Type ℓ} (m : Bytes) (a : A) → fail m ≡ ok a → ⊥
fail≢ok m a h = subst IsOk (sym h) tt

pub ok-injective {ℓ} : {A : Type ℓ} (a b : A) → ok a ≡ ok b → a ≡ b
ok-injective a b h = cc

check_step :
    (allowed : Bool) (q : List (Bytes × Bytes)) (m : Bytes)
    → IsOk (if allowed then check_params q else fail m)
    → (allowed ≡ true) × IsOk (check_params q)
check_step true q m h = (refl, h)
check_step false q m h = absurd h

-- The check accepts only queries all of whose names are allowed.
check_params-allowed :
    (q : List (Bytes × Bytes))
    → IsOk (check_params q)
    → All (λ (p : Bytes × Bytes). is_in p.0 allowed_put_params ≡ true) q
unfolding check_params
check_params-allowed [] h = tt
check_params-allowed ((k, v) ∷ q) h =
    let (this, rest) =
      check_step (is_in k allowed_put_params) q (codes "Invalid parameter: " ++ k) h in
    (this, check_params-allowed q rest)

-- A step of the reading that ends well: both its parts did.
bind-ok {ℓ κ} :
    {A : Type ℓ} {B : Type κ} (o : Outcome A) (f : A → Outcome B) (b : B)
    → (o >>= f) ≡ ok b
    → (a : A) × (o ≡ ok a) × (f a ≡ ok b)
bind-ok (ok a) f b h = (a, refl, h)
bind-ok (fail m) f b h = absurd (fail≢ok m b h)

if-ok {ℓ} :
    {A : Type ℓ} (refused : Bool) (m : Bytes) (o : Outcome A) (a : A)
    → (if refused then fail m else o) ≡ ok a
    → (refused ≡ false) × (o ≡ ok a)
if-ok true m o a h = absurd (fail≢ok m a h)
if-ok false m o a h = (refl, h)

-- What each step of the reading gave.
pub read_fields-parts :
    (go : Go) (now : ℤ) (r : Request) (f g : Fields)
    → read_fields go now r f ≡ ok g
    → All (λ (p : Bytes × Bytes). is_in p.0 allowed_put_params ≡ true) r.query
      × ((not (str_eq (query_get (codes "duration") r) [])
            && not (str_eq (query_get (codes "expiration") r) []))
          ≡ false)
      × (set_time
            (query_get (codes "last_seen") r)
            (codes "Invalid last_seen timestamp")
            go.parse_time
            f.last_seen
          ≡ ok g.last_seen)
      × ((after : ℤ) × (set_time
              (query_get (codes "duration") r)
              (codes "Invalid duration")
              (expiration_after go now)
              f.expiration
            ≡ ok after)
          × (set_time
                (query_get (codes "expiration") r)
                (codes "Invalid expiration timestamp")
                go.parse_time
                after
              ≡ ok g.expiration))
      × (g.source ≡ or_keep (query_get (codes "source") r) f.source)
      × (g.scenario ≡ or_keep (query_get (codes "scenario") r) f.scenario)
      × (g.action ≡ or_keep (query_get (codes "action") r) f.action)
      × (g.return_code ≡ (
          if str_eq (query_get (codes "return_code") r) []
          then f.return_code
          else ipv4_str_to_uint32 (query_get (codes "return_code") r)))
unfolding read_fields
read_fields-parts go now r f g h =
    let (u, checked, h1) = bind-ok (check_params r.query) _ g h in
    let (one, h2) = if-ok _ _ _ g h1 in
    let (last_seen, eq_last, h3) = bind-ok _ _ g h2 in
    let (after, eq_after, h4) = bind-ok _ _ g h3 in
    let (until, eq_until, h5) = bind-ok _ _ g h4 in
    let same = ok-injective _ g h5 in
    (
      check_params-allowed r.query (subst IsOk (sym checked) tt),
      one,
      eq_last ∙ ap ok (ap (λ x. x.last_seen) same),
      (after, eq_after, eq_until ∙ ap ok (ap (λ x. x.expiration) same)),
      sym (ap (λ x. x.source) same),
      sym (ap (λ x. x.scenario) same),
      sym (ap (λ x. x.action) same),
      sym (ap (λ x. x.return_code) same),
    )
