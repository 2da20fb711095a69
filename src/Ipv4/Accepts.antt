-- ===== src/Ipv4/Accepts.antt =====
-- What IPv4StrToUint32 accepts: it is compared with a reference that splits the text at its dots.
use Prim.Native.Nat.{bit_or}
use open_blocklist.Base.{
  ℕ, zero, suc, ◌+◌, ◌-◌, ◌*◌, ◌^◌, ◌<◌, ◌≤◌, true, false, ◌&&◌, List, [], ◌∷◌, ◌++◌, Bytes, codes,
  Option, none, some, leb, ◌==◌, if◌then◌else◌, ◌>>=◌, split, push_byte, split_nonempty, ◌≡◌, ◌≢◌,
  refl, ap, ◌∙◌, arith,
}
use native.Mathlib.Nat.{pow-suc}
use native.Mathlib.Numerals.{add-one}
use open_blocklist.Ipv4.{shl32, scan, ipv4_str_to_uint32, is_ipv4, append_uint8}
use open_blocklist.Ipv4.RoundTrip.{
  shift_in, pack, scan-append_uint8, scan_dot, scan_end, first_octet,
}

-- The value of a part, continued from a value: digits only, and at most 255 in the end. The empty
-- part counts as the value so far.
octet_from : ℕ → Bytes → Option ℕ
octet_from n [] = if leb n 255 then some n else none
octet_from n (c ∷ s) =
    let rest = octet_from (n * 10 + (c - b'0')) s in if leb b'0' c && leb c b'9' then rest else none

pub octet : Bytes → Option ℕ
octet = octet_from 0

four : List Bytes → Option ℕ
four (a ∷ b ∷ c ∷ d ∷ []) = do
  x ← octet a
  y ← octet b
  z ← octet c
  w ← octet d
  some (pack x y z w)
four _ = none

-- The reference: exactly four parts between dots, each of them an octet.
pub dotted_quad : Bytes → Option ℕ
dotted_quad s = four (split s b'.')

abbrev pub or_zero : Option ℕ → ℕ
or_zero none = 0
or_zero (some n) = n

-- The parts that the loop still has to read: `dots` dots are read, the first part is under way.
rest_of : ℕ → ℕ → ℕ → List Bytes → Option ℕ
rest_of dots result o [] = none
rest_of dots result o (p ∷ []) =
    if dots == 3 then (do x ← octet_from o p; some (result * 256 + x)) else none
rest_of dots result o (p ∷ q ∷ ps) =
    let more = λ (x : ℕ). rest_of (dots + 1) (result * 256 + x) 0 (q ∷ ps) in
    if dots == 3 then none else (do x ← octet_from o p; more x)

octet_from_large : (p : Bytes) (n : ℕ) → 255 < n → octet_from n p ≡ none
unfolding octet_from
octet_from_large [] n h = ground arith
octet_from_large (c ∷ p) n h = ground (arith, octet_from_large p (n * 10 + (c - b'0')))

bound_le : (dots : ℕ) → dots ≤ 3 → 256 ^ dots ≤ 2 ^ 24
bound_le zero h = omega arith
bound_le (suc zero) h = omega arith
bound_le (suc (suc zero)) h = omega arith
bound_le (suc (suc (suc zero))) h = omega arith
bound_le (suc (suc (suc (suc n)))) h = absurd (omega arith)

bound_step : (dots r o : ℕ) → r < 256 ^ dots → o < 256 → r * 256 + o < 256 ^ (dots + 1)
bound_step dots r o hr ho = rw (add-one dots, pow-suc 256 dots) (omega arith)

module _ (c o : ℕ) (dots result : ℕ) where
  -- A digit in front of the first part goes into its octet.
  rest_of_digit :
      (parts : List Bytes)
      → parts ≢ []
      → b'0' ≤ c
      → c ≤ b'9'
      → rest_of dots result o (push_byte c parts) ≡ rest_of dots result (o * 10 + (c - b'0')) parts
  unfolding rest_of octet_from
  rest_of_digit [] h lo hi = absurd (h refl)
  rest_of_digit (p ∷ []) h lo hi = ground arith
  rest_of_digit (p ∷ q ∷ ps) h lo hi = ground arith

  -- Any other byte spoils it.
  rest_of_other :
      (parts : List Bytes)
      → parts ≢ []
      → leb b'0' c && leb c b'9' ≡ false
      → rest_of dots result o (push_byte c parts) ≡ none
  unfolding rest_of octet_from
  rest_of_other [] h k = absurd (h refl)
  rest_of_other (p ∷ []) h k = ground arith
  rest_of_other (p ∷ q ∷ ps) h k = ground arith

rest_of_large :
    (o dots result : ℕ) (parts : List Bytes) → 255 < o → rest_of dots result o parts ≡ none
unfolding rest_of
rest_of_large o dots result [] h = refl
rest_of_large o dots result (p ∷ []) h = ground (arith, octet_from_large p o h)
rest_of_large o dots result (p ∷ q ∷ ps) h = ground (arith, octet_from_large p o h)

rest_of_dot :
    (o dots result : ℕ) (parts : List Bytes)
    → o < 256
    → parts ≢ []
    → rest_of dots result o ([] ∷ parts)
      ≡ (if dots == 3 then none else rest_of (dots + 1) (result * 256 + o) 0 parts)
unfolding rest_of octet_from
rest_of_dot o dots result [] ho h = absurd (h refl)
rest_of_dot o dots result (q ∷ ps) ho h = ground arith

scan_lem :
    (s : Bytes) (result o dots : ℕ)
    → dots ≤ 3
    → o < 256
    → result < 256 ^ dots
    → scan s result o dots ≡ or_zero (rest_of dots result o (split s b'.'))
unfolding scan split
scan_lem [] result o dots hd ho hr =
    unfold rest_of octet_from in ground (arith, shift_in result o, bound_le dots hd)
scan_lem (c ∷ s) result o dots hd ho hr = ground (
  arith,
  shift_in result o,
  bound_le dots hd,
  bound_step dots result o,
  split_nonempty b'.' s,
  rest_of_digit c o dots result (split s b'.'),
  rest_of_other c o dots result (split s b'.'),
  rest_of_dot o dots result (split s b'.'),
  rest_of_large (o * 10 + (c - b'0')) dots result (split s b'.'),
  scan_lem s result (o * 10 + (c - b'0')) dots,
  scan_lem s (result * 256 + o) 0 (dots + 1),
)

rest_of-four : (parts : List Bytes) → parts ≢ [] → rest_of 0 0 0 parts ≡ four parts
unfolding rest_of four octet
rest_of-four [] h = absurd (h refl)
rest_of-four (a ∷ []) h = refl
rest_of-four (a ∷ b ∷ []) h = ground arith
rest_of-four (a ∷ b ∷ c ∷ []) h = ground arith
rest_of-four (a ∷ b ∷ c ∷ d ∷ []) h = ground arith
rest_of-four (a ∷ b ∷ c ∷ d ∷ e ∷ ps) h = ground arith

-- On every text IPv4StrToUint32 gives what the reference gives, and 0 where that refuses the text.
pub parse-eq-dotted_quad : (s : Bytes) → ipv4_str_to_uint32 s ≡ or_zero (dotted_quad s)
unfolding ipv4_str_to_uint32 dotted_quad
parse-eq-dotted_quad s =
    scan_lem s 0 0 0 (omega arith) (omega arith) (omega arith)
    ∙ ap or_zero (rest_of-four (split s b'.') (split_nonempty b'.' s))

bare_dots : (a : ℕ) → a < 256 → ipv4_str_to_uint32 (append_uint8 a ++ codes "...") ≡ pack a 0 0 0
unfolding ipv4_str_to_uint32
bare_dots a h =
    scan-append_uint8 a (codes "...") 0 0 h
    ∙ scan_dot (codes "..") 0 a 0 (omega arith)
    ∙ ap (λ x. scan (codes "..") x 0 1) (first_octet a h)
    ∙ scan_dot (codes ".") a 0 1 (omega arith)
    ∙ ap (λ x. scan (codes ".") x 0 2) (shift_in a 0 (omega arith) (omega arith))
    ∙ scan_dot [] (a * 256 + 0) 0 2 (omega arith)
    ∙ scan_end _ 0
    ∙ ap (λ x. bit_or (shl32 x 8) 0) (shift_in (a * 256 + 0) 0 (omega arith) (omega arith))
    ∙ shift_in _ 0 (omega arith) (omega arith)

-- IPv4StrToUint32 and IsIPv4 take a text with empty octets: an octet from 1 to 255 with three bare
-- dots behind it is read as that octet and three zeros.
pub bare_dots_accepted :
    (a : ℕ)
    → 0 < a
    → a < 256
    → (ipv4_str_to_uint32 (append_uint8 a ++ codes "...") ≡ pack a 0 0 0)
      × (is_ipv4 (append_uint8 a ++ codes "...") ≡ true)
unfolding is_ipv4
bare_dots_accepted a lo hi = (bare_dots a hi, rw (bare_dots a hi) (ground arith))
