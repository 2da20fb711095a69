-- ===== src/Ipv4/RoundTrip.antt =====
-- Printing and reading IPv4 addresses, and packing them into a uint32.
use Prim.Native.Nat.{bit_or}
use open_blocklist.Base.{
  ℕ, ◌+◌, ◌-◌, ◌*◌, ◌/◌, ◌%◌, ◌^◌, ◌<◌, ◌≤◌, zero, suc, str_eq, true, [], ◌∷◌, ◌++◌, append-nil,
  Bytes, length, length-append, ◌≡◌, refl, sym, ◌∙◌, ap, arith,
}
use open_blocklist.Base.Bits.{bit_or_shift}
use open_blocklist.Ipv4.{
  shr, shl32, to_byte, scan, ipv4_str_to_uint32, is_ipv4, append_uint8, uint32_to_ipv4_str, decimal,
  uint32_to_ipv4, Quad, uint32_to_ipv4_bytes, ipv4_bytes_to_uint32,
}

scan_digit :
    (d : ℕ) (s : Bytes) (result octet dots : ℕ)
    → d < 10
    → octet * 10 + d < 256
    → scan ((b'0' + d) ∷ s) result octet dots ≡ scan s result (octet * 10 + d) dots
unfolding scan
scan_digit d s result octet dots h k =
    let e : (octet * 10 + (b'0' + d - b'0')) % 2 ^ 32 ≡ octet * 10 + d = omega arith in
    rw e (ground arith)

module _ (v : ℕ) (rest : Bytes) (result dots : ℕ) (h : v < 256) where
  scan_one : v < 10 → scan ((b'0' + v) ∷ rest) result 0 dots ≡ scan rest result v dots
  scan_one k =
      scan_digit v rest result 0 dots k (omega arith)
      ∙ ap (λ o. scan rest result o dots) (omega arith)

  scan_two :
      v < 100
      → scan ((b'0' + v / 10) ∷ (b'0' + v % 10) ∷ rest) result 0 dots ≡ scan rest result v dots
  scan_two k =
      scan_digit (v / 10) _ result 0 dots (omega arith) (omega arith)
      ∙ scan_digit (v % 10) rest result _ dots (omega arith) (omega arith)
      ∙ ap (λ o. scan rest result o dots) (omega arith)

  scan_three :
      scan ((b'0' + v / 100) ∷ (b'0' + v / 10 % 10) ∷ (b'0' + v % 10) ∷ rest) result 0 dots
      ≡ scan rest result v dots
  scan_three =
      scan_digit (v / 100) _ result 0 dots (omega arith) (omega arith)
      ∙ scan_digit (v / 10 % 10) _ result _ dots (omega arith) (omega arith)
      ∙ scan_digit (v % 10) rest result _ dots (omega arith) (omega arith)
      ∙ ap (λ o. scan rest result o dots) (omega arith)

  -- The loop reads the digits of a byte into the octet and goes on behind them.
  pub scan-append_uint8 : scan (append_uint8 v ++ rest) result 0 dots ≡ scan rest result v dots
  unfolding append_uint8
  scan-append_uint8 = ground (arith, scan_one, scan_two, scan_three)

or8 : (a b : ℕ) → b < 256 → bit_or (a * 256) b ≡ a * 256 + b
or8 a b h = bit_or_shift 8 a b h

-- Shifting an octet in.
pub shift_in : (r o : ℕ) → r < 2 ^ 24 → o < 256 → bit_or (shl32 r 8) o ≡ r * 256 + o
shift_in r o hr ho = let e : r * 256 % 2 ^ 32 ≡ r * 256 = omega arith in rw e (or8 r o ho)

pub scan_dot :
    (s : Bytes) (result octet dots : ℕ)
    → dots < 3
    → scan (b'.' ∷ s) result octet dots ≡ scan s (bit_or (shl32 result 8) octet) 0 (dots + 1)
unfolding scan
scan_dot s result octet dots h = ground arith

pub scan_end : (result octet : ℕ) → scan [] result octet 3 ≡ bit_or (shl32 result 8) octet
unfolding scan
scan_end result octet = refl

-- The number that four octets spell.
abbrev pub pack : ℕ → ℕ → ℕ → ℕ → ℕ
pack a b c d = ((a * 256 + b) * 256 + c) * 256 + d

-- A dotted text of four printed octets, as uint32_to_ipv4_str writes it.
abbrev pub dotted : ℕ → ℕ → ℕ → ℕ → Bytes
dotted a b c d =
    append_uint8 a
    ++ (b'.' ∷ (append_uint8 b ++ (b'.' ∷ (append_uint8 c ++ (b'.' ∷ append_uint8 d)))))

-- One octet and the dot behind it.
scan_octet :
    (v : ℕ) (rest : Bytes) (r dots : ℕ)
    → v < 256
    → r < 2 ^ 24
    → dots < 3
    → scan (append_uint8 v ++ (b'.' ∷ rest)) r 0 dots ≡ scan rest (r * 256 + v) 0 (dots + 1)
scan_octet v rest r dots hv hr hd =
    scan-append_uint8 v _ r dots hv
    ∙ scan_dot rest r v dots hd
    ∙ ap (λ x. scan rest x 0 (dots + 1)) (shift_in r v hr hv)

scan_last : (v r : ℕ) → v < 256 → r < 2 ^ 24 → scan (append_uint8 v) r 0 3 ≡ r * 256 + v
scan_last v r hv hr =
    ap (λ s. scan s r 0 3) (sym (append-nil (append_uint8 v)))
    ∙ scan-append_uint8 v [] r 3 hv
    ∙ scan_end r v
    ∙ shift_in r v hr hv

pub first_octet : (a : ℕ) → a < 256 → bit_or (shl32 0 8) a ≡ a
first_octet a h = shift_in 0 a (omega arith) h ∙ omega arith

-- Reading four printed octets gives the number that they spell.
pub scan-dotted :
    (a b c d : ℕ)
    → a < 256
    → b < 256
    → c < 256
    → d < 256
    → ipv4_str_to_uint32 (dotted a b c d) ≡ pack a b c d
unfolding ipv4_str_to_uint32
scan-dotted a b c d ha hb hc hd =
    let last = append_uint8 d in
    let third = append_uint8 c ++ (b'.' ∷ last) in
    let second = append_uint8 b ++ (b'.' ∷ third) in
    scan-append_uint8 a (b'.' ∷ second) 0 0 ha
    ∙ scan_dot second 0 a 0 (omega arith)
    ∙ ap (λ x. scan second x 0 1) (first_octet a ha)
    ∙ scan_octet b third a 1 hb (omega arith) (omega arith)
    ∙ scan_octet c last (a * 256 + b) 2 hc (omega arith) (omega arith)
    ∙ scan_last d ((a * 256 + b) * 256 + c) hd (omega arith)

-- IPv4StrToUint32 reads back every number below 2^32 that Uint32ToIPv4Str prints.
pub parse-print : (n : ℕ) → n < 2 ^ 32 → ipv4_str_to_uint32 (uint32_to_ipv4_str n) ≡ n
unfolding uint32_to_ipv4_str
parse-print n h =
    scan-dotted (to_byte (shr n 24)) (to_byte (shr n 16)) (to_byte (shr n 8)) (to_byte n)
      (omega arith) (omega arith) (omega arith) (omega arith)
    ∙ omega arith

-- IsIPv4 accepts the printed form of every uint32, 0.0.0.0 included.
pub is_ipv4-print : (n : ℕ) → n < 2 ^ 32 → is_ipv4 (uint32_to_ipv4_str n) ≡ true
unfolding is_ipv4
is_ipv4-print zero h = unfold uint32_to_ipv4_str append_uint8 str_eq ipv4_str_to_uint32 scan in refl
is_ipv4-print (suc n) h = rw (parse-print (suc n) h) (ground arith)

length-append_uint8 : (v : ℕ) → (1 ≤ length (append_uint8 v)) × (length (append_uint8 v) ≤ 3)
unfolding append_uint8
length-append_uint8 v = ground arith

length-dotted :
    (a b c d : ℕ)
    → length (dotted a b c d)
      ≡ length (append_uint8 a)
        + (length (append_uint8 b) + (length (append_uint8 c) + length (append_uint8 d)))
        + 3
length-dotted a b c d = simp length-append (omega arith)

-- Uint32ToIPv4Str fits its buffer of 15 bytes: no write is out of range.
pub print_fits :
    (n : ℕ) → (length (uint32_to_ipv4_str n) ≤ 15) × (7 ≤ length (uint32_to_ipv4_str n))
unfolding uint32_to_ipv4_str
print_fits n = ground (
  arith,
  length-dotted (to_byte (shr n 24)) (to_byte (shr n 16)) (to_byte (shr n 8)) (to_byte n),
  length-append_uint8 (to_byte (shr n 24)),
  length-append_uint8 (to_byte (shr n 16)),
  length-append_uint8 (to_byte (shr n 8)),
  length-append_uint8 (to_byte n),
)

pub append_uint8-eq-decimal : (v : ℕ) → append_uint8 v ≡ decimal v
unfolding append_uint8 decimal
append_uint8-eq-decimal v = ground arith

-- The two printers agree: the hand-written one and fmt's "%d.%d.%d.%d".
pub print_agree : (n : ℕ) → uint32_to_ipv4_str n ≡ uint32_to_ipv4 n
unfolding uint32_to_ipv4_str uint32_to_ipv4
print_agree n = simp append_uint8-eq-decimal

pub record IsQuad (b : Quad) : Type 0 where
  pub small0 : b.b0 < 256
  pub small1 : b.b1 < 256
  pub small2 : b.b2 < 256
  pub small3 : b.b3 < 256

-- The four bytes stand at 24, 16, 8 and 0 bits.
pack_lem : (b : Quad) → IsQuad b → ipv4_bytes_to_uint32 b ≡ pack b.b0 b.b1 b.b2 b.b3
unfolding ipv4_bytes_to_uint32
pack_lem b h =
    let e0 : shl32 b.b0 24 ≡ b.b0 * 2 ^ 24 = omega arith in
    let e1 : shl32 b.b1 16 ≡ b.b1 * 2 ^ 16 = omega arith in
    let e2 : shl32 b.b2 8 ≡ b.b2 * 2 ^ 8 = omega arith in
    let f1 : b.b0 * 2 ^ 24 + b.b1 * 2 ^ 16 ≡ (b.b0 * 256 + b.b1) * 2 ^ 16 = omega arith in
    let f2 : (b.b0 * 256 + b.b1) * 2 ^ 16 + b.b2 * 2 ^ 8
        ≡ ((b.b0 * 256 + b.b1) * 256 + b.b2) * 2 ^ 8 =
      omega arith in
    ap (λ x. bit_or (bit_or (bit_or x (shl32 b.b1 16)) (shl32 b.b2 8)) b.b3) e0
    ∙ ap (λ x. bit_or (bit_or (bit_or (b.b0 * 2 ^ 24) x) (shl32 b.b2 8)) b.b3) e1
    ∙ ap (λ x. bit_or (bit_or x (shl32 b.b2 8)) b.b3)
        (bit_or_shift 24 b.b0 (b.b1 * 2 ^ 16) (omega arith) ∙ f1)
    ∙ ap (λ x. bit_or (bit_or ((b.b0 * 256 + b.b1) * 2 ^ 16) x) b.b3) e2
    ∙ ap (λ x. bit_or x b.b3)
        (bit_or_shift 16 (b.b0 * 256 + b.b1) (b.b2 * 2 ^ 8) (omega arith) ∙ f2)
    ∙ bit_or_shift 8 ((b.b0 * 256 + b.b1) * 256 + b.b2) b.b3 (omega arith)

-- The four bytes of a number below 2^32 pack to it again.
pub pack-unpack : (v : ℕ) → v < 2 ^ 32 → ipv4_bytes_to_uint32 (uint32_to_ipv4_bytes v) ≡ v
unfolding uint32_to_ipv4_bytes
pack-unpack v h = pack_lem _ (omega arith) ∙ omega arith

-- Four bytes, each below 256, are unpacked from the uint32 that they pack to.
pub unpack-pack : (b : Quad) → IsQuad b → uint32_to_ipv4_bytes (ipv4_bytes_to_uint32 b) ≡ b
unpack-pack b h = rw (pack_lem b h) (unfold uint32_to_ipv4_bytes in ground arith)
