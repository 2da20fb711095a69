-- ===== src/Ipv4.antt =====
-- helpers.go: the conversions between dotted IPv4 text, uint32 and bytes. A uint32 is a number below
-- 2 ^ 32, with every shift wrapped; a Go byte is a number below 256.
pub mod Bounds
pub mod RoundTrip
pub mod Accepts
use Prim.Native.Nat.{bit_or}
use open_blocklist.Base.{
  ℕ, ◌+◌, ◌-◌, ◌*◌, ◌/◌, ◌%◌, ◌^◌, Bool, ◌&&◌, ◌||◌, not, [], ◌∷◌, ◌++◌, Bytes, codes, ltb, leb,
  ◌==◌, str_eq, if◌then◌else◌,
}

-- v >> k and v << k of a uint32, and the conversion to a byte.
abbrev pub shr : ℕ → ℕ → ℕ
shr v k = v / 2 ^ k

abbrev pub shl32 : ℕ → ℕ → ℕ
shl32 v k = v * 2 ^ k % 2 ^ 32

abbrev pub to_byte : ℕ → ℕ
to_byte v = v % 256

-- The loop of IPv4StrToUint32 over the bytes left, with its variables result, octet and dots.
unfoldable pub scan : Bytes → ℕ → ℕ → ℕ → ℕ
scan [] result octet dots = if not (dots == 3) then 0 else bit_or (shl32 result 8) octet
scan (c ∷ s) result octet dots =
    let octet' = (octet * 10 + (c - b'0')) % 2 ^ 32 in
    let digit = scan s result octet' dots in
    let dot = scan s (bit_or (shl32 result 8) octet) 0 (dots + 1) in
    if leb b'0' c && leb c b'9'
    then (if ltb 255 octet' then 0 else digit)
    else if c == b'.'
    then (if dots == 3 then 0 else dot)
    else 0

unfoldable pub ipv4_str_to_uint32 : Bytes → ℕ
unfolding scan
ipv4_str_to_uint32 s = scan s 0 0 0

unfoldable pub is_ipv4 : Bytes → Bool
is_ipv4 s = not (ipv4_str_to_uint32 s == 0) || str_eq s (codes "0.0.0.0")

-- The bytes that appendUint8 writes into its buffer; the count that it returns is their number.
unfoldable pub append_uint8 : ℕ → Bytes
append_uint8 v =
    if leb 100 v
    then (b'0' + v / 100) ∷ (b'0' + v / 10 % 10) ∷ (b'0' + v % 10) ∷ []
    else if leb 10 v
    then (b'0' + v / 10) ∷ (b'0' + v % 10) ∷ []
    else (b'0' + v) ∷ []

unfoldable pub uint32_to_ipv4_str : ℕ → Bytes
uint32_to_ipv4_str n =
    append_uint8 (to_byte (shr n 24))
    ++ (b'.'
        ∷ (append_uint8 (to_byte (shr n 16))
            ++ (b'.' ∷ (append_uint8 (to_byte (shr n 8)) ++ (b'.' ∷ append_uint8 (to_byte n))))))

-- fmt's %d for a byte.
unfoldable pub decimal : ℕ → Bytes
decimal v =
    if ltb v 10
    then (b'0' + v) ∷ []
    else if ltb v 100
    then (b'0' + v / 10) ∷ (b'0' + v % 10) ∷ []
    else (b'0' + v / 100) ∷ (b'0' + v / 10 % 10) ∷ (b'0' + v % 10) ∷ []

unfoldable pub uint32_to_ipv4 : ℕ → Bytes
uint32_to_ipv4 v =
    decimal (to_byte (shr v 24))
    ++ (b'.'
        ∷ (decimal (to_byte (shr v 16))
            ++ (b'.' ∷ (decimal (to_byte (shr v 8)) ++ (b'.' ∷ decimal (to_byte v))))))

-- A Go [4]byte.
pub record Quad : Type 0 where
  pub b0 : ℕ
  pub b1 : ℕ
  pub b2 : ℕ
  pub b3 : ℕ

unfoldable pub uint32_to_ipv4_bytes : ℕ → Quad
uint32_to_ipv4_bytes v = record {
  b0 = to_byte (shr v 24);
  b1 = to_byte (shr v 16);
  b2 = to_byte (shr v 8);
  b3 = to_byte v;
}

unfoldable pub ipv4_bytes_to_uint32 : Quad → ℕ
ipv4_bytes_to_uint32 b =
    bit_or (bit_or (bit_or (shl32 b.b0 24) (shl32 b.b1 16)) (shl32 b.b2 8)) b.b3
