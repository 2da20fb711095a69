-- ===== src/Ipv4/Bounds.antt =====
-- helpers.go: IPv4StrToUint32 gives a uint32.
use open_blocklist.Base.{ℕ, ◌+◌, ◌*◌, ◌%◌, ◌^◌, ◌<◌, ◌-◌, Bytes, [], ◌∷◌, ◌≡◌, arith}
use open_blocklist.Base.Bits.{bit_or_shift}
use Prim.Native.Nat.{bit_or}
use open_blocklist.Ipv4.{shl32, scan, ipv4_str_to_uint32}

append_octet-fits : (r o : ℕ) → o < 256 → bit_or (shl32 r 8) o < 2 ^ 32
append_octet-fits r o h =
    let shifted : r * 2 ^ 8 % 2 ^ 32 ≡ (r % 2 ^ 24) * 2 ^ 8 = omega arith in
    rw (shifted, bit_or_shift 8 (r % 2 ^ 24) o h) (omega (arith, h))

scan-fits : (s : Bytes) (r o d : ℕ) → o < 256 → scan s r o d < 2 ^ 32
unfolding scan
scan-fits [] r o d h = ground (arith, append_octet-fits r o h)
scan-fits (c ∷ s) r o d h = ground (
  arith,
  scan-fits s r ((o * 10 + (c - b'0')) % 2 ^ 32) d,
  scan-fits s (bit_or (shl32 r 8) o) 0 (d + 1) (omega arith),
)

pub ipv4_str_to_uint32-fits : (s : Bytes) → ipv4_str_to_uint32 s < 2 ^ 32
unfolding ipv4_str_to_uint32
ipv4_str_to_uint32-fits s = scan-fits s 0 0 0 (omega arith)
