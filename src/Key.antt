-- ===== src/Key.antt =====
-- helpers.go and etcd.go: the etcd keys of an address and of a network, and the ranges of keys that
-- are read and watched. A net.IP is its bytes, four or sixteen.
pub mod RoundTrip
pub mod Range
pub mod Injective
pub mod Ipv6Key
use open_blocklist.Base.{
  ℕ, ◌+◌, ◌-◌, ◌/◌, ◌%◌, ◌&&◌, List, [], ◌∷◌, ◌++◌, map, Option, none, some, Bytes, codes, ltb,
  ◌==◌, if◌then◌else◌, length, take, drop, str_eq, split, join, has_prefix, replace_all,
}
use mathlib.Core.Option
use open_blocklist.Ipv4.{decimal}

-- The first twelve bytes of an IPv4 address in its sixteen-byte form: ten zeros and ff ff.
abbrev pub v4_in_v6 : Bytes
v4_in_v6 = 0 ∷ 0 ∷ 0 ∷ 0 ∷ 0 ∷ 0 ∷ 0 ∷ 0 ∷ 0 ∷ 0 ∷ 255 ∷ 255 ∷ []

-- net.IP.To4: four bytes, or sixteen that begin in this way.
unfoldable pub to4 : Bytes → Option Bytes
unfolding str_eq
to4 ip =
    if length ip == 4
    then some ip
    else if length ip == 16 && str_eq (take 12 ip) v4_in_v6
    then some (drop 12 ip)
    else none

-- net.IP.To16; no bytes stand for nil.
unfoldable pub to16 : Bytes → Bytes
to16 ip = if length ip == 4 then v4_in_v6 ++ ip else if length ip == 16 then ip else []

-- ipv4Parts: what it returns where To4 is not nil; `none` where it is, and indexing would panic.
unfoldable pub ipv4_parts : Bytes → Option (List Bytes)
unfolding to4
ipv4_parts ip = Option.map (map decimal) (to4 ip)

unfoldable pub hex_digit : ℕ → ℕ
hex_digit n = if ltb n 10 then b'0' + n else b'a' + (n - 10)

-- hex.EncodeToString, one text for each digit.
unfoldable pub nibbles : Bytes → List Bytes
nibbles [] = []
nibbles (b ∷ bs) = (hex_digit (b / 16) ∷ []) ∷ (hex_digit (b % 16) ∷ []) ∷ nibbles bs

unfoldable pub ipv6_nibbles : Bytes → List Bytes
unfolding to16
ipv6_nibbles ip = nibbles (to16 ip)

abbrev pub sky_dns_prefix : Bytes
sky_dns_prefix = codes "/skydns"

abbrev pub rbl_prefix : Bytes
rbl_prefix = sky_dns_prefix ++ codes "/internal/open-blocklist"

abbrev pub cidr_prefix : Bytes
cidr_prefix = rbl_prefix ++ codes "-cidr"

-- The path segments of an address: four decimal numbers, or 32 hexadecimal digits.
unfoldable pub key_parts : Bytes → List Bytes
key_parts ip = elim (ipv4_parts ip) [ some p ↦ p | none ↦ ipv6_nibbles ip ]

unfoldable pub rbl_key : Bytes → Bytes
rbl_key ip = elim (ipv4_parts ip) [
  | some p ↦ rbl_prefix ++ (b'/' ∷ join p b'/')
  | none ↦ rbl_prefix ++ (b'/' ∷ join (ipv6_nibbles ip) b'/')
]

unfoldable pub reverse_key : Bytes → Bytes
reverse_key ip = elim (ipv4_parts ip) [
  | some p ↦ sky_dns_prefix ++ (codes "/arpa/in-addr/" ++ join p b'/')
  | none ↦ sky_dns_prefix ++ (codes "/arpa/ip6/" ++ join (ipv6_nibbles ip) b'/')
]

-- The last n elements.
abbrev pub last_n {ℓ} : {A : Type ℓ} → ℕ → List A → List A
last_n n xs = drop (length xs - n) xs

-- ipFromKey behind its split, over net.ParseIP: the empty text if there is no address in the key.
unfoldable pub address_of : (Bytes → Option Bytes) → List Bytes → Bytes
address_of parse_ip parts =
    let ip = join (last_n 4 parts) b'.' in
    if ltb (length parts) 4 then [] else elim (parse_ip ip) [ some _ ↦ ip | none ↦ [] ]

unfoldable pub ip_from_key : (Bytes → Option Bytes) → Bytes → Bytes
unfolding address_of
ip_from_key parse_ip key = address_of parse_ip (split key b'/')

unfoldable pub cidr_to_etcd_key : Bytes → Bytes
cidr_to_etcd_key cidr = cidr_prefix ++ (b'/' ∷ replace_all cidr b'/' b'_')

-- The empty text if the key is not below the prefix.
unfoldable pub cidr_from_etcd_key : Bytes → Bytes
cidr_from_etcd_key key =
    let prefix = cidr_prefix ++ b'/' ∷ [] in
    if has_prefix key prefix then replace_all (drop (length prefix) key) b'_' b'/' else []

-- The loop of prefixRangeEnd from the last byte down, on the bytes in reverse: `none` if all are ff.
unfoldable pub bump_last : Bytes → Option Bytes
bump_last [] = none
bump_last (c ∷ s) = elim (bump_last s) [
  | some t ↦ some (c ∷ t)
  | none ↦ if ltb c 255 then some ((c + 1) ∷ []) else none
]

unfoldable pub prefix_range_end : Bytes → Bytes
unfolding bump_last
prefix_range_end prefix = elim (bump_last prefix) [ some end ↦ end | none ↦ 0 ∷ [] ]

-- The end of the range that etcdRange asks for: prefix + "\xff".
unfoldable pub scan_range_end : Bytes → Bytes
scan_range_end prefix = prefix ++ 255 ∷ []
