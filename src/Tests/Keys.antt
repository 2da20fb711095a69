-- ===== src/Tests/Keys.antt =====
-- Keys and ranges of keys in etcd.
use open_blocklist.Base.{
  Bytes, codes, Option, none, some, [], ◌∷◌, ◌++◌, str_eq, has_prefix, if◌then◌else◌, ◌≡◌, refl,
  arith, join,
}
use open_blocklist.Ipv4.{decimal}
use open_blocklist.Ipv4.RoundTrip.{dotted}
use open_blocklist.Key.{v4_in_v6, rbl_key, prefix_range_end, ipv4_parts}
use open_blocklist.Key.RoundTrip.{IsIp}
use open_blocklist.Key.Injective.{rbl_key-injective}
use open_blocklist.Key.Range.{in_range, prefix_range_end_exact}

abbrev prefix : Bytes
prefix = 47 ∷ 255 ∷ []

abbrev key : Bytes
key = 47 ∷ 255 ∷ 0 ∷ []

-- The reading of addresses that the loads and watches use, for one address.
abbrev parse_one : Bytes → Option Bytes
parse_one s = if str_eq s (dotted 203 0 113 200) then some (203 ∷ 0 ∷ 113 ∷ 200 ∷ []) else none

abbrev ip : Bytes
ip = v4_in_v6 ++ (203 ∷ 0 ∷ 113 ∷ 200 ∷ [])

ip-IsIp : IsIp ip
ip-IsIp = (refl, grind arith)

abbrev network : Bytes
network = codes "10.0.0.0/8"

rbl_key-injective_example : ip ≡ ip
rbl_key-injective_example = rbl_key-injective ip ip (ip-IsIp) (ip-IsIp) refl

prefix_range_end_exact_example :
    in_range prefix (prefix_range_end prefix) key ≡ has_prefix key prefix
prefix_range_end_exact_example = prefix_range_end_exact prefix key (grind arith) (grind arith)

v4_key : rbl_key (1 ∷ 2 ∷ 3 ∷ 40 ∷ []) ≡ codes "/skydns/internal/open-blocklist/1/2/3/40"
unfolding rbl_key ipv4_parts decimal join
v4_key = refl

watch_range : prefix_range_end (codes "/a/b") ≡ codes "/a/c"
unfolding prefix_range_end
watch_range = refl
