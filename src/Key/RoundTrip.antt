-- ===== src/Key/RoundTrip.antt =====
-- helpers.go and etcd.go: the etcd keys of addresses and networks, and what is read back from them.
use open_blocklist.Base.{
  ℕ, ◌<◌, ◌≢◌, List, [], ◌∷◌, ◌++◌, Option, none, some, Bytes, codes, length, take,
  take-append-drop, length-drop, All-drop, str_eq_iff, All, Lacks, split, join, split-join,
  has_prefix, replace_all, ◌≡◌, refl, ap, ◌∙◌, arith, inl, inr, Option-cases,
}
use open_blocklist.Ipv4.{decimal}
use open_blocklist.Ipv4.RoundTrip.{dotted, append_uint8-eq-decimal}
use open_blocklist.Key.{
  to4, hex_digit, ipv4_parts, rbl_prefix, v4_in_v6, rbl_key, ip_from_key, address_of, cidr_prefix,
  cidr_to_etcd_key, cidr_from_etcd_key,
}

-- Replacing a byte and replacing it back, in a text that does not hold the new byte.
replace_all_back :
    (s : Bytes) (old new : ℕ) → Lacks new s → replace_all (replace_all s old new) new old ≡ s
unfolding replace_all
replace_all_back [] old new h = refl
replace_all_back (c ∷ s) old new (hc, hs) = ground (arith, replace_all_back s old new hs)

cidr_from_below :
    (rest : Bytes) → cidr_from_etcd_key (cidr_prefix ++ (b'/' ∷ rest)) ≡ replace_all rest b'_' b'/'
unfolding cidr_from_etcd_key has_prefix
cidr_from_below rest = refl

-- A network is read back from its etcd key, if its text holds no underscore.
pub cidr_from-cidr_to :
    (cidr : Bytes) → Lacks b'_' cidr → cidr_from_etcd_key (cidr_to_etcd_key cidr) ≡ cidr
unfolding cidr_to_etcd_key
cidr_from-cidr_to cidr h =
    cidr_from_below (replace_all cidr b'/' b'_') ∙ replace_all_back cidr b'/' b'_' h

pub decimal-Lacks : (b v : ℕ) → b < b'0' → v < 256 → Lacks b (decimal v)
unfolding decimal
decimal-Lacks b v hb hv = ground arith

-- The four segments of the key of every address.
abbrev pub rbl_segments : List Bytes
rbl_segments = [] ∷ codes "skydns" ∷ codes "internal" ∷ codes "open-blocklist" ∷ []

pub split_below_rbl :
    (rest : Bytes) → split (rbl_prefix ++ (b'/' ∷ rest)) b'/' ≡ rbl_segments ++ split rest b'/'
unfolding split
split_below_rbl rest = refl

module _ (a b c d : ℕ) (ha : a < 256) (hb : b < 256) (hc : c < 256) (hd : d < 256) where
  pub split-quad_key :
      split (rbl_key (a ∷ b ∷ c ∷ d ∷ [])) b'/'
      ≡ rbl_segments ++ (decimal a ∷ decimal b ∷ decimal c ∷ decimal d ∷ [])
  unfolding rbl_key ipv4_parts
  split-quad_key =
      split_below_rbl (join (decimal a ∷ decimal b ∷ decimal c ∷ decimal d ∷ []) b'/')
      ∙ ap (λ l. rbl_segments ++ l)
          (split-join b'/' (decimal a) (decimal b ∷ decimal c ∷ decimal d ∷ []) (
            decimal-Lacks b'/' a (omega arith) ha,
            (
              decimal-Lacks b'/' b (omega arith) hb,
              (decimal-Lacks b'/' c (omega arith) hc, (decimal-Lacks b'/' d (omega arith) hd, tt)),
            ),
          ))

  pub join-decimal : join (decimal a ∷ decimal b ∷ decimal c ∷ decimal d ∷ []) b'.' ≡ dotted a b c d
  unfolding join
  join-decimal = simp append_uint8-eq-decimal

  -- From the etcd key of an IPv4 address, of four octets below 256, ipFromKey gives back its dotted text, if net.ParseIP reads
  -- that text.
  pub ip_from_key-rbl_key :
      (parse_ip : Bytes → Option Bytes)
      → parse_ip (dotted a b c d) ≢ none
      → ip_from_key parse_ip (rbl_key (a ∷ b ∷ c ∷ d ∷ [])) ≡ dotted a b c d
  unfolding ip_from_key
  ip_from_key-rbl_key parse_ip h =
      ap (address_of parse_ip) split-quad_key
      ∙ unfold address_of in
        rw join-decimal (elim (Option-cases (parse_ip (dotted a b c d))) [
          | inl e ↦ absurd (h e)
          | inr (x, e) ↦ rw e join-decimal
        ])

-- A sixteen-byte address, as net.ParseIP returns it.
abbrev pub IsIp : Bytes → Type 0
IsIp ip = (length ip ≡ 16) × All (λ b. b < 256) ip

pub to4_inv :
    (ip v : Bytes)
    → IsIp ip
    → to4 ip ≡ some v
    → (ip ≡ v4_in_v6 ++ v) × (length v ≡ 4) × All (λ b. b < 256) v
unfolding to4
to4_inv ip v (h, small) e = ground (
  arith,
  str_eq_iff (take 12 ip) v4_in_v6,
  take-append-drop 12 ip,
  length-drop 12 ip,
  All-drop (λ b. b < 256) 12 ip small,
)

pub hex_digit-injective : (m n : ℕ) → m < 16 → n < 16 → hex_digit m ≡ hex_digit n → m ≡ n
unfolding hex_digit
hex_digit-injective m n hm hn e = ground arith

pub decimal-injective : (m n : ℕ) → m < 256 → n < 256 → decimal m ≡ decimal n → m ≡ n
unfolding decimal
decimal-injective m n hm hn e = ground arith

pub hex_digit-not_slash : (m : ℕ) → m < 16 → hex_digit m ≢ b'/'
unfolding hex_digit
hex_digit-not_slash m h = ground arith
