-- ===== src/Key/Ipv6Key.antt =====
-- helpers.go: IPv6Key, the sixteen bytes of an address.
use open_blocklist.Base.{
  ℕ, zero, suc, ◌==◌, Bytes, Option, none, some, [], ◌∷◌, length, str_eq, ◌>>=◌, if◌then◌else◌, ◌≡◌,
  refl, arith, Bool-cases, ==_iff, str_eq_iff, inl, inr,
}
use open_blocklist.Key.{to16}
use open_blocklist.State.{Go}

abbrev zeros : ℕ → Bytes
zeros zero = []
zeros (suc n) = 0 ∷ zeros n

-- IPv6ToKey; no bytes are the nil that To16 returns.
unfoldable pub ipv6_to_key : Bytes → Bytes
unfolding to16 str_eq
ipv6_to_key ip = let ip16 = to16 ip in if str_eq ip16 [] then zeros 16 else ip16

-- KeyToIPv6
abbrev pub key_to_ipv6 : Bytes → Bytes
key_to_ipv6 key = key

-- IPv6StringToKey
unfoldable pub ipv6_string_to_key : Go → Bytes → Option Bytes
unfolding to16 str_eq
ipv6_string_to_key go s = do
  ip ← go.parse_ip s
  if str_eq (to16 ip) [] then none else some (to16 ip)

-- IPv6KeyToString
abbrev pub ipv6_key_to_string : Go → Bytes → Bytes
ipv6_key_to_string go key = go.ip_string key

sixteen-or-zeros :
    (ip : Bytes) → length ip ≡ 16 → length (if str_eq ip [] then zeros 16 else ip) ≡ 16
unfolding str_eq
sixteen-or-zeros [] h = refl
sixteen-or-zeros (x ∷ ip) h = h

-- A key has sixteen bytes, of whatever it is made.
pub length-ipv6_to_key : (ip : Bytes) → length (ipv6_to_key ip) ≡ 16
unfolding ipv6_to_key to16 str_eq
length-ipv6_to_key ip = elim (Bool-cases (length ip == 4)) [
  | inl four ↦ rw four (omega (arith, (==_iff (length ip) 4).0 four))
  | inr other ↦ elim (Bool-cases (length ip == 16)) [
    | inl sixteen ↦ rw (other, sixteen) (sixteen-or-zeros ip ((==_iff (length ip) 16).0 sixteen))
    | inr short ↦ rw (other, short) refl
  ]
]

-- The address of a key is turned into the key again.
pub ipv6_to_key-key_to_ipv6 : (key : Bytes) → length key ≡ 16 → ipv6_to_key (key_to_ipv6 key) ≡ key
unfolding ipv6_to_key to16
ipv6_to_key-key_to_ipv6 key h = ground (arith, h, str_eq_iff key [])
