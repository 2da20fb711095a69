-- ===== src/Key/Injective.antt =====
-- The keys that rblKey and reverseKey build determine the address.
use open_blocklist.Base.{
  length-map, ◌*◌, ◌/◌, ◌%◌, ◌<◌, List, [], ◌∷◌, ◌++◌, map, none, some, Bytes, length, All, Lacks,
  split, join, split-join, ◌≡◌, refl, ap, sym, ◌∙◌, arith, inl, inr, Option-cases,
}
use open_blocklist.Ipv4.{decimal}
use open_blocklist.Key.{
  to4, nibbles, ipv4_parts, ipv6_nibbles, rbl_key, key_parts, rbl_prefix, v4_in_v6,
}
use open_blocklist.Key.RoundTrip.{
  IsIp, to4_inv, decimal-Lacks, decimal-injective, hex_digit-injective, hex_digit-not_slash,
  split_below_rbl, rbl_segments,
}

cancel : {xs ys : List Bytes} → rbl_segments ++ xs ≡ rbl_segments ++ ys → xs ≡ ys
cancel e = cc

split_parts :
    (ps : List Bytes) → 0 < length ps → All (Lacks b'/') ps → split (join ps b'/') b'/' ≡ ps
split_parts [] h k = absurd (omega arith)
split_parts (p ∷ ps) h k = split-join b'/' p ps k

map-decimal-injective :
    (xs ys : Bytes)
    → All (λ b. b < 256) xs
    → All (λ b. b < 256) ys
    → map decimal xs ≡ map decimal ys
    → xs ≡ ys
map-decimal-injective [] [] hx hy e = refl
map-decimal-injective [] (y ∷ ys) hx hy e = cc
map-decimal-injective (x ∷ xs) [] hx hy e = cc
map-decimal-injective (x ∷ xs) (y ∷ ys) (hx, hxs) (hy, hys) e =
    cc (decimal-injective x y hx hy (cc), map-decimal-injective xs ys hxs hys (cc))

nibbles-injective :
    (xs ys : Bytes)
    → All (λ b. b < 256) xs
    → All (λ b. b < 256) ys
    → nibbles xs ≡ nibbles ys
    → xs ≡ ys
unfolding nibbles
nibbles-injective [] [] hx hy e = refl
nibbles-injective [] (y ∷ ys) hx hy e = cc
nibbles-injective (x ∷ xs) [] hx hy e = cc
nibbles-injective (x ∷ xs) (y ∷ ys) (hx, hxs) (hy, hys) e =
    let high : x / 16 ≡ y / 16 =
      hex_digit-injective (x / 16) (y / 16) (omega arith) (omega arith) (cc) in
    let low : x % 16 ≡ y % 16 =
      hex_digit-injective (x % 16) (y % 16) (omega arith) (omega arith) (cc) in
    let same : x ≡ y = omega arith in cc (nibbles-injective xs ys hxs hys (cc))

length-nibbles : (xs : Bytes) → length (nibbles xs) ≡ 2 * length xs
unfolding nibbles
length-nibbles [] = refl
length-nibbles (x ∷ xs) = omega (arith, length-nibbles xs)

map-decimal-Lacks : (xs : Bytes) → All (λ b. b < 256) xs → All (Lacks b'/') (map decimal xs)
map-decimal-Lacks [] h = tt
map-decimal-Lacks (x ∷ xs) (hx, hxs) =
    (decimal-Lacks b'/' x (omega arith) hx, map-decimal-Lacks xs hxs)

nibbles-Lacks : (xs : Bytes) → All (λ b. b < 256) xs → All (Lacks b'/') (nibbles xs)
unfolding nibbles
nibbles-Lacks [] h = tt
nibbles-Lacks (x ∷ xs) (hx, hxs) = (
  (hex_digit-not_slash (x / 16) (omega arith), tt),
  ((hex_digit-not_slash (x % 16) (omega arith), tt), nibbles-Lacks xs hxs),
)

-- The segments of an address by the form it has.
key_parts_v4 : (ip v : Bytes) → to4 ip ≡ some v → key_parts ip ≡ map decimal v
unfolding key_parts ipv4_parts
key_parts_v4 ip v e = rw (e, key_parts)

key_parts_v6 : (ip : Bytes) → IsIp ip → to4 ip ≡ none → key_parts ip ≡ nibbles ip
unfolding key_parts ipv4_parts ipv6_nibbles
key_parts_v6 ip h e = rw (e, key_parts) (ground (arith, h.0))

both_v4 :
    (ip jp v w : Bytes)
    → IsIp ip
    → IsIp jp
    → to4 ip ≡ some v
    → to4 jp ≡ some w
    → key_parts ip ≡ key_parts jp
    → ip ≡ jp
both_v4 ip jp v w hi hj a b e =
    let (ei, _, small_i) = to4_inv ip v hi a in
    let (ej, _, small_j) = to4_inv jp w hj b in
    let same : v ≡ w =
      map-decimal-injective v w small_i small_j
        (sym (key_parts_v4 ip v a) ∙ e ∙ key_parts_v4 jp w b) in
    ei ∙ ap (λ l. v4_in_v6 ++ l) same ∙ sym ej

both_v6 :
    (ip jp : Bytes)
    → IsIp ip
    → IsIp jp
    → to4 ip ≡ none
    → to4 jp ≡ none
    → key_parts ip ≡ key_parts jp
    → ip ≡ jp
both_v6 ip jp hi hj a b e =
    nibbles-injective ip jp hi.1 hj.1 (sym (key_parts_v6 ip hi a) ∙ e ∙ key_parts_v6 jp hj b)

-- Four segments are not thirty-two.
mixed :
    (ip jp w : Bytes)
    → IsIp ip
    → IsIp jp
    → to4 ip ≡ none
    → to4 jp ≡ some w
    → key_parts ip ≡ key_parts jp
    → ⊥
mixed ip jp w hi hj a b e =
    let same = sym (key_parts_v6 ip hi a) ∙ e ∙ key_parts_v4 jp w b in
    let (_, four, _) = to4_inv jp w hj b in
    omega (arith, ap length same, length-nibbles ip, length-map decimal w, four, hi.0)

-- Two addresses with the same segments are the same.
key_parts-injective : (ip jp : Bytes) → IsIp ip → IsIp jp → key_parts ip ≡ key_parts jp → ip ≡ jp
key_parts-injective ip jp hi hj e = elim (Option-cases (to4 ip)) [
  | inl a ↦ elim (Option-cases (to4 jp)) [
    | inl b ↦ both_v6 ip jp hi hj a b e
    | inr (w, b) ↦ absurd (mixed ip jp w hi hj a b e)
  ]
  | inr (v, a) ↦ elim (Option-cases (to4 jp)) [
    | inl b ↦ absurd (mixed jp ip v hj hi b a (sym e))
    | inr (w, b) ↦ both_v4 ip jp v w hi hj a b e
  ]
]

-- The segments hold no slash, and there is one.
split-join_parts : (ip : Bytes) → IsIp ip → split (join (key_parts ip) b'/') b'/' ≡ key_parts ip
split-join_parts ip h = elim (Option-cases (to4 ip)) [
  | inl a ↦
      rw (key_parts_v6 ip h a)
        (split_parts (nibbles ip) (omega (arith, length-nibbles ip, h.0)) (nibbles-Lacks ip h.1))
  | inr (v, a) ↦
      let (_, four, small) = to4_inv ip v h a in
      rw (key_parts_v4 ip v a) (
        split_parts (map decimal v) (omega (arith, length-map decimal v, four))
          (map-decimal-Lacks v small))
]

rbl_key_parts : (ip : Bytes) → rbl_key ip ≡ rbl_prefix ++ (b'/' ∷ join (key_parts ip) b'/')
unfolding rbl_key key_parts
rbl_key_parts ip = ground arith

split-rbl_key : (ip : Bytes) → IsIp ip → split (rbl_key ip) b'/' ≡ rbl_segments ++ key_parts ip
split-rbl_key ip h =
    ap (λ k. split k b'/') (rbl_key_parts ip)
    ∙ split_below_rbl (join (key_parts ip) b'/')
    ∙ ap (λ l. rbl_segments ++ l) (split-join_parts ip h)

-- Different addresses of sixteen bytes, IPv4 or IPv6, have different blocklist keys in etcd.
pub rbl_key-injective : (ip jp : Bytes) → IsIp ip → IsIp jp → rbl_key ip ≡ rbl_key jp → ip ≡ jp
rbl_key-injective ip jp hi hj e =
    key_parts-injective ip jp hi hj
      (cancel (sym (split-rbl_key ip hi) ∙ ap (λ k. split k b'/') e ∙ split-rbl_key jp hj))
