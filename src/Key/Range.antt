-- ===== src/Key/Range.antt =====
-- The ranges of keys that prefixRangeEnd and etcdRange ask etcd for, against etcd's order of keys.
use open_blocklist.Base.{
  ◌<◌, ◌≢◌, Bool, true, false, ◌&&◌, ◌||◌, [], ◌∷◌, ◌++◌, none, some, Bytes, All, ltb, ◌==◌, str_eq,
  has_prefix, has_prefix-append, ◌≡◌, refl, ◌∙◌, arith, inl, inr, Option-cases,
}
use open_blocklist.Key.{bump_last, prefix_range_end, scan_range_end, rbl_prefix, cidr_to_etcd_key}

-- The order of keys in etcd: byte by byte, a proper prefix first.
pub str_lt : Bytes → Bytes → Bool
str_lt s [] = false
str_lt [] (d ∷ t) = true
str_lt (c ∷ s) (d ∷ t) = ltb c d || (c == d && str_lt s t)

pub str_le : Bytes → Bytes → Bool
str_le [] t = true
str_le (c ∷ s) [] = false
str_le (c ∷ s) (d ∷ t) = ltb c d || (c == d && str_le s t)

-- etcd's documented range: the keys from `key` on, up to `range_end` and without it; the end "\0"
-- stands for no end.
pub in_range : Bytes → Bytes → Bytes → Bool
in_range key range_end k = str_le key k && (str_eq range_end (0 ∷ []) || str_lt k range_end)

str_lt-nil : (s : Bytes) → str_lt s [] ≡ false
unfolding str_lt
str_lt-nil [] = refl
str_lt-nil (c ∷ s) = refl

-- A prefix of bytes ff only: every key behind it begins with it.
All-ff :
    (p k : Bytes)
    → All (λ b. b < 256) p
    → All (λ b. b < 256) k
    → bump_last p ≡ none
    → str_le p k ≡ has_prefix k p
unfolding str_le has_prefix bump_last
All-ff [] k hp hk e = refl
All-ff (c ∷ p) [] hp hk e = refl
All-ff (c ∷ p) (d ∷ k) (hc, hp) (hd, hk) e = ground (arith, All-ff p k hp hk)

between :
    (p k end : Bytes)
    → All (λ b. b < 256) p
    → All (λ b. b < 256) k
    → bump_last p ≡ some end
    → (str_le p k && str_lt k end) ≡ has_prefix k p
unfolding str_le str_lt has_prefix bump_last
between [] k end hp hk e = cc
between (c ∷ p) [] end hp hk e = refl
between (c ∷ p) (d ∷ k) [] hp hk e = ground arith
between (c ∷ p) (d ∷ k) (f ∷ end) (hc, hp) (hd, hk) e =
    ground (arith, All-ff p k hp hk, between p k end hp hk, str_lt-nil k)

bump_last_nonempty : (p : Bytes) → bump_last p ≢ some []
unfolding bump_last
bump_last_nonempty [] = cc
bump_last_nonempty (c ∷ p) = ground arith

-- The byte that was raised is not 0, so the end is never taken for "no end".
bump_last-end : (p end : Bytes) → bump_last p ≡ some end → str_eq end (0 ∷ []) ≡ false
unfolding bump_last str_eq
bump_last-end [] end e = cc
bump_last-end (c ∷ p) [] e = refl
bump_last-end (c ∷ p) (f ∷ []) e = ground (arith, bump_last_nonempty p)
bump_last-end (c ∷ p) (f ∷ g ∷ end) e = ground arith

range_end_none : (p : Bytes) → bump_last p ≡ none → prefix_range_end p ≡ 0 ∷ []
unfolding prefix_range_end
range_end_none p e = rw (e, prefix_range_end)

range_end_some : (p end : Bytes) → bump_last p ≡ some end → prefix_range_end p ≡ end
unfolding prefix_range_end
range_end_some p end e = rw (e, prefix_range_end)

-- A watch from a prefix to prefixRangeEnd of it is told of exactly the keys with that prefix,
-- whatever bytes the prefix has.
pub prefix_range_end_exact :
    (p k : Bytes)
    → All (λ b. b < 256) p
    → All (λ b. b < 256) k
    → in_range p (prefix_range_end p) k ≡ has_prefix k p
unfolding in_range
prefix_range_end_exact p k hp hk = elim (Option-cases (bump_last p)) [
  | inl e ↦ rw (range_end_none p e) (unfold str_eq in ground (arith, All-ff p k hp hk e))
  | inr (end, e) ↦ rw (range_end_some p end e, bump_last-end p end e) (between p k end hp hk e)
]

below_ff :
    (p k : Bytes) → All (λ b. b < 255) k → (str_le p k && str_lt k (p ++ 255 ∷ [])) ≡ has_prefix k p
unfolding str_le str_lt has_prefix
below_ff [] [] h = refl
below_ff [] (d ∷ k) (hd, hk) = ground arith
below_ff (c ∷ p) [] h = refl
below_ff (c ∷ p) (d ∷ k) (hd, hk) = ground (arith, below_ff p k hk)

ends_ff : (p : Bytes) → str_eq (p ++ 255 ∷ []) (0 ∷ []) ≡ false
unfolding str_eq
ends_ff [] = refl
ends_ff (c ∷ []) = ground arith
ends_ff (c ∷ d ∷ p) = ground arith

-- The range of etcdRange, from a prefix to the prefix and a byte ff, holds exactly the keys with that
-- prefix, if they hold no byte ff.
pub scan_range_exact :
    (p k : Bytes) → All (λ b. b < 255) k → in_range p (scan_range_end p) k ≡ has_prefix k p
unfolding in_range scan_range_end
scan_range_exact p k h = rw (ends_ff p) (below_ff p k h)

-- The watch on the prefix of addresses is also told of every key of a network that is made of bytes.
pub watch_range_holds_networks :
    (cidr : Bytes)
    → All (λ b. b < 256) (cidr_to_etcd_key cidr)
    → in_range rbl_prefix (prefix_range_end rbl_prefix) (cidr_to_etcd_key cidr) ≡ true
watch_range_holds_networks cidr h =
    prefix_range_end_exact rbl_prefix (cidr_to_etcd_key cidr) (omega arith) h
    ∙ unfold cidr_to_etcd_key in has_prefix-append rbl_prefix _
