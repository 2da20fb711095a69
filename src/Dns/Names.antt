-- ===== src/Dns/Names.antt =====
-- The names of queries, and the addresses that they stand for.
use mathlib.Core.List.{reverse, reverse-cons}
use open_blocklist.Base.{
  append-nil, ℕ, zero, suc, ◌+◌, ◌*◌, ◌-◌, ◌<◌, ◌≤◌, Bytes, codes, List, [], ◌∷◌, ◌++◌, length,
  length-append, take, drop, length-drop, drop-length_append, trim_suffix, split, split-join, join,
  concat, All, ◌≡◌, refl, ap, sym, ◌∙◌, arith, str_eq_refl,
}
use open_blocklist.Ipv4.{decimal}
use open_blocklist.Ipv4.RoundTrip.{dotted}
use open_blocklist.Key.RoundTrip.{decimal-Lacks, join-decimal}
use open_blocklist.Dns.{
  address, rbl_zone, labels_of, rbl_labels, rbl_query_to_ip, ptr_query_to_ip, ptr_labels,
  nibble_address, panics, blocks,
}

take-length_append : (xs ys : Bytes) → take (length xs) (xs ++ ys) ≡ xs
take-length_append [] ys = refl
take-length_append (x ∷ xs) ys = ap (λ l. x ∷ l) (take-length_append xs ys)

-- A suffix that is there is cut off.
trim_suffix-append : (s suffix : Bytes) → trim_suffix (s ++ suffix) suffix ≡ s
unfolding trim_suffix
trim_suffix-append s suffix =
    let cut : length (s ++ suffix) - length suffix ≡ length s =
      omega (arith, length-append s suffix) in
    rw (cut, drop-length_append s suffix, str_eq_refl suffix) (take-length_append s suffix)

labels_of-append : (suffix s : Bytes) → labels_of suffix ((s ++ codes ".") ++ suffix) ≡ split s b'.'
unfolding labels_of
labels_of-append suffix s =
    rw (trim_suffix-append (s ++ codes ".") suffix, trim_suffix-append s (codes "."))

module _ (a b c d : ℕ) (ha : a < 256) (hb : b < 256) (hc : c < 256) (hd : d < 256) where
  split-dotted : split (dotted a b c d) b'.' ≡ decimal a ∷ decimal b ∷ decimal c ∷ decimal d ∷ []
  split-dotted =
      ap (λ s. split s b'.') (sym (join-decimal a b c d ha hb hc hd))
      ∙ split-join b'.' (decimal a) (decimal b ∷ decimal c ∷ decimal d ∷ []) (
        decimal-Lacks b'.' a (omega arith) ha,
        (
          decimal-Lacks b'.' b (omega arith) hb,
          (decimal-Lacks b'.' c (omega arith) hc, (decimal-Lacks b'.' d (omega arith) hd, tt)),
        ),
      )

  four_labels :
      (rbl_labels (decimal d ∷ decimal c ∷ decimal b ∷ decimal a ∷ []) ≡ address (dotted a b c d))
      × (ptr_labels (decimal d ∷ decimal c ∷ decimal b ∷ decimal a ∷ []) ≡ address (dotted a b c d))
  unfolding rbl_labels ptr_labels
  four_labels = let e = join-decimal a b c d ha hb hc hd in (ap address e, ap address e)

-- The blocklist query and the reverse query for an IPv4 address, its octets in reverse order in front
-- of the zone, are taken for the dotted text of the address.
pub query_to_ip-dotted :
    (a b c d : ℕ)
    → a < 256
    → b < 256
    → c < 256
    → d < 256
    → (rbl_query_to_ip ((dotted d c b a ++ codes ".") ++ rbl_zone) ≡ address (dotted a b c d))
      × (ptr_query_to_ip ((dotted d c b a ++ codes ".") ++ codes "in-addr.arpa.")
          ≡ address (dotted a b c d))
query_to_ip-dotted a b c d ha hb hc hd =
    let labels = split-dotted d c b a hd hc hb ha in
    let (r, p) = four_labels a b c d ha hb hc hd in
    (
      unfold rbl_query_to_ip in rw (labels_of-append rbl_zone (dotted d c b a), labels) r,
      unfold ptr_query_to_ip in
          rw (labels_of-append (codes "in-addr.arpa.") (dotted d c b a), labels) p,
    )

length-concat-append :
    (xs ys : List Bytes) → length (concat (xs ++ ys)) ≡ length (concat xs) + length (concat ys)
unfolding concat
length-concat-append [] ys = omega arith
length-concat-append (x ∷ xs) ys = omega (
  arith,
  length-append x (concat (xs ++ ys)),
  length-append x (concat xs),
  length-concat-append xs ys,
)

pub length-concat-reverse : (ls : List Bytes) → length (concat (reverse ls)) ≡ length (concat ls)
unfolding concat
length-concat-reverse [] = refl
length-concat-reverse (l ∷ ls) = rw (reverse-cons l ls) (
    omega (
      arith,
      length-concat-append (reverse ls) (l ∷ []),
      length-concat-reverse ls,
      length-append l (concat ls),
      ap length (append-nil l),
    ))

length-take : (n : ℕ) (s : Bytes) → n ≤ length s → length (take n s) ≡ n
length-take zero s h = refl
length-take (suc n) [] h = absurd (omega arith)
length-take (suc n) (c ∷ s) h = ap suc (length-take n s (omega arith))

length-blocks :
    (n : ℕ) (hex : Bytes)
    → 4 * (n + 1) ≤ length hex
    → length (join (blocks (suc n) hex) b':') + 1 ≡ 5 * (n + 1)
unfolding join blocks
length-blocks zero hex h = omega (arith, length-take 4 hex (omega arith))
length-blocks (suc n) hex h = omega (
  arith,
  length-append (take 4 hex) (b':' ∷ join (blocks (suc n) (drop 4 hex)) b':'),
  length-take 4 hex (omega arith),
  length-drop 4 hex,
  length-blocks n (drop 4 hex) (omega (arith, length-drop 4 hex)),
)

suc_add : (m n : ℕ) → suc m + n ≡ suc (m + n)
suc_add m n = omega arith

take-add : (m n : ℕ) (s : Bytes) → take (m + n) s ≡ take m s ++ take n (drop m s)
take-add zero n s = ap (λ k. take k s) (omega arith)
take-add (suc m) n [] = ap (λ (k : ℕ). take {A = ℕ} k []) (suc_add m n) ∙ sym (take-none n)
  where
    take-none : (n : ℕ) → take {A = ℕ} n [] ≡ []
    take-none zero = refl
    take-none (suc n) = refl
take-add (suc m) n (c ∷ s) =
    ap (λ k. take k (c ∷ s)) (suc_add m n) ∙ ap (λ l. c ∷ l) (take-add m n s)

-- The groups of a text: so many, of four bytes each, and together the front of the text.
record IsGrouped (n : ℕ) (hex : Bytes) (groups : List Bytes) : Type 0 where
  count : length groups ≡ n
  fours : All (λ g. length g ≡ 4) groups
  front : concat groups ≡ take (4 * n) hex

blocks-IsGrouped : (n : ℕ) (hex : Bytes) → 4 * n ≤ length hex → IsGrouped n hex (blocks n hex)
unfolding blocks concat
blocks-IsGrouped zero hex h = record { count = refl; fours = tt; front = refl }
blocks-IsGrouped (suc n) hex h =
    let rest = blocks-IsGrouped n (drop 4 hex) (omega (arith, length-drop 4 hex)) in
    record {
      count = ap suc rest.count;
      fours = (length-take 4 hex (omega arith), rest.fours);
      front =
          ap (λ l. take 4 hex ++ l) rest.front
          ∙ sym (take-add 4 (4 * n) hex)
          ∙ ap (λ k. take k hex) (omega arith);
    }

-- For 32 labels with 32 bytes or more, no slice is out of range, and the address is the text of
-- eight groups of four bytes, joined by colons, which spell the first 32 bytes of the labels in reverse
-- order: 39 bytes, never the shortened form of an address.
pub nibble_labels-address :
    (labels : List Bytes)
    → length labels ≡ 32
    → 32 ≤ length (concat labels)
    → (groups : List Bytes) × (rbl_labels labels ≡ address (join groups b':'))
      × (length groups ≡ 8)
      × All (λ g. length g ≡ 4) groups
      × (concat groups ≡ take 32 (concat (reverse labels)))
      × (length (join groups b':') ≡ 39)
unfolding rbl_labels nibble_address
nibble_labels-address labels n h =
    let hex = concat (reverse labels) in
    let enough : 32 ≤ length hex = omega (arith, h, length-concat-reverse labels) in
    let grouped = blocks-IsGrouped 8 hex (omega (arith, enough)) in
    (
      blocks 8 hex,
      ground (arith, enough),
      grouped.count,
      grouped.fours,
      grouped.front,
      omega (arith, length-blocks 7 hex (omega (arith, enough))),
    )

-- For 32 labels with fewer bytes, a slice is out of range.
pub short_labels-panics :
    (labels : List Bytes)
    → length labels ≡ 32
    → length (concat labels) < 32
    → rbl_labels labels ≡ panics
unfolding rbl_labels nibble_address
short_labels-panics labels n h =
    let short : length (concat (reverse labels)) < 32 =
      omega (arith, h, length-concat-reverse labels) in
    ground (arith, n, short)
