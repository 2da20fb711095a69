-- ===== src/Tests/Texts.antt =====
-- Addresses and query names as texts.
use open_blocklist.Base.{
  ℕ, zero, suc, Bytes, codes, List, [], ◌∷◌, ◌++◌, All, length, take, concat, none, true, split,
  trim_suffix, str_eq, ◌≡◌, refl, arith, join,
}
use open_blocklist.Ipv4.{
  ipv4_str_to_uint32, uint32_to_ipv4_str, uint32_to_ipv4_bytes, ipv4_bytes_to_uint32, Quad,
  append_uint8,
}
use open_blocklist.Ipv4.RoundTrip.{parse-print, dotted}
use open_blocklist.Dns.{
  handle_dns_request, type_a, type_aaaa, labels_of, rbl_query_to_ip, ptr_query_to_ip, rbl_labels,
  address, rbl_zone,
}
use mathlib.Core.List.{reverse}
use open_blocklist.Base.Int.{pos}
use open_blocklist.Tests.Toy.{empty_app}
use open_blocklist.Dns.Total.{short_name_panics}
use open_blocklist.Dns.Names.{query_to_ip-dotted, nibble_labels-address}

parse-print_example : ipv4_str_to_uint32 (uint32_to_ipv4_str 3405803976) ≡ 3405803976
parse-print_example = parse-print 3405803976 (omega arith)

-- The name of a query whose first label is the byte '.', with 30 labels of one byte behind it.
abbrev letters : ℕ → Bytes
letters zero = codes "."
letters (suc n) = codes ".a" ++ letters n

abbrev dotted_label : Bytes
dotted_label = (codes "\\." ++ letters 30) ++ rbl_zone

short_name_panics_example :
    (handle_dns_request
        (λ z n. true)
        (pos 100)
        (record { name = dotted_label; qtype = type_a } ∷ [])
        empty_app
      ≡ none)
    × (handle_dns_request
          (λ z n. true)
          (pos 100)
          (record { name = dotted_label; qtype = type_aaaa } ∷ [])
          empty_app
        ≡ none)
short_name_panics_example =
    short_name_panics (λ z n. true) (pos 100) dotted_label [] empty_app refl
      (unfold labels_of trim_suffix split str_eq in refl)
      (unfold labels_of trim_suffix split str_eq concat in omega arith)

abbrev quad : Quad
quad = record { b0 = 203; b1 = 0; b2 = 113; b3 = 200 }

query_to_ip-dotted_example :
    (rbl_query_to_ip ((dotted 200 113 0 203 ++ codes ".") ++ rbl_zone)
      ≡ address (dotted 203 0 113 200))
    × (ptr_query_to_ip ((dotted 200 113 0 203 ++ codes ".") ++ codes "in-addr.arpa.")
        ≡ address (dotted 203 0 113 200))
query_to_ip-dotted_example =
    query_to_ip-dotted 203 0 113 200 (omega arith) (omega arith) (omega arith) (omega arith)

abbrev labels : ℕ → List Bytes
labels zero = []
labels (suc n) = codes "a" ∷ labels n

nibble_labels-address_example :
    (groups : List Bytes) × (rbl_labels (labels 32) ≡ address (join groups b':'))
    × (length groups ≡ 8)
    × All (λ g. length g ≡ 4) groups
    × (concat groups ≡ take 32 (concat (reverse (labels 32))))
    × (length (join groups b':') ≡ 39)
nibble_labels-address_example =
    nibble_labels-address (labels 32) refl (unfold concat in omega arith)

parses : ipv4_str_to_uint32 (codes "192.168.1.100") ≡ 0xC0A80164
unfolding ipv4_str_to_uint32
parses = refl

prints : uint32_to_ipv4_str 0xC0A80164 ≡ codes "192.168.1.100"
unfolding uint32_to_ipv4_str append_uint8
prints = refl

rejects : ipv4_str_to_uint32 (codes "256.0.0.1") ≡ 0
unfolding ipv4_str_to_uint32
rejects = refl

packs : ipv4_bytes_to_uint32 (uint32_to_ipv4_bytes 0xC0A80164) ≡ 0xC0A80164
unfolding ipv4_bytes_to_uint32 uint32_to_ipv4_bytes
packs = refl

rbl_v4 : rbl_query_to_ip (codes "4.3.2.1.open-blocklist.internal.") ≡ address (codes "1.2.3.4")
unfolding rbl_query_to_ip join
rbl_v4 = refl
