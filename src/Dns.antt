-- ===== src/Dns.antt =====
-- dns.go: the names of queries, and the handler of a DNS request.
pub mod Names
pub mod Answers
pub mod Total
use mathlib.Core.List.{reverse}
use open_blocklist.Base.{
  ℕ, zero, suc, ◌+◌, ◌==◌, ltb, Bytes, codes, Option, none, some, Bool, true, not, List, [], ◌∷◌,
  ◌++◌, length, take, drop, trim_suffix, split, join, concat, if◌then◌else◌,
}
use open_blocklist.Base.Int.{ℤ}
use open_blocklist.Ipv4.{uint32_to_ipv4_str}
use open_blocklist.State.{App, BlockEntry}
use open_blocklist.IpTable.{ip_table_lookup}

abbrev pub rbl_zone : Bytes
rbl_zone = codes "open-blocklist.internal."

-- What a query name stands for; a slice out of range panics.
pub data QueryIp : Type 0 where
  address : Bytes → QueryIp
  malformed : QueryIp
  panics : QueryIp

-- hex[i*4 : i*4+4] for n values of i, from the front of the text.
unfoldable pub blocks : ℕ → Bytes → List Bytes
blocks zero hex = []
blocks (suc n) hex = take 4 hex ∷ blocks n (drop 4 hex)

-- The 32 labels of an IPv6 name, reversed and grouped.
unfoldable pub nibble_address : List Bytes → QueryIp
unfolding blocks join concat
nibble_address labels =
    let hex = concat (reverse labels) in
    if ltb (length hex) 32 then panics else address (join (blocks 8 hex) b':')

unfoldable pub rbl_labels : List Bytes → QueryIp
rbl_labels labels =
    if length labels == 4
    then address (join (reverse labels) b'.')
    else if length labels == 32
    then nibble_address labels
    else malformed

-- The labels of a name behind a suffix and a trailing dot.
unfoldable pub labels_of : Bytes → Bytes → List Bytes
unfolding trim_suffix split
labels_of suffix qname = split (trim_suffix (trim_suffix qname suffix) (codes ".")) b'.'

unfoldable pub rbl_query_to_ip : Bytes → QueryIp
unfolding labels_of rbl_labels
rbl_query_to_ip qname = rbl_labels (labels_of rbl_zone qname)

unfoldable pub ptr_labels : List Bytes → QueryIp
ptr_labels labels = if length labels == 4 then address (join (reverse labels) b'.') else malformed

unfoldable pub ptr_query_to_ip : Bytes → QueryIp
unfolding labels_of ptr_labels
ptr_query_to_ip qname = ptr_labels (labels_of (codes "in-addr.arpa.") qname)

pub data QType : Type 0 where
  type_a type_aaaa type_ptr other_type : QType

pub record Question : Type 0 where
  pub name : Bytes
  pub qtype : QType

pub data Rcode : Type 0 where
  success format_error refused name_error : Rcode

-- The reply. An answer is kept as the text that is handed to dns.NewRR, which parses it.
pub record Reply : Type 0 where
  pub authoritative : Bool
  pub rcode : Rcode
  pub answer : List Bytes

abbrev pub reply : Rcode → List Bytes → Reply
reply rcode answer = record { authoritative = true; rcode = rcode; answer = answer }

unfoldable pub count_invalid : App → App
count_invalid app = record app {
  stats = record app.stats { req_dns_invalid_query = app.stats.req_dns_invalid_query + 1 };
}

unfoldable pub count_wrong_zone : App → App
count_wrong_zone app = record app {
  stats = record app.stats { req_dns_wrong_zone = app.stats.req_dns_wrong_zone + 1 };
}

unfoldable pub count_blocked : App → App
count_blocked app = record app {
  stats = record app.stats { req_dns_blocked = app.stats.req_dns_blocked + 1 };
}

unfoldable pub count_not_listed : App → App
count_not_listed app = record app {
  stats = record app.stats { req_dns_not_listed = app.stats.req_dns_not_listed + 1 };
}

unfoldable pub count_other : App → App
count_other app = record app {
  stats = record app.stats { req_dns_other_query_type = app.stats.req_dns_other_query_type + 1 };
}

-- The answer on an entry that the table of addresses gave.
unfoldable pub answer_entry : (BlockEntry → Bytes) → App × Option BlockEntry → App × Reply
unfolding count_blocked count_not_listed
answer_entry text (app, none) = (count_not_listed app, reply name_error [])
answer_entry text (app, some entry) = (count_blocked app, reply success (text entry ∷ []))

-- The answer on the address that a name stands for; no reply where the handler panics.
unfoldable pub answer_ip : ℤ → (BlockEntry → Bytes) → QueryIp → App → Option (App × Reply)
unfolding ip_table_lookup answer_entry count_invalid
answer_ip now text (address ip) app = some (answer_entry text (ip_table_lookup now ip app))
answer_ip now text malformed app = some (count_invalid app, reply format_error [])
answer_ip now text panics app = none

abbrev pub a_record : Bytes → BlockEntry → Bytes
a_record name entry = name ++ (codes " 10 IN A " ++ uint32_to_ipv4_str entry.return_code)

abbrev pub ptr_text : Bytes → BlockEntry → Bytes
ptr_text name entry = name ++ codes " 10 IN PTR blocked.internal."

-- The switch on the query type, over dns.IsSubDomain.
unfoldable pub answer_address : (Bytes → Bytes → Bool) → ℤ → Bytes → App → Option (App × Reply)
unfolding rbl_query_to_ip answer_ip count_wrong_zone
answer_address is_sub_domain now name app =
    if not (is_sub_domain rbl_zone name)
    then some (count_wrong_zone app, reply refused [])
    else answer_ip now (a_record name) (rbl_query_to_ip name) app

unfoldable pub answer_question :
    (Bytes → Bytes → Bool) → ℤ → Bytes → QType → App → Option (App × Reply)
unfolding answer_address ptr_query_to_ip count_other
answer_question is_sub_domain now name type_a app = answer_address is_sub_domain now name app
answer_question is_sub_domain now name type_aaaa app = answer_address is_sub_domain now name app
answer_question is_sub_domain now name type_ptr app =
    if not (is_sub_domain (codes "in-addr.arpa.") name)
    then some (count_wrong_zone app, reply refused [])
    else answer_ip now (ptr_text name) (ptr_query_to_ip name) app
answer_question is_sub_domain now name other_type app = some (count_other app, reply refused [])

-- handleDNSRequest on the questions of a message: the first one is answered.
unfoldable pub handle_dns_request :
    (Bytes → Bytes → Bool) → ℤ → List Question → App → Option (App × Reply)
unfolding answer_question count_invalid
handle_dns_request is_sub_domain now [] app = some (count_invalid app, reply format_error [])
handle_dns_request is_sub_domain now (q ∷ qs) app =
    answer_question is_sub_domain now q.name q.qtype app
