-- ===== src/Dns/Answers.antt =====
-- What the handler of DNS requests answers and counts.
use open_blocklist.Base.{
  ℕ, ◌+◌, ◌≤◌, Bytes, codes, Option, none, some, Bool, true, List, [], ◌∷◌, if◌then◌else◌, ◌≡◌,
  refl, ap, arith, Bool-cases, inl, inr,
}
use mathlib.Core.Option
use open_blocklist.Base.Int.{ℤ}
use open_blocklist.Base.Dict.{lookup}
use open_blocklist.State.{App, BlockEntry}
use open_blocklist.IpTable.{ip_table_lookup, fresh_entry}
use open_blocklist.IpTable.Laws.{ip_table_lookup-SameData}
use open_blocklist.Read.Agree.{is_fresh}
use open_blocklist.Dns.{
  QueryIp, address, malformed, panics, rbl_query_to_ip, ptr_query_to_ip, QType, type_a, type_aaaa,
  type_ptr, other_type, Question, Rcode, success, name_error, Reply, answer_entry, answer_ip,
  answer_question, handle_dns_request, rbl_zone,
}

-- The sum of the five counters of DNS requests.
abbrev pub dns_count : App → ℕ
dns_count app =
    app.stats.req_dns_invalid_query + app.stats.req_dns_wrong_zone + app.stats.req_dns_blocked
    + app.stats.req_dns_not_listed + app.stats.req_dns_other_query_type

-- Exactly one of the five counters has grown, by one: their sum has, and none is less than it was.
pub record Counted (app app' : App) : Type 0 where
  pub sum : dns_count app' ≡ dns_count app + 1
  pub invalid_query : app.stats.req_dns_invalid_query ≤ app'.stats.req_dns_invalid_query
  pub wrong_zone : app.stats.req_dns_wrong_zone ≤ app'.stats.req_dns_wrong_zone
  pub blocked : app.stats.req_dns_blocked ≤ app'.stats.req_dns_blocked
  pub not_listed : app.stats.req_dns_not_listed ≤ app'.stats.req_dns_not_listed
  pub other_query_type : app.stats.req_dns_other_query_type ≤ app'.stats.req_dns_other_query_type

abbrev pub CountsOne : App → Option (App × Reply) → Type 0
CountsOne app none = Unit {0}
CountsOne app (some (app', r)) = Counted app app'

module _ (is_sub_domain : Bytes → Bytes → Bool) (now : ℤ) where
  answer_entry-CountsOne :
      (text : BlockEntry → Bytes) (app app' : App) (e : Option BlockEntry)
      → app'.stats ≡ app.stats
      → Counted app (answer_entry text (app', e)).0
  unfolding answer_entry
  answer_entry-CountsOne text app app' none h = ground arith
  answer_entry-CountsOne text app app' (some e) h = ground arith

  answer_ip-CountsOne :
      (text : BlockEntry → Bytes) (ip : QueryIp) (app : App)
      → CountsOne app (answer_ip now text ip app)
  unfolding answer_ip
  answer_ip-CountsOne text (address ip) app =
      answer_entry-CountsOne text app (ip_table_lookup now ip app).0 (ip_table_lookup now ip app).1
        (ip_table_lookup-SameData now ip app).stats
  answer_ip-CountsOne text malformed app = ground arith
  answer_ip-CountsOne text panics app = tt

  question-CountsOne :
      (name : Bytes) (q : QType) (app : App)
      → CountsOne app (answer_question is_sub_domain now name q app)
  unfolding answer_question
  question-CountsOne name type_a app = elim (Bool-cases (is_sub_domain rbl_zone name)) [
    | inl e ↦ rw e (answer_ip-CountsOne _ (rbl_query_to_ip name) app)
    | inr e ↦ rw e (ground arith)
  ]
  question-CountsOne name type_aaaa app = elim (Bool-cases (is_sub_domain rbl_zone name)) [
    | inl e ↦ rw e (answer_ip-CountsOne _ (rbl_query_to_ip name) app)
    | inr e ↦ rw e (ground arith)
  ]
  question-CountsOne name type_ptr app =
      elim (Bool-cases (is_sub_domain (codes "in-addr.arpa.") name)) [
        | inl e ↦ rw e (answer_ip-CountsOne _ (ptr_query_to_ip name) app)
        | inr e ↦ rw e (ground arith)
      ]
  question-CountsOne name other_type app = ground arith

  -- Every DNS request that is answered, whatever its questions, adds one to exactly one of the five
  -- counters of DNS requests: their sum grows by one.
  pub handle_dns_request-CountsOne :
      (qs : List Question) (app : App) → CountsOne app (handle_dns_request is_sub_domain now qs app)
  unfolding handle_dns_request
  handle_dns_request-CountsOne [] app = ground arith
  handle_dns_request-CountsOne (q ∷ qs) app = question-CountsOne q.name q.qtype app

  answer_entry_code :
      (text : BlockEntry → Bytes) (ip : Bytes) (app : App) (e : Option BlockEntry)
      → (answer_entry text (fresh_entry now ip e app)).1.rcode
        ≡ (if is_fresh now e then success else name_error)
  unfolding answer_entry fresh_entry
  answer_entry_code text ip app none = refl
  answer_entry_code text ip app (some e) = ground arith

  -- A query of type A whose first question lies in the zone and stands for an address is answered
  -- with success exactly if the table of addresses has an entry for that text that has not expired,
  -- and with NXDOMAIN otherwise; the table of networks plays no part in it.
  pub dns_code :
      (name ip : Bytes) (qs : List Question) (app : App)
      → is_sub_domain rbl_zone name ≡ true
      → rbl_query_to_ip name ≡ address ip
      → Option.map
          (λ (p : App × Reply). p.1.rcode)
          (handle_dns_request is_sub_domain now (record { name = name; qtype = type_a } ∷ qs) app)
        ≡ some (if is_fresh now (lookup ip app.ip_table) then success else name_error)
  unfolding handle_dns_request ip_table_lookup
  dns_code name ip qs app zone e =
      rw (zone, e)
        (ap {B = Option Rcode} some (answer_entry_code _ ip app (lookup ip app.ip_table)))
