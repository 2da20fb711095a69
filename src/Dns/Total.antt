-- ===== src/Dns/Total.antt =====
-- dns.go: the names on which the handler returns, and those on which it panics. A label of the wire that
-- holds a byte '.' is written with a backslash before it and split behind that, so that a message can
-- make labels here that are empty.
use open_blocklist.Base.{
  ◌≤◌, concat, refl, ◌<◌, ◌==◌, ==_iff, Bytes, codes, Option, none, some, Bool, true, false, not,
  List, [], ◌∷◌, All, length, if◌then◌else◌, ◌⊎◌, ◌≡◌, ◌≢◌, arith, Bool-cases, Option-cases, inl,
  inr, subst, sym,
}
use open_blocklist.Base.Int.{ℤ}
use open_blocklist.State.{App, BlockEntry}
use open_blocklist.Dns.{
  QueryIp, address, malformed, panics, rbl_labels, ptr_labels, labels_of, rbl_query_to_ip,
  ptr_query_to_ip, QType, type_a, type_aaaa, type_ptr, other_type, Question, Reply, answer_ip,
  answer_address, answer_question, handle_dns_request, rbl_zone,
}
use open_blocklist.Dns.Names.{nibble_labels-address, short_labels-panics}
use open_blocklist.Dns.Answers.{Counted, CountsOne, handle_dns_request-CountsOne}

-- A name whose labels in front of the zone are not 32, or have 32 bytes or more.
pub record IsName (name : Bytes) : Type 0 where
  pub labels :
      (length (labels_of rbl_zone name) ≢ 32) ⊎ (32 ≤ length (concat (labels_of rbl_zone name)))

-- An address, or no address.
abbrev Returns : QueryIp → Type 0
Returns (address text) = Unit
Returns malformed = Unit
Returns panics = ⊥

other_labels-Returns : (labels : List Bytes) → length labels ≢ 32 → Returns (rbl_labels labels)
unfolding rbl_labels
other_labels-Returns labels other = elim (Bool-cases (length labels == 4)) [
  | inl four ↦ rw four tt
  | inr more ↦ elim (Bool-cases (length labels == 32)) [
    | inl it ↦ absurd (other ((==_iff (length labels) 32).0 it))
    | inr it ↦ rw (more, it) tt
  ]
]

rbl_labels-Returns :
    (labels : List Bytes)
    → (length labels ≢ 32) ⊎ (32 ≤ length (concat labels))
    → Returns (rbl_labels labels)
rbl_labels-Returns labels (inl other) = other_labels-Returns labels other
rbl_labels-Returns labels (inr full) = elim (Bool-cases (length labels == 32)) [
  | inl it ↦
      let (groups, eq, _, _, _, _) =
        nibble_labels-address labels ((==_iff (length labels) 32).0 it) full in
      subst Returns (sym eq) tt
  | inr it ↦ other_labels-Returns labels (ground (arith, it))
]

ptr_labels-Returns : (labels : List Bytes) → Returns (ptr_labels labels)
unfolding ptr_labels
ptr_labels-Returns labels = ground arith

abbrev IsAnswered : Option (App × Reply) → Type 0
IsAnswered none = ⊥
IsAnswered (some x) = Unit

answer_ip-IsAnswered :
    (now : ℤ) (text : BlockEntry → Bytes) (ip : QueryIp) (app : App)
    → Returns ip
    → IsAnswered (answer_ip now text ip app)
unfolding answer_ip
answer_ip-IsAnswered now text (address ip) app h = tt
answer_ip-IsAnswered now text malformed app h = tt
answer_ip-IsAnswered now text panics app h = h

refused_or-IsAnswered :
    (b : Bool) (x : App × Reply) (o : Option (App × Reply))
    → IsAnswered o
    → IsAnswered (if b then some x else o)
refused_or-IsAnswered true x o h = tt
refused_or-IsAnswered false x o h = h

module _ (is_sub_domain : Bytes → Bytes → Bool) (now : ℤ) where
  address-IsAnswered :
      (name : Bytes) (app : App)
      → IsName name
      → IsAnswered (answer_address is_sub_domain now name app)
  unfolding answer_address rbl_query_to_ip
  address-IsAnswered name app h =
      refused_or-IsAnswered (not (is_sub_domain rbl_zone name)) _ _
        (answer_ip-IsAnswered now _ _ app (rbl_labels-Returns (labels_of rbl_zone name) h.labels))

  question-IsAnswered :
      (name : Bytes) (q : QType) (app : App)
      → IsName name
      → IsAnswered (answer_question is_sub_domain now name q app)
  unfolding answer_question ptr_query_to_ip
  question-IsAnswered name type_a app h = address-IsAnswered name app h
  question-IsAnswered name type_aaaa app h = address-IsAnswered name app h
  question-IsAnswered name type_ptr app h =
      refused_or-IsAnswered (not (is_sub_domain (codes "in-addr.arpa.") name)) _ _ (
        answer_ip-IsAnswered now _ _ app
          (ptr_labels-Returns (labels_of (codes "in-addr.arpa.") name)))
  question-IsAnswered name other_type app h = tt

  request-IsAnswered :
      (qs : List Question) (app : App)
      → All (λ q. IsName q.name) qs
      → IsAnswered (handle_dns_request is_sub_domain now qs app)
  unfolding handle_dns_request
  request-IsAnswered [] app h = tt
  request-IsAnswered (q ∷ qs) app (hq, h) = question-IsAnswered q.name q.qtype app hq

  -- If in no question's name the labels in front of the zone are 32 with fewer than 32 bytes, the
  -- handler returns a reply, whatever the types and the number of questions, and exactly one of the
  -- five counters of DNS requests grows, by one.
  pub handle_dns_request-returns :
      (qs : List Question) (app : App)
      → All (λ q. IsName q.name) qs
      → (app' : App) × (r : Reply) × (handle_dns_request is_sub_domain now qs app ≡ some (app', r))
        × Counted app app'
  handle_dns_request-returns qs app h =
      elim (Option-cases (handle_dns_request is_sub_domain now qs app)) [
        | inl nothing ↦ absurd (subst IsAnswered nothing (request-IsAnswered qs app h))
        | inr ((app', r), e) ↦ (
          app',
          r,
          e,
          subst (CountsOne app) e (handle_dns_request-CountsOne is_sub_domain now qs app),
        )
      ]

  -- The handler panics on a query of type A or AAAA whose first name lies in the zone and has, in front
  -- of the zone, 32 labels with fewer than 32 bytes.
  pub short_name_panics :
      (name : Bytes) (qs : List Question) (app : App)
      → is_sub_domain rbl_zone name ≡ true
      → length (labels_of rbl_zone name) ≡ 32
      → length (concat (labels_of rbl_zone name)) < 32
      → (handle_dns_request is_sub_domain now (record { name = name; qtype = type_a } ∷ qs) app
          ≡ none)
        × (handle_dns_request is_sub_domain now (record { name = name; qtype = type_aaaa } ∷ qs) app
            ≡ none)
  unfolding handle_dns_request answer_question answer_address rbl_query_to_ip
  short_name_panics name qs app zone n h =
      let panic = short_labels-panics (labels_of rbl_zone name) n h in
      (rw (zone, panic) (unfold answer_ip in refl), rw (zone, panic) (unfold answer_ip in refl))
