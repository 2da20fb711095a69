-- ===== src/CidrTable/Laws.antt =====
-- The slice of entries behaves as a map from canonical texts to entries.
use open_blocklist.Base.{
  Bytes, none, some, false, List, [], ◌∷◌, All, str_eq, str_eq_iff, if◌then◌else◌, ◌≡◌, ◌≢◌, refl,
  sym, subst, false≢true, ◌∙◌, arith, inl, inr, Bool-cases,
}
use open_blocklist.State.{CidrEntry}
use open_blocklist.CidrTable.{find_by_cidr, upsert, last_entry, init_entries, remove}

-- No two entries have the same text.
abbrev pub IsKeyed : List CidrEntry → Type 0
IsKeyed [] = Unit {0}
IsKeyed (e ∷ es) = All (λ (f : CidrEntry). f.cidr ≢ e.cidr) es × IsKeyed es

-- After upsert of an entry, that entry is found under its text, and under every other text what was
-- found before, on every slice.
pub find_by_cidr-upsert :
    (e : CidrEntry) (k : Bytes) (es : List CidrEntry)
    → find_by_cidr k (upsert e es) ≡ (if str_eq e.cidr k then some e else find_by_cidr k es)
unfolding find_by_cidr upsert
find_by_cidr-upsert e k [] = refl
find_by_cidr-upsert e k (f ∷ es) = ground (
  arith,
  str_eq_iff f.cidr e.cidr,
  str_eq_iff e.cidr k,
  str_eq_iff f.cidr k,
  find_by_cidr-upsert e k es,
)

module _ (P : CidrEntry → Type 0) where
  pub upsert-All : (e : CidrEntry) (es : List CidrEntry) → P e → All P es → All P (upsert e es)
  unfolding upsert
  upsert-All e [] pe h = (pe, tt)
  upsert-All e (f ∷ es) pe (pf, h) = elim (Bool-cases (str_eq f.cidr e.cidr)) [
    | inl same ↦ rw same (pe, h)
    | inr new ↦ rw new (pf, upsert-All e es pe h)
  ]

  -- The last element and the rest are the elements.
  last-init-All :
      (e : CidrEntry) (es : List CidrEntry)
      → All P (e ∷ es)
      → P (last_entry e es) × All P (init_entries e es)
  unfolding last_entry init_entries
  last-init-All e [] (pe, h) = (pe, tt)
  last-init-All e (f ∷ es) (pe, h) = let (pl, pi) = last-init-All f es h in (pl, (pe, pi))

  pub remove-All : (k : Bytes) (es : List CidrEntry) → All P es → All P (remove k es)
  unfolding remove
  remove-All k [] h = tt
  remove-All k (e ∷ []) (pe, h) = elim (Bool-cases (str_eq e.cidr k)) [
    | inl same ↦ rw same tt
    | inr new ↦ rw new (pe, tt)
  ]
  remove-All k (e ∷ f ∷ es) (pe, h) = elim (Bool-cases (str_eq e.cidr k)) [
    | inl same ↦ rw same (last-init-All f es h)
    | inr new ↦ rw new (pe, remove-All k (f ∷ es) h)
  ]

pub find-none :
    (k : Bytes) (es : List CidrEntry)
    → All (λ (f : CidrEntry). f.cidr ≢ k) es
    → find_by_cidr k es ≡ none
unfolding find_by_cidr
find-none k [] h = refl
find-none k (e ∷ es) (he, h) = ground (arith, str_eq_iff e.cidr k, find-none k es h)

pub upsert-IsKeyed : (e : CidrEntry) (es : List CidrEntry) → IsKeyed es → IsKeyed (upsert e es)
unfolding upsert
upsert-IsKeyed e [] h = (tt, tt)
upsert-IsKeyed e (f ∷ es) (hf, h) = elim (Bool-cases (str_eq f.cidr e.cidr)) [
  | inl same ↦
      let eq = (str_eq_iff f.cidr e.cidr).0 same in
      rw same (subst (λ c. All (λ (g : CidrEntry). g.cidr ≢ c) es) eq hf, h)
  | inr new ↦
      let differ : e.cidr ≢ f.cidr =
        λ eq. false≢true (sym new ∙ (str_eq_iff f.cidr e.cidr).1 (sym eq)) in
      rw new (upsert-All (λ (g : CidrEntry). g.cidr ≢ f.cidr) e es differ hf, upsert-IsKeyed e es h)
]

-- Moving the last entry to the front keeps the keys apart.
last-init-IsKeyed :
    (e : CidrEntry) (es : List CidrEntry)
    → IsKeyed (e ∷ es)
    → IsKeyed (last_entry e es ∷ init_entries e es)
unfolding last_entry init_entries
last-init-IsKeyed e [] h = (tt, tt)
last-init-IsKeyed e (f ∷ es) (he, h) =
    let (apart, keyed) = last-init-IsKeyed f es h in
    let (last_apart, init_apart) = last-init-All (λ (g : CidrEntry). g.cidr ≢ e.cidr) f es he in
    (((λ eq. last_apart (sym eq)), apart), (init_apart, keyed))

pub remove-IsKeyed : (k : Bytes) (es : List CidrEntry) → IsKeyed es → IsKeyed (remove k es)
unfolding remove
remove-IsKeyed k [] h = tt
remove-IsKeyed k (e ∷ []) (he, h) = elim (Bool-cases (str_eq e.cidr k)) [
  | inl same ↦ rw same tt
  | inr new ↦ rw new (tt, tt)
]
remove-IsKeyed k (e ∷ f ∷ es) (he, h) = elim (Bool-cases (str_eq e.cidr k)) [
  | inl same ↦ rw same (last-init-IsKeyed f es h)
  | inr new ↦
      rw new
        (remove-All (λ (g : CidrEntry). g.cidr ≢ e.cidr) k (f ∷ es) he, remove-IsKeyed k (f ∷ es) h)
]

find-last-init :
    (k : Bytes) (e : CidrEntry) (es : List CidrEntry)
    → IsKeyed (e ∷ es)
    → find_by_cidr k (last_entry e es ∷ init_entries e es) ≡ find_by_cidr k (e ∷ es)
unfolding find_by_cidr last_entry init_entries
find-last-init k e [] h = refl
find-last-init k e (f ∷ es) (he, h) =
    let (last_apart, _) = last-init-All (λ (g : CidrEntry). g.cidr ≢ e.cidr) f es he in
    ground (
      arith,
      find-last-init k f es h,
      last_apart,
      str_eq_iff (last_entry f es).cidr k,
      str_eq_iff e.cidr k,
    )

gap :
    (c k : Bytes) (e : CidrEntry) (es : List CidrEntry)
    → e.cidr ≡ c
    → All (λ (g : CidrEntry). g.cidr ≢ e.cidr) es
    → find_by_cidr k es ≡ (if str_eq c k then none else find_by_cidr k (e ∷ es))
gap c k e es same he = elim (Bool-cases (str_eq c k)) [
  | inl hit ↦ rw hit (
      find-none k es
        (subst (λ x. All (λ (g : CidrEntry). g.cidr ≢ x) es) (same ∙ (str_eq_iff c k).0 hit) he))
  | inr miss ↦ rw miss (unfold find_by_cidr in ground (arith, same))
]

keep :
    (c k : Bytes) (e : CidrEntry) (es' es : List CidrEntry)
    → str_eq e.cidr c ≡ false
    → find_by_cidr k es' ≡ (if str_eq c k then none else find_by_cidr k es)
    → find_by_cidr k (e ∷ es') ≡ (if str_eq c k then none else find_by_cidr k (e ∷ es))
unfolding find_by_cidr
keep c k e es' es new h = ground (arith, str_eq_iff e.cidr c, str_eq_iff e.cidr k, str_eq_iff c k)

-- In a table where no text stands twice, after remove of a text, which moves the last entry into the
-- gap, nothing is found under that text, and under every other what was found before.
pub find_by_cidr-remove :
    (c k : Bytes) (es : List CidrEntry)
    → IsKeyed es
    → find_by_cidr k (remove c es) ≡ (if str_eq c k then none else find_by_cidr k es)
unfolding remove
find_by_cidr-remove c k [] h = unfold find_by_cidr in ground arith
find_by_cidr-remove c k (e ∷ []) (he, h) =
    unfold find_by_cidr in ground (arith, str_eq_iff e.cidr c, str_eq_iff e.cidr k, str_eq_iff c k)
find_by_cidr-remove c k (e ∷ f ∷ es) (he, h) = elim (Bool-cases (str_eq e.cidr c)) [
  | inl same ↦
      rw same (rw (find-last-init k f es h) (gap c k e (f ∷ es) ((str_eq_iff e.cidr c).0 same) he))
  | inr new ↦
      rw new (keep c k e (remove c (f ∷ es)) (f ∷ es) new (find_by_cidr-remove c k (f ∷ es) h))
]
