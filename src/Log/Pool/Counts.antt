-- ===== src/Log/Pool/Counts.antt =====
-- log.go: how often a pointer stands in a list, and what a store leaves as it was.
use open_blocklist.Base.{
  ℕ, ◌+◌, ◌==◌, ==_iff, Bytes, Bool, true, List, [], ◌∷◌, ◌++◌, map, if◌then◌else◌, ◌≡◌, refl,
  arith, Bool-cases, inl, inr,
}

abbrev pub one_if : Bool → ℕ
one_if b = if b then 1 else 0

pub self : (b : ℕ) → (b == b) ≡ true
self b = (==_iff b b).1 refl

abbrev pub count : ℕ → List ℕ → ℕ
count p [] = 0
count p (x ∷ xs) = one_if (p == x) + count p xs

pub count-append : (p : ℕ) (xs ys : List ℕ) → count p (xs ++ ys) ≡ count p xs + count p ys
count-append p [] ys = omega arith
count-append p (x ∷ xs) ys = omega (arith, count-append p xs ys)

pub count-middle :
    (p b : ℕ) (xs ys : List ℕ) → count p (xs ++ b ∷ ys) ≡ one_if (p == b) + count p (xs ++ ys)
count-middle p b xs ys = omega (arith, count-append p xs (b ∷ ys), count-append p xs ys)

-- A store to a pointer that does not stand in the list.
pub map-away :
    (cell : ℕ → Bytes) (b : ℕ) (bytes : Bytes) (xs : List ℕ)
    → count b xs ≡ 0
    → map (λ p. if b == p then bytes else cell p) xs ≡ map cell xs
map-away cell b bytes [] h = refl
map-away cell b bytes (x ∷ xs) h = elim (Bool-cases (b == x)) [
  | inl same ↦ absurd (ground (arith, h, same))
  | inr other ↦ rw (other, map-away cell b bytes xs (omega (arith, h))) refl
]
