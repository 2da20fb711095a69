-- ===== src/Base/Split.antt =====
-- `strings.Split` and `strings.Join` at a separator of one byte, and their round trips.
use Prim.Native.Nat.{ℕ}
use mathlib.Core.Path.{◌≡◌, refl, ap, ◌∙◌}
use mathlib.Core.Logic.{◌≢◌}
use mathlib.Core.List.{List, [], ◌∷◌, ◌++◌}
use native.Mathlib.Omega.{arith}
use open_blocklist.Base.Tests.{◌==◌, if◌then◌else◌}
use open_blocklist.Base.Lists.{All}
use open_blocklist.Base.Text.{Bytes, Lacks}

-- A byte in front of the first part.
abbrev pub push_byte : ℕ → List Bytes → List Bytes
push_byte c [] = (c ∷ []) ∷ []
push_byte c (p ∷ ps) = (c ∷ p) ∷ ps

unfoldable pub split : Bytes → ℕ → List Bytes
split [] sep = [] ∷ []
split (c ∷ s) sep = let rest = split s sep in if c == sep then [] ∷ rest else push_byte c rest

unfoldable pub join : List Bytes → ℕ → Bytes
join [] sep = []
join (p ∷ []) sep = p
join (p ∷ q ∷ ps) sep = p ++ sep ∷ join (q ∷ ps) sep

-- The texts of a list, one behind the other: `strings.Join` with an empty separator.
unfoldable pub concat : List Bytes → Bytes
concat [] = []
concat (p ∷ ps) = p ++ concat ps

module _ (sep : ℕ) where
  pub split_nonempty : (s : Bytes) → split s sep ≢ []
  unfolding split
  split_nonempty [] = cc
  split_nonempty (c ∷ s) = ground (arith, split_nonempty s)

  -- A part without the separator, in front of a separator.
  pub split-append :
      (p rest : Bytes) → Lacks sep p → split (p ++ sep ∷ rest) sep ≡ p ∷ split rest sep
  unfolding split
  split-append [] rest h = ground arith
  split-append (c ∷ p) rest (hc, hp) = rw (split-append p rest hp) (ground arith)

  pub split_single : (p : Bytes) → Lacks sep p → split p sep ≡ p ∷ []
  unfolding split
  split_single [] h = refl
  split_single (c ∷ p) (hc, hp) = rw (split_single p hp) (ground arith)

  -- Splitting a join gives the parts back, if there is a part and none holds the separator.
  pub split-join :
      (p : Bytes) (ps : List Bytes)
      → All (Lacks sep) (p ∷ ps)
      → split (join (p ∷ ps) sep) sep ≡ p ∷ ps
  unfolding join
  split-join p [] (hp, _) = split_single p hp
  split-join p (q ∷ ps) (hp, hps) = split-append p _ hp ∙ ap (λ r. p ∷ r) (split-join q ps hps)
