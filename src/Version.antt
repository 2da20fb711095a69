-- ===== src/Version.antt =====
-- main.go and helpers.go: the version of the program and of the Go runtime.
use open_blocklist.Base.{
  ltb, Bytes, codes, Option, none, some, List, [], ◌∷◌, ◌||◌, has_prefix, split, drop,
  if◌then◌else◌,
}
use open_blocklist.Base.Int.{ℤ, pos, ◌+ℤ◌, ◌*ℤ◌, wrap64}
use open_blocklist.State.{Go}

-- gVersionStr and VersionBuild of the version 0.8.0
abbrev pub version_str : Bytes
version_str = codes "0.8.0"

abbrev pub version_build : ℤ
version_build = pos 800

-- What follows the first "go" of a text.
unfoldable after_go : Bytes → Option Bytes
after_go [] = none
after_go (c ∷ s) = if has_prefix (c ∷ s) (codes "go") then some (drop 2 (c ∷ s)) else after_go s

-- The digits that a text begins with.
unfoldable leading_digits : Bytes → Bytes
leading_digits [] = []
leading_digits (c ∷ p) =
    let rest = leading_digits p in if ltb c b'0' || ltb b'9' c then [] else c ∷ rest

-- parseInt64: strconv.ParseInt, its error dropped.
abbrev parse_int64 : Go → Bytes → ℤ
parse_int64 go s = (go.parse_int s).0

abbrev first_or_zero : Go → (Bytes → Bytes) → List Bytes → ℤ
first_or_zero go f [] = pos 0
first_or_zero go f (p ∷ _) = parse_int64 go (f p)

unfoldable version_number : Go → Option Bytes → ℤ
unfolding leading_digits split
version_number go none = pos 0
version_number go (some v) =
    let parts = split v b'.' in
    let major = first_or_zero go (λ p. p) parts in
    let minor = first_or_zero go (λ p. p) (drop 1 parts) in
    let patch = first_or_zero go leading_digits (drop 2 parts) in
    wrap64 (wrap64 (wrap64 (major *ℤ pos 10000) +ℤ wrap64 (minor *ℤ pos 100)) +ℤ patch)

-- parseGoVersionBuild
unfoldable pub parse_go_version_build : Go → Bytes → ℤ
unfolding after_go version_number
parse_go_version_build go v = version_number go (after_go v)
