-- ===== src/Units.antt =====
-- helpers.go: the unit in which a number of bytes is shown.
pub mod Bounds
use open_blocklist.Base.{
  ℕ, zero, suc, ◌+◌, ◌*◌, ◌/◌, ltb, ◌%◌, ◌^◌, Bytes, codes, Option, none, some, [], ◌∷◌,
  if◌then◌else◌,
}
use open_blocklist.Base.Int.{ℤ, pos, negsuc}

-- What formatBytes prints: the number itself, or the number divided by a power of 1024 with the
-- letter of that power; "%.2f" of the quotient is left to fmt.
pub data Size : Type 0 where
  plain_bytes : ℤ → Size
  scaled : ℕ → ℕ → ℕ → Size

-- s[i] of a Go string; `none` where it panics.
unfoldable pub byte_at : Bytes → ℕ → Option ℕ
byte_at [] i = none
byte_at (c ∷ s) zero = some c
byte_at (c ∷ s) (suc i) = byte_at s i

-- The loop, with the quotient, div and exp; the fuel bounds its rounds. div is an int64.
unfoldable pub scale : ℕ → ℕ → ℕ → ℕ → ℕ × ℕ
scale zero n div exp = (div, exp)
scale (suc fuel) n div exp =
    let rest = scale fuel (n / 1024) ((div * 1024) % 2 ^ 64) (exp + 1) in
    if ltb n 1024 then (div, exp) else rest

abbrev letter_of : ℕ → ℕ × ℕ → Option Size
letter_of b (div, exp) = elim (byte_at (codes "KMGTPE") exp) [
  | none ↦ none
  | some letter ↦ some (scaled b div letter)
]

-- formatBytes; `none` where the index is out of range.
unfoldable pub format_bytes : ℤ → Option Size
unfolding scale byte_at
format_bytes (negsuc n) = some (plain_bytes (negsuc n))
format_bytes (pos b) =
    let scaled_by = letter_of b (scale 7 (b / 1024) 1024 0) in
    if ltb b 1024 then some (plain_bytes (pos b)) else scaled_by
