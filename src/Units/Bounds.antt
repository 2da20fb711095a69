-- ===== src/Units/Bounds.antt =====
-- helpers.go: the unit fits the number.
use open_blocklist.Base.{
  ℕ, ◌+◌, ◌*◌, ◌/◌, ltb, ◌^◌, ◌≤◌, ◌<◌, codes, Bool-cases, some, ◌≡◌, refl, arith, inl, inr,
}
use open_blocklist.Base.Int.{pos}
use open_blocklist.Units.{Size, plain_bytes, scaled, byte_at, scale, format_bytes}

-- What formatBytes makes of a number of bytes: the number itself below 1024, else a power of 1024
-- that is at most the number, which is less than 1024 times it, with the power's letter.
abbrev pub FitsUnit : ℕ → Size → Type 0
FitsUnit b (plain_bytes z) = (z ≡ pos b) × (b < 1024)
FitsUnit b (scaled n div letter) =
    (n ≡ b)
    × (div ≤ b)
    × (b < div * 1024)
    × ((k : ℕ) × (div ≡ 1024 ^ (k + 1)) × (byte_at (codes "KMGTPE") k ≡ some letter))

-- Every number of bytes that an int64 holds is shown: below 1024 as it is, and else divided by a
-- power of 1024 that is at most the number and more than a 1024th of it, with that power's letter;
-- neither is the letter's index out of range nor does the power overflow.
pub format_bytes-FitsUnit :
    (b : ℕ) → b < 2 ^ 63 → (s : Size) × (format_bytes (pos b) ≡ some s) × FitsUnit b s
unfolding format_bytes scale byte_at
format_bytes-FitsUnit b h = elim (Bool-cases (ltb b 1024)) [
  | inl small ↦ rw small (plain_bytes (pos b), refl, (refl, ground (arith, small)))
  | inr big0 ↦ rw big0 (elim (Bool-cases (ltb (b / 1024) 1024)) [
    | inl fits ↦ rw fits (
      scaled b (1024 ^ 1) b'K',
      refl,
      (refl, ground (arith, big0), ground (arith, fits), (0, refl, refl)),
    )
    | inr big1 ↦ rw big1 (elim (Bool-cases (ltb (b / 1024 / 1024) 1024)) [
      | inl fits ↦ rw fits (
        scaled b (1024 ^ 2) b'M',
        refl,
        (refl, ground (arith, big1), ground (arith, fits), (1, refl, refl)),
      )
      | inr big2 ↦ rw big2 (elim (Bool-cases (ltb (b / 1024 / 1024 / 1024) 1024)) [
        | inl fits ↦ rw fits (
          scaled b (1024 ^ 3) b'G',
          refl,
          (refl, ground (arith, big2), ground (arith, fits), (2, refl, refl)),
        )
        | inr big3 ↦ rw big3 (elim (Bool-cases (ltb (b / 1024 / 1024 / 1024 / 1024) 1024)) [
          | inl fits ↦ rw fits (
            scaled b (1024 ^ 4) b'T',
            refl,
            (refl, ground (arith, big3), ground (arith, fits), (3, refl, refl)),
          )
          | inr big4 ↦
              rw big4 (elim (Bool-cases (ltb (b / 1024 / 1024 / 1024 / 1024 / 1024) 1024)) [
                | inl fits ↦ rw fits (
                  scaled b (1024 ^ 5) b'P',
                  refl,
                  (refl, ground (arith, big4), ground (arith, fits), (4, refl, refl)),
                )
                | inr big5 ↦
                    rw big5
                      (elim (Bool-cases (ltb (b / 1024 / 1024 / 1024 / 1024 / 1024 / 1024) 1024)) [
                        | inl fits ↦ rw fits (
                          scaled b (1024 ^ 6) b'E',
                          refl,
                          (refl, ground (arith, big5), ground (arith, fits), (5, refl, refl)),
                        )
                        | inr big6 ↦ rw big6 (absurd (ground (arith, h, big6)))
                      ])
              ])
        ])
      ])
    ])
  ])
]
