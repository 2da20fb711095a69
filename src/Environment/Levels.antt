-- ===== src/Environment/Levels.antt =====
-- main.go: the levels of the log as texts.
use open_blocklist.Base.{
  ℕ, zero, suc, ◌+◌, map, ◌<◌, Bytes, some, All, str_eq, ◌≡◌, refl, ◌∙◌, arith,
}
use open_blocklist.Log.{LogLevel, level_string}
use open_blocklist.Environment.{Texts, level_of, parse_log_level}

-- strings.ToLower on capital letters.
abbrev pub lower_letter : ℕ → ℕ
lower_letter c = c + 32

abbrev IsCapital : ℕ → Type 0
IsCapital c = (64 < c) × (c < 91)

parse-capitals :
    (texts : Texts) (s : Bytes)
    → ((s : Bytes) → All IsCapital s → texts.trim_space s ≡ s)
    → ((s : Bytes) → All IsCapital s → texts.to_lower s ≡ map lower_letter s)
    → All IsCapital s
    → parse_log_level texts s ≡ level_of (map lower_letter s)
unfolding parse_log_level
parse-capitals texts s trims lowers h = rw (trims s h, lowers s h) refl

level_of-level_string :
    (l : LogLevel)
    → l < 5
    → All IsCapital (level_string l) × (level_of (map lower_letter (level_string l)) ≡ some l)
unfolding level_of level_string str_eq
level_of-level_string zero h = (omega arith, refl)
level_of-level_string (suc zero) h = (omega arith, refl)
level_of-level_string (suc (suc zero)) h = (omega arith, refl)
level_of-level_string (suc (suc (suc zero))) h = (omega arith, refl)
level_of-level_string (suc (suc (suc (suc zero)))) h = (omega arith, refl)
level_of-level_string (suc (suc (suc (suc (suc l))))) h = absurd (omega (arith, h))

-- The name that a level is printed with is read back as that level, if strings.TrimSpace leaves a
-- text of capital letters alone and strings.ToLower maps each of its letters to the small one.
pub parse-print_level :
    (texts : Texts) (l : LogLevel)
    → ((s : Bytes) → All IsCapital s → texts.trim_space s ≡ s)
    → ((s : Bytes) → All IsCapital s → texts.to_lower s ≡ map lower_letter s)
    → l < 5
    → parse_log_level texts (level_string l) ≡ some l
parse-print_level texts l trims lowers h =
    let (capitals, eq) = level_of-level_string l h in
    parse-capitals texts (level_string l) trims lowers capitals ∙ eq
