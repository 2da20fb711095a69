-- ===== src/OsRelease.antt =====
-- helpers.go: /etc/os-release, on the lines that bufio.Scanner gives, and texts of the start-up output.
pub mod RoundTrip
use open_blocklist.Base.{
  ℕ, zero, suc, ◌==◌, Bytes, codes, Option, none, some, Bool, ◌&&◌, ◌||◌, not, List, [], ◌∷◌,
  contains, has_prefix, str_eq, if◌then◌else◌,
}
use open_blocklist.Base.Dict.{Dict, insert}

-- strings.SplitN(line, "=", 2) where the text holds the byte: what stands before the first one, and
-- behind it.
unfoldable pub split_first : ℕ → Bytes → Bytes × Bytes
split_first sep [] = ([], [])
split_first sep (c ∷ s) =
    let (before, behind) = split_first sep s in if c == sep then ([], s) else (c ∷ before, behind)

-- strings.Trim with one byte.
unfoldable pub trim_left : ℕ → Bytes → Bytes
trim_left c [] = []
trim_left c (d ∷ s) = let rest = trim_left c s in if d == c then rest else d ∷ s

unfoldable pub trim_right : ℕ → Bytes → Bytes
trim_right c [] = []
trim_right c (d ∷ s) =
    let rest = trim_right c s in if d == c && str_eq rest [] then [] else d ∷ rest

abbrev pub trim : ℕ → Bytes → Bytes
trim c s = trim_right c (trim_left c s)

-- The body of readOSRelease's loop.
unfoldable pub read_line : Bytes → Dict Bytes → Dict Bytes
unfolding split_first trim_left trim_right contains has_prefix
read_line line read =
    let (key, val) = split_first b'=' line in
    if has_prefix line (codes "#") || not (contains line b'=')
    then read
    else insert key (trim b'"' val) read

unfoldable pub read_lines : List Bytes → Dict Bytes → Dict Bytes
unfolding read_line
read_lines [] read = read
read_lines (line ∷ lines) read = read_lines lines (read_line line read)

-- readOSRelease: `none` where the file cannot be opened; the lines, and whether the scanner reported no
-- error.
unfoldable pub read_os_release : Option (List Bytes × Bool) → Option (Dict Bytes × Bool)
unfolding read_lines
read_os_release none = none
read_os_release (some (lines, ok)) = some (read_lines lines [], ok)

-- formatStr
unfoldable pub format_str : Bytes → Bytes
format_str s = if str_eq s [] then codes "[]" else s

-- dashLine
unfoldable pub dash_line : ℕ → Bytes
dash_line zero = []
dash_line (suc width) = b'-' ∷ dash_line width
