-- ===== src/Log/Quoted.antt =====
-- log.go: what a reader of JSON makes of a quoted text.
use open_blocklist.Base.{
  ℕ, zero, suc, ◌+◌, ◌-◌, ◌*◌, ◌/◌, ◌%◌, ◌<◌, ◌≤◌, ◌≢◌, ◌==◌, ltb, leb, ◌&&◌, ◌||◌, Bytes, codes,
  Option, none, some, [], ◌∷◌, ◌++◌, append_assoc, append-nil, length, take, drop,
  take-length_append, drop-length_append, if◌then◌else◌, ◌≡◌, refl, sym, ap, ◌∙◌, arith,
}
use mathlib.Core.List.{flat_map}
use open_blocklist.Key.{hex_digit}
use open_blocklist.Log.{quoted_byte, append_bytes, append_quoted}

-- Where a reader of a JSON string stands: in the text, behind a backslash, or in a \u escape with the
-- digits it still wants and the value of those before.
data Place : Type 0 where
  in_text : Place
  escaped : Place
  in_hex : ℕ → ℕ → Place

-- What it makes of one byte: the text it yields and where it goes on, the end of the string, or no JSON.
data Reading : Type 0 where
  go_on : Bytes → Place → Reading
  ended : Reading
  refused : Reading

abbrev hex_value : ℕ → Option ℕ
hex_value c =
    if leb b'0' c && leb c b'9'
    then some (c - b'0')
    else if leb b'a' c && leb c b'f'
    then some (c - b'a' + 10)
    else if leb b'A' c && leb c b'F'
    then some (c - b'A' + 10)
    else none

-- A byte in the text: a quote ends it, control characters are not allowed.
read_text : ℕ → Reading
read_text c =
    if c == b'"'
    then ended
    else if c == b'\\'
    then go_on [] escaped
    else if ltb c 0x20
    then refused
    else go_on (c ∷ []) in_text

-- The escapes of JSON.
read_escaped : ℕ → Reading
read_escaped c =
    if c == b'"' || c == b'\\' || c == b'/'
    then go_on (c ∷ []) in_text
    else if c == b'n'
    then go_on (10 ∷ []) in_text
    else if c == b'r'
    then go_on (13 ∷ []) in_text
    else if c == b't'
    then go_on (9 ∷ []) in_text
    else if c == b'b'
    then go_on (8 ∷ []) in_text
    else if c == b'f'
    then go_on (12 ∷ []) in_text
    else if c == b'u'
    then go_on [] (in_hex 3 0)
    else refused

-- A digit of a \u escape; only characters of one byte are read.
read_digit : ℕ → ℕ → Option ℕ → Reading
read_digit wanted seen none = refused
read_digit zero seen (some d) =
    if ltb (seen * 16 + d) 128 then go_on ((seen * 16 + d) ∷ []) in_text else refused
read_digit (suc wanted) seen (some d) = go_on [] (in_hex wanted (seen * 16 + d))

read_byte : Place → ℕ → Reading
unfolding read_text read_escaped read_digit
read_byte in_text c = read_text c
read_byte escaped c = read_escaped c
read_byte (in_hex wanted seen) c = read_digit wanted seen (hex_value c)

abbrev prepend : Bytes → Option (Bytes × Bytes) → Option (Bytes × Bytes)
prepend out none = none
prepend out (some (t, rest)) = some (out ++ t, rest)

-- A reader of JSON strings, behind the opening quote: the text, and what stands behind the closing one.
read_string : Place → Bytes → Option (Bytes × Bytes)
unfolding read_byte
read_string place [] = none
read_string place (c ∷ s) = elim (read_byte place c) [
  | go_on out next ↦ prepend out (read_string next s)
  | ended ↦ some ([], s)
  | refused ↦ none
]

read_string-go_on :
    (place next : Place) (c : ℕ) (s out : Bytes)
    → read_byte place c ≡ go_on out next
    → read_string place (c ∷ s) ≡ prepend out (read_string next s)
unfolding read_string
read_string-go_on place next c s out e = rw (e, read_string) refl

hex_value-hex_digit : (n : ℕ) → n < 16 → hex_value (hex_digit n) ≡ some n
unfolding hex_digit
hex_value-hex_digit n h = ground arith

prepend-nil : (o : Option (Bytes × Bytes)) → prepend [] o ≡ o
prepend-nil none = refl
prepend-nil (some (t, rest)) = refl

-- A step that yields nothing yet.
read-silent :
    (place next : Place) (c : ℕ) (s : Bytes)
    → read_byte place c ≡ go_on [] next
    → read_string place (c ∷ s) ≡ read_string next s
read-silent place next c s e =
    read_string-go_on place next c s [] e ∙ prepend-nil (read_string next s)

read_high : (n : ℕ) → n < 16 → read_byte (in_hex 1 0) (hex_digit n) ≡ go_on [] (in_hex 0 n)
unfolding read_byte
read_high n small = rw (hex_value-hex_digit n small) (unfold read_digit in ground arith)

read_low :
    (c : ℕ) → c < 0x20 → read_byte (in_hex 0 (c / 16)) (hex_digit (c % 16)) ≡ go_on (c ∷ []) in_text
unfolding read_byte
read_low c small =
    rw (hex_value-hex_digit (c % 16) (omega arith)) (unfold read_digit in ground arith)

-- The escape of a control character is read as that character.
read-control :
    (c : ℕ) (rest : Bytes)
    → c < 0x20
    → read_string in_text (codes "\\u00" ++ (hex_digit (c / 16) ∷ hex_digit (c % 16) ∷ rest))
      ≡ prepend (c ∷ []) (read_string in_text rest)
read-control c rest h =
    let high = hex_digit (c / 16) in
    let low = hex_digit (c % 16) in
    read-silent in_text escaped b'\\' (b'u' ∷ b'0' ∷ b'0' ∷ high ∷ low ∷ rest)
      (unfold read_byte read_text in refl)
    ∙ read-silent escaped (in_hex 3 0) b'u' (b'0' ∷ b'0' ∷ high ∷ low ∷ rest)
        (unfold read_byte read_escaped in refl)
    ∙ read-silent (in_hex 3 0) (in_hex 2 0) b'0' (b'0' ∷ high ∷ low ∷ rest)
        (unfold read_byte read_digit in refl)
    ∙ read-silent (in_hex 2 0) (in_hex 1 0) b'0' (high ∷ low ∷ rest)
        (unfold read_byte read_digit in refl)
    ∙ read-silent (in_hex 1 0) (in_hex 0 (c / 16)) high (low ∷ rest)
        (read_high (c / 16) (omega arith))
    ∙ read_string-go_on (in_hex 0 (c / 16)) in_text low rest (c ∷ []) (read_low c h)

-- Any other byte stands for itself.
read-plain :
    (c : ℕ) (rest : Bytes)
    → c ≢ b'"'
    → c ≢ b'\\'
    → 0x20 ≤ c
    → read_string in_text (c ∷ rest) ≡ prepend (c ∷ []) (read_string in_text rest)
read-plain c rest quote backslash large =
    read_string-go_on in_text in_text c rest (c ∷ []) (unfold read_byte read_text in ground arith)

read-escape :
    (e c : ℕ) (rest : Bytes)
    → read_byte escaped e ≡ go_on (c ∷ []) in_text
    → read_string in_text (b'\\' ∷ e ∷ rest) ≡ prepend (c ∷ []) (read_string in_text rest)
read-escape e c rest h =
    read-silent in_text escaped b'\\' (e ∷ rest) (unfold read_byte read_text in refl)
    ∙ read_string-go_on escaped in_text e rest (c ∷ []) h

-- One quoted byte is read as that byte.
read-quoted_byte :
    (c : ℕ) (rest : Bytes)
    → read_string in_text (quoted_byte c ++ rest) ≡ prepend (c ∷ []) (read_string in_text rest)
unfolding quoted_byte
read-quoted_byte c rest = ground (
  arith,
  read-control c rest,
  read-plain c rest,
  read-escape b'"' b'"' rest (unfold read_byte read_escaped in refl),
  read-escape b'\\' b'\\' rest (unfold read_byte read_escaped in refl),
  read-escape b'n' 10 rest (unfold read_byte read_escaped in refl),
  read-escape b'r' 13 rest (unfold read_byte read_escaped in refl),
  read-escape b't' 9 rest (unfold read_byte read_escaped in refl),
)

append_bytes-flat_map : (b s : Bytes) → append_bytes b s ≡ b ++ flat_map quoted_byte s
unfolding append_bytes flat_map
append_bytes-flat_map b [] = sym (append-nil b)
append_bytes-flat_map b (c ∷ s) = simp (append_bytes-flat_map (b ++ quoted_byte c) s, append_assoc)

pub append_quoted-flat_map :
    (b s : Bytes) → append_quoted b s ≡ b ++ b'"' ∷ (flat_map quoted_byte s ++ b'"' ∷ [])
unfolding append_quoted
append_quoted-flat_map b s = simp (append_bytes-flat_map, append_assoc)

read-flat_map :
    (s rest : Bytes) → read_string in_text (flat_map quoted_byte s ++ b'"' ∷ rest) ≡ some (s, rest)
unfolding flat_map
read-flat_map [] rest = unfold read_string read_byte read_text in refl
read-flat_map (c ∷ s) rest = simp append_assoc (
    read-quoted_byte c (flat_map quoted_byte s ++ b'"' ∷ rest)
    ∙ ap (prepend (c ∷ [])) (read-flat_map s rest))

-- A reader of JSON strings, from the opening quote.
pub read_quoted : Bytes → Option (Bytes × Bytes)
unfolding read_string
read_quoted [] = none
read_quoted (c ∷ s) = if c == b'"' then read_string in_text s else none

-- A reader of JSON strings reads what appendQuoted appends to a buffer as the text that it was given,
-- whatever its bytes, and stops behind it; what stood in the buffer is still there.
pub read-append_quoted :
    (b s rest : Bytes)
    → (take (length b) (append_quoted b s) ≡ b)
      × (read_quoted (drop (length b) (append_quoted b s ++ rest)) ≡ some (s, rest))
unfolding read_quoted
read-append_quoted b s rest =
    let tail = b'"' ∷ (flat_map quoted_byte s ++ b'"' ∷ []) in
    (
      rw (append_quoted-flat_map b s) (take-length_append b tail),
      rw
          (
            append_quoted-flat_map b s,
            append_assoc b tail rest,
            drop-length_append b (tail ++ rest),
            append_assoc (flat_map quoted_byte s) (b'"' ∷ []) rest,
          )
          (read-flat_map s rest),
    )
