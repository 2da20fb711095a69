-- ===== src/OsRelease/RoundTrip.antt =====
-- helpers.go: what is read back from lines of the form KEY="value".
use open_blocklist.Base.{
  ◌==◌, Bytes, codes, true, false, List, [], ◌∷◌, ◌++◌, All, Lacks, map, contains, has_prefix,
  str_eq, ◌≡◌, refl, ap, ◌∙◌, arith,
}
use open_blocklist.Base.Dict.{Dict, insert}
use open_blocklist.OsRelease.{split_first, trim_left, trim_right, read_line, read_lines}

abbrev pub print : Bytes × Bytes → Bytes
print (key, value) = key ++ (b'=' ∷ b'"' ∷ (value ++ b'"' ∷ []))

-- A key without "=" that does not start a comment, and a value without quotes.
abbrev pub IsSetting : Bytes × Bytes → Type 0
IsSetting (key, value) = Lacks b'=' key × Lacks b'#' key × Lacks b'"' value

split_first-key :
    (key rest : Bytes) → Lacks b'=' key → split_first b'=' (key ++ b'=' ∷ rest) ≡ (key, rest)
unfolding split_first
split_first-key [] rest h = refl
split_first-key (c ∷ key) rest (hc, h) = ground (arith, hc, split_first-key key rest h)

contains-sep : (key rest : Bytes) → contains (key ++ b'=' ∷ rest) b'=' ≡ true
unfolding contains
contains-sep [] rest = refl
contains-sep (c ∷ key) rest = ground (arith, contains-sep key rest)

not-comment :
    (key rest : Bytes) → Lacks b'#' key → has_prefix (key ++ b'=' ∷ rest) (codes "#") ≡ false
unfolding has_prefix
not-comment [] rest h = refl
not-comment (c ∷ key) rest (hc, h) = ground (arith, hc)

trim_right-quote : (v : Bytes) → Lacks b'"' v → trim_right b'"' (v ++ b'"' ∷ []) ≡ v
unfolding trim_right str_eq
trim_right-quote [] h = refl
trim_right-quote (d ∷ v) (hd, h) = ground (arith, hd, trim_right-quote v h)

trim_left-quote : (v : Bytes) → Lacks b'"' v → trim_right b'"' (trim_left b'"' (v ++ b'"' ∷ [])) ≡ v
unfolding trim_left
trim_left-quote [] h = unfold trim_right in refl
trim_left-quote (d ∷ v) (hd, h) =
    let other : (d == b'"') ≡ false = ground (arith, hd) in
    rw other (trim_right-quote (d ∷ v) (hd, h))

read_line-print :
    (x : Bytes × Bytes) (read : Dict Bytes)
    → IsSetting x
    → read_line (print x) read ≡ insert x.0 x.1 read
unfolding read_line
read_line-print (key, value) read (h, hash, quote) =
    let rest = b'"' ∷ (value ++ b'"' ∷ []) in
    rw
      (
        split_first-key key rest h,
        contains-sep key rest,
        not-comment key rest hash,
        trim_left-quote value quote,
      )
      refl

abbrev insert_all : List (Bytes × Bytes) → Dict Bytes → Dict Bytes
insert_all [] read = read
insert_all (x ∷ xs) read = insert_all xs (insert x.0 x.1 read)

-- The lines KEY="value" of keys and values are read back as these keys with these values, in their
-- order, a later one over an earlier one of the same key; for keys without "=" and "#" and values
-- without quotes.
pub read_lines-print :
    (xs : List (Bytes × Bytes)) (read : Dict Bytes)
    → All IsSetting xs
    → read_lines (map print xs) read ≡ insert_all xs read
unfolding read_lines
read_lines-print [] read h = refl
read_lines-print (x ∷ xs) read (hx, h) =
    ap (read_lines (map print xs)) (read_line-print x read hx)
    ∙ read_lines-print xs (insert x.0 x.1 read) h
