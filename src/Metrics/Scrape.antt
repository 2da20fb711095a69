-- ===== src/Metrics/Scrape.antt =====
-- metrics.go: what a reader of the text of the metrics gets.
use open_blocklist.Base.{
  ℕ, ◌==◌, Bytes, codes, Bool, true, false, ◌&&◌, not, List, [], ◌∷◌, ◌++◌, append_assoc, map,
  concat, split, split-append, contains, Lacks, All, All-append, if◌then◌else◌, ◌≡◌, refl, sym, ap,
  ◌∙◌, arith,
}
use open_blocklist.Metrics.{
  Metric, Kind, counter, gauge, kind_text, label_text, help_line, type_line, write_metric_string,
  metrics_text,
}

-- A line up to its first space, and what follows it.
unfoldable pub cut_space : Bytes → Bytes × Bytes
cut_space [] = ([], [])
cut_space (c ∷ s) = let (a, b) = cut_space s in if c == b' ' then ([], s) else (c ∷ a, b)

-- The exposition format, read line by line: a comment, an empty line, or a name and a value.
unfoldable pub read_line : Bytes → List (Bytes × Bytes) → List (Bytes × Bytes)
unfolding cut_space
read_line [] samples = samples
read_line (c ∷ l) samples = if c == b'#' then samples else cut_space (c ∷ l) ∷ samples

unfoldable pub read_lines : List Bytes → List (Bytes × Bytes)
unfolding read_line
read_lines [] = []
read_lines (l ∷ ls) = read_line l (read_lines ls)

unfoldable pub scrape : Bytes → List (Bytes × Bytes)
unfolding read_lines
scrape text = read_lines (split text 10)

-- A name that is not empty, begins no comment, and holds no space and no newline.
unfoldable pub plain_name : Bytes → Bool
unfolding contains
plain_name [] = false
plain_name (c ∷ n) = not (c == b'#') && (not (contains (c ∷ n) b' ') && not (contains (c ∷ n) 10))

-- A metric without labels, on lines of its own.
pub record IsPlain (m : Metric) : Type 0 where
  pub name : plain_name m.name ≡ true
  pub help : Lacks 10 m.help
  pub value : Lacks 10 m.value
  pub no_labels : m.labels ≡ []

pub contains-Lacks : (b : ℕ) (s : Bytes) → contains s b ≡ false → Lacks b s
unfolding contains
contains-Lacks b [] h = tt
contains-Lacks b (c ∷ s) h = (ground (arith, h), contains-Lacks b s (ground (arith, h)))

cut_space-append : (n v : Bytes) → Lacks b' ' n → cut_space (n ++ b' ' ∷ v) ≡ (n, v)
unfolding cut_space
cut_space-append [] v h = refl
cut_space-append (c ∷ n) v (hc, h) = rw (cut_space-append n v h) (ground arith)

-- What a plain name is made of.
record IsName (n : Bytes) : Type 0 where
  starts :
      (l : Bytes) (samples : List (Bytes × Bytes))
      → read_line (n ++ b' ' ∷ l) samples ≡ cut_space (n ++ b' ' ∷ l) ∷ samples
  no_space : Lacks b' ' n
  no_newline : Lacks 10 n

plain_name-IsName : (n : Bytes) → plain_name n ≡ true → IsName n
unfolding plain_name read_line
plain_name-IsName [] h = cc
plain_name-IsName (c ∷ n) h = record {
  starts = λ l samples. ground (arith, h);
  no_space = contains-Lacks b' ' (c ∷ n) (ground (arith, h));
  no_newline = contains-Lacks 10 (c ∷ n) (ground (arith, h));
}

kind-Lacks : (k : Kind) → Lacks 10 (kind_text k)
kind-Lacks counter = omega arith
kind-Lacks gauge = omega arith

pub append-Lacks : (s t : Bytes) → Lacks 10 s → Lacks 10 t → Lacks 10 (s ++ t)
append-Lacks s t hs ht = All-append _ s t hs ht

-- Three lines, before what follows.
split-three :
    (a b c rest : Bytes)
    → Lacks 10 a
    → Lacks 10 b
    → Lacks 10 c
    → split ((a ++ 10 ∷ (b ++ 10 ∷ (c ++ 10 ∷ []))) ++ rest) 10 ≡ a ∷ b ∷ c ∷ split rest 10
split-three a b c rest ha hb hc =
    rw
      (
        append_assoc a (10 ∷ (b ++ 10 ∷ (c ++ 10 ∷ []))) rest,
        split-append 10 a ((b ++ 10 ∷ (c ++ 10 ∷ [])) ++ rest) ha,
      )
      (rw (append_assoc b (10 ∷ (c ++ 10 ∷ [])) rest, split-append 10 b ((c ++ 10 ∷ []) ++ rest) hb)
        (rw (append_assoc c (10 ∷ []) rest, split-append 10 c rest hc) refl))

-- The line of the value.
abbrev value_line : Metric → Bytes
value_line m = m.name ++ b' ' ∷ m.value

write-three :
    (m : Metric)
    → m.labels ≡ []
    → write_metric_string m ≡ help_line m ++ 10 ∷ (type_line m ++ 10 ∷ (value_line m ++ 10 ∷ []))
unfolding write_metric_string label_text
write-three m h = rw h (
    ap (λ t. help_line m ++ 10 ∷ (type_line m ++ 10 ∷ t))
      (sym (append_assoc m.name (b' ' ∷ m.value) (10 ∷ []))))

split-write :
    (m : Metric) (rest : Bytes)
    → IsPlain m
    → split (write_metric_string m ++ rest) 10
      ≡ help_line m ∷ type_line m ∷ value_line m ∷ split rest 10
split-write m rest h =
    let n = (plain_name-IsName m.name h.name).no_newline in
    rw (write-three m h.no_labels) (
      split-three (help_line m) (type_line m) (value_line m) rest
        (append-Lacks (codes "# HELP ") (m.name ++ b' ' ∷ m.help) (omega arith)
          (append-Lacks m.name (b' ' ∷ m.help) n (omega arith, h.help)))
        (append-Lacks (codes "# TYPE ") (m.name ++ b' ' ∷ kind_text m.kind) (omega arith)
          (append-Lacks m.name (b' ' ∷ kind_text m.kind) n (omega arith, kind-Lacks m.kind)))
        (append-Lacks m.name (b' ' ∷ m.value) n (omega arith, h.value)))

read-value_line :
    (m : Metric) (samples : List (Bytes × Bytes))
    → IsPlain m
    → read_line (value_line m) samples ≡ (m.name, m.value) ∷ samples
read-value_line m samples h =
    let n = plain_name-IsName m.name h.name in
    n.starts m.value samples ∙ ap (λ p. p ∷ samples) (cut_space-append m.name m.value n.no_space)

scrape-write :
    (m : Metric) (rest : Bytes)
    → IsPlain m
    → scrape (write_metric_string m ++ rest) ≡ (m.name, m.value) ∷ scrape rest
unfolding scrape read_lines read_line
scrape-write m rest h =
    ap read_lines (split-write m rest h) ∙ read-value_line m (read_lines (split rest 10)) h

pub scrape-metrics_text :
    (ms : List Metric) → All IsPlain ms → scrape (metrics_text ms) ≡ map (λ m. (m.name, m.value)) ms
unfolding metrics_text concat
scrape-metrics_text [] h = unfold scrape read_lines split in refl
scrape-metrics_text (m ∷ ms) (hm, h) =
    scrape-write m (metrics_text ms) hm ∙ ap (λ l. (m.name, m.value) ∷ l) (scrape-metrics_text ms h)
