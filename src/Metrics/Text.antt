-- ===== src/Metrics/Text.antt =====
-- metrics.go: the text of one metric.
use open_blocklist.Base.{Bytes, codes, Bool, true, false, [], ◌∷◌, ◌++◌, if◌then◌else◌}
use open_blocklist.Base.Int.{ℤ}
use open_blocklist.Base.Dict.{Dict}
use open_blocklist.State.{Go}

pub data Kind : Type 0 where
  counter gauge : Kind

abbrev pub kind_text : Kind → Bytes
kind_text counter = codes "counter"
kind_text gauge = codes "gauge"

-- A call of writeMetricString. The metrics of this program have no labels.
pub record Metric : Type 0 where
  pub name : Bytes
  pub help : Bytes
  pub kind : Kind
  pub value : Bytes
  pub labels : Dict Bytes

unfoldable label_list : Bool → Dict Bytes → Bytes
label_list first [] = []
label_list first ((k, v) ∷ labels) =
    (if first then [] else codes ",")
    ++ k
    ++ codes "=\""
    ++ v
    ++ codes "\""
    ++ label_list false labels

unfoldable pub label_text : Dict Bytes → Bytes
unfolding label_list
label_text [] = []
label_text (l ∷ ls) = codes "{" ++ label_list true (l ∷ ls) ++ codes "}"

abbrev pub help_line : Metric → Bytes
help_line m = codes "# HELP " ++ (m.name ++ b' ' ∷ m.help)

abbrev pub type_line : Metric → Bytes
type_line m = codes "# TYPE " ++ (m.name ++ b' ' ∷ kind_text m.kind)

-- The three lines that writeMetricString writes.
unfoldable pub write_metric_string : Metric → Bytes
unfolding label_text
write_metric_string m =
    help_line m
    ++ 10 ∷ (type_line m ++ 10 ∷ (m.name ++ (label_text m.labels ++ b' ' ∷ (m.value ++ 10 ∷ []))))

abbrev pub write_metric : Go → Bytes → Bytes → Kind → ℤ → Metric
write_metric go name help kind value = record {
  name = name;
  help = help;
  kind = kind;
  value = go.format_int value;
  labels = [];
}

-- writeMetricFloat; the value is what strconv.FormatFloat makes of it.
abbrev pub write_metric_float : Bytes → Bytes → Kind → Bytes → Metric
write_metric_float name help kind value = record {
  name = name;
  help = help;
  kind = kind;
  value = value;
  labels = [];
}
