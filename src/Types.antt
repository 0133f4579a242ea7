-- ===== src/Types.antt =====
-- types.rs: metric types, metric names, labels and entries. A number of type `f64` is a value of
-- a type `F64` that the code hands on and never computes with; a `SystemTime` is the number of
-- nanoseconds since the Unix epoch, or `none` before it. A panic is `none`.
pub mod Names
pub mod Labels
use tonggeret.Base.{
  ℕ, zero, suc, ◌≡◌, refl, Bool, true, false, ◌&&◌, ◌||◌, Option, none, some, List, [], ◌∷◌, ◌++◌,
  map, arith, ltb, ◌==◌, if◌then◌else◌, ◌>>=◌, codes,
}
use tonggeret.Text.{
  Str, len, truncate, trim, str_eq, is_empty, is_ascii_alphabetic, is_ascii_alphanumeric,
}
use tonggeret.Error.{Error, Result, ok, err, invalid_config}

pub data MetricType : Type 0 where
  counter gauge histogram : MetricType

-- `MetricType::as_str`, and `Display`
unfoldable pub as_str : MetricType → Str
as_str counter = codes "counter"
as_str gauge = codes "gauge"
as_str histogram = codes "histogram"

-- `MetricType::from_str`
unfoldable pub from_str : Str → Result MetricType
from_str s =
    if str_eq s (codes "counter")
    then ok counter
    else if str_eq s (codes "gauge")
    then ok gauge
    else if str_eq s (codes "histogram")
    then ok histogram
    else err (
        invalid_config
          (codes "unknown metric type `" ++ (s ++ codes "`, expected counter|gauge|histogram")))

abbrev pub name_start : ℕ → Bool
name_start c = is_ascii_alphabetic c || c == b'_' || c == b':'

abbrev pub name_char : ℕ → Bool
name_char c = is_ascii_alphanumeric c || c == b'_' || c == b':'

-- the characters after the first
unfoldable pub sanitize_rest : Str → Str
sanitize_rest [] = []
sanitize_rest (c ∷ s) = (if name_char c then c else b'_') ∷ sanitize_rest s

-- `sanitize_metric_name`
unfoldable pub sanitize_metric_name : Str → Str
unfolding sanitize_rest
sanitize_metric_name [] = codes "_unnamed"
sanitize_metric_name (c ∷ s) = (if name_start c then c else b'_') ∷ sanitize_rest s

abbrev pub Label : Type 0
Label = Str × Str

abbrev pub max_pairs : ℕ
max_pairs = 16

abbrev pub max_key : ℕ
max_key = 128

abbrev pub max_val : ℕ
max_val = 256

-- `if s.len() > max { s.truncate(max) }`
unfoldable pub cap_text : ℕ → Str → Option Str
cap_text most s = if ltb most (len s) then truncate most s else some s

-- The test by which the closure of `sanitize_labels` drops a pair.
unfoldable pub is_dropped : Str → Bool
is_dropped k =
    let key = sanitize_metric_name (trim k) in
    is_empty key || (str_eq key (codes "_unnamed") && is_empty (trim k))

-- what the closure makes of a pair that it keeps
unfoldable pub sanitize_label : Label → Option Label
sanitize_label (k, v) = do
  key ← cap_text max_key (sanitize_metric_name (trim k))
  val ← cap_text max_val v
  some (key, val)

-- `filter_map(..).take(room)`: nothing is asked of the closure once `room` pairs are out
unfoldable pub sanitize_up_to : ℕ → List Label → Option (List Label)
sanitize_up_to zero labels = some []
sanitize_up_to (suc room) [] = some []
sanitize_up_to (suc room) ((k, v) ∷ labels) =
    let kept = (do l ← sanitize_label (k, v); ls ← sanitize_up_to room labels; some (l ∷ ls)) in
    let skipped = sanitize_up_to (suc room) labels in if is_dropped k then skipped else kept

-- `sanitize_labels`
unfoldable pub sanitize_labels : List Label → Option (List Label)
sanitize_labels labels = sanitize_up_to max_pairs labels

-- `MetricEntry`
pub record MetricEntry (F64 : Type 0) : Type 0 where
  pub timestamp : Option ℕ
  pub name : Str
  pub value : F64
  pub metric_type : MetricType
  pub labels : List Label

-- `MetricEntry::new`, the time of the call first
unfoldable pub new_entry :
    {F64 : Type 0} → Option ℕ → Str → F64 → MetricType → List Label → Option (MetricEntry F64)
new_entry now name value metric_type labels = do
  clean ← sanitize_labels labels
  some (record {
    timestamp = now;
    name = sanitize_metric_name name;
    value = value;
    metric_type = metric_type;
    labels = clean;
  })

-- `PipelineMsg`
pub data PipelineMsg (F64 : Type 0) : Type 0 where
  metric : MetricEntry F64 → PipelineMsg F64
  shutdown : PipelineMsg F64

-- `label_names_and_values`
unfoldable pub label_names_and_values : List Label → List Str × List Str
label_names_and_values labels = (map (λ l. l.0) labels, map (λ l. l.1) labels)

lives : sanitize_metric_name (codes "9lives") ≡ codes "_lives"
unfolding sanitize_metric_name
lives = refl

dropped_and_kept :
    (v : Str)
    → sanitize_labels ((codes " a.b ", codes "x") ∷ (codes " ", v) ∷ [])
      ≡ some ((codes "a_b", codes "x") ∷ [])
unfolding sanitize_labels sanitize_up_to sanitize_label is_dropped sanitize_metric_name cap_text
    trim str_eq is_empty len truncate
dropped_and_kept v = refl
