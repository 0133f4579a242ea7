-- ===== src/Storage/Values.antt =====
-- storage/fjall_engine.rs `encode_value`, `entry_micros`; storage/parquet_exporter.rs
-- `decode_value`: the JSON payload of one observation.
use tonggeret.Base.{
  ℕ, ◌/◌, ◌≤◌, ◌≡◌, Option, none, some, List, [], ◌∷◌, map, min, if◌then◌else◌, ◌>>=◌, codes, arith,
}
use tonggeret.Text.{Str, str_eq}
use tonggeret.Text.Utf8.{Bytes, utf8}
use tonggeret.Text.Hex.{max_u64}
use tonggeret.Types.{MetricEntry, Label, as_str}
use tonggeret.Storage.Json.{Json, last_of}

-- `Option::unwrap_or`
abbrev pub unwrap_or {ℓ} : {A : Type ℓ} → A → Option A → A
unwrap_or d none = d
unwrap_or d (some a) = a

-- `entry_micros`: 0 before the epoch, at most `u64::MAX`
unfoldable pub entry_micros : {F64 : Type 0} → MetricEntry F64 → ℕ
entry_micros e = elim e.timestamp [ none ↦ 0 | some nanos ↦ min (nanos / 1000) max_u64 ]

pub entry_micros-le : {F64 : Type 0} (e : MetricEntry F64) → entry_micros e ≤ max_u64
unfolding entry_micros
entry_micros-le e = ground arith

module _ {F64 : Type 0} (json : Json F64) where
  open json use {
    Value, number, string, object, to_string, from_slice, get, as_f64, is_object, settle,
    read_number, from_slice-to_string, get-object, as_f64-number, as_str-string, is_object-object,
  }

  unfoldable pub labels_value : List Label → Value
  labels_value labels = object (map (λ l. (l.0, string l.1)) labels)

  -- `encode_value`
  unfoldable pub encode_value : MetricEntry F64 → Bytes
  encode_value e = utf8 (
      to_string (
        object (
          (codes "value", number e.value)
          ∷ (codes "metric_type", string (as_str e.metric_type))
          ∷ (codes "labels", labels_value e.labels)
          ∷ [])))

  abbrev pub labels_text : Option Value → Str
  labels_text none = codes "{}"
  labels_text (some l) = if is_object l then to_string l else codes "{}"

  abbrev decode_parsed : F64 → Option Value → F64 × Str × Str
  decode_parsed zero_f64 none = (zero_f64, codes "unknown", codes "{}")
  decode_parsed zero_f64 (some v) = (
    unwrap_or zero_f64 (get (codes "value") v >>= as_f64),
    unwrap_or (codes "unknown") (get (codes "metric_type") v >>= json.as_str),
    labels_text (get (codes "labels") v),
  )

  -- `decode_value`, where `zero_f64` is the number `0.0`
  unfoldable pub decode_value : F64 → Bytes → F64 × Str × Str
  decode_value zero_f64 raw = decode_parsed zero_f64 (from_slice raw)

  -- The payload of an observation is decoded to the name of its metric type, to its labels as a JSON
  -- object, and to its value as JSON reads it back, or `0.0` where it reads no number.
  pub decode_value-encode_value :
      (zero_f64 : F64) (e : MetricEntry F64)
      → decode_value zero_f64 (encode_value e) ≡ (
        unwrap_or zero_f64 (read_number e.value),
        as_str e.metric_type,
        to_string (settle (labels_value e.labels)),
      )
  unfolding decode_value encode_value labels_value last_of str_eq
  decode_value-encode_value zero_f64 e =
      rw from_slice-to_string (simp (get-object, as_f64-number, as_str-string, is_object-object))
