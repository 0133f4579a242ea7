-- ===== src/Storage/Export/Schema.antt =====
-- storage/parquet_exporter.rs `arrow_schema`, and the columns that `PendingBatch::flush` makes of its rows:
-- a batch that `RecordBatch::try_new` accepts, so that this call never fails.
use tonggeret.Base.{
  ℕ, ◌≤◌, ◌≡◌, refl, Bool, false, List, [], ◌∷◌, map, length, length-map, codes, arith,
}
use tonggeret.Text.{Str}
use tonggeret.Text.Utf8.{Bytes}
use tonggeret.Storage.Json.{Json}
use tonggeret.Storage.Partition.{Partition}
use tonggeret.Storage.Export.{Row, Outcomes, max_i64, row_of}

pub data DataType : Type 0 where
  timestamp_micros utf8_text float64 : DataType

-- `Field`: a name, a type, and whether a value may be missing
pub record Field : Type 0 where
  pub name : Str
  pub data_type : DataType
  pub nullable : Bool

unfoldable pub arrow_schema : List Field
arrow_schema =
    record { name = codes "ts"; data_type = timestamp_micros; nullable = false }
    ∷ record { name = codes "name"; data_type = utf8_text; nullable = false }
    ∷ record { name = codes "value"; data_type = float64; nullable = false }
    ∷ record { name = codes "metric_type"; data_type = utf8_text; nullable = false }
    ∷ record { name = codes "labels"; data_type = utf8_text; nullable = false }
    ∷ []

-- an array of values, of which none is missing
pub data Column (F64 : Type 0) : Type 0 where
  timestamps : List ℕ → Column F64
  texts : List Str → Column F64
  floats : List F64 → Column F64

module _ {F64 : Type 0} where
  -- the columns of a batch, in the order in which `flush` gives them
  unfoldable pub columns : List (Row F64) → List (Column F64)
  columns rows =
      timestamps (map (λ r. r.ts) rows)
      ∷ texts (map (λ r. r.name) rows)
      ∷ floats (map (λ r. r.value) rows)
      ∷ texts (map (λ r. r.kind) rows)
      ∷ texts (map (λ r. r.labels) rows)
      ∷ []

  abbrev pub type_of : Column F64 → DataType
  type_of (timestamps xs) = timestamp_micros
  type_of (texts xs) = utf8_text
  type_of (floats xs) = float64

  abbrev pub size_of : Column F64 → ℕ
  size_of (timestamps xs) = length xs
  size_of (texts xs) = length xs
  size_of (floats xs) = length xs

  -- what `RecordBatch::try_new` checks: one column for each field, of its type, all of one length
  abbrev pub IsBatch : ℕ → List Field → List (Column F64) → Type 0
  IsBatch n [] [] = Unit
  IsBatch n [] (c ∷ cs) = ⊥
  IsBatch n (f ∷ fs) [] = ⊥
  IsBatch n (f ∷ fs) (c ∷ cs) = (type_of c ≡ f.data_type) × (size_of c ≡ n) × IsBatch n fs cs

  -- The columns of any rows are a batch of the schema, as long as the rows.
  pub columns-IsBatch : (rows : List (Row F64)) → IsBatch (length rows) arrow_schema (columns rows)
  unfolding arrow_schema columns
  columns-IsBatch rows = (
    refl,
    length-map rows _,
    (
      refl,
      length-map rows _,
      (refl, length-map rows _, (refl, length-map rows _, (refl, length-map rows _, tt))),
    ),
  )

  -- The time of an exported row fits into an `i64`.
  pub row_of-ts :
      (json : Json F64) (partition : Partition) (zero_f64 : F64) (outcomes : Outcomes) (ts : ℕ)
      (name : Str) (payload : Bytes)
      → (row_of json partition zero_f64 outcomes ts name payload).ts ≤ max_i64
  unfolding row_of
  row_of-ts json partition zero_f64 outcomes ts name payload = omega arith
