-- ===== src/Macros.antt =====
-- src/lib.rs: the macros `counter!`, `gauge!` and `histogram!`, as what they expand to. A value is given
-- as its `f64`, and the values of labels as the texts that `to_string` makes of them.
use tonggeret.Base.{ℕ, ◌≡◌, Option, none, some, List, [], ◌∷◌, All}
use tonggeret.Text.{Str}
use tonggeret.Types.{Label, MetricType, PipelineMsg, counter, gauge, histogram, new_entry}
use tonggeret.Types.Labels.{IsCuttable, sanitize_labels-returns}
use tonggeret.Channel.{Channel}
use tonggeret.Engine.{Registry, EngineHandle, record_metric, global_record}

-- The three forms of the labels: none, `key = value` with identifiers, `key => value` with
-- expressions.
pub data LabelForm : Type 0 where
  bare : LabelForm
  named : List (Str × Str) → LabelForm
  keyed : List (Str × Str) → LabelForm

-- `stringify!` or `to_string` of a key, with `to_string` of its value
abbrev pub pairs_of : List (Str × Str) → List Label
pairs_of [] = []
pairs_of ((k, v) ∷ pairs) = (k, v) ∷ pairs_of pairs

unfoldable pub labels_of : LabelForm → List Label
labels_of bare = []
labels_of (named pairs) = pairs_of pairs
labels_of (keyed pairs) = pairs_of pairs

module _ {F64 : Type 0} (registry : Registry F64) (channel : Channel (PipelineMsg F64)) where
  abbrev pub Engine : Type 0
  Engine = Option (EngineHandle channel.Chan registry.Reg)

  -- `counter!`
  unfoldable pub counter_macro : Option ℕ → Str → F64 → LabelForm → Engine → Option Engine
  unfolding labels_of
  counter_macro now name value labels g =
      record_metric registry channel counter now name value (labels_of labels) g

  -- `gauge!`
  unfoldable pub gauge_macro : Option ℕ → Str → F64 → LabelForm → Engine → Option Engine
  unfolding labels_of
  gauge_macro now name value labels g =
      record_metric registry channel gauge now name value (labels_of labels) g

  -- `histogram!`
  unfoldable pub histogram_macro : Option ℕ → Str → F64 → LabelForm → Engine → Option Engine
  unfolding labels_of
  histogram_macro now name value labels g =
      record_metric registry channel histogram now name value (labels_of labels) g

  no_engine :
      (kind : MetricType) (now : Option ℕ) (name : Str) (value : F64) (labels : List Label)
      → All IsCuttable labels
      → record_metric registry channel kind now name value labels none ≡ some none
  unfolding record_metric global_record new_entry
  no_engine kind now name value labels h =
      let (clean, cleaned, _) = sanitize_labels-returns labels h in rw cleaned

  -- Before `init` each of the macros does nothing, with labels in any of the three forms, if each label
  -- value is ASCII or has at most 256 bytes.
  pub macros-uninitialized :
      (now : Option ℕ) (name : Str) (value : F64) (labels : LabelForm)
      → All IsCuttable (labels_of labels)
      → (counter_macro now name value labels none ≡ some none)
        × (gauge_macro now name value labels none ≡ some none)
        × (histogram_macro now name value labels none ≡ some none)
  unfolding counter_macro gauge_macro histogram_macro
  macros-uninitialized now name value labels h = (
    no_engine counter now name value (labels_of labels) h,
    no_engine gauge now name value (labels_of labels) h,
    no_engine histogram now name value (labels_of labels) h,
  )
