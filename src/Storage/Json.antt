-- ===== src/Storage/Json.antt =====
-- What the crate uses of `serde_json`, as an interface: `Value`, `from_slice` and `to_string`.
-- `settle` is what a value has become once it is printed and parsed again.
use tonggeret.Base.{◌≡◌, Bool, true, Option, none, some, List, [], ◌∷◌, if◌then◌else◌}
use mathlib.Core.Option
use tonggeret.Text.{Str, str_eq}
use tonggeret.Text.Utf8.{Bytes, utf8}

-- the field of a map that is built from pairs: of two with one key, the later
unfoldable pub last_of {ℓ} : {A : Type ℓ} → Str → List (Str × A) → Option A
last_of k [] = none
last_of k ((j, a) ∷ fields) = elim (last_of k fields) [
  | some b ↦ some b
  | none ↦ if str_eq j k then some a else none
]

pub record Json (F64 : Type 0) : Type 1 where
  pub Value : Type 0
  pub number : F64 → Value
  pub string : Str → Value
  pub object : List (Str × Value) → Value
  pub to_string : Value → Str
  pub from_slice : Bytes → Option Value
  pub get : Str → Value → Option Value
  pub as_f64 : Value → Option F64
  pub as_str : Value → Option Str
  pub is_object : Value → Bool
  pub settle : Value → Value
  -- the number that is read back: none for NaN and the infinities, which are printed as `null`
  pub read_number : F64 → Option F64
  pub from_slice-to_string : (v : Value) → from_slice (utf8 (to_string v)) ≡ some (settle v)
  pub get-object :
      (k : Str) (fields : List (Str × Value))
      → get k (settle (object fields)) ≡ Option.map settle (last_of k fields)
  pub as_f64-number : (x : F64) → as_f64 (settle (number x)) ≡ read_number x
  pub as_str-string : (s : Str) → as_str (settle (string s)) ≡ some s
  pub is_object-object : (fields : List (Str × Value)) → is_object (settle (object fields)) ≡ true
