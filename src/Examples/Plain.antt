-- ===== src/Examples/Plain.antt =====
-- Names, labels, configurations and keys at concrete inputs.
use tonggeret.Base.{
  ℕ, zero, suc, ◌≡◌, ◌≢◌, ◌↔◌, inl, refl, true, none, some, List, [], ◌∷◌, ◌++◌, replicate, All,
  codes, arith,
}
use tonggeret.Text.{Str, trim, trim_start, trim_end, push_unless_blank}
use tonggeret.Text.Laws.{IsAscii}
use tonggeret.Error.{ok}
use tonggeret.Types.{sanitize_metric_name, sanitize_labels, Label, max_pairs}
use tonggeret.Types.Names.{IsName, sanitize_metric_name-IsName}
use tonggeret.Types.Labels.{AreLabels, sanitize_labels-returns, sanitize_labels-panics}
use tonggeret.FilePath.{FilePath}
use tonggeret.Middleware.{truncate_path, truncate_path-panics}
use tonggeret.Config.{default_light, validate}
use tonggeret.Config.Laws.{IsConfig, validate_iff}
use tonggeret.Storage.Keys.{encode_key, decode_key, lex_ltb, cutoff_prefix}
use tonggeret.Storage.Keys.RoundTrip.{decode_key-encode_key}
use tonggeret.Storage.Keys.Order.{lex_ltb-cutoff_prefix}

sanitize_metric_name-IsName_example : IsName (sanitize_metric_name (codes "9 lives"))
sanitize_metric_name-IsName_example = sanitize_metric_name-IsName (codes "9 lives")

abbrev pairs : List Label
pairs = (codes "region", codes "eu") ∷ []

sanitize_labels-returns_example :
    (out : List Label) × (sanitize_labels pairs ≡ some out) × AreLabels max_pairs out
sanitize_labels-returns_example =
    sanitize_labels-returns pairs (inl ((omega arith, (omega arith, tt))), tt)

-- 255 letters, then a character of two bytes
abbrev letters : Str
letters = replicate 255 b'a'

letters-IsAscii : (n : ℕ) → All IsAscii (replicate n b'a')
letters-IsAscii zero = tt
letters-IsAscii (suc n) = (omega arith, letters-IsAscii n)

k_stays : trim (codes "k") ≢ []
unfolding trim trim_start trim_end push_unless_blank
k_stays e = cc

sanitize_labels-panics_example : sanitize_labels ((codes "k", letters ++ 0xe9 ∷ []) ∷ []) ≡ none
sanitize_labels-panics_example =
    sanitize_labels-panics (codes "k") letters 0xe9 [] [] k_stays (letters-IsAscii 255) refl
      (omega arith)

-- one bucket, at 7
abbrev buckets : List ℕ
buckets = 7 ∷ []

abbrev long_path : Str
long_path = replicate 127 b'a'

truncate_path-panics_example : truncate_path (long_path ++ 0xe9 ∷ []) ≡ none
truncate_path-panics_example =
    truncate_path-panics long_path 0xe9 [] (letters-IsAscii 127) refl (omega arith)

validate_iff_example :
    (validate true (default_light buckets) ≡ ok tt) ↔ IsConfig true (default_light buckets)
validate_iff_example = validate_iff true (default_light buckets)

-- the root directory
abbrev dir : FilePath
dir = record { rooted = true; parts = [] }

decode_key-encode_key_example :
    decode_key (encode_key 1000 7 (codes "up")) ≡ some (1000, codes "up")
decode_key-encode_key_example =
    decode_key-encode_key 1000 7 (codes "up") (omega arith) (omega arith) (refl, (refl, tt))

lex_ltb-cutoff_prefix_example : lex_ltb (encode_key 1000 7 (codes "up")) (cutoff_prefix 1001) ≡ true
lex_ltb-cutoff_prefix_example =
    lex_ltb-cutoff_prefix 1000 7 1001 (codes "up") (omega arith) (omega arith) (omega arith)

abbrev at : ℕ
at = 1000
