-- ===== src/Storage/ColdFiles.antt =====
-- storage/parquet_exporter.rs: `latest_cold_file`. A path in the cold directory is its file name, and
-- paths compare as the bytes of their names.
pub mod Order
pub mod Newest
pub mod Served
pub mod Put
use tonggeret.Base.{
  ℕ, ◌≡◌, refl, Bool, true, false, ◌&&◌, Option, none, some, List, [], ◌∷◌, ◌++◌, ◌==◌,
  if◌then◌else◌, codes,
}
use tonggeret.Text.{Str, str_eq}
use tonggeret.Text.Utf8.{utf8}
use tonggeret.Storage.Keys.{lex_ltb}

-- `PARQUET_FILE_PREFIX`
abbrev pub parquet_file_prefix : Str
parquet_file_prefix = codes "metrics_cold_"

-- `str::starts_with`
unfoldable pub starts_with : Str → Str → Bool
starts_with [] s = true
starts_with (c ∷ p) [] = false
starts_with (c ∷ p) (d ∷ s) = (c == d) && starts_with p s

-- what stands before and behind the last dot
unfoldable pub rsplit_dot : Str → Option (Str × Str)
rsplit_dot [] = none
rsplit_dot (c ∷ s) = elim (rsplit_dot s) [
  | some (before, behind) ↦ some (c ∷ before, behind)
  | none ↦ if c == b'.' then some ([], s) else none
]

abbrev pub behind_dot : Option (Str × Str) → Option Str
behind_dot (some (c ∷ before, behind)) = some behind
behind_dot _ = none

-- `Path::extension` of a file name
unfoldable pub extension : Str → Option Str
unfolding rsplit_dot
extension name = if str_eq name (codes "..") then none else behind_dot (rsplit_dot name)

abbrev pub is_text : Str → Option Str → Bool
is_text s none = false
is_text s (some t) = str_eq t s

-- the test of the `filter`
unfoldable pub is_cold_name : Str → Bool
unfolding starts_with extension
is_cold_name name =
    starts_with parquet_file_prefix name && is_text (codes "parquet") (extension name)

-- `flatten` and `filter`: an entry that fails to be read is passed over
unfoldable pub cold_names : List (Option Str) → List Str
unfolding is_cold_name
cold_names [] = []
cold_names (none ∷ entries) = cold_names entries
cold_names (some name ∷ entries) =
    let rest = cold_names entries in if is_cold_name name then name ∷ rest else rest

-- the later of a name and of what comes after it
unfoldable pub later : Str → Option Str → Option Str
later n none = some n
later n (some m) = if lex_ltb (utf8 m) (utf8 n) then some n else some m

-- `max`
unfoldable pub newest : List Str → Option Str
unfolding later
newest [] = none
newest (n ∷ names) = later n (newest names)

-- `latest_cold_file`, by what `read_dir` gives
unfoldable pub latest_cold_file : Option (List (Option Str)) → Option Str
unfolding newest cold_names
latest_cold_file none = none
latest_cold_file (some entries) = newest (cold_names entries)

picks :
    latest_cold_file (
      some (
        some (codes "metrics_cold_1.parquet")
        ∷ none
        ∷ some (codes "metrics_cold_2.parquet")
        ∷ some (codes ".metrics_cold_3.parquet.tmp")
        ∷ some (codes "z.parquet")
        ∷ []))
    ≡ some (codes "metrics_cold_2.parquet")
unfolding latest_cold_file str_eq lex_ltb utf8
picks = refl
