-- ===== src/Storage/ColdFiles/Served.antt =====
-- The file that a pass publishes is the one that is found next.
use mathlib.Core.Path.{subst}
use tonggeret.Base.{
  ℕ, ◌≡◌, ◌≢◌, ◌⊎◌, inl, inr, refl, sym, ap, ◌∙◌, true, false, Bool-cases, Option, none, some, List,
  [], ◌∷◌, ◌++◌, append_assoc, All, codes, arith,
}
use tonggeret.Text.{Str, str_eq}
use tonggeret.Text.Utf8.{utf8}
use tonggeret.Error.{Result, ok, err}
use tonggeret.Storage.Json.{Json}
use tonggeret.Storage.Partition.{Partition}
use tonggeret.Storage.Keys.{lex_ltb, cutoff_prefix}
use tonggeret.Storage.Export.{
  Row, Files, Outcomes, put_file, final_name, cutoff_micros, run_compaction_once,
}
use tonggeret.Storage.Export.Tally.{rows_of}
use tonggeret.Storage.Export.Publish.{Published, run_compaction_once-Published}
use tonggeret.Storage.ColdFiles.{
  parquet_file_prefix, starts_with, rsplit_dot, extension, is_cold_name, latest_cold_file,
}
use tonggeret.Storage.ColdFiles.Newest.{
  HasEntry, IsLatest, IsNoLater, IsOther, latest_cold_file-IsLatest,
}

starts_with-append : (p s : Str) → starts_with p (p ++ s) ≡ true
unfolding starts_with
starts_with-append [] s = refl
starts_with-append (c ∷ p) s = ground (arith, starts_with-append p s)

rsplit_dot-append :
    (xs b a : Str) → rsplit_dot b ≡ some ([], a) → rsplit_dot (xs ++ b) ≡ some (xs, a)
unfolding rsplit_dot
rsplit_dot-append [] b a h = h
rsplit_dot-append (c ∷ xs) b a h = rw (rsplit_dot-append xs b a h)

parquet_dot : rsplit_dot (codes ".parquet") ≡ some ([], codes "parquet")
unfolding rsplit_dot
parquet_dot = refl

final_name_split :
    (stamp : Str) → final_name stamp ≡ (parquet_file_prefix ++ stamp) ++ codes ".parquet"
unfolding final_name
final_name_split stamp = sym (append_assoc parquet_file_prefix stamp (codes ".parquet"))

-- the name that a pass gives to its file is that of a cold file
final_name_cold : (stamp : Str) → is_cold_name (final_name stamp) ≡ true
unfolding is_cold_name final_name extension str_eq
final_name_cold stamp =
    let split =
      ap rsplit_dot (final_name_split stamp)
      ∙ rsplit_dot-append (parquet_file_prefix ++ stamp) (codes ".parquet") (codes "parquet")
          parquet_dot in
    rw (starts_with-append parquet_file_prefix (stamp ++ codes ".parquet"), split)

-- the names of the cold directory, all of them read
abbrev pub names : {F64 : Type 0} → Files F64 → List (Option Str)
names [] = []
names (f ∷ files) = some f.0 ∷ names files

-- the entry is not a cold file, or an earlier one, or this one
abbrev pub IsOlder : Str → Option Str → Type 0
IsOlder final none = Unit
IsOlder final (some n) =
    (is_cold_name n ≡ false) ⊎ (lex_ltb (utf8 n) (utf8 final) ≡ true) ⊎ (n ≡ final)

true≢false : true ≡ false → ⊥
true≢false e = cc

All-entry :
    (P : Option Str → Type 0) (n : Str) (entries : List (Option Str))
    → HasEntry n entries
    → All P entries
    → P (some n)
All-entry P n [] there h = absurd there
All-entry P n (e ∷ entries) (inl same) (h, hs) = subst P same h
All-entry P n (e ∷ entries) (inr there) (h, hs) = All-entry P n entries there hs

no_other :
    (final n : Str)
    → is_cold_name final ≡ true
    → is_cold_name n ≡ true
    → IsOlder final (some n)
    → IsNoLater n (some final)
    → n ≡ final
no_other final n cold cold_n (inl other) top = absurd (true≢false (sym cold_n ∙ other))
no_other final n cold cold_n (inr (inl less)) (inl other) = absurd (true≢false (sym cold ∙ other))
no_other final n cold cold_n (inr (inl less)) (inr least) = absurd (true≢false (sym less ∙ least))
no_other final n cold cold_n (inr (inr same)) top = same

latest_is :
    (final : Str) (o : Option Str) (entries : List (Option Str))
    → is_cold_name final ≡ true
    → HasEntry final entries
    → All (IsOlder final) entries
    → IsLatest o entries
    → o ≡ some final
latest_is final none entries cold there older h =
    absurd (true≢false (sym cold ∙ All-entry IsOther final entries there h))
latest_is final (some n) entries cold there older (there_n, cold_n, top) = ap some (
    no_other final n cold cold_n (All-entry (IsOlder final) n entries there_n older)
      (All-entry (IsNoLater n) final entries there top))

module _ {F64 : Type 0} where
  HasEntry-put_file :
      (name : Str) (rows : List (Row F64)) (files : Files F64)
      → HasEntry name (names (put_file name rows files))
  unfolding put_file
  HasEntry-put_file name rows [] = inl refl
  HasEntry-put_file name rows ((n, old) ∷ files) = elim (Bool-cases (str_eq n name)) [
    | inl same ↦ rw same (inl refl)
    | inr other ↦ rw other (inr (HasEntry-put_file name rows files))
  ]

  put_file-IsOlder :
      (name : Str) (rows : List (Row F64)) (files : Files F64)
      → All (IsOlder name) (names files)
      → All (IsOlder name) (names (put_file name rows files))
  unfolding put_file
  put_file-IsOlder name rows [] h = (inr (inr refl), tt)
  put_file-IsOlder name rows ((n, old) ∷ files) (h, hs) = elim (Bool-cases (str_eq n name)) [
    | inl same ↦ rw same (inr (inr refl), hs)
    | inr other ↦ rw other (h, put_file-IsOlder name rows files hs)
  ]

module _ {F64 : Type 0} (json : Json F64) (partition : Partition) (zero_f64 : F64)
    (outcomes : Outcomes) where
  open partition use {Store, range}

  -- a pass that returns a number has its file found next, and one that fails the file that was found before
  abbrev pub IsFound : Files F64 → Result ℕ × Store × Files F64 → Type 0
  IsFound files (ok n, s, files') =
      latest_cold_file (some (names files')) ≡ some (final_name outcomes.final_stamp)
  IsFound files (err e, s, files') =
      latest_cold_file (some (names files')) ≡ latest_cold_file (some (names files))

  Published-IsFound :
      (rows : List (Row F64)) (files : Files F64) (r : Result ℕ × Store × Files F64)
      → rows ≢ []
      → All (IsOlder (final_name outcomes.final_stamp)) (names files)
      → Published json partition zero_f64 outcomes rows files r
      → IsFound files r
  Published-IsFound rows files (err e, s, files') some_rows older h =
      ap (λ d. latest_cold_file (some (names d))) h
  Published-IsFound [] files (ok n, s, files') some_rows older h = absurd (some_rows refl)
  Published-IsFound (r ∷ rs) files (ok n, s, files') some_rows older (counted, h) =
      let final = final_name outcomes.final_stamp in
      let after = put_file final (r ∷ rs) files in
      ap (λ d. latest_cold_file (some (names d))) h
      ∙ latest_is final (latest_cold_file (some (names after))) (names after)
          (final_name_cold outcomes.final_stamp) (HasEntry-put_file final (r ∷ rs) files)
          (put_file-IsOlder final (r ∷ rs) files older) (latest_cold_file-IsLatest (names after))

  -- If an item of the range of a pass decodes, and every cold file there is has the name of this pass or
  -- one that sorts before it: after the pass `latest_cold_file` finds the file of the pass if the pass
  -- returns a number, and what it found before if the pass fails.
  pub run_compaction_once-IsFound :
      (now_micros retention : ℕ) (s : Store) (files : Files F64)
      → rows_of json partition zero_f64 outcomes
          (range (cutoff_prefix (cutoff_micros now_micros retention)) s)
        ≢ []
      → All (IsOlder (final_name outcomes.final_stamp)) (names files)
      → IsFound files
          (run_compaction_once json partition zero_f64 outcomes now_micros (some retention) s files)
  run_compaction_once-IsFound now_micros retention s files some_rows older =
      Published-IsFound _ files _ some_rows older (
        run_compaction_once-Published json partition zero_f64 outcomes now_micros retention s files)
