-- ===== src/Storage/Export/Twice.antt =====
-- Two passes whose file names have the same time stamp.
use tonggeret.Base.{
  ℕ, ◌≡◌, ◌≢◌, refl, ap, ◌∙◌, true, Option, none, some, List, [], ◌∷◌, All, Bool-cases, inl, inr,
}
use tonggeret.Text.{Str, str_eq}
use tonggeret.Text.Laws.{str_eq_refl}
use tonggeret.Text.Utf8.{Bytes}
use tonggeret.Error.{Result, ok, err}
use tonggeret.Storage.Json.{Json}
use tonggeret.Storage.Partition.{Partition}
use tonggeret.Storage.Keys.{cutoff_prefix}
use tonggeret.Storage.Export.{Row, Outcomes, Files, put_file, cutoff_micros, run_compaction_once}
use tonggeret.Storage.Export.Tally.{rows_of}
use tonggeret.Storage.Export.Purge.{run_compaction_once-Purged}
use tonggeret.Storage.Export.Removed.{Exports}
use tonggeret.Storage.Export.Publish.{Published, published, run_compaction_once-Published}
use tonggeret.Storage.Export.Loss.{Exports-rows_of}
use tonggeret.Storage.Export.Success.{Returns, run_compaction_once-Returns}
use tonggeret.Storage.Export.Refines.{get-Purged}
use tonggeret.Storage.Export.Stays.{get-run_compaction_once-none}

put_file-put_file :
    {F64 : Type 0} (name : Str) (old new : List (Row F64)) (files : Files F64)
    → put_file name new (put_file name old files) ≡ put_file name new files
unfolding put_file
put_file-put_file name old new [] = rw (str_eq_refl name)
put_file-put_file name old new ((n, rows) ∷ files) = elim (Bool-cases (str_eq n name)) [
  | inl same ↦ rw (same, str_eq_refl name)
  | inr other ↦ rw (other, other) (ap (λ fs. (n, rows) ∷ fs) (put_file-put_file name old new files))
]

module _ {F64 : Type 0} (json : Json F64) (partition : Partition) (zero_f64 : F64)
    (outcomes : Outcomes) (opens : outcomes.opens ≡ true)
    (writes : (n : ℕ) → outcomes.writes n ≡ true) (makes_dir : outcomes.makes_dir ≡ true)
    (closes : outcomes.closes ≡ true) (renames : outcomes.renames ≡ true)
    (removes : (k : Bytes) (s : partition.Store) → partition.remove k s ≢ none) where
  open partition use {Store, get, range}

  published-published :
      (old new : List (Row F64)) (files : Files F64)
      → new ≢ []
      → published json partition zero_f64 outcomes new
          (published json partition zero_f64 outcomes old files)
        ≡ published json partition zero_f64 outcomes new files
  published-published old [] files ne = absurd (ne refl)
  published-published [] (r ∷ rs) files ne = refl
  published-published (x ∷ xs) (r ∷ rs) files ne = put_file-put_file _ (x ∷ xs) (r ∷ rs) files

  files-published :
      (rows : List (Row F64)) (files : Files F64) (r : Result ℕ × Store × Files F64)
      → Returns json partition zero_f64 outcomes opens writes r
      → Published json partition zero_f64 outcomes rows files r
      → r.2 ≡ published json partition zero_f64 outcomes rows files
  files-published rows files (ok n, s, files') returns p = p.1
  files-published rows files (err e, s, files') returns p = absurd returns

  -- the expired items of a store
  abbrev pub expired : ℕ → ℕ → Store → List (Option (Bytes × Bytes))
  expired now_micros retention s = range (cutoff_prefix (cutoff_micros now_micros retention)) s

  abbrev pub pass : ℕ → ℕ → Store → Files F64 → Result ℕ × Store × Files F64
  pass now_micros retention s files =
      run_compaction_once json partition zero_f64 outcomes now_micros (some retention) s files

  -- after a pass on a store of which every item is read
  pass-files :
      (now_micros retention : ℕ) (s : Store) (files : Files F64)
      → All (λ i. i ≢ none) (expired now_micros retention s)
      → (pass now_micros retention s files).2
        ≡ published json partition zero_f64 outcomes
            (rows_of json partition zero_f64 outcomes (expired now_micros retention s))
            files
  pass-files now_micros retention s files good =
      files-published _ files _
        (run_compaction_once-Returns json partition zero_f64 outcomes opens writes makes_dir closes
          renames now_micros retention s files good)
        (run_compaction_once-Published json partition zero_f64 outcomes now_micros retention s
          files)

  -- Two passes, one after the other, of which both have a row to export, in which nothing outside the
  -- program fails, and whose files get the same time stamp: in the end the cold files are those that
  -- there were, with the rows of the second pass alone, and a key that the first pass has exported is
  -- not in the store.
  pub run_compaction_once-replaces :
      (now_micros retention : ℕ) (s : Store) (files : Files F64) (later retention_later : ℕ)
      (k j : Bytes)
      → All (λ i. i ≢ none) (expired now_micros retention s)
      → Exports k (expired now_micros retention s)
      → All (λ i. i ≢ none) (expired later retention_later (pass now_micros retention s files).1)
      → Exports j (expired later retention_later (pass now_micros retention s files).1)
      → ((pass later retention_later
            (pass now_micros retention s files).1
            (pass now_micros retention s files).2).2
          ≡ published json partition zero_f64 outcomes
              (rows_of json partition zero_f64 outcomes
                (expired later retention_later (pass now_micros retention s files).1))
              files)
        × (get k
              (pass later retention_later
                (pass now_micros retention s files).1
                (pass now_micros retention s files).2).1
            ≡ none)
  run_compaction_once-replaces now_micros retention s files later retention_later k j good x
        good_later y =
      let first = pass now_micros retention s files in
      (
        pass-files later retention_later first.1 first.2 good_later
            ∙ ap (published json partition zero_f64 outcomes _)
                (pass-files now_micros retention s files good)
            ∙ published-published _ _ files
                (Exports-rows_of json partition zero_f64 outcomes opens writes j _ y),
        get-run_compaction_once-none json partition zero_f64 outcomes later retention_later first.1
            first.2 k
            (get-Purged json partition zero_f64 outcomes opens writes makes_dir closes renames
              removes k first
              (run_compaction_once-Returns json partition zero_f64 outcomes opens writes makes_dir
                closes renames now_micros retention s files good)
              (run_compaction_once-Purged json partition zero_f64 outcomes removes now_micros
                retention s files k x)),
      )
