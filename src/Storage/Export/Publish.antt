-- ===== src/Storage/Export/Publish.antt =====
-- What a pass that returns without an error has published.
use tonggeret.Base.{
  ℕ, ◌%◌, ◌^◌, ◌≡◌, refl, some, List, [], ◌∷◌, length, Bool-cases, if_intro, inl, inr,
}
use tonggeret.Error.{Result, ok, err}
use tonggeret.Storage.Json.{Json}
use tonggeret.Storage.Partition.{Partition}
use tonggeret.Storage.Keys.{cutoff_prefix}
use tonggeret.Storage.Export.{
  Row, Outcomes, Pass, Files, publish, put_file, final_name, finalize_export, cutoff_micros,
  run_compaction_once,
}
use tonggeret.Storage.Export.Rows.{pass-Flushed}
use tonggeret.Storage.Export.Tally.{Post, rows_of, Flushed}

module _ {F64 : Type 0} (json : Json F64) (partition : Partition) (zero_f64 : F64)
    (outcomes : Outcomes) where
  open partition use {Store, range}

  -- the cold directory after a pass that publishes `rows`
  abbrev pub published : List (Row F64) → Files F64 → Files F64
  published [] files = files
  published (r ∷ rs) files = put_file (final_name outcomes.final_stamp) (r ∷ rs) files

  -- what `rows` stands for in the result of a pass
  abbrev pub Published : List (Row F64) → Files F64 → Result ℕ × Store × Files F64 → Type 0
  Published rows files (ok n, s, files') =
      (n ≡ length rows % 2 ^ 64) × (files' ≡ published rows files)
  Published rows files (err e, s, files') = files' ≡ files

  publish-Published :
      (rows : List (Row F64)) (r : Result (Unit {0}) × Pass F64 Store) (files : Files F64)
      → Post (Flushed json partition zero_f64 outcomes rows) r
      → Published rows files (publish json partition zero_f64 outcomes r files)
  unfolding publish finalize_export
  publish-Published rows (err e, p) files f = refl
  publish-Published [] (ok u, p) files f = rw (f.no_file refl) (f.counted, refl)
  publish-Published (r ∷ rs) (ok u, p) files f =
      rw (f.has_file (λ h. cc)) (elim (Bool-cases outcomes.closes) [
        | inl closed ↦ elim (Bool-cases outcomes.renames) [
          | inl renamed ↦ rw (closed, renamed) (f.counted, refl)
          | inr kept_name ↦ rw (closed, kept_name) refl
        ]
        | inr broken ↦ rw broken refl
      ])

  -- A pass that returns a number has published the rows of exactly the items of its range whose keys
  -- decode, in the order of the range, in one file under the final name, or no file if there is no
  -- such item; and the number is that of the rows, as a `u64`. A pass that fails leaves the cold
  -- files as they were.
  pub run_compaction_once-Published :
      (now_micros retention : ℕ) (s : Store) (files : Files F64)
      → Published
          (rows_of json partition zero_f64 outcomes
            (range (cutoff_prefix (cutoff_micros now_micros retention)) s))
          files
          (run_compaction_once json partition zero_f64 outcomes now_micros (some retention) s files)
  unfolding run_compaction_once
  run_compaction_once-Published now_micros retention s files =
      let items = range (cutoff_prefix (cutoff_micros now_micros retention)) s in
      if_intro (Published (rows_of json partition zero_f64 outcomes items) files) outcomes.makes_dir
        (publish-Published (rows_of json partition zero_f64 outcomes items) _ files
          (pass-Flushed json partition zero_f64 outcomes items s))
        refl
