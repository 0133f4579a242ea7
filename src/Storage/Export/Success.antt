-- ===== src/Storage/Export/Success.antt =====
-- When a pass returns a number: if nothing outside the program fails.
use tonggeret.Base.{ℕ, ◌≡◌, ◌≢◌, true, Option, none, some, List, All, if_true}
use tonggeret.Error.{Result, ok, err}
use tonggeret.Storage.Json.{Json}
use tonggeret.Storage.Partition.{Partition}
use tonggeret.Storage.Keys.{cutoff_prefix}
use tonggeret.Storage.Export.{
  Row, Outcomes, Pass, Files, cutoff_micros, publish, publish_file, conclude, finalize_export,
  run_compaction_once,
}
use tonggeret.Storage.Export.Loss.{Step, IsFine, pass-IsFine}

module _ {F64 : Type 0} (json : Json F64) (partition : Partition) (zero_f64 : F64)
    (outcomes : Outcomes) (opens : outcomes.opens ≡ true)
    (writes : (n : ℕ) → outcomes.writes n ≡ true) where
  open partition use {Store, range}

  -- the pass returns a number
  abbrev pub Returns : Result ℕ × Store × Files F64 → Type 0
  Returns (ok n, s, files) = Unit
  Returns (err e, s, files) = ⊥

  publish_file-Returns :
      (x : Option (List (Row F64))) (p : Pass F64 Store) (files : Files F64)
      → outcomes.closes ≡ true
      → outcomes.renames ≡ true
      → Returns (publish_file json partition zero_f64 outcomes x p files)
  unfolding publish_file conclude finalize_export
  publish_file-Returns none p files closed renamed = tt
  publish_file-Returns (some rows) p files closed renamed = rw (closed, renamed) tt

  publish-Returns :
      (r : Step json partition zero_f64 outcomes opens writes) (files : Files F64)
      → IsFine json partition zero_f64 outcomes opens writes r
      → outcomes.closes ≡ true
      → outcomes.renames ≡ true
      → Returns (publish json partition zero_f64 outcomes r files)
  unfolding publish
  publish-Returns (ok u, p) files fine closed renamed =
      publish_file-Returns p.export p files closed renamed
  publish-Returns (err e, p) files fine closed renamed = cc

  -- If the directory is there, the writer opens, every write succeeds, every item is read, and the file
  -- is closed and renamed, then a pass returns a number, whatever the items are and whether or not
  -- removals succeed.
  pub run_compaction_once-Returns :
      outcomes.makes_dir ≡ true
      → outcomes.closes ≡ true
      → outcomes.renames ≡ true
      → (now_micros retention : ℕ) (s : Store) (files : Files F64)
      → All (λ i. i ≢ none) (range (cutoff_prefix (cutoff_micros now_micros retention)) s)
      → Returns
          (run_compaction_once json partition zero_f64 outcomes now_micros (some retention) s files)
  unfolding run_compaction_once
  run_compaction_once-Returns made closed renamed now_micros retention s files good =
      let items = range (cutoff_prefix (cutoff_micros now_micros retention)) s in
      if_true Returns outcomes.makes_dir _ made (
        publish-Returns _ files
          (pass-IsFine json partition zero_f64 outcomes opens writes items s good) closed renamed)
