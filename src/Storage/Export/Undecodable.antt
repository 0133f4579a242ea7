-- ===== src/Storage/Export/Undecodable.antt =====
-- Keys that do not decode stay in the store if there is no row to write with them.
use tonggeret.Base.{ℕ, ◌≡◌, refl, true, Option, none, some, List, [], ◌∷◌, ◌++◌, All, if_true}
use tonggeret.Text.Utf8.{Bytes}
use tonggeret.Error.{Result, ok}
use tonggeret.Storage.Json.{Json}
use tonggeret.Storage.Partition.{Partition}
use tonggeret.Storage.Keys.{decode_key, cutoff_prefix}
use tonggeret.Storage.Export.{
  Outcomes, Pass, Files, flush, add_moved, then_do, export_decoded, export_item, export_loop, fresh,
  publish, publish_file, cutoff_micros, run_compaction_once,
}

-- the item is read, and its key does not decode
pub record IsUndecodable (item : Option (Bytes × Bytes)) : Type 0 where
  pub key : Bytes
  pub payload : Bytes
  pub read : item ≡ some (key, payload)
  pub undecodable : decode_key key ≡ none

module _ {F64 : Type 0} (json : Json F64) (partition : Partition) (zero_f64 : F64)
    (outcomes : Outcomes) where
  open partition use {Store, range}

  -- a pass without a row, with keys to remove
  abbrev waiting : List Bytes → Store → Pass F64 Store
  waiting ks s = record (fresh json partition zero_f64 outcomes s) { removals = ks }

  -- the last flush, and what is published
  abbrev ended : Result (Unit {0}) × Pass F64 Store → Files F64 → Result ℕ × Store × Files F64
  ended r files =
      publish json partition zero_f64 outcomes
        (then_do json partition zero_f64 outcomes r (λ p.
          add_moved json partition zero_f64 outcomes (flush json partition zero_f64 outcomes p)))
        files

  decoded-waiting :
      (key payload : Bytes) (ks : List Bytes) (s : Store)
      → decode_key key ≡ none
      → export_item json partition zero_f64 outcomes key payload (waiting ks s)
        ≡ (ok tt, waiting (ks ++ key ∷ []) s)
  unfolding export_item export_decoded
  decoded-waiting key payload ks s e = rw e refl

  export_loop-waiting :
      (items : List (Option (Bytes × Bytes))) (ks : List Bytes) (s : Store) (files : Files F64)
      → All IsUndecodable items
      → ended (export_loop json partition zero_f64 outcomes items (waiting ks s)) files
        ≡ (ok 0, s, files)
  unfolding export_loop flush add_moved publish publish_file
  export_loop-waiting [] ks s files h = refl
  export_loop-waiting (i ∷ items) ks s files (u, h) =
      rw (u.read, decoded-waiting u.key u.payload ks s u.undecodable)
        (export_loop-waiting items (ks ++ u.key ∷ []) s files h)

  -- A pass that finds only keys that do not decode, once the directory is there, returns 0, and leaves
  -- each of them in the store, and the cold files as they were.
  pub run_compaction_once-undecodable :
      outcomes.makes_dir ≡ true
      → (now_micros retention : ℕ) (s : Store) (files : Files F64)
      → All IsUndecodable (range (cutoff_prefix (cutoff_micros now_micros retention)) s)
      → run_compaction_once json partition zero_f64 outcomes now_micros (some retention) s files
        ≡ (ok 0, s, files)
  unfolding run_compaction_once
  run_compaction_once-undecodable made now_micros retention s files h =
      if_true (λ r. r ≡ (ok 0, s, files)) outcomes.makes_dir _ made
        (export_loop-waiting (range (cutoff_prefix (cutoff_micros now_micros retention)) s) [] s
          files h)
