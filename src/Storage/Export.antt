-- ===== src/Storage/Export.antt =====
-- storage/parquet_exporter.rs: one pass that moves expired samples into a cold file. The cold
-- directory is a list of file names with the rows that each file holds. What may fail outside the
-- program is given by an `Outcomes`.
pub mod Schema
pub mod Tally
pub mod Rows
pub mod Removed
pub mod Publish
pub mod Purge
pub mod Loss
pub mod Success
pub mod Stores
pub mod Stays
pub mod Items
pub mod Refines
pub mod Entries
pub mod Twice
pub mod Undecodable
use tonggeret.Base.{
  ℕ, zero, suc, ◌+◌, ◌-◌, ◌*◌, ◌%◌, ◌^◌, ◌≡◌, refl, Bool, true, false, Option, none, some, List, [],
  ◌∷◌, ◌++◌, min, ltb, leb, if◌then◌else◌, length, codes,
}
use tonggeret.Text.{Str, str_eq}
use tonggeret.Text.Utf8.{Bytes}
use tonggeret.Error.{Error, Result, ok, err, storage, io}
use tonggeret.Storage.Json.{Json}
use tonggeret.Storage.Values.{decode_value}
use tonggeret.Storage.Partition.{Partition}
use tonggeret.Storage.Keys.{decode_key, cutoff_prefix}
use tonggeret.Storage.Writer.{kept}

-- a row of the export, with the columns of `arrow_schema`
pub record Row (F64 : Type 0) : Type 0 where
  pub ts : ℕ
  pub name : Str
  pub value : F64
  pub kind : Str
  pub labels : Str

abbrev pub rows_per_batch : ℕ
rows_per_batch = 5000

abbrev pub max_i64 : ℕ
max_i64 = 2 ^ 63 - 1

-- the files of the cold directory
abbrev pub Files : Type 0 → Type 0
Files F64 = List (Str × List (Row F64))

-- How calls outside the program come out in one pass: `create_dir_all`, opening the writer, each
-- write by its number, `close` and `rename`, with the time stamp of the final name.
pub record Outcomes : Type 0 where
  pub makes_dir : Bool
  pub opens : Bool
  pub writes : ℕ → Bool
  pub closes : Bool
  pub renames : Bool
  pub final_stamp : Str

-- What a pass holds: the rows written to the temporary file, if a writer is open; the number of
-- writes; `PendingBatch`, as its rows and the keys to remove; the store; and the rows moved.
pub record Pass (F64 Store : Type 0) : Type 0 where
  pub export : Option (List (Row F64))
  pub written : ℕ
  pub rows : List (Row F64)
  pub removals : List Bytes
  pub store : Store
  pub moved : ℕ

-- `u64::try_from((now - retention).timestamp_micros()).unwrap_or(0)`, where `now - retention` is in the
-- range of chrono, which panics else; a time before 1970 gives 0
unfoldable pub cutoff_micros : ℕ → ℕ → ℕ
cutoff_micros now_micros retention_micros = now_micros - retention_micros

-- `<prefix><stamp>.parquet`
unfoldable pub final_name : Str → Str
final_name stamp = codes "metrics_cold_" ++ (stamp ++ codes ".parquet")

-- `rename` puts the file in the place of one of that name
unfoldable pub put_file : {F64 : Type 0} → Str → List (Row F64) → Files F64 → Files F64
put_file name rows [] = (name, rows) ∷ []
put_file name rows ((n, old) ∷ files) =
    if str_eq n name then (name, rows) ∷ files else (n, old) ∷ put_file name rows files

module _ {F64 : Type 0} (json : Json F64) (partition : Partition) (zero_f64 : F64)
    (outcomes : Outcomes) where
  open partition use {Store, remove}
  open outcomes use {opens, writes, closes, renames}

  -- the row of a decoded key and its payload, as `PendingBatch::push` appends it
  unfoldable pub row_of : ℕ → Str → Bytes → Row F64
  row_of ts name payload =
      let decoded = decode_value json zero_f64 payload in
      record {
        ts = min ts max_i64;
        name = name;
        value = decoded.0;
        kind = decoded.1;
        labels = decoded.2;
      }

  -- a removal that fails is logged, and the next is made
  unfoldable pub remove_all : List Bytes → Store → Store
  remove_all [] s = s
  remove_all (k ∷ ks) s = remove_all ks (kept json partition s (remove k s))

  -- a batch written through the open writer
  unfoldable pub write_rows : Option (List (Row F64)) → Pass F64 Store → Result ℕ × Pass F64 Store
  write_rows none p = (err (storage (codes "parquet writer missing")), record p { rows = [] })
  write_rows (some file) p =
      if writes p.written
      then (
        ok (length p.rows),
        record p {
          export = some (file ++ p.rows);
          written = p.written + 1;
          rows = [];
          removals = [];
          store = remove_all p.removals p.store;
        },
      )
      else (err (storage (codes "parquet write")), record p { rows = [] })

  abbrev pub no_rows : List (Row F64) → Bool
  no_rows [] = true
  no_rows (r ∷ rs) = false

  -- `PendingBatch::flush`
  unfoldable pub flush : Pass F64 Store → Result ℕ × Pass F64 Store
  flush p = if no_rows p.rows then (ok 0, record p { removals = [] }) else write_rows p.export p

  -- `moved += pending.flush(..)?`
  unfoldable pub add_moved : Result ℕ × Pass F64 Store → Result (Unit {0}) × Pass F64 Store
  add_moved (ok n, p) = (ok tt, record p { moved = (p.moved + n) % 2 ^ 64 })
  add_moved (err e, p) = (err e, p)

  -- `if export.is_none() { export = Some(open_export_writer(..)?) }`
  unfoldable pub open_with :
      Option (List (Row F64)) → Pass F64 Store → Result (Unit {0}) × Pass F64 Store
  open_with (some file) p = (ok tt, p)
  open_with none p =
      if opens
      then (ok tt, record p { export = some [] })
      else (err (storage (codes "create tmp parquet")), p)

  unfoldable pub open_export : Pass F64 Store → Result (Unit {0}) × Pass F64 Store
  unfolding open_with
  open_export p = open_with p.export p

  -- a decoded item: it is pushed, and a full batch is flushed
  unfoldable pub push : Row F64 → Bytes → Pass F64 Store → Result (Unit {0}) × Pass F64 Store
  push row key p =
      let p' = record p { rows = p.rows ++ row ∷ []; removals = p.removals ++ key ∷ [] } in
      if leb rows_per_batch (length p'.rows) then add_moved (flush p') else (ok tt, p')

  -- one step after another that did not fail
  abbrev pub then_do :
      Result (Unit {0}) × Pass F64 Store
      → (Pass F64 Store → Result (Unit {0}) × Pass F64 Store)
      → Result (Unit {0}) × Pass F64 Store
  then_do (ok u, p) f = f p
  then_do (err e, p) f = (err e, p)

  -- the body of the loop, for a key that was read and what it decodes to
  unfoldable pub export_decoded :
      Option (ℕ × Str) → Bytes → Bytes → Pass F64 Store → Result (Unit {0}) × Pass F64 Store
  export_decoded none key payload p = (ok tt, record p { removals = p.removals ++ key ∷ [] })
  export_decoded (some (ts, name)) key payload p =
      then_do (open_export p) (push (row_of ts name payload) key)

  unfoldable pub export_item : Bytes → Bytes → Pass F64 Store → Result (Unit {0}) × Pass F64 Store
  unfolding export_decoded
  export_item key payload p = export_decoded (decode_key key) key payload p

  -- `for item in handles.partition.range(..bound)`
  unfoldable pub export_loop :
      List (Option (Bytes × Bytes)) → Pass F64 Store → Result (Unit {0}) × Pass F64 Store
  export_loop [] p = (ok tt, p)
  export_loop (none ∷ items) p = (err (storage (codes "fjall scan")), p)
  export_loop (some (key, payload) ∷ items) p =
      then_do (export_item key payload p) (export_loop items)

  -- `finalize_export`: the files, if the file is closed and renamed
  unfoldable pub finalize_export : List (Row F64) → Files F64 → Result (Files F64)
  finalize_export rows files =
      if closes
      then (if renames
          then ok (put_file (final_name outcomes.final_stamp) rows files)
          else err (storage (codes "parquet rename")))
      else err (storage (codes "parquet close"))

  abbrev pub fresh : Store → Pass F64 Store
  fresh s = record { export = none; written = 0; rows = []; removals = []; store = s; moved = 0 }

  -- what a pass returns, by how `finalize_export` comes out
  unfoldable pub conclude :
      Result (Files F64) → Pass F64 Store → Files F64 → Result ℕ × Store × Files F64
  conclude (ok files') p files = (ok p.moved, p.store, files')
  conclude (err e) p files = (err e, p.store, files)

  -- `if let Some((tmp, writer)) = export`; a `persist` that fails is logged
  unfoldable pub publish_file :
      Option (List (Row F64)) → Pass F64 Store → Files F64 → Result ℕ × Store × Files F64
  unfolding conclude
  publish_file none p files = (ok p.moved, p.store, files)
  publish_file (some rows) p files = conclude (finalize_export rows files) p files

  unfoldable pub publish :
      Result (Unit {0}) × Pass F64 Store → Files F64 → Result ℕ × Store × Files F64
  unfolding publish_file
  publish (err e, p) files = (err e, p.store, files)
  publish (ok u, p) files = publish_file p.export p files

  -- the pass over the items that its scan of the range gives
  abbrev pub run_items :
      List (Option (Bytes × Bytes)) → Store → Files F64 → Result ℕ × Store × Files F64
  run_items items s files =
      if outcomes.makes_dir
      then publish (then_do (export_loop items (fresh s)) (λ p. add_moved (flush p))) files
      else (err (io (codes "create_dir_all")), s, files)

  -- the pass with its cutoff at `cutoff`, on a store that changes by its own removals only
  unfoldable pub run_to : ℕ → Store → Files F64 → Result ℕ × Store × Files F64
  run_to cutoff s files = run_items (partition.range (cutoff_prefix cutoff) s) s files

  -- `run_compaction_once_blocking`: its result, the store and the files. The retention is in
  -- microseconds, and is `none` if `chrono` cannot hold it.
  unfoldable pub run_compaction_once :
      ℕ → Option ℕ → Store → Files F64 → Result ℕ × Store × Files F64
  unfolding run_to
  run_compaction_once now_micros none s files =
      (err (storage (codes "invalid retention")), s, files)
  run_compaction_once now_micros (some retention) s files =
      run_to (cutoff_micros now_micros retention) s files
