-- ===== src/Storage/Export/Stores.antt =====
-- What a pass does to the store is to remove keys of items that it read: a property of stores that such
-- removals keep holds after the pass, however it comes out.
use tonggeret.Base.{
  ℕ, ◌≡◌, refl, sym, Option, none, some, List, [], ◌∷◌, ◌++◌, All, All-append, leb, length,
  if_intro,
}
use mathlib.Core.Path.{subst}
use tonggeret.Text.{Str}
use tonggeret.Text.Utf8.{Bytes}
use tonggeret.Error.{Result, ok, err}
use tonggeret.Storage.Json.{Json}
use tonggeret.Storage.Partition.{Partition}
use tonggeret.Storage.Keys.{decode_key, cutoff_prefix}
use tonggeret.Storage.Writer.{kept}
use tonggeret.Storage.Export.{
  Row, rows_per_batch, Outcomes, Pass, Files, row_of, remove_all, write_rows, flush, add_moved,
  open_with, open_export, push, then_do, export_decoded, export_item, export_loop, fresh, publish,
  publish_file, conclude, cutoff_micros, run_compaction_once, run_to, run_items, no_rows,
}

-- the keys of the items that are read
abbrev pub Keys : (Bytes → Type 0) → List (Option (Bytes × Bytes)) → Type 0
Keys J [] = Unit
Keys J (none ∷ items) = Keys J items
Keys J (some (key, payload) ∷ items) = J key × Keys J items

pub Keys-map :
    {J K : Bytes → Type 0}
    → ((k : Bytes) → J k → K k)
    → (items : List (Option (Bytes × Bytes))) → Keys J items
    → Keys K items
Keys-map f [] h = tt
Keys-map f (none ∷ items) h = Keys-map f items h
Keys-map f (some (key, payload) ∷ items) (j, h) = (f key j, Keys-map f items h)

module _ {F64 : Type 0} (json : Json F64) (partition : Partition) (zero_f64 : F64)
    (outcomes : Outcomes) (J : Bytes → Type 0) (Q : partition.Store → Type 0)
    (keeps : (j : Bytes) (s : partition.Store)
      → J j
      → Q s
      → Q (kept json partition s (partition.remove j s))) where
  open partition use {Store, remove}

  abbrev Step : Type 0
  Step = Result (Unit {0}) × Pass F64 Store

  -- the store has the property, and the keys to remove are such that it keeps it
  record Holds (p : Pass F64 Store) : Type 0 where
    keys : All J p.removals
    store : Q p.store

  remove_all-keeps :
      (ks : List Bytes) (s : Store)
      → All J ks
      → Q s
      → Q (remove_all json partition zero_f64 outcomes ks s)
  unfolding remove_all
  remove_all-keeps [] s _ q = q
  remove_all-keeps (k ∷ ks) s (j, js) q = remove_all-keeps ks _ js (keeps k s j q)

  write_rows-Holds :
      (export : Option (List (Row F64))) (p : Pass F64 Store)
      → Holds p
      → Holds (write_rows json partition zero_f64 outcomes export p).1
  unfolding write_rows
  write_rows-Holds none p h = record { keys = h.keys; store = h.store }
  write_rows-Holds (some file) p h =
      if_intro (λ (r : Result ℕ × Pass F64 Store). Holds r.1) (outcomes.writes p.written)
        (record { keys = tt; store = remove_all-keeps p.removals p.store h.keys h.store })
        (record { keys = h.keys; store = h.store })

  flush-Holds : (p : Pass F64 Store) → Holds p → Holds (flush json partition zero_f64 outcomes p).1
  unfolding flush
  flush-Holds p h =
      if_intro (λ (r : Result ℕ × Pass F64 Store). Holds r.1)
        (no_rows json partition zero_f64 outcomes p.rows) (record { keys = tt; store = h.store })
        (write_rows-Holds p.export p h)

  add_moved-Holds :
      (r : Result ℕ × Pass F64 Store)
      → Holds r.1
      → Holds (add_moved json partition zero_f64 outcomes r).1
  unfolding add_moved
  add_moved-Holds (ok n, p) h = record { keys = h.keys; store = h.store }
  add_moved-Holds (err e, p) h = h

  then_do-Holds :
      (r : Step) (f : Pass F64 Store → Step)
      → Holds r.1
      → ((p : Pass F64 Store) → Holds p → Holds (f p).1)
      → Holds (then_do json partition zero_f64 outcomes r f).1
  then_do-Holds (ok u, p) f h k = k p h
  then_do-Holds (err e, p) f h k = h

  open_with-Holds :
      (x : Option (List (Row F64))) (p : Pass F64 Store)
      → Holds p
      → Holds (open_with json partition zero_f64 outcomes x p).1
  unfolding open_with
  open_with-Holds (some file) p h = h
  open_with-Holds none p h =
      if_intro (λ (r : Step). Holds r.1) outcomes.opens (record { keys = h.keys; store = h.store })
        h

  push-Holds :
      (row : Row F64) (key : Bytes) (p : Pass F64 Store)
      → J key
      → Holds p
      → Holds (push json partition zero_f64 outcomes row key p).1
  unfolding push
  push-Holds row key p j h =
      let p' = record p { rows = p.rows ++ row ∷ []; removals = p.removals ++ key ∷ [] } in
      let h' : Holds p' = record {
        keys = All-append J p.removals (key ∷ []) h.keys (j, tt);
        store = h.store;
      } in
      if_intro (λ (r : Step). Holds r.1) (leb rows_per_batch (length p'.rows))
        (add_moved-Holds _ (flush-Holds p' h')) h'

  export_decoded-Holds :
      (d : Option (ℕ × Str)) (key payload : Bytes) (p : Pass F64 Store)
      → J key
      → Holds p
      → Holds (export_decoded json partition zero_f64 outcomes d key payload p).1
  unfolding export_decoded open_export
  export_decoded-Holds none key payload p j h = record {
    keys = All-append J p.removals (key ∷ []) h.keys (j, tt);
    store = h.store;
  }
  export_decoded-Holds (some (ts, name)) key payload p j h =
      then_do-Holds (open_with json partition zero_f64 outcomes p.export p) _
        (open_with-Holds p.export p h)
        (λ q k. push-Holds (row_of json partition zero_f64 outcomes ts name payload) key q j k)

  export_loop-Holds :
      (items : List (Option (Bytes × Bytes))) (p : Pass F64 Store)
      → Keys J items
      → Holds p
      → Holds (export_loop json partition zero_f64 outcomes items p).1
  unfolding export_loop export_item
  export_loop-Holds [] p js h = h
  export_loop-Holds (none ∷ items) p js h = h
  export_loop-Holds (some (key, payload) ∷ items) p (j, js) h =
      then_do-Holds (export_decoded json partition zero_f64 outcomes (decode_key key) key payload p)
        _ (export_decoded-Holds (decode_key key) key payload p j h)
        (λ q k. export_loop-Holds items q js k)

  conclude_store :
      (r : Result (Files F64)) (p : Pass F64 Store) (files : Files F64)
      → (conclude json partition zero_f64 outcomes r p files).1 ≡ p.store
  unfolding conclude
  conclude_store (ok files') p files = refl
  conclude_store (err e) p files = refl

  publish_file_store :
      (x : Option (List (Row F64))) (p : Pass F64 Store) (files : Files F64)
      → (publish_file json partition zero_f64 outcomes x p files).1 ≡ p.store
  unfolding publish_file
  publish_file_store none p files = refl
  publish_file_store (some rows) p files = conclude_store _ p files

  publish_store :
      (r : Step) (files : Files F64)
      → (publish json partition zero_f64 outcomes r files).1 ≡ r.1.store
  unfolding publish
  publish_store (err e, p) files = refl
  publish_store (ok u, p) files = publish_file_store p.export p files

  pub run_items-keeps :
      (items : List (Option (Bytes × Bytes))) (s : Store) (files : Files F64)
      → Keys J items
      → Q s
      → Q (run_items json partition zero_f64 outcomes items s files).1
  run_items-keeps items s files js q =
      let loop =
        export_loop json partition zero_f64 outcomes items
          (fresh json partition zero_f64 outcomes s) in
      let all =
        then_do-Holds loop
          (λ p.
            add_moved json partition zero_f64 outcomes (flush json partition zero_f64 outcomes p))
          (export_loop-Holds _ _ js (record { keys = tt; store = q }))
          (λ p h. add_moved-Holds (flush json partition zero_f64 outcomes p) (flush-Holds p h)) in
      if_intro (λ (r : Result ℕ × Store × Files F64). Q r.1) outcomes.makes_dir
        (subst Q (sym (publish_store _ files)) all.store) q

  pub run_compaction_once-keeps :
      (now_micros retention : ℕ) (s : Store) (files : Files F64)
      → Keys J (partition.range (cutoff_prefix (cutoff_micros now_micros retention)) s)
      → Q s
      → Q
          (run_compaction_once json partition zero_f64 outcomes now_micros
            (some retention)
            s
            files).1
  unfolding run_compaction_once run_to
  run_compaction_once-keeps now_micros retention s files js q =
      run_items-keeps (partition.range (cutoff_prefix (cutoff_micros now_micros retention)) s) s
        files js q
