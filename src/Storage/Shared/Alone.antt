-- ===== src/Storage/Shared/Alone.antt =====
-- The removals that a pass notes, with nothing in between, are its effect on the store.
use tonggeret.Base.{ℕ, ◌≡◌, refl, ap, ◌∙◌, Option, none, some, List, [], ◌∷◌}
use tonggeret.Text.{Str}
use tonggeret.Text.Utf8.{Bytes}
use tonggeret.Error.{Result, ok, err}
use tonggeret.Storage.Json.{Json}
use tonggeret.Storage.Keys.{decode_key, cutoff_prefix}
use tonggeret.Storage.Partition.{Partition}
use tonggeret.Storage.Export.{
  Row, Outcomes, Pass, Files, row_of, flush, add_moved, open_with, open_export, push, then_do,
  export_decoded, export_item, export_loop, fresh, publish, publish_file, conclude, finalize_export,
  cutoff_micros, run_compaction_once, run_to, run_items,
}
use tonggeret.Storage.Shared.{recorder, drops, run_ops, removals_of}
use tonggeret.Storage.Shared.Plain.{
  plain, plain_step, plain_result, if_plain, flush-plain, add_moved-plain, open_with-plain,
  push-plain,
}

module _ {F64 : Type 0} (json : Json F64) (partition : Partition) (zero_f64 : F64)
    (outcomes : Outcomes) (s0 : partition.Store) where
  open partition use {Store, remove, range}

  abbrev Step : Type 0
  Step = Result (Unit {0}) × Pass F64 (List Bytes)

  then_do-plain :
      (r : Step) (f : Pass F64 Store → Result (Unit {0}) × Pass F64 Store)
      (g : Pass F64 (List Bytes) → Step)
      → ((p : Pass F64 (List Bytes))
          → f (plain json partition zero_f64 outcomes s0 p)
            ≡ plain_step json partition zero_f64 outcomes s0 (g p))
      → then_do json partition zero_f64 outcomes
          (plain_step json partition zero_f64 outcomes s0 r)
          f
        ≡ plain_step json partition zero_f64 outcomes s0
            (then_do json recorder zero_f64 outcomes r g)
  then_do-plain (ok u, p) f g h = h p
  then_do-plain (err e, p) f g h = refl

  export_decoded-plain :
      (d : Option (ℕ × Str)) (key payload : Bytes) (p : Pass F64 (List Bytes))
      → export_decoded json partition zero_f64 outcomes d key payload
          (plain json partition zero_f64 outcomes s0 p)
        ≡ plain_step json partition zero_f64 outcomes s0
            (export_decoded json recorder zero_f64 outcomes d key payload p)
  unfolding export_decoded open_export row_of
  export_decoded-plain none key payload p = refl
  export_decoded-plain (some (ts, name)) key payload p =
      let row = row_of json partition zero_f64 outcomes ts name payload in
      ap
        (λ r.
          then_do json partition zero_f64 outcomes r
            (push json partition zero_f64 outcomes row key))
        (open_with-plain json partition zero_f64 outcomes s0 p.export p)
      ∙ then_do-plain (open_with json recorder zero_f64 outcomes p.export p) _
          (push json recorder zero_f64 outcomes row key)
          (push-plain json partition zero_f64 outcomes s0 row key)

  export_loop-plain :
      (items : List (Option (Bytes × Bytes))) (p : Pass F64 (List Bytes))
      → export_loop json partition zero_f64 outcomes items
          (plain json partition zero_f64 outcomes s0 p)
        ≡ plain_step json partition zero_f64 outcomes s0
            (export_loop json recorder zero_f64 outcomes items p)
  unfolding export_loop export_item
  export_loop-plain [] p = refl
  export_loop-plain (none ∷ items) p = refl
  export_loop-plain (some (key, payload) ∷ items) p =
      ap
        (λ r.
          then_do json partition zero_f64 outcomes r
            (export_loop json partition zero_f64 outcomes items))
        (export_decoded-plain (decode_key key) key payload p)
      ∙ then_do-plain
          (export_decoded json recorder zero_f64 outcomes (decode_key key) key payload p) _
          (export_loop json recorder zero_f64 outcomes items) (export_loop-plain items)

  conclude-plain :
      (r : Result (Files F64)) (p : Pass F64 (List Bytes)) (files : Files F64)
      → conclude json partition zero_f64 outcomes r
          (plain json partition zero_f64 outcomes s0 p)
          files
        ≡ plain_result json partition zero_f64 outcomes s0
            (conclude json recorder zero_f64 outcomes r p files)
  unfolding conclude
  conclude-plain (ok files') p files = refl
  conclude-plain (err e) p files = refl

  publish_file-plain :
      (x : Option (List (Row F64))) (p : Pass F64 (List Bytes)) (files : Files F64)
      → publish_file json partition zero_f64 outcomes x
          (plain json partition zero_f64 outcomes s0 p)
          files
        ≡ plain_result json partition zero_f64 outcomes s0
            (publish_file json recorder zero_f64 outcomes x p files)
  unfolding publish_file finalize_export
  publish_file-plain none p files = refl
  publish_file-plain (some rows) p files =
      conclude-plain (finalize_export json partition zero_f64 outcomes rows files) p files

  publish-plain :
      (r : Step) (files : Files F64)
      → publish json partition zero_f64 outcomes
          (plain_step json partition zero_f64 outcomes s0 r)
          files
        ≡ plain_result json partition zero_f64 outcomes s0
            (publish json recorder zero_f64 outcomes r files)
  unfolding publish
  publish-plain (err e, p) files = refl
  publish-plain (ok u, p) files = publish_file-plain p.export p files

  run_items-plain :
      (items : List (Option (Bytes × Bytes))) (files : Files F64)
      → run_items json partition zero_f64 outcomes items s0 files
        ≡ plain_result json partition zero_f64 outcomes s0
            (run_items json recorder zero_f64 outcomes items [] files)
  unfolding run_ops
  run_items-plain items files =
      let read =
        export_loop json recorder zero_f64 outcomes items
          (fresh json recorder zero_f64 outcomes []) in
      let last = λ (p : Pass F64 (List Bytes)).
        add_moved json recorder zero_f64 outcomes (flush json recorder zero_f64 outcomes p) in
      let last_plain = λ (p : Pass F64 Store).
        add_moved json partition zero_f64 outcomes (flush json partition zero_f64 outcomes p) in
      if_plain json partition zero_f64 outcomes s0
        (plain_result json partition zero_f64 outcomes s0) outcomes.makes_dir
        (ap
            (λ r.
              publish json partition zero_f64 outcomes
                (then_do json partition zero_f64 outcomes r last_plain) files)
            (export_loop-plain items (fresh json recorder zero_f64 outcomes []))
          ∙ ap (λ r. publish json partition zero_f64 outcomes r files)
              (then_do-plain read last_plain last (λ p.
                ap (add_moved json partition zero_f64 outcomes)
                  (flush-plain json partition zero_f64 outcomes s0 p)
                ∙ add_moved-plain json partition zero_f64 outcomes s0
                    (flush json recorder zero_f64 outcomes p)))
          ∙ publish-plain (then_do json recorder zero_f64 outcomes read last) files)
        refl

  -- A pass over any items leaves in the store what its removals, each made in order with nothing in
  -- between, make of it.
  pub run_items-removals_of :
      (items : List (Option (Bytes × Bytes))) (files : Files F64)
      → (run_items json partition zero_f64 outcomes items s0 files).1
        ≡ run_ops json partition (drops (removals_of json zero_f64 outcomes items files)) s0
  unfolding removals_of
  run_items-removals_of items files = ap (λ r. r.1) (run_items-plain items files)

  -- So does `run_compaction_once`, over the items of its range.
  pub run_compaction_once-removals_of :
      (now_micros retention : ℕ) (files : Files F64)
      → (run_compaction_once json partition zero_f64 outcomes now_micros
          (some retention)
          s0
          files).1
        ≡ run_ops json partition
            (drops (
              removals_of json zero_f64 outcomes
                (range (cutoff_prefix (cutoff_micros now_micros retention)) s0)
                files))
            s0
  unfolding run_compaction_once run_to
  run_compaction_once-removals_of now_micros retention files =
      run_items-removals_of (range (cutoff_prefix (cutoff_micros now_micros retention)) s0) files
