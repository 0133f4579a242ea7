-- ===== src/Storage/Export/Loss.antt =====
-- A pass whose file cannot be closed or renamed has already removed the keys of its rows.
use tonggeret.Base.{
  ℕ, ◌≡◌, ◌≢◌, ◌⊎◌, refl, sym, true, false, Option, none, some, List, [], ◌∷◌, ◌++◌, leb, length,
  Bool-cases, inl, inr, if_true, All, arith,
}
use mathlib.Core.Path.{subst}
use tonggeret.Text.{Str}
use tonggeret.Text.Utf8.{Bytes}
use tonggeret.Error.{Result, ok, err}
use tonggeret.Storage.Json.{Json}
use tonggeret.Storage.Partition.{Partition}
use tonggeret.Storage.Keys.{decode_key, cutoff_prefix}
use tonggeret.Storage.Export.{
  Row, rows_per_batch, Outcomes, Pass, Files, row_of, write_rows, flush, add_moved, open_with,
  open_export, push, then_do, export_decoded, export_item, export_loop, fresh, publish,
  publish_file, conclude, finalize_export, cutoff_micros, run_compaction_once,
}
use tonggeret.Storage.Export.Rows.{
  IsOpen, open_export-IsOpen, Tally-fresh, export_loop-Tally, pass-Flushed, export_decoded-Tally,
}
use tonggeret.Storage.Export.Tally.{Post, Tally, rows_of, row_decoded, Flushed}
use tonggeret.Storage.Export.Purge.{pass-Gone}
use tonggeret.Storage.Export.Removed.{Exports}

module _ {F64 : Type 0} (json : Json F64) (partition : Partition) (zero_f64 : F64)
    (outcomes : Outcomes) (opens : outcomes.opens ≡ true)
    (writes : (n : ℕ) → outcomes.writes n ≡ true) where
  open partition use {Store, range, get}

  abbrev pub Step : Type 0
  Step = Result (Unit {0}) × Pass F64 Store

  abbrev pub IsFine : Step → Type 0
  IsFine r = r.0 ≡ ok tt

  then_do-IsFine :
      (P : Pass F64 Store → Type 0) (r : Step) (f : Pass F64 Store → Step)
      → Post P r
      → IsFine r
      → ((p : Pass F64 Store) → P p → IsFine (f p))
      → IsFine (then_do json partition zero_f64 outcomes r f)
  then_do-IsFine P (ok u, p) f h fine k = k p h
  then_do-IsFine P (err e, p) f h fine k = cc

  flush-IsFine :
      (export : Option (List (Row F64))) (written : ℕ) (rows : List (Row F64))
      (removals : List Bytes) (store : Store) (moved : ℕ)
      → (export ≡ none → rows ≡ [])
      → IsFine (
          add_moved json partition zero_f64 outcomes (
            flush json partition zero_f64 outcomes (record {
              export = export;
              written = written;
              rows = rows;
              removals = removals;
              store = store;
              moved = moved;
            })))
  unfolding flush add_moved write_rows
  flush-IsFine export written [] removals store moved opened = refl
  flush-IsFine none written (r ∷ rs) removals store moved opened = cc (opened refl)
  flush-IsFine (some file) written (r ∷ rs) removals store moved opened = rw (writes written)

  open_with-IsFine :
      (x : Option (List (Row F64))) (p : Pass F64 Store)
      → IsFine (open_with json partition zero_f64 outcomes x p)
  unfolding open_with
  open_with-IsFine none p = ground arith
  open_with-IsFine (some file) p = refl

  push-IsFine :
      (seen : List (Row F64)) (row : Row F64) (key : Bytes) (p : Pass F64 Store)
      → IsOpen json partition zero_f64 outcomes seen p
      → IsFine (push json partition zero_f64 outcomes row key p)
  unfolding push
  push-IsFine seen row key p o =
      elim (Bool-cases (leb rows_per_batch (length (p.rows ++ row ∷ [])))) [
        | inl full ↦ rw full (
            flush-IsFine p.export p.written (p.rows ++ row ∷ []) (p.removals ++ key ∷ []) p.store
              p.moved (λ h. absurd (o.file h)))
        | inr room ↦ rw room
      ]

  export_decoded-IsFine :
      (d : Option (ℕ × Str)) (seen : List (Row F64)) (key payload : Bytes) (p : Pass F64 Store)
      → Tally json partition zero_f64 outcomes seen p
      → IsFine (export_decoded json partition zero_f64 outcomes d key payload p)
  unfolding export_decoded
  export_decoded-IsFine none seen key payload p t = refl
  export_decoded-IsFine (some (ts, name)) seen key payload p t =
      then_do-IsFine (IsOpen json partition zero_f64 outcomes seen) _ _
        (open_export-IsOpen json partition zero_f64 outcomes seen p t)
        (unfold open_export in open_with-IsFine p.export p)
        (λ q o. push-IsFine seen (row_of json partition zero_f64 outcomes ts name payload) key q o)

  export_loop-IsFine :
      (items : List (Option (Bytes × Bytes))) (seen : List (Row F64)) (p : Pass F64 Store)
      → All (λ i. i ≢ none) items
      → Tally json partition zero_f64 outcomes seen p
      → IsFine (export_loop json partition zero_f64 outcomes items p)
  unfolding export_loop export_item
  export_loop-IsFine [] seen p good t = refl
  export_loop-IsFine (none ∷ items) seen p (bad, good) t = absurd (bad refl)
  export_loop-IsFine (some (key, payload) ∷ items) seen p (_, good) t =
      then_do-IsFine _ _ _
        (export_decoded-Tally json partition zero_f64 outcomes (decode_key key) seen key payload p
          t)
        (export_decoded-IsFine (decode_key key) seen key payload p t)
        (λ q u. export_loop-IsFine items _ q good u)

  pub pass-IsFine :
      (items : List (Option (Bytes × Bytes))) (s : Store)
      → All (λ i. i ≢ none) items
      → IsFine (
          then_do json partition zero_f64 outcomes
            (export_loop json partition zero_f64 outcomes items
              (fresh json partition zero_f64 outcomes s))
            (λ p.
              add_moved json partition zero_f64 outcomes
                (flush json partition zero_f64 outcomes p)))
  pass-IsFine items s good =
      then_do-IsFine _ _ _
        (export_loop-Tally json partition zero_f64 outcomes items [] _
          (Tally-fresh json partition zero_f64 outcomes s))
        (export_loop-IsFine items [] _ good (Tally-fresh json partition zero_f64 outcomes s))
        (λ p t. flush-IsFine p.export p.written p.rows p.removals p.store p.moved t.opened)

  -- what is left when the file is not published
  abbrev pub Lost : Bytes → Files F64 → Result ℕ × Store × Files F64 → Type 0
  Lost k files (ok n, s, files') = ⊥
  Lost k files (err e, s, files') = (files' ≡ files) × (get k s ≡ none)

  abbrev Fails : Result (Files F64) → Type 0
  Fails (ok files) = ⊥
  Fails (err e) = Unit

  finalize_export-Fails :
      (rows : List (Row F64)) (files : Files F64)
      → (outcomes.closes ≡ false) ⊎ (outcomes.renames ≡ false)
      → Fails (finalize_export json partition zero_f64 outcomes rows files)
  unfolding finalize_export
  finalize_export-Fails rows files (inl broken) = rw broken tt
  finalize_export-Fails rows files (inr kept_name) = elim (Bool-cases outcomes.closes) [
    | inl closed ↦ rw (closed, kept_name) tt
    | inr broken ↦ rw broken tt
  ]

  conclude-Lost :
      (k : Bytes) (r : Result (Files F64)) (p : Pass F64 Store) (files : Files F64)
      → Fails r
      → get k p.store ≡ none
      → Lost k files (conclude json partition zero_f64 outcomes r p files)
  unfolding conclude
  conclude-Lost k (ok files') p files fails gone = absurd fails
  conclude-Lost k (err e) p files fails gone = (refl, gone)

  decoded_row :
      (d : Option (ℕ × Str)) (payload : Bytes) (rest : List (Row F64))
      → d ≢ none
      → row_decoded json partition zero_f64 outcomes d payload ++ rest ≢ []
  unfolding row_decoded
  decoded_row none payload rest ne = absurd (ne refl)
  decoded_row (some (ts, name)) payload rest ne = λ e. cc

  append_ne : (xs ys : List (Row F64)) → ys ≢ [] → xs ++ ys ≢ []
  append_ne [] ys h = h
  append_ne (x ∷ xs) ys h = λ e. cc

  publish-Lost :
      (k : Bytes) (rows : List (Row F64)) (r : Step) (files : Files F64)
      → (outcomes.closes ≡ false) ⊎ (outcomes.renames ≡ false)
      → rows ≢ []
      → IsFine r
      → Post (Flushed json partition zero_f64 outcomes rows) r
      → Post (λ p. get k p.store ≡ none) r
      → Lost k files (publish json partition zero_f64 outcomes r files)
  unfolding publish
  publish-Lost k rows (err e, p) files fault ne fine f gone = cc
  publish-Lost k rows (ok u, p) files fault ne fine f gone =
      subst (λ x. Lost k files (publish_file json partition zero_f64 outcomes x p files))
        (sym (f.has_file ne))
        (unfold publish_file in
          conclude-Lost k _ p files (finalize_export-Fails rows files fault) gone)

  -- a key that is exported gives a row
  pub Exports-rows_of :
      (k : Bytes) (items : List (Option (Bytes × Bytes)))
      → Exports k items
      → rows_of json partition zero_f64 outcomes items ≢ []
  unfolding rows_of row_decoded
  Exports-rows_of k [] x = absurd x
  Exports-rows_of k (none ∷ items) x = Exports-rows_of k items x
  Exports-rows_of k (some (key, payload) ∷ items) (inl (same, decodes)) =
      decoded_row (decode_key key) payload _ decodes
  Exports-rows_of k (some (key, payload) ∷ items) (inr later) =
      append_ne (row_decoded json partition zero_f64 outcomes (decode_key key) payload) _
        (Exports-rows_of k items later)

  -- Where the writer opens, every write and removal succeeds and every item is read, but the file
  -- cannot be closed or cannot be renamed: the pass fails, the cold files are as they were, and each
  -- key that was read and decodes is no longer in the store.
  pub run_compaction_once-Lost :
      outcomes.makes_dir ≡ true
      → (outcomes.closes ≡ false) ⊎ (outcomes.renames ≡ false)
      → ((k : Bytes) (s : Store) → partition.remove k s ≢ none)
      → (now_micros retention : ℕ) (s : Store) (files : Files F64) (k : Bytes)
      → All (λ i. i ≢ none) (range (cutoff_prefix (cutoff_micros now_micros retention)) s)
      → Exports k (range (cutoff_prefix (cutoff_micros now_micros retention)) s)
      → Lost k files
          (run_compaction_once json partition zero_f64 outcomes now_micros (some retention) s files)
  unfolding run_compaction_once
  run_compaction_once-Lost made fault removes now_micros retention s files k good x =
      let items = range (cutoff_prefix (cutoff_micros now_micros retention)) s in
      let lost =
        publish-Lost k (rows_of json partition zero_f64 outcomes items) _ files fault
          (Exports-rows_of k items x) (pass-IsFine items s good)
          (pass-Flushed json partition zero_f64 outcomes items s)
          (pass-Gone json partition zero_f64 outcomes removes items s k x) in
      if_true (Lost k files) outcomes.makes_dir _ made lost
