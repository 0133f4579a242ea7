-- ===== src/Storage/Shared/Plain.antt =====
-- What a step of a pass does to a store is what its noted removals make of the store.
use tonggeret.Base.{
  ℕ, ◌+◌, ◌≡◌, refl, sym, ap, ◌∙◌, Bool, true, false, Bool-cases, inl, inr, Option, none, some,
  List, [], ◌∷◌, ◌++◌, leb, length, if◌then◌else◌,
}
use tonggeret.Text.Utf8.{Bytes}
use tonggeret.Error.{Result, ok, err}
use tonggeret.Storage.Json.{Json}
use tonggeret.Storage.Partition.{Partition}
use tonggeret.Storage.Writer.{kept}
use tonggeret.Storage.Export.{
  Row, rows_per_batch, Outcomes, Pass, Files, row_of, remove_all, write_rows, flush, add_moved,
  open_with, push, no_rows,
}
use tonggeret.Storage.Shared.{recorder, drop_key, drops, run_op, run_ops}
use tonggeret.Storage.Shared.Log.{run_ops-append, drops-append}

module _ {F64 : Type 0} (json : Json F64) (partition : Partition) (zero_f64 : F64)
    (outcomes : Outcomes) (s0 : partition.Store) where
  open partition use {Store, remove, range}

  -- the store after the removals noted so far
  abbrev pub replay : List Bytes → Store
  replay ks = run_ops json partition (drops ks) s0

  -- the pass on the store, from the pass that only notes its removals
  abbrev pub plain : Pass F64 (List Bytes) → Pass F64 Store
  plain p = record {
    export = p.export;
    written = p.written;
    rows = p.rows;
    removals = p.removals;
    store = replay p.store;
    moved = p.moved;
  }

  abbrev pub plain_step : {A : Type 0} → A × Pass F64 (List Bytes) → A × Pass F64 Store
  plain_step (r, p) = (r, plain p)

  abbrev pub plain_result : Result ℕ × List Bytes × Files F64 → Result ℕ × Store × Files F64
  plain_result (r, s, files) = (r, replay s, files)

  -- one more removal
  kept-plain :
      (k : Bytes) (ks : List Bytes)
      → kept json partition (replay ks) (remove k (replay ks)) ≡ replay (ks ++ k ∷ [])
  unfolding run_ops run_op
  kept-plain k ks =
      sym (run_ops-append json partition (drops ks) (drop_key k ∷ []) s0)
      ∙ ap (λ ops. run_ops json partition ops s0) (sym (drops-append ks k))

  remove_all-plain :
      (ks log : List Bytes)
      → remove_all json partition zero_f64 outcomes ks (replay log)
        ≡ replay (remove_all json recorder zero_f64 outcomes ks log)
  unfolding remove_all
  remove_all-plain [] log = refl
  remove_all-plain (k ∷ ks) log =
      ap (remove_all json partition zero_f64 outcomes ks) (kept-plain k log)
      ∙ remove_all-plain ks (log ++ k ∷ [])

  pub write_rows-plain :
      (x : Option (List (Row F64))) (p : Pass F64 (List Bytes))
      → write_rows json partition zero_f64 outcomes x (plain p)
        ≡ plain_step (write_rows json recorder zero_f64 outcomes x p)
  unfolding write_rows row_of
  write_rows-plain none p = refl
  write_rows-plain (some file) p = elim (Bool-cases (outcomes.writes p.written)) [
    | inl good ↦ rw good (
        ap
          (λ s. (
            ok (length p.rows),
            record {
              export = some (file ++ p.rows);
              written = p.written + 1;
              rows = [];
              removals = [];
              store = s;
              moved = p.moved;
            },
          ))
          (remove_all-plain p.removals p.store))
    | inr bad ↦ rw bad refl
  ]

  -- a conditional under a function
  pub if_plain :
      {A B : Type 0} (f : A → B) (b : Bool) {x y : A} {x' y' : B}
      → x' ≡ f x
      → y' ≡ f y
      → (if b then x' else y') ≡ f (if b then x else y)
  if_plain f true e d = e
  if_plain f false e d = d

  pub flush-plain :
      (p : Pass F64 (List Bytes))
      → flush json partition zero_f64 outcomes (plain p)
        ≡ plain_step (flush json recorder zero_f64 outcomes p)
  unfolding flush
  flush-plain p = by_rows p.rows
    where
      by_rows :
          (rows : List (Row F64))
          → (if no_rows json partition zero_f64 outcomes rows
              then (ok 0, record (plain p) { removals = [] })
              else write_rows json partition zero_f64 outcomes p.export (plain p))
            ≡ plain_step (
                if no_rows json recorder zero_f64 outcomes rows
                then (ok 0, record p { removals = [] })
                else write_rows json recorder zero_f64 outcomes p.export p)
      by_rows [] = refl
      by_rows (r ∷ rs) = write_rows-plain p.export p

  pub add_moved-plain :
      (r : Result ℕ × Pass F64 (List Bytes))
      → add_moved json partition zero_f64 outcomes (plain_step r)
        ≡ plain_step (add_moved json recorder zero_f64 outcomes r)
  unfolding add_moved
  add_moved-plain (ok n, p) = refl
  add_moved-plain (err e, p) = refl

  pub open_with-plain :
      (x : Option (List (Row F64))) (p : Pass F64 (List Bytes))
      → open_with json partition zero_f64 outcomes x (plain p)
        ≡ plain_step (open_with json recorder zero_f64 outcomes x p)
  unfolding open_with
  open_with-plain (some file) p = refl
  open_with-plain none p = if_plain plain_step outcomes.opens refl refl

  pub push-plain :
      (row : Row F64) (key : Bytes) (p : Pass F64 (List Bytes))
      → push json partition zero_f64 outcomes row key (plain p)
        ≡ plain_step (push json recorder zero_f64 outcomes row key p)
  unfolding push
  push-plain row key p =
      let p' = record p { rows = p.rows ++ row ∷ []; removals = p.removals ++ key ∷ [] } in
      if_plain plain_step (leb rows_per_batch (length p'.rows))
        (ap (add_moved json partition zero_f64 outcomes) (flush-plain p')
          ∙ add_moved-plain (flush json recorder zero_f64 outcomes p'))
        refl
