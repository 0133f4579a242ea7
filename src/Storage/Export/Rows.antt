-- ===== src/Storage/Export/Rows.antt =====
-- What a pass that succeeds writes: the rows of the items that decode, all of them, in order.
use mathlib.Core.List.{concat-ne-nil}
use tonggeret.Base.{
  ℕ, ◌%◌, ◌^◌, ◌≡◌, ◌≢◌, refl, sym, ap, ◌∙◌, Option, none, some, List, [], ◌∷◌, ◌++◌, leb, length,
  arith, append_assoc, append-nil, Bool-cases, none≢some, leb→lt, inl, inr,
}
use tonggeret.Text.{Str}
use tonggeret.Text.Utf8.{Bytes}
use tonggeret.Storage.Json.{Json}
use tonggeret.Storage.Values.{unwrap_or}
use tonggeret.Storage.Partition.{Partition}
use tonggeret.Storage.Keys.{decode_key}
use tonggeret.Storage.Export.{
  Row, rows_per_batch, Outcomes, Pass, row_of, flush, add_moved, open_with, open_export, push,
  then_do, export_decoded, export_item, export_loop, fresh,
}
use tonggeret.Storage.Export.Tally.{
  Post, Post-then_do, row_decoded, rows_of, Tally, Flushed, flush-Flushed, Flushed-Tally, Post-map,
}

module _ {F64 : Type 0} (json : Json F64) (partition : Partition) (zero_f64 : F64)
    (outcomes : Outcomes) where
  open partition use {Store}

  -- a tally with a writer open, also before the first row
  pub record IsOpen (seen : List (Row F64)) (p : Pass F64 Store) : Type 0 where
    pub split : unwrap_or [] p.export ++ p.rows ≡ seen
    pub count : p.moved ≡ length (unwrap_or [] p.export) % 2 ^ 64
    pub file : p.export ≢ none

  open_with-IsOpen :
      (x : Option (List (Row F64))) (seen : List (Row F64)) (p : Pass F64 Store)
      → p.export ≡ x
      → Tally json partition zero_f64 outcomes seen p
      → Post (IsOpen seen) (open_with json partition zero_f64 outcomes x p)
  unfolding open_with
  open_with-IsOpen (some file) seen p e t = record {
    split = t.split;
    count = t.count;
    file = λ h. none≢some (sym h ∙ e);
  }
  open_with-IsOpen none seen p e t = elim (Bool-cases outcomes.opens) [
    | inl good ↦
        rw good (record {
          split = rw e at t.split;
          count = rw e at t.count;
          file = λ h. none≢some (sym h);
        })
    | inr bad ↦ rw bad tt
  ]

  pub open_export-IsOpen :
      (seen : List (Row F64)) (p : Pass F64 Store)
      → Tally json partition zero_f64 outcomes seen p
      → Post (IsOpen seen) (open_export json partition zero_f64 outcomes p)
  unfolding open_export
  open_export-IsOpen seen p t = open_with-IsOpen p.export seen p refl t

  pub push-Tally :
      (seen : List (Row F64)) (row : Row F64) (key : Bytes) (p : Pass F64 Store)
      → IsOpen seen p
      → Post
          (Tally json partition zero_f64 outcomes (seen ++ row ∷ []))
          (push json partition zero_f64 outcomes row key p)
  unfolding push
  push-Tally seen row key p o =
      let rows = p.rows ++ row ∷ [] in
      let split : unwrap_or [] p.export ++ rows ≡ seen ++ row ∷ [] =
        sym (append_assoc _ p.rows (row ∷ [])) ∙ ap (λ l. l ++ row ∷ []) o.split in
      elim (Bool-cases (leb rows_per_batch (length rows))) [
        | inl full ↦ rw full (
            Post-map json partition zero_f64 outcomes
              (Flushed json partition zero_f64 outcomes (seen ++ row ∷ []))
              (Tally json partition zero_f64 outcomes (seen ++ row ∷ [])) _
              (λ q. Flushed-Tally json partition zero_f64 outcomes (seen ++ row ∷ []) q)
              (flush-Flushed json partition zero_f64 outcomes p.export p.written rows
                (p.removals ++ key ∷ []) p.store p.moved _ split o.count (λ h. absurd (o.file h))
                (λ h. absurd (concat-ne-nil row seen h))))
        | inr room ↦ rw room (record {
          split = split;
          few = leb→lt rows_per_batch (length rows) room;
          count = o.count;
          opened = λ h. absurd (o.file h);
          idle = λ h. absurd (concat-ne-nil row seen h);
        })
      ]

  pub export_decoded-Tally :
      (d : Option (ℕ × Str)) (seen : List (Row F64)) (key payload : Bytes) (p : Pass F64 Store)
      → Tally json partition zero_f64 outcomes seen p
      → Post
          (Tally json partition zero_f64 outcomes
            (seen ++ row_decoded json partition zero_f64 outcomes d payload))
          (export_decoded json partition zero_f64 outcomes d key payload p)
  unfolding export_decoded row_decoded
  export_decoded-Tally none seen key payload p t =
      rw append-nil
        (record { split = t.split; few = t.few; count = t.count; opened = t.opened; idle = t.idle })
  export_decoded-Tally (some (ts, name)) seen key payload p t =
      Post-then_do json partition zero_f64 outcomes (IsOpen seen) _
        (open_export json partition zero_f64 outcomes p) _ (open_export-IsOpen seen p t)
        (λ q o. push-Tally seen (row_of json partition zero_f64 outcomes ts name payload) key q o)

  pub export_item-Tally :
      (seen : List (Row F64)) (key payload : Bytes) (p : Pass F64 Store)
      → Tally json partition zero_f64 outcomes seen p
      → Post
          (Tally json partition zero_f64 outcomes
            (seen ++ row_decoded json partition zero_f64 outcomes (decode_key key) payload))
          (export_item json partition zero_f64 outcomes key payload p)
  unfolding export_item
  export_item-Tally seen key payload p t =
      export_decoded-Tally (decode_key key) seen key payload p t

  pub export_loop-Tally :
      (items : List (Option (Bytes × Bytes))) (seen : List (Row F64)) (p : Pass F64 Store)
      → Tally json partition zero_f64 outcomes seen p
      → Post
          (Tally json partition zero_f64 outcomes
            (seen ++ rows_of json partition zero_f64 outcomes items))
          (export_loop json partition zero_f64 outcomes items p)
  unfolding export_loop rows_of
  export_loop-Tally [] seen p t = rw append-nil t
  export_loop-Tally (none ∷ items) seen p t = tt
  export_loop-Tally (some (key, payload) ∷ items) seen p t = rw (← append_assoc) (
      Post-then_do json partition zero_f64 outcomes
        (Tally json partition zero_f64 outcomes
          (seen ++ row_decoded json partition zero_f64 outcomes (decode_key key) payload))
        _ (export_item json partition zero_f64 outcomes key payload p) _
        (export_item-Tally seen key payload p t) (λ q u. export_loop-Tally items _ q u))

  -- Before the first item nothing has been seen.
  pub Tally-fresh :
      (s : Store)
      → Tally json partition zero_f64 outcomes [] (fresh json partition zero_f64 outcomes s)
  Tally-fresh s = record {
    split = refl;
    few = omega arith;
    count = refl;
    opened = λ h. refl;
    idle = λ h. refl;
  }

  -- The loop and the last flush, from the start of a pass.
  pub pass-Flushed :
      (items : List (Option (Bytes × Bytes))) (s : Store)
      → Post
          (Flushed json partition zero_f64 outcomes
            (rows_of json partition zero_f64 outcomes items))
          (then_do json partition zero_f64 outcomes
            (export_loop json partition zero_f64 outcomes items
              (fresh json partition zero_f64 outcomes s))
            (λ p.
              add_moved json partition zero_f64 outcomes
                (flush json partition zero_f64 outcomes p)))
  pass-Flushed items s =
      Post-then_do json partition zero_f64 outcomes
        (Tally json partition zero_f64 outcomes (rows_of json partition zero_f64 outcomes items)) _
        _ _ (export_loop-Tally items [] _ (Tally-fresh s))
        (λ p t.
          flush-Flushed json partition zero_f64 outcomes p.export p.written p.rows p.removals
            p.store p.moved _ t.split t.count t.opened t.idle)
