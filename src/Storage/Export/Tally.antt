-- ===== src/Storage/Export/Tally.antt =====
-- What holds of a pass between two items, and after a flush: which rows it has seen, written and counted.

use tonggeret.Base.{
  ℕ, ◌+◌, ◌%◌, ◌^◌, ◌<◌, ◌≡◌, ◌≢◌, refl, sym, ap, ◌∙◌, Option, none, some, List, [], ◌∷◌, ◌++◌,
  length, length-append, arith, append-nil, Bool-cases, inl, inr,
}
use tonggeret.Text.{Str}
use tonggeret.Text.Utf8.{Bytes}
use tonggeret.Error.{Result, ok, err}
use tonggeret.Storage.Json.{Json}
use tonggeret.Storage.Values.{unwrap_or}
use tonggeret.Storage.Partition.{Partition}
use tonggeret.Storage.Keys.{decode_key}
use tonggeret.Storage.Export.{
  Row, rows_per_batch, Outcomes, Pass, row_of, write_rows, flush, add_moved, then_do,
}

pub count_up :
    (moved n before total : ℕ)
    → moved ≡ before % 2 ^ 64
    → total ≡ before + n
    → (moved + n) % 2 ^ 64 ≡ total % 2 ^ 64
count_up moved n before total h e = omega arith

pub append_cons-ne-nil {ℓ} : {A : Type ℓ} (xs : List A) (y : A) (ys : List A) → xs ++ y ∷ ys ≢ []
append_cons-ne-nil [] y ys h = cc
append_cons-ne-nil (x ∷ xs) y ys h = cc

-- what holds of the pass if the step did not fail
abbrev pub Post :
    {F64 Store : Type 0} → (Pass F64 Store → Type 0) → Result (Unit {0}) × Pass F64 Store → Type 0
Post P (ok u, p) = P p
Post P (err e, p) = Unit

module _ {F64 : Type 0} (json : Json F64) (partition : Partition) (zero_f64 : F64)
    (outcomes : Outcomes) where
  open partition use {Store}

  pub Post-then_do :
      (P Q : Pass F64 Store → Type 0) (r : Result (Unit {0}) × Pass F64 Store)
      (f : Pass F64 Store → Result (Unit {0}) × Pass F64 Store)
      → Post P r
      → ((p : Pass F64 Store) → P p → Post Q (f p))
      → Post Q (then_do json partition zero_f64 outcomes r f)
  Post-then_do P Q (ok u, p) f h k = k p h
  Post-then_do P Q (err e, p) f h k = tt

  -- the row of an item, if its key decodes
  unfoldable pub row_decoded : Option (ℕ × Str) → Bytes → List (Row F64)
  row_decoded none payload = []
  row_decoded (some (ts, name)) payload =
      row_of json partition zero_f64 outcomes ts name payload ∷ []

  -- the rows of the items that decode
  unfoldable pub rows_of : List (Option (Bytes × Bytes)) → List (Row F64)
  unfolding row_decoded
  rows_of [] = []
  rows_of (none ∷ items) = rows_of items
  rows_of (some (key, payload) ∷ items) = row_decoded (decode_key key) payload ++ rows_of items

  -- The rows in the file and the rows that wait are the rows seen; fewer wait than fill a batch; and
  -- the rows in the file are counted.
  pub record Tally (seen : List (Row F64)) (p : Pass F64 Store) : Type 0 where
    pub split : unwrap_or [] p.export ++ p.rows ≡ seen
    pub few : length p.rows < rows_per_batch
    pub count : p.moved ≡ length (unwrap_or [] p.export) % 2 ^ 64
    pub opened : p.export ≡ none → p.rows ≡ []
    pub idle : seen ≡ [] → p.export ≡ none

  -- after a flush
  pub record Flushed (seen : List (Row F64)) (p : Pass F64 Store) : Type 0 where
    pub none_wait : p.rows ≡ []
    pub all_written : unwrap_or [] p.export ≡ seen
    pub counted : p.moved ≡ length seen % 2 ^ 64
    pub has_file : seen ≢ [] → p.export ≡ some seen
    pub no_file : seen ≡ [] → p.export ≡ none

  -- `flush`, on the parts of a pass
  pub flush-Flushed :
      (export : Option (List (Row F64))) (written : ℕ) (rows : List (Row F64))
      (removals : List Bytes) (store : Store) (moved : ℕ) (seen : List (Row F64))
      → unwrap_or [] export ++ rows ≡ seen
      → moved ≡ length (unwrap_or [] export) % 2 ^ 64
      → (export ≡ none → rows ≡ [])
      → (seen ≡ [] → export ≡ none)
      → Post (Flushed seen) (
          add_moved json partition zero_f64 outcomes (
            flush json partition zero_f64 outcomes (record {
              export = export;
              written = written;
              rows = rows;
              removals = removals;
              store = store;
              moved = moved;
            })))
  unfolding flush add_moved write_rows
  flush-Flushed none written [] removals store moved seen split count opened idle = record {
    none_wait = refl;
    all_written = split;
    counted = count_up moved 0 0 (length seen) count (sym (ap length split));
    has_file = λ h. absurd (h (sym split));
    no_file = idle;
  }
  flush-Flushed (some file) written [] removals store moved seen split count opened idle = record {
    none_wait = refl;
    all_written = sym (append-nil file) ∙ split;
    counted =
        count_up moved 0 (length file) (length seen) count
          (omega (arith, ap length (sym (append-nil file) ∙ split)));
    has_file = λ h. ap some (sym (append-nil file) ∙ split);
    no_file = idle;
  }
  flush-Flushed none written (r ∷ rs) removals store moved seen split count opened idle = tt
  flush-Flushed (some file) written (r ∷ rs) removals store moved seen split count opened idle =
      elim (Bool-cases (outcomes.writes written)) [
        | inl good ↦ rw good (record {
          none_wait = refl;
          all_written = split;
          counted =
              count_up moved (length (r ∷ rs)) (length file) (length seen) count
                (sym (ap length split) ∙ length-append file (r ∷ rs));
          has_file = λ h. ap some split;
          no_file = λ h. absurd (append_cons-ne-nil file r rs (split ∙ h));
        })
        | inr bad ↦ rw bad tt
      ]

  pub Flushed-Tally : (seen : List (Row F64)) (p : Pass F64 Store) → Flushed seen p → Tally seen p
  Flushed-Tally seen p f = record {
    split = rw (f.none_wait, append-nil) f.all_written;
    few = rw f.none_wait (omega arith);
    count = f.counted ∙ ap (λ l. length l % 2 ^ 64) (sym f.all_written);
    opened = λ h. f.none_wait;
    idle = f.no_file;
  }

  pub Post-map :
      (P Q : Pass F64 Store → Type 0) (r : Result (Unit {0}) × Pass F64 Store)
      → ((p : Pass F64 Store) → P p → Q p)
      → Post P r
      → Post Q r
  Post-map P Q (ok u, p) f h = f p h
  Post-map P Q (err e, p) f h = tt
