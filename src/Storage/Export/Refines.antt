-- ===== src/Storage/Export/Refines.antt =====
-- The contract of a pass, for each sample that the store may hold.

use tonggeret.Base.{
  ℕ, ◌<◌, ◌≤◌, ◌^◌, ◌≡◌, ◌≢◌, refl, sym, ◌∙◌, Bool, true, false, Option, none, some, List, ltb,
  if◌then◌else◌, All, none≢some,
}
use tonggeret.Text.{Str}
use tonggeret.Text.Utf8.{Bytes, IsScalar}
use tonggeret.Error.{Result, ok, err}
use tonggeret.Storage.Json.{Json}
use tonggeret.Storage.Partition.{Partition}
use tonggeret.Text.Hex.{max_u64}
use tonggeret.Storage.Keys.{encode_key, decode_key, cutoff_prefix, lex_ltb}
use tonggeret.Storage.Keys.Order.{lex_ltb-cutoff_prefix}
use tonggeret.Storage.Keys.RoundTrip.{decode_key-encode_key}
use tonggeret.Storage.Export.{Row, Outcomes, Files, row_of, cutoff_micros, run_compaction_once}
use tonggeret.Storage.Export.Tally.{rows_of}
use tonggeret.Storage.Export.Purge.{Purged, run_compaction_once-Purged}
use tonggeret.Storage.Export.Publish.{Published, published, run_compaction_once-Published}
use tonggeret.Storage.Export.Success.{Returns, run_compaction_once-Returns}
use tonggeret.Storage.Export.Items.{HasRow, has_item-Exports, HasRow-rows_of, IsOf, rows_of-IsOf}
use tonggeret.Storage.Export.Stays.{get-run_compaction_once, get-run_compaction_once-none}

module _ {F64 : Type 0} (json : Json F64) (partition : Partition) (zero_f64 : F64)
    (outcomes : Outcomes) where
  open partition use {Store, get, range, remove, get-remove, range-get, get-range}

  -- the row of what the store held, if it held a payload and that has expired, is one of the rows
  abbrev pub InCold : ℕ → Str → Bool → Option Bytes → List (Row F64) → Type 0
  InCold ts name true (some payload) rows =
      HasRow (row_of json partition zero_f64 outcomes ts name payload) rows
  InCold ts name true none rows = Unit
  InCold ts name false v rows = Unit

  -- What a pass does with one sample: the hot store no longer has it exactly if it is before the
  -- cutoff, and then the published file has its row; every row there is of the store below the
  -- cutoff.
  pub record Moved (cutoff ts : ℕ) (seq : ℕ) (name : Str) (s : Store) (files : Files F64)
      (s' : Store) (files' : Files F64) : Type 0 where
    pub rows : List (Row F64)
    pub hot :
        get (encode_key ts seq name) s'
        ≡ (if ltb ts cutoff then none else get (encode_key ts seq name) s)
    pub cold : InCold ts name (ltb ts cutoff) (get (encode_key ts seq name) s) rows
    pub only : All (IsOf json partition zero_f64 outcomes (cutoff_prefix cutoff) s) rows
    pub cold_files : files' ≡ published json partition zero_f64 outcomes rows files

  abbrev pub IsMoved : ℕ → ℕ → ℕ → Str → Store → Files F64 → Result ℕ × Store × Files F64 → Type 0
  IsMoved cutoff ts seq name s files (ok n, s', files') = Moved cutoff ts seq name s files s' files'
  IsMoved cutoff ts seq name s files (err e, s', files') = ⊥

module _ {F64 : Type 0} (json : Json F64) (partition : Partition) (zero_f64 : F64)
    (outcomes : Outcomes) (opens : outcomes.opens ≡ true)
    (writes : (n : ℕ) → outcomes.writes n ≡ true) (makes_dir : outcomes.makes_dir ≡ true)
    (closes : outcomes.closes ≡ true) (renames : outcomes.renames ≡ true)
    (removes : (k : Bytes) (s : partition.Store) → partition.remove k s ≢ none) where
  open partition use {Store, get, range, range-get, get-range}

  pub get-Purged :
      (k : Bytes) (r : Result ℕ × Store × Files F64)
      → Returns json partition zero_f64 outcomes opens writes r
      → Purged json partition zero_f64 outcomes removes k r
      → get k r.1 ≡ none
  get-Purged k (ok n, s, files) returns purged = purged
  get-Purged k (err e, s, files) returns purged = absurd returns

  assemble :
      (cutoff ts seq : ℕ) (name : Str) (s : Store) (files : Files F64) (rows : List (Row F64))
      (r : Result ℕ × Store × Files F64)
      → Returns json partition zero_f64 outcomes opens writes r
      → Published json partition zero_f64 outcomes rows files r
      → get (encode_key ts seq name) r.1
        ≡ (if ltb ts cutoff then none else get (encode_key ts seq name) s)
      → InCold json partition zero_f64 outcomes ts name
          (ltb ts cutoff)
          (get (encode_key ts seq name) s)
          rows
      → All (IsOf json partition zero_f64 outcomes (cutoff_prefix cutoff) s) rows
      → IsMoved json partition zero_f64 outcomes cutoff ts seq name s files r
  assemble cutoff ts seq name s files rows (ok n, s', files') returns published hot cold only =
      record { rows = rows; hot = hot; cold = cold; only = only; cold_files = published.1 }
  assemble cutoff ts seq name s files rows (err e, s', files') returns published hot cold only =
      absurd returns

  -- both parts of what happens to a sample, by whether it has expired and what the store holds for it
  hot_and_cold :
      (now_micros retention : ℕ) (s : Store) (files : Files F64) (ts seq : ℕ) (name : Str)
      (expired : Bool) (v : Option Bytes)
      → All (λ i. i ≢ none) (range (cutoff_prefix (cutoff_micros now_micros retention)) s)
      → decode_key (encode_key ts seq name) ≡ some (ts, name)
      → lex_ltb (encode_key ts seq name) (cutoff_prefix (cutoff_micros now_micros retention))
        ≡ expired
      → get (encode_key ts seq name) s ≡ v
      → (get
            (encode_key ts seq name)
            (run_compaction_once json partition zero_f64 outcomes now_micros
              (some retention)
              s
              files).1
          ≡ (if expired then none else v))
        × InCold json partition zero_f64 outcomes ts name expired v (
            rows_of json partition zero_f64 outcomes
              (range (cutoff_prefix (cutoff_micros now_micros retention)) s))
  hot_and_cold now_micros retention s files ts seq name false v good decodes below held = (
    get-run_compaction_once json partition zero_f64 outcomes now_micros retention s files _ below
        ∙ held,
    tt,
  )
  hot_and_cold now_micros retention s files ts seq name true none good decodes below held = (
    get-run_compaction_once-none json partition zero_f64 outcomes now_micros retention s files _
        held,
    tt,
  )
  hot_and_cold now_micros retention s files ts seq name true (some v) good decodes below held =
      let key = encode_key ts seq name in
      let bound = cutoff_prefix (cutoff_micros now_micros retention) in
      let item = get-range bound s good key v held below in
      let exports =
        has_item-Exports key v (range bound s) (λ e. none≢some (sym e ∙ decodes)) item in
      (
        get-Purged key _
            (run_compaction_once-Returns json partition zero_f64 outcomes opens writes makes_dir
              closes renames now_micros retention s files good)
            (run_compaction_once-Purged json partition zero_f64 outcomes removes now_micros
              retention s files key exports),
        HasRow-rows_of json partition zero_f64 outcomes key v ts name (range bound s) decodes item,
      )

  -- If nothing outside the program fails in a pass, it returns a number, and then, for each sample of a
  -- `u64` time, a `u32` sequence number and a name of Unicode scalar values: the store has what it had
  -- for the sample if its time is not before the cutoff, and nothing else; if the store had it and its
  -- time is before the cutoff, its row is among those of the published file; and every one of those
  -- rows is of an entry that the store had below the cutoff.
  pub run_compaction_once-IsMoved :
      (now_micros retention : ℕ) (s : Store) (files : Files F64) (ts seq : ℕ) (name : Str)
      → All (λ i. i ≢ none) (range (cutoff_prefix (cutoff_micros now_micros retention)) s)
      → cutoff_micros now_micros retention ≤ max_u64
      → ts ≤ max_u64
      → seq < 2 ^ 32
      → All IsScalar name
      → IsMoved json partition zero_f64 outcomes
          (cutoff_micros now_micros retention)
          ts
          seq
          name
          s
          files
          (run_compaction_once json partition zero_f64 outcomes now_micros (some retention) s files)
  run_compaction_once-IsMoved now_micros retention s files ts seq name good hc ht hs hn =
      let bound = cutoff_prefix (cutoff_micros now_micros retention) in
      let (hot, cold) =
        hot_and_cold now_micros retention s files ts seq name _ _ good
          (decode_key-encode_key ts seq name ht hs hn)
          (lex_ltb-cutoff_prefix ts seq (cutoff_micros now_micros retention) name ht hs hc) refl in
      assemble (cutoff_micros now_micros retention) ts seq name s files _ _
        (run_compaction_once-Returns json partition zero_f64 outcomes opens writes makes_dir closes
          renames now_micros retention s files good)
        (run_compaction_once-Published json partition zero_f64 outcomes now_micros retention s
          files)
        hot cold
        (rows_of-IsOf json partition zero_f64 outcomes bound s (range bound s) (range-get bound s))
