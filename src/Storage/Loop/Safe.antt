-- ===== src/Storage/Loop/Safe.antt =====
-- Over the passes of `compaction_loop` no sample is lost, if the files that they publish have names of
-- their own.
use mathlib.Core.Path.{subst}
use tonggeret.Base.{
  ℕ, ◌≤◌, ◌<◌, ◌^◌, ◌≡◌, ◌≢◌, ◌⊎◌, inl, inr, refl, sym, ap, ◌∙◌, Bool, true, false, Option, none,
  some, List, [], ◌∷◌, All, ltb, if◌then◌else◌, none≢some, some_inj, min,
}
use tonggeret.Text.{Str, str_eq}
use tonggeret.Text.Hex.{max_u64}
use tonggeret.Text.Utf8.{Bytes, IsScalar}
use tonggeret.Error.{Result, ok, err}
use tonggeret.Storage.Json.{Json}
use tonggeret.Storage.Values.{decode_value}
use tonggeret.Storage.Partition.{Partition}
use tonggeret.Storage.Keys.{encode_key, cutoff_prefix}
use tonggeret.Storage.Export.{
  Row, max_i64, Outcomes, Files, row_of, final_name, cutoff_micros, run_compaction_once,
}
use tonggeret.Storage.Export.Items.{HasRow}
use tonggeret.Storage.Export.Publish.{published}
use tonggeret.Storage.Export.Refines.{InCold, IsMoved, run_compaction_once-IsMoved}
use tonggeret.Storage.Loop.{Turn, passes, compaction_loop}
use tonggeret.Storage.ColdFiles.Put.{
  IsCold, has_file, put_file-IsCold, put_file-HasRow, has_file-put_file,
}

-- nothing fails in the pass
pub record IsFine (t : Turn) : Type 0 where
  pub makes_dir : t.outcomes.makes_dir ≡ true
  pub opens : t.outcomes.opens ≡ true
  pub writes : (n : ℕ) → t.outcomes.writes n ≡ true
  pub closes : t.outcomes.closes ≡ true
  pub renames : t.outcomes.renames ≡ true

abbrev pub file_name : Turn → Str
file_name t = final_name t.outcomes.final_stamp

-- the files of the passes have names that differ from each other and from those that there are
abbrev pub AreNew : {F64 : Type 0} → List Turn → Files F64 → Type 0
AreNew [] files = Unit
AreNew (t ∷ turns) files =
    (has_file (file_name t) files ≡ false)
    × All (λ u. str_eq (file_name t) (file_name u) ≡ false) turns
    × AreNew turns files

module _ {F64 : Type 0} (json : Json F64) (partition : Partition) (zero_f64 : F64)
    (removes : (k : Bytes) (s : partition.Store) → partition.remove k s ≢ none)
    (reads : (bound : Bytes) (s : partition.Store)
      → All (λ i. i ≢ none) (partition.range bound s)) where
  open partition use {Store, get, range}

  -- the row of a sample
  abbrev pub sample_row : ℕ → Str → Bytes → Row F64
  sample_row ts name payload =
      let (value, kind, labels) = decode_value json zero_f64 payload in
      record { ts = min ts max_i64; name = name; value = value; kind = kind; labels = labels }

  row_of-sample_row :
      (outcomes : Outcomes) (ts : ℕ) (name : Str) (payload : Bytes)
      → row_of json partition zero_f64 outcomes ts name payload ≡ sample_row ts name payload
  unfolding row_of
  row_of-sample_row outcomes ts name payload = refl

  -- the store has the sample, or a file has its row
  abbrev pub IsKept : ℕ → ℕ → Str → Bytes → Store × Files F64 → Type 0
  IsKept ts seq name payload (s, files) =
      (get (encode_key ts seq name) s ≡ some payload) ⊎ IsCold (sample_row ts name payload) files

  published-AreNew :
      (outcomes : Outcomes) (rows : List (Row F64)) (turns : List Turn) (files : Files F64)
      → All (λ u. str_eq (final_name outcomes.final_stamp) (file_name u) ≡ false) turns
      → AreNew turns files
      → AreNew turns (published json partition zero_f64 outcomes rows files)
  published-AreNew outcomes [] turns files others new = new
  published-AreNew outcomes (r ∷ rs) [] files others new = tt
  published-AreNew outcomes (r ∷ rs) (t ∷ turns) files (differs, others) (fresh, apart, new) = (
    has_file-put_file (file_name t) _ (r ∷ rs) files fresh differs,
    apart,
    published-AreNew outcomes (r ∷ rs) turns files others new,
  )

  published-IsCold :
      (outcomes : Outcomes) (r : Row F64) (rows : List (Row F64)) (files : Files F64)
      → has_file (final_name outcomes.final_stamp) files ≡ false
      → IsCold r files ⊎ HasRow r rows
      → IsCold r (published json partition zero_f64 outcomes rows files)
  published-IsCold outcomes r [] files new (inl cold) = cold
  published-IsCold outcomes r [] files new (inr h) = absurd h
  published-IsCold outcomes r (x ∷ xs) files new (inl cold) =
      put_file-IsCold r _ (x ∷ xs) files new cold
  published-IsCold outcomes r (x ∷ xs) files new (inr h) = put_file-HasRow r _ (x ∷ xs) files h

  -- a sample that the store has, after a pass
  InCold-IsKept :
      (outcomes : Outcomes) (expired : Bool) (v : Option Bytes) (ts seq : ℕ) (name : Str)
      (payload : Bytes) (s' : Store) (rows : List (Row F64)) (files : Files F64)
      → v ≡ some payload
      → get (encode_key ts seq name) s' ≡ (if expired then none else v)
      → InCold json partition zero_f64 outcomes ts name expired v rows
      → has_file (final_name outcomes.final_stamp) files ≡ false
      → IsKept ts seq name payload (s', published json partition zero_f64 outcomes rows files)
  InCold-IsKept outcomes false v ts seq name payload s' rows files held hot cold new =
      inl (hot ∙ held)
  InCold-IsKept outcomes true none ts seq name payload s' rows files held hot cold new =
      absurd (none≢some held)
  InCold-IsKept outcomes true (some w) ts seq name payload s' rows files held hot cold new = inr (
      published-IsCold outcomes _ rows files new (
        inr (
          subst (λ r. HasRow r rows)
            (row_of-sample_row outcomes ts name w ∙ ap (sample_row ts name) (some_inj held)) cold)))

  -- what a pass leaves: a sample that was kept is kept, and the files to come are still new
  record Leaves (turns : List Turn) (ts seq : ℕ) (name : Str) (payload : Bytes)
      (r : Result ℕ × Store × Files F64) : Type 0 where
    kept : IsKept ts seq name payload (r.1, r.2)
    new : AreNew turns r.2

  IsMoved-Leaves :
      (t : Turn) (turns : List Turn) (cutoff ts seq : ℕ) (name : Str) (payload : Bytes) (s : Store)
      (files : Files F64) (r : Result ℕ × Store × Files F64)
      → IsMoved json partition zero_f64 t.outcomes cutoff ts seq name s files r
      → AreNew (t ∷ turns) files
      → IsKept ts seq name payload (s, files)
      → Leaves turns ts seq name payload r
  IsMoved-Leaves t turns cutoff ts seq name payload s files (err e, s', files') m new kept =
      absurd m
  IsMoved-Leaves t turns cutoff ts seq name payload s files (ok n, s', files') m (fresh, apart, new)
        kept =
      record {
        kept =
            subst (λ fs. IsKept ts seq name payload (s', fs)) (sym m.cold_files)
              (elim kept [
                | inl held ↦
                    InCold-IsKept t.outcomes (ltb ts cutoff) (get (encode_key ts seq name) s) ts seq
                      name payload s' m.rows files held m.hot m.cold fresh
                | inr cold ↦ inr (published-IsCold t.outcomes _ m.rows files fresh (inl cold))
              ]);
        new =
            subst (AreNew turns) (sym m.cold_files)
              (published-AreNew t.outcomes m.rows turns files apart new);
      }

  abbrev pub Within : ℕ → Turn → Type 0
  Within retention t = IsFine t × (cutoff_micros t.now_micros retention ≤ max_u64)

  passes-IsKept :
      (retention ts seq : ℕ) (name : Str) (payload : Bytes) (turns : List Turn) (s : Store)
      (files : Files F64)
      → ts ≤ max_u64
      → seq < 2 ^ 32
      → All IsScalar name
      → All (Within retention) turns
      → AreNew turns files
      → IsKept ts seq name payload (s, files)
      → IsKept ts seq name payload
          (passes json partition zero_f64 (some retention) turns (s, files))
  unfolding passes
  passes-IsKept retention ts seq name payload [] s files ht hs hn good new kept = kept
  passes-IsKept retention ts seq name payload (t ∷ turns) s files ht hs hn ((fine, hc), good) new
        kept =
      let cutoff = cutoff_micros t.now_micros retention in
      let r =
        run_compaction_once json partition zero_f64 t.outcomes t.now_micros (some retention) s
          files in
      let left =
        IsMoved-Leaves t turns cutoff ts seq name payload s files r
          (run_compaction_once-IsMoved json partition zero_f64 t.outcomes fine.opens fine.writes
            fine.makes_dir fine.closes fine.renames removes t.now_micros retention s files ts seq
            name (reads (cutoff_prefix cutoff) s) hc ht hs hn)
          new kept in
      passes-IsKept retention ts seq name payload turns r.1 r.2 ht hs hn good left.new left.kept

  -- If nothing outside the program fails in the passes of `compaction_loop`, their cutoffs are at most
  -- `u64::MAX`, and their files have names that differ from each other and from those of the files that
  -- there are: a sample of a `u64` time, a `u32` sequence number and a name of Unicode scalar values that
  -- the store has at first is in the end still in the store, with its payload, or its row is in one of the
  -- cold files.
  pub compaction_loop-IsKept :
      (enable_compaction : Bool) (retention ts seq : ℕ) (name : Str) (payload : Bytes)
      (turns : List Turn) (s : Store) (files : Files F64)
      → ts ≤ max_u64
      → seq < 2 ^ 32
      → All IsScalar name
      → All (Within retention) turns
      → AreNew turns files
      → get (encode_key ts seq name) s ≡ some payload
      → IsKept ts seq name payload (
          compaction_loop json partition zero_f64 enable_compaction
            (some retention)
            turns
            (s, files))
  unfolding compaction_loop
  compaction_loop-IsKept true retention ts seq name payload turns s files ht hs hn good new held =
      passes-IsKept retention ts seq name payload turns s files ht hs hn good new (inl held)
  compaction_loop-IsKept false retention ts seq name payload turns s files ht hs hn good new held =
      inl held
