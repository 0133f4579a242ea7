-- ===== src/Storage/Loop.antt =====
-- storage/parquet_exporter.rs: `compaction_loop`, as the passes that it makes, one after each sleep. A
-- pass that fails is logged, and so the loop goes on; none panics.
pub mod Safe
use tonggeret.Base.{
  ℕ, ◌≤◌, ◌<◌, ◌^◌, ◌≡◌, refl, ◌∙◌, Bool, true, false, Option, some, List, [], ◌∷◌, All, le→ltb,
  if◌then◌else◌,
}
use tonggeret.Text.{Str}
use tonggeret.Text.Hex.{max_u64}
use tonggeret.Storage.Json.{Json}
use tonggeret.Storage.Partition.{Partition}
use tonggeret.Storage.Keys.{encode_key}
use tonggeret.Storage.Keys.Order.{lex_ltb-cutoff_prefix}
use tonggeret.Storage.Export.{Files, Outcomes, cutoff_micros, run_compaction_once}
use tonggeret.Storage.Export.Stays.{get-run_compaction_once}

-- what a pass meets: the time, and how the calls outside the program come out
pub record Turn : Type 0 where
  pub now_micros : ℕ
  pub outcomes : Outcomes

module _ {F64 : Type 0} (json : Json F64) (partition : Partition) (zero_f64 : F64) where
  open partition use {Store, get}

  -- the passes of the loop, whose results are dropped
  unfoldable pub passes : Option ℕ → List Turn → Store × Files F64 → Store × Files F64
  passes retention [] (s, files) = (s, files)
  passes retention (t ∷ turns) (s, files) =
      let (r, s', files') =
        run_compaction_once json partition zero_f64 t.outcomes t.now_micros retention s files in
      passes retention turns (s', files')

  -- `compaction_loop`, up to the pass of the last of the turns
  unfoldable pub compaction_loop :
      Bool → Option ℕ → List Turn → Store × Files F64 → Store × Files F64
  unfolding passes
  compaction_loop enable_compaction retention turns s =
      if enable_compaction then passes retention turns s else s

  -- the time is not before the cutoff of the turn
  abbrev pub IsRecent : ℕ → ℕ → Turn → Type 0
  IsRecent ts retention t =
      (cutoff_micros t.now_micros retention ≤ ts) × (cutoff_micros t.now_micros retention ≤ max_u64)

  passes-get :
      (retention ts seq : ℕ) (name : Str) (turns : List Turn) (s : Store) (files : Files F64)
      → ts ≤ max_u64
      → seq < 2 ^ 32
      → All (IsRecent ts retention) turns
      → get (encode_key ts seq name) (passes (some retention) turns (s, files)).0
        ≡ get (encode_key ts seq name) s
  unfolding passes
  passes-get retention ts seq name [] s files ht hs recent = refl
  passes-get retention ts seq name (t ∷ turns) s files ht hs ((late, hc), recent) =
      let (r, s', files') =
        run_compaction_once json partition zero_f64 t.outcomes t.now_micros (some retention) s
          files in
      passes-get retention ts seq name turns s' files' ht hs recent
      ∙ get-run_compaction_once json partition zero_f64 t.outcomes t.now_micros retention s files
          (encode_key ts seq name)
          (lex_ltb-cutoff_prefix ts seq (cutoff_micros t.now_micros retention) name ht hs hc
            ∙ le→ltb ts (cutoff_micros t.now_micros retention) late)

  -- Whatever fails in the passes of `compaction_loop`, and however many there are: what the store holds
  -- for a `u64` time, a `u32` sequence number and a name stays as it is if the time is not before the
  -- cutoff of any of the passes.
  pub get-compaction_loop :
      (enable_compaction : Bool) (retention ts seq : ℕ) (name : Str) (turns : List Turn) (s : Store)
      (files : Files F64)
      → ts ≤ max_u64
      → seq < 2 ^ 32
      → All (IsRecent ts retention) turns
      → get
          (encode_key ts seq name)
          (compaction_loop enable_compaction (some retention) turns (s, files)).0
        ≡ get (encode_key ts seq name) s
  unfolding compaction_loop
  get-compaction_loop true retention ts seq name turns s files ht hs recent =
      passes-get retention ts seq name turns s files ht hs recent
  get-compaction_loop false retention ts seq name turns s files ht hs recent = refl
