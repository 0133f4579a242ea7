-- ===== src/Engine/Lifecycle/Exported.antt =====
-- From `record` to a row of a cold file: what a compaction pass makes of the store that a run leaves.
use mathlib.Core.Path.{subst}
use tonggeret.Base.{
  ℕ, [], ◌+◌, ◌*◌, ◌^◌, ◌<◌, ◌≤◌, ◌≡◌, ◌≢◌, refl, ap, ◌∙◌, Bool, true, false, Option, none, some,
  List, ◌∷◌, ◌++◌, length, length-append, All, none≢some, some_inj, ltb, arith,
}
use tonggeret.Text.Hex.{max_u64}
use tonggeret.Text.Utf8.{Bytes, IsScalar}
use tonggeret.Error.{Result, ok, err}
use tonggeret.Types.{PipelineMsg, MetricEntry}
use tonggeret.Config.{Config, FjallConfig, validate}
use tonggeret.Channel.{Channel}
use tonggeret.Storage.Json.{Json}
use tonggeret.Storage.Partition.{Partition}
use tonggeret.Storage.Keys.{encode_key, cutoff_prefix}
use tonggeret.Storage.Values.{entry_micros, entry_micros-le, encode_value}
use tonggeret.Storage.Writer.Stored.{IsNamed}
use tonggeret.Storage.Export.{Row, Outcomes, Files, row_of, cutoff_micros, run_compaction_once}
use tonggeret.Storage.Export.Items.{HasRow}
use tonggeret.Storage.Export.Publish.{published}
use tonggeret.Storage.Export.Refines.{InCold, IsMoved, run_compaction_once-IsMoved}
use tonggeret.Engine.{Registry}
use tonggeret.Engine.Pipeline.{Accepted}
use tonggeret.Engine.Lifecycle.{Env, State, Thread}
use tonggeret.Engine.Lifecycle.Close.{shut_down}
use tonggeret.Engine.Lifecycle.Reach.{Reach}
use tonggeret.Engine.Lifecycle.Readable.{IsReadable}
use tonggeret.Engine.Lifecycle.EndToEnd.{Reach-IsReadable}
use tonggeret.Storage.Export.Entries.{All-at, none_plus, entry_row, row_of-encode_value, Stores-at}

module _ {F64 : Type 0} (json : Json F64) (partition : Partition) (zero_f64 : F64)
    (outcomes : Outcomes) where
  open partition use {Store, get, range}

  -- the entry whose key has the number `seq` has left the store, and its row is in the published file
  pub record IsExported (e : MetricEntry F64) (seq : ℕ) (files : Files F64) (s' : Store)
      (files' : Files F64) : Type 0 where
    pub rows : List (Row F64)
    pub gone : get (encode_key (entry_micros e) seq e.name) s' ≡ none
    pub row : HasRow (entry_row json zero_f64 e) rows
    pub file : files' ≡ published json partition zero_f64 outcomes rows files

  -- what a pass makes of an entry, by whether it has expired: it is in the store, or in the cold file
  abbrev pub Keeps : Bool → MetricEntry F64 → ℕ → Files F64 → Result ℕ × Store × Files F64 → Type 0
  Keeps true e seq files (ok n, s', files') = IsExported e seq files s' files'
  Keeps false e seq files (ok n, s', files') =
      get (encode_key (entry_micros e) seq e.name) s' ≡ some (encode_value json e)
  Keeps expired e seq files (err x, s', files') = ⊥

  InCold-HasRow :
      (e : MetricEntry F64) (v : Option Bytes) (rows : List (Row F64))
      → v ≡ some (encode_value json e)
      → InCold json partition zero_f64 outcomes (entry_micros e) e.name true v rows
      → HasRow (entry_row json zero_f64 e) rows
  InCold-HasRow e none rows held cold = absurd (none≢some held)
  InCold-HasRow e (some payload) rows held cold =
      subst (λ r. HasRow r rows)
        (ap (row_of json partition zero_f64 outcomes (entry_micros e) e.name) (some_inj held)
          ∙ row_of-encode_value json zero_f64 partition outcomes e)
        cold

  IsMoved-Keeps :
      (expired : Bool) (cutoff seq : ℕ) (e : MetricEntry F64) (s : Store) (files : Files F64)
      (r : Result ℕ × Store × Files F64)
      → ltb (entry_micros e) cutoff ≡ expired
      → get (encode_key (entry_micros e) seq e.name) s ≡ some (encode_value json e)
      → IsMoved json partition zero_f64 outcomes cutoff (entry_micros e) seq e.name s files r
      → Keeps expired e seq files r
  IsMoved-Keeps expired cutoff seq e s files (err x, s', files') is held m = absurd m
  IsMoved-Keeps false cutoff seq e s files (ok n, s', files') is held m = rw is at m.hot ∙ held
  IsMoved-Keeps true cutoff seq e s files (ok n, s', files') is held m = record {
    rows = m.rows;
    gone = rw is at m.hot;
    row = InCold-HasRow e (get (encode_key (entry_micros e) seq e.name) s) m.rows held (
        subst
          (λ b.
            InCold json partition zero_f64 outcomes (entry_micros e) e.name b
              (get (encode_key (entry_micros e) seq e.name) s) m.rows)
          is m.cold);
    file = m.cold_files;
  }

module _ {F64 : Type 0} (json : Json F64) (partition : Partition) (registry : Registry F64)
    (channel : Channel (PipelineMsg F64)) (new_registry : List F64 → Result registry.Reg)
    (zero_f64 : F64) (outcomes : Outcomes) (opens_file : outcomes.opens ≡ true)
    (file_writes : (n : ℕ) → outcomes.writes n ≡ true) (makes_dir : outcomes.makes_dir ≡ true)
    (closes : outcomes.closes ≡ true) (renames : outcomes.renames ≡ true)
    (inserts : (k v : Bytes) (s : partition.Store) → partition.insert k v s ≢ none)
    (removes : (k : Bytes) (s : partition.Store) → partition.remove k s ≢ none)
    (reads : (bound : Bytes) (s : partition.Store)
      → All (λ i. i ≢ none) (partition.range bound s)) where
  open partition use {Store}
  open registry use {Reg}

  abbrev P : Type 0
  P = State json partition registry channel new_registry

  -- what a pass makes of an entry in the store that the thread has left
  abbrev pub KeepsAll : ℕ → ℕ → Files F64 → MetricEntry F64 → ℕ → Option (Thread F64 Store) → Type 0
  KeepsAll now_micros retention files e seq none = ⊥
  KeepsAll now_micros retention files e seq (some t) =
      Keeps json partition zero_f64 outcomes
        (ltb (entry_micros e) (cutoff_micros now_micros retention)) e seq files
        (run_compaction_once json partition zero_f64 outcomes now_micros (some retention)
          t.writer.store files)

  IsReadable-KeepsAll :
      (now_micros retention : ℕ) (files : Files F64) (xs : List (MetricEntry F64))
      (e : MetricEntry F64) (ys : List (MetricEntry F64)) (t : Option (Thread F64 Store))
      → All IsScalar e.name
      → length xs < 2 ^ 32
      → cutoff_micros now_micros retention ≤ max_u64
      → IsReadable json partition registry channel new_registry inserts (xs ++ e ∷ ys) t
      → KeepsAll now_micros retention files e (length xs) t
  IsReadable-KeepsAll now_micros retention files xs e ys none named few most h = absurd h
  IsReadable-KeepsAll now_micros retention files xs e ys (some t) named few most h =
      let s = t.writer.store in
      let cutoff = cutoff_micros now_micros retention in
      IsMoved-Keeps json partition zero_f64 outcomes _ cutoff (length xs) e s files _ refl
        (subst
          (λ n. partition.get (encode_key (entry_micros e) n e.name) s ≡ some (encode_value json e))
          (none_plus (length xs))
          (Stores-at json partition inserts xs e ys 0 s (omega (arith, few)) h))
        (run_compaction_once-IsMoved json partition zero_f64 outcomes opens_file file_writes
          makes_dir closes renames removes now_micros retention s files (entry_micros e) (length xs)
          e.name (reads (cutoff_prefix cutoff) s) most (entry_micros-le e) few named)

  module _ (env : Env Store) (c : Config F64) (f : FjallConfig) (s0 : Store) (reg : Reg)
      (valid : validate true c ≡ ok tt) (stored : c.fjall ≡ some f)
      (opens : env.open_handles f ≡ ok s0)
      (made : new_registry c.default_histogram_buckets ≡ ok reg) (spawned : env.spawns ≡ true) where
    -- After a first `init` that succeeds, with both features, where nothing fails in the store or in the
    -- cold directory, and while no compaction loop is started, by `init` or later: however calls of
    -- `record` that return, of which at most 2^32 entries are accepted, with names of Unicode scalar
    -- values, and the steps of the writer thread interleave, a `shutdown` in whose first sleep the thread
    -- takes two steps or more, and then two for each place of the configured channel and one more,
    -- returns without an error; and a compaction pass over the store that it leaves, with a cutoff of at
    -- most `u64::MAX`, returns a number, and each accepted entry is then in the store with its payload, if
    -- its time is not before the cutoff, and else has left the store, and its row is among those of the
    -- published file.
    pub Reach-KeepsAll :
        (busy : ℕ → ℕ) (waits : ℕ) (p : P) (acc : Accepted F64) (now_micros retention : ℕ)
        (files : Files F64) (xs : List (MetricEntry F64)) (e : MetricEntry F64)
        (ys : List (MetricEntry F64))
        → Reach json partition registry channel new_registry env c p acc
        → p.running ≡ []
        → acc.0 ≡ xs ++ e ∷ ys
        → All IsNamed acc.0
        → length acc.0 ≤ 2 ^ 32
        → cutoff_micros now_micros retention ≤ max_u64
        → 2 ≤ busy 99
        → 2 * c.channel_capacity + 1 ≤ waits
        → (p' : P) × (shut_down json partition registry channel new_registry busy waits p
            ≡ some (ok tt, p'))
          × KeepsAll now_micros retention files e (length xs) p'.thread
    Reach-KeepsAll busy waits p acc now_micros retention files xs e ys r idle is named few most
          awake enough =
        let (p', done, readable) =
          Reach-IsReadable json partition registry channel new_registry env c f s0 reg valid stored
            opens made spawned inserts busy waits p acc r idle named few awake enough in
        (
          p',
          done,
          IsReadable-KeepsAll now_micros retention files xs e ys p'.thread
              (All-at IsNamed xs e ys (subst (All IsNamed) is named))
              (omega (arith, ap length is, length-append xs (e ∷ ys), few)) most
              (subst
                (λ l. IsReadable json partition registry channel new_registry inserts l p'.thread)
                is readable),
        )
