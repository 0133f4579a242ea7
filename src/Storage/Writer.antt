-- ===== src/Storage/Writer.antt =====
-- storage/fjall_engine.rs `writer_loop`, `flush_batch`. The thread is a state and its steps; each
-- step receives at most one message, so that other threads may act between two steps.
pub mod Laws
pub mod Stored
use tonggeret.Base.{
  ℕ, zero, suc, ◌+◌, ◌%◌, ◌^◌, ◌<◌, ◌≡◌, refl, Bool, true, false, Option, none, some, List, [], ◌∷◌,
  ◌++◌, ltb, if◌then◌else◌, length,
}
use tonggeret.Text.Utf8.{Bytes}
use tonggeret.Types.{MetricEntry, PipelineMsg, metric, shutdown}
use tonggeret.Channel.{Channel}
use tonggeret.Storage.Keys.{encode_key}
use tonggeret.Storage.Json.{Json}
use tonggeret.Storage.Values.{entry_micros, encode_value}
use tonggeret.Storage.Partition.{Partition}

-- where the loop of `writer_loop` stands: before `blocking_recv`, in the `while` that drains, or
-- returned
pub data Phase : Type 0 where
  parked draining exited : Phase

-- `seq.wrapping_add(1)` on a `u32`
abbrev pub next_seq : ℕ → ℕ
next_seq seq = (seq + 1) % 2 ^ 32

module _ {F64 : Type 0} (json : Json F64) (partition : Partition) where
  open partition use {Store, insert}

  abbrev pub kept : Store → Option Store → Store
  kept s none = s
  kept s (some s') = s'

  -- `flush_batch`: an insert that fails is logged, and the loop goes on
  unfoldable pub flush_batch : List (MetricEntry F64) → Store × ℕ → Store × ℕ
  unfolding encode_key
  flush_batch [] (s, seq) = (s, seq)
  flush_batch (e ∷ batch) (s, seq) = flush_batch batch (
    kept s (insert (encode_key (entry_micros e) seq e.name) (encode_value json e) s),
    next_seq seq,
  )

pub record Writer (F64 Store : Type 0) : Type 0 where
  pub phase : Phase
  pub batch : List (MetricEntry F64)
  pub seq : ℕ
  pub store : Store
  -- whether `persist_best_effort` has run
  pub persisted : Bool

module _ {F64 : Type 0} (json : Json F64) (partition : Partition)
    (channel : Channel (PipelineMsg F64)) (batch_rows : ℕ) where
  open channel use {Chan, try_recv}
  open partition use {Store}

  -- `flush_batch` of the batch that the writer holds, then on to `phase`
  abbrev pub flushed : Phase → Writer F64 Store → Writer F64 Store
  flushed phase w =
      let (store, seq) = flush_batch json partition w.batch (w.store, w.seq) in
      record w { phase = phase; batch = []; seq = seq; store = store }

  abbrev pub persist : Writer F64 Store → Writer F64 Store
  persist w = record w { persisted = true }

  -- the message that the parked thread receives; with none it waits on
  unfoldable pub on_wake : Option (PipelineMsg F64) → Writer F64 Store → Writer F64 Store
  on_wake none w = w
  on_wake (some (metric e)) w = record w { phase = draining; batch = e ∷ [] }
  on_wake (some shutdown) w = persist (record w { phase = exited; batch = [] })

  -- the message of a `try_recv` in the inner loop
  unfoldable pub on_drain : Option (PipelineMsg F64) → Writer F64 Store → Writer F64 Store
  on_drain none w = flushed parked w
  on_drain (some (metric e)) w = record w { batch = w.batch ++ e ∷ [] }
  on_drain (some shutdown) w = persist (flushed exited w)

  -- a step of `writer_loop`; when it returns it drops its receiver
  unfoldable pub dispatch : Phase → Writer F64 Store → Chan → Writer F64 Store × Chan
  dispatch parked w c = let (m, c') = try_recv c in (on_wake m w, c')
  dispatch draining w c =
      let (m, c') = try_recv c in
      if ltb (length w.batch) batch_rows then (on_drain m w, c') else (flushed parked w, c)
  dispatch exited w c = (w, channel.close c)

  unfoldable pub writer_step : Writer F64 Store → Chan → Writer F64 Store × Chan
  unfolding dispatch on_wake on_drain
  writer_step w c = dispatch w.phase w c

-- the thread as it starts
abbrev pub started : {F64 Store : Type 0} → Store → Writer F64 Store
started s = record { phase = parked; batch = []; seq = 0; store = s; persisted = false }
