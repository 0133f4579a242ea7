-- ===== src/Engine/Pipeline.antt =====
-- The pipeline as interleaved steps: callers of `record` and `shutdown` send into the channel while
-- the writer thread takes its steps, in any order.
pub mod Owed
pub mod Accounts
pub mod Drain
use tonggeret.Base.{
  ℕ, not, ◌≡◌, refl, sym, ap, ◌∙◌, Bool, true, false, Option, none, some, List, [], ◌∷◌, ◌++◌,
  if◌then◌else◌, arith, append_assoc, append-nil, Bool-cases, inl, inr, ltb, length, Option-cases,
  ◌&&◌, some_inj,
}
use mathlib.Core.Path.{subst}
use tonggeret.Types.{MetricEntry, PipelineMsg, metric, shutdown}
use tonggeret.Channel.{Channel, View, next_of}
use tonggeret.Storage.Json.{Json}
use tonggeret.Storage.Partition.{Partition}
use tonggeret.Storage.Writer.{
  Phase, parked, draining, exited, flush_batch, Writer, flushed, on_wake, on_drain, dispatch,
  writer_step, started,
}
use tonggeret.Storage.Writer.Laws.{flush_batch-append}
use tonggeret.Engine.{Registry, EngineHandle, record_entry, update_registry}
use tonggeret.Engine.Record.{has_room, queue_of, record_entry-outcome, queue-send}

module _ {F64 : Type 0} where
  -- the entries in front of the first shutdown message
  abbrev pub entries_before : List (PipelineMsg F64) → List (MetricEntry F64)
  entries_before [] = []
  entries_before (metric e ∷ ms) = e ∷ entries_before ms
  entries_before (shutdown ∷ ms) = []

  abbrev pub has_shutdown : List (PipelineMsg F64) → Bool
  has_shutdown [] = false
  has_shutdown (metric e ∷ ms) = has_shutdown ms
  has_shutdown (shutdown ∷ ms) = true

  -- The entries accepted before the first shutdown message, and whether that message is accepted,
  -- once `m` has been sent into a channel.
  abbrev pub accept :
      PipelineMsg F64 → List (MetricEntry F64) × Bool → List (MetricEntry F64) × Bool
  accept (metric e) (es, ended) = (if ended then es else es ++ e ∷ [], ended)
  accept shutdown (es, ended) = (es, true)

  pub entries_before-append :
      (ms : List (PipelineMsg F64)) (m : PipelineMsg F64)
      → (entries_before (ms ++ m ∷ []), has_shutdown (ms ++ m ∷ []))
        ≡ accept m (entries_before ms, has_shutdown ms)
  entries_before-append [] (metric e) = refl
  entries_before-append [] shutdown = refl
  entries_before-append (metric d ∷ ms) (metric e) =
      ground (arith, entries_before-append ms (metric e))
  entries_before-append (metric d ∷ ms) shutdown = ground (arith, entries_before-append ms shutdown)
  entries_before-append (shutdown ∷ ms) (metric e) = refl
  entries_before-append (shutdown ∷ ms) shutdown = refl

  -- what is put in front stays in front
  pub accept-append :
      (m : PipelineMsg F64) (xs es : List (MetricEntry F64)) (ended : Bool)
      → accept m (xs ++ es, ended) ≡ (xs ++ (accept m (es, ended)).0, (accept m (es, ended)).1)
  accept-append (metric e) xs es true = refl
  accept-append (metric e) xs es false = rw append_assoc
  accept-append shutdown xs es ended = refl

-- the entries accepted before the first shutdown message, and whether that is accepted
abbrev pub Accepted : Type 0 → Type 0
Accepted F64 = List (MetricEntry F64) × Bool

abbrev pub accept_if : {F64 : Type 0} → Bool → PipelineMsg F64 → Accepted F64 → Accepted F64
accept_if room m acc = if room then accept m acc else acc

module _ {F64 : Type 0} (json : Json F64) (partition : Partition) (registry : Registry F64)
    (channel : Channel (PipelineMsg F64)) (batch_rows : ℕ) where
  open channel use {Chan, view, try_send}
  open partition use {Store}
  open registry use {Reg}

  -- The states that the writer and its channel reach from a store `s0` and an empty channel, and
  -- what the channel has accepted on the way.
  pub data Run (s0 : Store) : Writer F64 Store → Chan → Accepted F64 → Type 0 where
    begin : (c : Chan) → (view c).queue ≡ [] → Run s0 (started s0) c ([], false)
    -- A call of `record` that returns. Its handle holds the channel; its flag is what the call read,
    -- which may be out of date when it sends.
    recorded :
        {w : Writer F64 Store} {c c' : Chan} {acc : Accepted F64} (e : MetricEntry F64)
        (h h' : EngineHandle Chan Reg)
        → Run s0 w c acc
        → h.tx ≡ some c
        → record_entry registry channel e h ≡ some h'
        → h'.tx ≡ some c'
        → Run s0 w c'
            (accept_if (not h.is_shutdown && has_room registry channel (view c)) (metric e) acc)
    -- `shutdown` sends its message
    asked :
        {w : Writer F64 Store} {c : Chan} {acc : Accepted F64}
        → Run s0 w c acc
        → Run s0 w
            (try_send shutdown c).1
            (accept_if (has_room registry channel (view c)) shutdown acc)
    -- the writer takes a step
    stepped :
        {w : Writer F64 Store} {c : Chan} {acc : Accepted F64}
        → Run s0 w c acc
        → Run s0
            (writer_step json partition channel batch_rows w c).0
            (writer_step json partition channel batch_rows w c).1
            acc
