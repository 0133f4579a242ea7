-- ===== src/Engine/Lifecycle/Readable.antt =====
-- What can be read back after a `shutdown`: each entry that was accepted, under its own key.
use mathlib.Core.Path.{subst}
use tonggeret.Base.{
  ℕ, ◌+◌, ◌*◌, ◌^◌, ◌≤◌, ◌≡◌, ◌≢◌, ap, Option, none, some, List, length, All, arith,
}
use tonggeret.Text.Utf8.{Bytes}
use tonggeret.Error.{Result, ok}
use tonggeret.Types.{PipelineMsg, MetricEntry}
use tonggeret.Channel.{Channel}
use tonggeret.Storage.Json.{Json}
use tonggeret.Storage.Partition.{Partition}
use tonggeret.Storage.Writer.Stored.{IsNamed, Stores, flush_batch-Stores}
use tonggeret.Engine.{Registry, EngineHandle}
use tonggeret.Engine.Pipeline.{Accepted}
use tonggeret.Engine.Lifecycle.{Thread, State}
use tonggeret.Engine.Lifecycle.Close.{shut_down}
use tonggeret.Engine.Lifecycle.Deliver.{Serving}
use tonggeret.Engine.Lifecycle.Shutdown.{IsStored, shut_down-stores}

module _ {F64 : Type 0} (json : Json F64) (partition : Partition) (registry : Registry F64)
    (channel : Channel (PipelineMsg F64)) (new_registry : List F64 → Result registry.Reg)
    (inserts : (k v : Bytes) (s : partition.Store) → partition.insert k v s ≢ none) where
  open channel use {Chan, view}
  open partition use {Store}
  open registry use {Reg}

  -- the store of the thread has each of the entries under its key, the first with the number 0
  abbrev pub IsReadable : List (MetricEntry F64) → Option (Thread F64 Store) → Type 0
  IsReadable entries none = ⊥
  IsReadable entries (some t) = Stores json partition inserts entries 0 t.writer.store

  stored-IsReadable :
      (s0 : Store) (acc : Accepted F64) (t : Option (Thread F64 Store))
      → All IsNamed acc.0
      → length acc.0 ≤ 2 ^ 32
      → IsStored json partition registry channel new_registry s0 acc t
      → IsReadable acc.0 t
  stored-IsReadable s0 acc none named few h = absurd h
  stored-IsReadable s0 acc (some t) named few (ended, stored, persisted) =
      subst (Stores json partition inserts acc.0 0) (ap (λ x. x.0) stored)
        (flush_batch-Stores json partition inserts acc.0 s0 0 (omega arith) named few)

  -- On a process that serves, with inserts that succeed, if it has accepted at most 2^32 entries, with
  -- names of Unicode scalar values, and the thread takes two steps or more while the call first sleeps,
  -- and then two for each place of the channel and one more: `shutdown` returns without an error, and
  -- then each accepted entry is in the store under its own key, with its payload.
  pub shut_down-IsReadable :
      (busy : ℕ → ℕ) (waits : ℕ) (s0 : Store) (acc : Accepted F64) (h : EngineHandle Chan Reg)
      (c : Chan) (t : Thread F64 Store) (p : State json partition registry channel new_registry)
      → Serving json partition registry channel new_registry s0 acc h c t p
      → All IsNamed acc.0
      → length acc.0 ≤ 2 ^ 32
      → 2 ≤ busy 99
      → 2 * (view c).capacity + 1 ≤ waits
      → (p' : State json partition registry channel new_registry) × (shut_down json partition
            registry channel new_registry busy waits p
          ≡ some (ok tt, p'))
        × IsReadable acc.0 p'.thread
  shut_down-IsReadable busy waits s0 acc h c t p v named few awake enough =
      let (p', done, stored, joined) =
        shut_down-stores json partition registry channel new_registry busy waits s0 acc h c t p v
          awake enough in
      (p', done, stored-IsReadable s0 acc p'.thread named few stored)
