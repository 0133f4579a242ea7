-- ===== src/Engine/Lifecycle.antt =====
-- engine.rs, the process globals and their lifecycle: `init` and `spawn_compaction_task`. No lock is
-- poisoned, since nothing panics under one. A loop is started here; its passes are Storage.Loop.
pub mod Init
pub mod Again
pub mod Start
pub mod Close
pub mod Steps
pub mod Deliver
pub mod Shutdown
pub mod Readable
pub mod Reach
pub mod EndToEnd
pub mod Exported
pub mod After
pub mod Hang
pub mod Tasks
use tonggeret.Base.{
  ℕ, zero, suc, ◌==◌, Bool, true, false, not, ◌&&◌, Option, none, some, List, [], ◌∷◌,
  if◌then◌else◌, codes,
}
use mathlib.Core.Option
use tonggeret.Text.{Str}
use tonggeret.Error.{Error, Result, ok, err, already_initialized, not_initialized, storage}
use tonggeret.FilePath.{FilePath}
use tonggeret.Types.{PipelineMsg, shutdown}
use tonggeret.Config.{Config, FjallConfig, validate}
use tonggeret.Channel.{Channel, Sent, sent, full, closed}
use tonggeret.Storage.Json.{Json}
use tonggeret.Storage.Partition.{Partition}
use tonggeret.Storage.Writer.{Phase, parked, draining, exited, Writer, started}
use tonggeret.Engine.{Registry, EngineHandle, handle_text}
use tonggeret.Engine.Pipeline.Drain.{run_writer}

-- the feature flags
pub record Build : Type 0 where
  pub fjall_backend : Bool
  pub prometheus_exporter : Bool

-- How calls outside the program come out in one call of `init`: `open_handles`, which Storage.Open
-- models by the calls that it makes, the spawning of a thread, and whether a Tokio runtime is there.
pub record Env (Store : Type 0) : Type 0 where
  pub open_handles : FjallConfig → Result Store
  pub spawns : Bool
  pub in_runtime : Bool

-- the writer thread
pub record Thread (F64 Store : Type 0) : Type 0 where
  pub writer : Writer F64 Store
  pub batch_rows : ℕ

-- `GLOBAL`, with `SHUTDOWN` in its handle, `WRITER_JOIN` and `COMPACTION_TASK`; the writer thread; the
-- compaction loops that run, by the number of their spawning; and the directories opened so far.
pub record Process (F64 Store Chan Reg : Type 0) : Type 0 where
  pub global : Option (EngineHandle Chan Reg)
  pub writer_join : Bool
  pub compaction_task : Option ℕ
  pub thread : Option (Thread F64 Store)
  pub running : List ℕ
  pub spawned : ℕ
  pub opened : List FilePath

module _ {F64 : Type 0} (json : Json F64) (partition : Partition) (registry : Registry F64)
    (channel : Channel (PipelineMsg F64)) (new_registry : List F64 → Result registry.Reg) where
  open partition use {Store}
  open registry use {Reg}
  open channel use {Chan, create, try_send, close}

  abbrev pub State : Type 0
  State = Process F64 Store Chan Reg

  abbrev pub Handle : Type 0
  Handle = EngineHandle Chan Reg

  -- a process in which nothing has been called
  abbrev pub fresh : State
  fresh = record {
    global = none;
    writer_join = false;
    compaction_task = none;
    thread = none;
    running = [];
    spawned = 0;
    opened = [];
  }

  -- the channel, where the feature is compiled in and a store is configured
  abbrev pub channel_for : Bool → Option FjallConfig → ℕ → Option Chan
  channel_for true (some f) capacity = some (create capacity)
  channel_for _ _ capacity = none

  abbrev pub handle_with : Option Chan → Option Reg → Handle
  handle_with tx reg = record {
    tx = tx;
    registry = reg;
    dropped_total = 0;
    has_fjall = false;
    is_shutdown = false;
  }

  abbrev with_registry : Option Chan → Result Reg → Result Handle
  with_registry tx (ok reg) = ok (handle_with tx (some reg))
  with_registry tx (err e) = err e

  -- `EngineHandle::new`; the receiver is the other end of the handle's channel
  unfoldable pub new_handle : Build → Config F64 → Result Handle
  new_handle build c =
      let tx = channel_for build.fjall_backend c.fjall c.channel_capacity in
      if build.prometheus_exporter
      then with_registry tx (new_registry c.default_histogram_buckets)
      else ok (handle_with tx none)

  -- what follows the look-up of the engine in `spawn_compaction_task`
  unfoldable pub spawn_with : Bool → Option Handle → State → Bool × State
  spawn_with in_runtime none p = (false, p)
  spawn_with in_runtime (some h) p =
      if h.has_fjall && in_runtime
      then (
        true,
        record p {
          compaction_task = some p.spawned;
          running = p.spawned ∷ p.running;
          spawned = suc p.spawned;
        },
      )
      else (false, p)

  -- `spawn_compaction_task`
  unfoldable pub spawn_compaction_task : Bool → FjallConfig → State → Bool × State
  unfolding spawn_with
  spawn_compaction_task in_runtime f p =
      if f.enable_compaction then spawn_with in_runtime p.global p else (false, p)

  -- The writer thread, and the compaction loop if a runtime is there. A thread that is not spawned
  -- drops its receiver.
  unfoldable pub spawn_threads :
      Env Store → Option (FjallConfig × Store) → Handle → State → Result (Unit {0}) × State
  unfolding spawn_compaction_task
  spawn_threads env none h p = (ok tt, p)
  spawn_threads env (some (f, s)) h p =
      if env.spawns
      then (
        ok tt,
        (spawn_compaction_task env.in_runtime f (record p {
          writer_join = true;
          thread = some (record { writer = started s; batch_rows = f.batch_rows });
        })).1,
      )
      else (
        err (storage (codes "spawn writer thread")),
        record p { global = some (record h { tx = Option.map close h.tx }) },
      )

  -- `GLOBAL.set`, by what `GLOBAL` holds
  unfoldable pub publish_handle :
      Env Store
      → Option (FjallConfig × Store)
      → Handle
      → Option Handle
      → State
      → Result (Unit {0}) × State
  unfolding spawn_threads
  publish_handle env store h (some g) p = (err already_initialized, p)
  publish_handle env store h none p = spawn_threads env store h (record p { global = some h })

  -- what follows `open_handles`
  unfoldable pub after_open :
      Env Store → FjallConfig → Handle → Result Store → State → Result (Unit {0}) × State
  unfolding publish_handle
  after_open env f h (err e) p = (err e, p)
  after_open env f h (ok s) p =
      publish_handle env (some (f, s)) (record h { has_fjall = true }) p.global
        (record p { opened = f.dir ∷ p.opened })

  -- the store is opened, if one is configured
  unfoldable pub open_store :
      Env Store → Option FjallConfig → Handle → State → Result (Unit {0}) × State
  unfolding after_open
  open_store env none h p = publish_handle env none h p.global p
  open_store env (some f) h p = after_open env f h (env.open_handles f) p

  unfoldable pub with_handle :
      Env Store → Config F64 → Result Handle → State → Result (Unit {0}) × State
  unfolding open_store
  with_handle env c (err e) p = (err e, p)
  with_handle env c (ok h) p = open_store env c.fjall h p

  unfoldable pub validated :
      Build → Env Store → Config F64 → Result (Unit {0}) → State → Result (Unit {0}) × State
  unfolding with_handle new_handle
  validated build env c (err e) p = (err e, p)
  validated build env c (ok u) p = with_handle env c (new_handle build c) p

  -- `init`: its result, and the process after it
  unfoldable pub init : Build → Env Store → Config F64 → State → Result (Unit {0}) × State
  unfolding validated
  init build env c p = validated build env c (validate build.fjall_backend c) p

  -- `is_initialized`
  unfoldable pub is_initialized : State → Bool
  is_initialized p = elim p.global [ some h ↦ true | none ↦ false ]
