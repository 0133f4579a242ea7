-- ===== src/Engine/Lifecycle/Close.antt =====
-- engine.rs, `shutdown`. Other callers send nothing while it runs.
use tonggeret.Base.{
  ℕ, zero, suc, ◌==◌, Bool, true, false, Option, none, some, List, [], ◌∷◌, if◌then◌else◌,
}
use tonggeret.Error.{Result, ok, err, not_initialized}
use tonggeret.Types.{PipelineMsg, shutdown}
use tonggeret.Channel.{Channel, Sent, full}
use tonggeret.Storage.Json.{Json}
use tonggeret.Storage.Partition.{Partition}
use tonggeret.Storage.Writer.{Phase, exited}
use tonggeret.Engine.{Registry, EngineHandle}
use tonggeret.Engine.Pipeline.Drain.{run_writer}
use tonggeret.Engine.Lifecycle.{Thread, State}

-- the list without a number
unfoldable pub without : ℕ → List ℕ → List ℕ
without t [] = []
without t (n ∷ ns) = let rest = without t ns in if n == t then rest else n ∷ rest

abbrev pub is_exited : Phase → Bool
is_exited exited = true
is_exited _ = false

abbrev pub is_full : Sent → Bool
is_full full = true
is_full _ = false

module _ {F64 : Type 0} (json : Json F64) (partition : Partition) (registry : Registry F64)
    (channel : Channel (PipelineMsg F64)) (new_registry : List F64 → Result registry.Reg) where
  open partition use {Store}
  open registry use {Reg}
  open channel use {Chan, create, try_send, close}

  abbrev P : Type 0
  P = State json partition registry channel new_registry

  abbrev H : Type 0
  H = EngineHandle Chan Reg

  -- the writer thread takes steps
  unfoldable pub run_thread :
      ℕ → Option (Thread F64 Store) → Chan → Option (Thread F64 Store) × Chan
  run_thread n none c = (none, c)
  run_thread n (some t) c =
      let (w, c') = run_writer json partition registry channel t.batch_rows n t.writer c in
      (some (record t { writer = w }), c')

  -- The loop that sends the shutdown message, with `tries` left. While it sleeps after a try the thread
  -- takes `busy tries` steps.
  unfoldable pub deliver :
      ℕ → (ℕ → ℕ) → Option (Thread F64 Store) → Chan → Option (Thread F64 Store) × Chan
  unfolding run_thread
  deliver zero busy t c = (t, c)
  deliver (suc tries) busy t c =
      let (outcome, c') = try_send shutdown c in
      let again = (let (t', c'') = run_thread (busy tries) t c' in deliver tries busy t' c'') in
      if is_full outcome then again else (t, c')

  abbrev pub Ends : Type 0
  Ends = Option (Thread F64 Store) × Option Chan

  abbrev pub sleeps : ℕ
  sleeps = 100

  -- `if let Some(tx) = &h.tx`
  unfoldable pub ask : (ℕ → ℕ) → Option Chan → Option (Thread F64 Store) → Ends
  unfolding deliver
  ask busy none t = (t, none)
  ask busy (some c) t = let (t', c') = deliver sleeps busy t c in (t', some c')

  -- the thread runs on
  unfoldable pub run_on : ℕ → Ends → Ends
  unfolding run_thread
  run_on n (t, none) = (t, none)
  run_on n (t, some c) = let (t', c') = run_thread n t c in (t', some c')

  abbrev pub has_ended : Option (Thread F64 Store) → Bool
  has_ended none = true
  has_ended (some t) = is_exited t.writer.phase

  -- `guard.take()`, and `abort` of the task that was held
  unfoldable pub stop_task : Option ℕ → P → P
  unfolding without
  stop_task none p = p
  stop_task (some t) p = record p { compaction_task = none; running = without t p.running }

  abbrev pub stopped : H → Ends → P → P
  stopped h (t, tx) p =
      stop_task p.compaction_task
        (record p { global = some (record h { tx = tx }); thread = t; writer_join = false })

  -- `join`, then what follows: `none` if the thread has not returned after `waits` steps
  unfoldable pub close_down : ℕ → H → Ends → P → Option (Result (Unit {0}) × P)
  unfolding run_on stop_task
  close_down waits h s p =
      if p.writer_join
      then (let s' = run_on waits s in
          if has_ended s'.0 then some (ok tt, stopped h s' p) else none)
      else some (ok tt, stopped h s p)

  -- by what `GLOBAL` holds; `SHUTDOWN` is swapped
  unfoldable pub shutdown_handle : (ℕ → ℕ) → ℕ → Option H → P → Option (Result (Unit {0}) × P)
  unfolding close_down ask
  shutdown_handle busy waits none p = some (err not_initialized, p)
  shutdown_handle busy waits (some h) p =
      if h.is_shutdown
      then some (ok tt, p)
      else close_down waits (record h { is_shutdown = true }) (ask busy h.tx p.thread) p

  -- `shutdown`, where `none` is a call that still waits for the thread. Its last `persist` changes
  -- nothing that the store holds.
  unfoldable pub shut_down : (ℕ → ℕ) → ℕ → P → Option (Result (Unit {0}) × P)
  unfolding shutdown_handle
  shut_down busy waits p = shutdown_handle busy waits p.global p
