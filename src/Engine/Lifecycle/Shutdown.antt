-- ===== src/Engine/Lifecycle/Shutdown.antt =====
-- What `shutdown` achieves: every accepted entry is stored, if the writer thread makes progress while
-- the call sleeps.
use tonggeret.Base.{
  ℕ, ◌+◌, ◌*◌, ◌≤◌, ◌≡◌, refl, sym, ap, ◌∙◌, true, false, Option, none, some, List, arith,
}
use mathlib.Core.Path.{subst}
use tonggeret.Error.{Result, ok}
use tonggeret.Types.{PipelineMsg}
use tonggeret.Channel.{Channel}
use tonggeret.Storage.Json.{Json}
use tonggeret.Storage.Partition.{Partition}
use tonggeret.Storage.Writer.{exited, flush_batch}
use tonggeret.Engine.{Registry, EngineHandle}
use tonggeret.Engine.Pipeline.{Accepted}
use tonggeret.Engine.Pipeline.Accounts.{exited-stored}
use tonggeret.Engine.Pipeline.Drain.{run_writer, run_writer-exited}
use tonggeret.Engine.Lifecycle.{Thread, State}
use tonggeret.Engine.Lifecycle.Close.{
  run_thread, deliver, ask, run_on, close_down, shutdown_handle, shut_down, stop_task, has_ended,
  is_exited, stopped,
}
use tonggeret.Engine.Lifecycle.Steps.{run_writer-Run}
use tonggeret.Engine.Lifecycle.Deliver.{Serving, Delivered, deliver-Delivered}

module _ {F64 : Type 0} (json : Json F64) (partition : Partition) (registry : Registry F64)
    (channel : Channel (PipelineMsg F64)) (new_registry : List F64 → Result registry.Reg) where
  open channel use {Chan, view, try_send}
  open partition use {Store}
  open registry use {Reg}

  -- The thread has returned; the store is what `flush_batch` makes of the accepted entries, in order, and
  -- it has been persisted.
  abbrev pub IsStored : Store → Accepted F64 → Option (Thread F64 Store) → Type 0
  IsStored s0 acc none = ⊥
  IsStored s0 acc (some t) =
      (t.writer.phase ≡ exited)
      × (flush_batch json partition acc.0 (s0, 0) ≡ (t.writer.store, t.writer.seq))
      × (t.writer.persisted ≡ true)

  run_on-IsStored :
      (waits : ℕ) (s0 : Store) (acc : Accepted F64) (batch_rows capacity : ℕ)
      (t : Option (Thread F64 Store)) (c : Chan)
      → Delivered json partition registry channel new_registry s0 acc batch_rows capacity t c
      → 2 * capacity + 1 ≤ waits
      → (has_ended json partition registry channel new_registry
            (run_on json partition registry channel new_registry waits (t, some c)).0
          ≡ true)
        × IsStored s0 acc (run_on json partition registry channel new_registry waits (t, some c)).0
  unfolding run_on run_thread
  run_on-IsStored waits s0 acc batch_rows capacity t c d enough =
      let s = run_writer json partition registry channel batch_rows waits d.writer c in
      let at =
        run_writer-exited json partition registry channel batch_rows waits d.writer c d.asked_for
          (omega (arith, d.most)) in
      let (ended, stored, persisted) =
        exited-stored json partition registry channel batch_rows
          (run_writer-Run json partition registry channel batch_rows waits d.run) at in
      subst
        (λ x.
          (has_ended json partition registry channel new_registry
              (run_thread json partition registry channel new_registry waits x c).0
            ≡ true)
          × IsStored s0 acc (run_thread json partition registry channel new_registry waits x c).0)
        (sym d.thread) (ap is_exited at, (at, stored, persisted))

  stop_task_keeps :
      (task : Option ℕ) (p : State json partition registry channel new_registry)
      → ((stop_task json partition registry channel new_registry task p).thread ≡ p.thread)
        × ((stop_task json partition registry channel new_registry task p).writer_join
            ≡ p.writer_join)
  unfolding stop_task
  stop_task_keeps none p = (refl, refl)
  stop_task_keeps (some t) p = (refl, refl)

  pub shut_down-up :
      (busy : ℕ → ℕ) (waits : ℕ) (h : EngineHandle Chan Reg)
      (p : State json partition registry channel new_registry)
      → p.global ≡ some h
      → h.is_shutdown ≡ false
      → shut_down json partition registry channel new_registry busy waits p
        ≡ close_down json partition registry channel new_registry waits
            (record h { is_shutdown = true })
            (ask json partition registry channel new_registry busy h.tx p.thread)
            p
  unfolding shut_down
  shut_down-up busy waits h p global up =
      ap (λ g. shutdown_handle json partition registry channel new_registry busy waits g p) global
      ∙ (unfold shutdown_handle in rw up)

  pub ask_lem :
      (busy : ℕ → ℕ) (h : EngineHandle Chan Reg) (c : Chan) (t : Thread F64 Store)
      (o : Option (Thread F64 Store))
      → h.tx ≡ some c
      → o ≡ some t
      → ask json partition registry channel new_registry busy h.tx o ≡ (
        (deliver json partition registry channel new_registry 100 busy (some t) c).0,
        some (deliver json partition registry channel new_registry 100 busy (some t) c).1,
      )
  unfolding ask
  ask_lem busy h c t o tx thread =
      ap (λ x. ask json partition registry channel new_registry busy x o) tx
      ∙ ap (λ x. ask json partition registry channel new_registry busy (some c) x) thread

  close_down-ended :
      (waits : ℕ) (h : EngineHandle Chan Reg) (s : Option (Thread F64 Store) × Option Chan)
      (p : State json partition registry channel new_registry)
      → p.writer_join ≡ true
      → has_ended json partition registry channel new_registry
          (run_on json partition registry channel new_registry waits s).0
        ≡ true
      → close_down json partition registry channel new_registry waits h s p
        ≡ some (
          ok tt,
          stopped json partition registry channel new_registry h
              (run_on json partition registry channel new_registry waits s)
              p,
        )
  unfolding close_down
  close_down-ended waits h s p join ended = rw (join, ended)

  -- On a process that serves, if the thread takes two steps or more while the call first sleeps, and
  -- then two for each place of the channel and one more: `shutdown` returns without an error, the writer
  -- thread has returned, and the store holds exactly the entries that were accepted, stored in their
  -- order and persisted.
  pub shut_down-stores :
      (busy : ℕ → ℕ) (waits : ℕ) (s0 : Store) (acc : Accepted F64) (h : EngineHandle Chan Reg)
      (c : Chan) (t : Thread F64 Store) (p : State json partition registry channel new_registry)
      → Serving json partition registry channel new_registry s0 acc h c t p
      → 2 ≤ busy 99
      → 2 * (view c).capacity + 1 ≤ waits
      → (p' : State json partition registry channel new_registry) × (shut_down json partition
            registry channel new_registry busy waits p
          ≡ some (ok tt, p'))
        × IsStored s0 acc p'.thread
        × (p'.writer_join ≡ false)
  shut_down-stores busy waits s0 acc h c t p v awake enough =
      let sent_it =
        deliver-Delivered json partition registry channel new_registry 98 busy s0 acc t c v.run
          v.before v.is_open v.least v.most awake in
      let d = deliver json partition registry channel new_registry 100 busy (some t) c in
      let (ended, stored) =
        run_on-IsStored waits s0 acc t.batch_rows (view c).capacity d.0 d.1 sent_it enough in
      let s = run_on json partition registry channel new_registry waits (d.0, some d.1) in
      let down = record h { is_shutdown = true } in
      let (kept, joined) = stop_task_keeps p.compaction_task (record p {
        global = some (record down { tx = s.1 });
        thread = s.0;
        writer_join = false;
      }) in
      (
        stopped json partition registry channel new_registry down s p,
        shut_down-up busy waits h p v.global v.up
            ∙ ap (λ x. close_down json partition registry channel new_registry waits down x p)
                (ask_lem busy h c t p.thread v.tx v.thread)
            ∙ close_down-ended waits down (d.0, some d.1) p v.join ended,
        subst (IsStored s0 acc) (sym kept) stored,
        joined,
      )
