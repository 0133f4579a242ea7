-- ===== src/Engine/Lifecycle/Hang.antt =====
-- Where `shutdown` never returns: its message is never sent, and it joins the thread all the same.
use tonggeret.Base.{
  ℕ, zero, suc, ◌≡◌, ◌≢◌, refl, ap, ◌∙◌, true, false, Option, none, some, List, arith, length,
}
use tonggeret.Error.{Result}
use tonggeret.Types.{PipelineMsg, shutdown}
use tonggeret.Channel.{Channel}
use tonggeret.Storage.Json.{Json}
use tonggeret.Storage.Partition.{Partition}
use tonggeret.Storage.Writer.{Phase, parked, draining, exited, Writer}
use tonggeret.Engine.{Registry, EngineHandle}
use tonggeret.Engine.Record.{has_room}
use tonggeret.Engine.Pipeline.{Run, asked, Accepted}
use tonggeret.Engine.Pipeline.Drain.{run_writer}
use tonggeret.Engine.Lifecycle.{Thread, State}
use tonggeret.Engine.Lifecycle.Close.{
  run_thread, deliver, run_on, close_down, shut_down, has_ended, is_exited,
}
use tonggeret.Engine.Lifecycle.Steps.{run_writer-Run, running_before}
use tonggeret.Engine.Lifecycle.Deliver.{Serving, outcome_full, deliver-full}
use tonggeret.Engine.Lifecycle.Shutdown.{shut_down-up, ask_lem}

goes_on : (p : Phase) → p ≢ exited → is_exited p ≡ false
goes_on parked h = refl
goes_on draining h = refl
goes_on exited h = absurd (h refl)

module _ {F64 : Type 0} (json : Json F64) (partition : Partition) (registry : Registry F64)
    (channel : Channel (PipelineMsg F64)) (new_registry : List F64 → Result registry.Reg) where
  open channel use {Chan, view, try_send}
  open partition use {Store}
  open registry use {Reg}

  no_step :
      (batch_rows : ℕ) (w : Writer F64 Store) (c : Chan)
      → run_writer json partition registry channel batch_rows 0 w c ≡ (w, c)
  unfolding run_writer
  no_step batch_rows w c = refl

  no_place_left :
      (c : Chan)
      → length (view c).queue ≡ (view c).capacity
      → has_room registry channel (view c) ≡ false
  no_place_left c e = ground arith

  -- no try succeeds, and the thread is where it was
  deliver-stuck :
      (tries : ℕ) (busy : ℕ → ℕ) (s0 : Store) (acc : Accepted F64) (t : Thread F64 Store) (c : Chan)
      → ((k : ℕ) → busy k ≡ 0)
      → Run json partition registry channel t.batch_rows s0 t.writer c acc
      → (view c).is_open ≡ true
      → has_room registry channel (view c) ≡ false
      → (c' : Chan) × (deliver json partition registry channel new_registry tries busy (some t) c
          ≡ (some t, c'))
        × Run json partition registry channel t.batch_rows s0 t.writer c' acc
  deliver-stuck zero busy s0 acc t c idle r opened no_room = (c, unfold deliver in refl, r)
  deliver-stuck (suc tries) busy s0 acc t c idle r opened no_room =
      let c0 = (try_send shutdown c).1 in
      let same = (outcome_full json partition registry channel new_registry c opened no_room).1 in
      let (c', done, r') =
        deliver-stuck tries busy s0 acc t c0 idle (rw no_room at (asked r))
          (ap (λ v. v.is_open) same ∙ opened) (ap (has_room registry channel) same ∙ no_room) in
      (
        c',
        deliver-full json partition registry channel new_registry tries busy t c opened no_room
            ∙ ap
                (λ n.
                  let s = run_writer json partition registry channel t.batch_rows n t.writer c0 in
                  deliver json partition registry channel new_registry tries busy
                    (some (record t { writer = s.0 })) s.1)
                (idle tries)
            ∙ ap
                (λ s.
                  deliver json partition registry channel new_registry tries busy
                    (some (record t { writer = s.0 })) s.1)
                (no_step t.batch_rows t.writer c0)
            ∙ done,
        r',
      )

  run_on-waits :
      (waits : ℕ) (s0 : Store) (acc : Accepted F64) (t : Thread F64 Store) (c : Chan)
      → Run json partition registry channel t.batch_rows s0 t.writer c acc
      → acc.1 ≡ false
      → has_ended json partition registry channel new_registry
          (run_on json partition registry channel new_registry waits (some t, some c)).0
        ≡ false
  unfolding run_on run_thread
  run_on-waits waits s0 acc t c r before = goes_on _ (
      running_before json partition registry channel t.batch_rows
        (run_writer-Run json partition registry channel t.batch_rows waits r) before)

  close_down-waits :
      (waits : ℕ) (h : EngineHandle Chan Reg) (s : Option (Thread F64 Store) × Option Chan)
      (p : State json partition registry channel new_registry)
      → p.writer_join ≡ true
      → has_ended json partition registry channel new_registry
          (run_on json partition registry channel new_registry waits s).0
        ≡ false
      → close_down json partition registry channel new_registry waits h s p ≡ none
  unfolding close_down
  close_down-waits waits h s p join ended = rw (join, ended)

  -- On a process that serves, with a full channel, if the thread takes no step while the call sleeps,
  -- `shutdown` does not return, however many steps the thread takes afterwards.
  pub shut_down-hangs :
      (busy : ℕ → ℕ) (waits : ℕ) (s0 : Store) (acc : Accepted F64) (h : EngineHandle Chan Reg)
      (c : Chan) (t : Thread F64 Store) (p : State json partition registry channel new_registry)
      → Serving json partition registry channel new_registry s0 acc h c t p
      → length (view c).queue ≡ (view c).capacity
      → ((k : ℕ) → busy k ≡ 0)
      → shut_down json partition registry channel new_registry busy waits p ≡ none
  shut_down-hangs busy waits s0 acc h c t p v no_place idle =
      let (c', stuck, r) =
        deliver-stuck 100 busy s0 acc t c idle v.run v.is_open (no_place_left c no_place) in
      let down = record h { is_shutdown = true } in
      shut_down-up json partition registry channel new_registry busy waits h p v.global v.up
      ∙ ap (λ x. close_down json partition registry channel new_registry waits down x p)
          (ask_lem json partition registry channel new_registry busy h c t p.thread v.tx v.thread
            ∙ ap (λ x. (x.0, some x.1)) stuck)
      ∙ close_down-waits waits down (some t, some c') p v.join
          (run_on-waits waits s0 acc t c' r v.before)
