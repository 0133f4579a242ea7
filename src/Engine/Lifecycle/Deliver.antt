-- ===== src/Engine/Lifecycle/Deliver.antt =====
-- The delivery of the shutdown message: with room in the channel it is sent.
use tonggeret.Base.{
  ℕ, suc, ◌<◌, ◌≤◌, ◌≡◌, inl, inr, refl, sym, ap, ◌∙◌, true, false, Option, some, List, arith,
  length, length-append, Bool-cases,
}
use mathlib.Core.Path.{subst}
use tonggeret.Error.{Result}
use tonggeret.Types.{PipelineMsg, shutdown}
use tonggeret.Channel.{Channel, sent, full}
use tonggeret.Storage.Json.{Json}
use tonggeret.Storage.Partition.{Partition}
use tonggeret.Storage.Writer.{Writer}
use tonggeret.Engine.{Registry, EngineHandle}
use tonggeret.Engine.Record.{has_room, queue-send}
use tonggeret.Engine.Pipeline.{Run, asked, Accepted, has_shutdown, entries_before-append}
use tonggeret.Engine.Pipeline.Drain.{run_writer}
use tonggeret.Engine.Lifecycle.{Thread, State}
use tonggeret.Engine.Lifecycle.Close.{run_thread, deliver}
use tonggeret.Engine.Lifecycle.Steps.{run_writer-Run, run_writer-Shrinks, run_writer-makes_room}

module _ {F64 : Type 0} (json : Json F64) (partition : Partition) (registry : Registry F64)
    (channel : Channel (PipelineMsg F64)) (new_registry : List F64 → Result registry.Reg) where
  open channel use {Chan, view, try_send}
  open partition use {Store}
  open registry use {Reg}

  -- A process with a writer thread that has come here by a run from the store `s0`, and whose channel
  -- has accepted `acc`, with no shutdown message in it.
  pub record Serving (s0 : Store) (acc : Accepted F64) (h : EngineHandle Chan Reg) (c : Chan)
      (t : Thread F64 Store) (p : State json partition registry channel new_registry) : Type 0 where
    pub global : p.global ≡ some h
    pub up : h.is_shutdown ≡ false
    pub tx : h.tx ≡ some c
    pub thread : p.thread ≡ some t
    pub join : p.writer_join ≡ true
    pub run : Run json partition registry channel t.batch_rows s0 t.writer c acc
    pub before : acc.1 ≡ false
    pub is_open : (view c).is_open ≡ true
    pub least : 1 ≤ (view c).capacity
    pub most : length (view c).queue ≤ (view c).capacity

  outcome_room :
      (c : Chan) → has_room registry channel (view c) ≡ true → (try_send shutdown c).0 ≡ sent
  outcome_room c room = channel.send_outcome shutdown c ∙ ground arith

  pub outcome_full :
      (c : Chan)
      → (view c).is_open ≡ true
      → has_room registry channel (view c) ≡ false
      → ((try_send shutdown c).0 ≡ full) × (view (try_send shutdown c).1 ≡ view c)
  outcome_full c opened busy =
      (channel.send_outcome shutdown c ∙ ground arith, channel.view-send shutdown c ∙ ground arith)

  -- with room the message is sent at once
  deliver-room :
      (tries : ℕ) (busy : ℕ → ℕ) (t : Option (Thread F64 Store)) (c : Chan)
      → has_room registry channel (view c) ≡ true
      → deliver json partition registry channel new_registry (suc tries) busy t c
        ≡ (t, (try_send shutdown c).1)
  unfolding deliver
  deliver-room tries busy t c room = rw (outcome_room c room)

  pub deliver-full :
      (tries : ℕ) (busy : ℕ → ℕ) (t : Thread F64 Store) (c : Chan)
      → (view c).is_open ≡ true
      → has_room registry channel (view c) ≡ false
      → deliver json partition registry channel new_registry (suc tries) busy (some t) c ≡ (
          let (w, c') =
            run_writer json partition registry channel t.batch_rows
              (busy tries)
              t.writer
              (try_send shutdown c).1 in
          deliver json partition registry channel new_registry tries busy
            (some (record t { writer = w }))
            c')
  unfolding deliver run_thread
  deliver-full tries busy t c opened no_room = rw ((outcome_full c opened no_room).0)

  -- the message is in the channel, and nothing that was accepted is lost
  pub record Delivered (s0 : Store) (acc : Accepted F64) (batch_rows capacity : ℕ)
      (t : Option (Thread F64 Store)) (c : Chan) : Type 0 where
    pub writer : Writer F64 Store
    pub thread : t ≡ some (record { writer = writer; batch_rows = batch_rows })
    pub run : Run json partition registry channel batch_rows s0 writer c (acc.0, true)
    pub asked_for : has_shutdown (view c).queue ≡ true
    pub most : length (view c).queue ≤ capacity

  place :
      (c : Chan)
      → has_room registry channel (view c) ≡ true
      → length (view c).queue < (view c).capacity
  place c room = ground arith

  sent-Delivered :
      (s0 : Store) (acc : Accepted F64) (t : Thread F64 Store) (c : Chan)
      → Run json partition registry channel t.batch_rows s0 t.writer c acc
      → has_room registry channel (view c) ≡ true
      → Delivered s0 acc t.batch_rows (view c).capacity (some t) (try_send shutdown c).1
  sent-Delivered s0 acc t c r room = record {
    writer = t.writer;
    thread = refl;
    run = rw room at (asked r);
    asked_for =
        rw (queue-send registry channel shutdown c, room)
          (ap (λ x. x.1) (entries_before-append (view c).queue shutdown));
    most =
        rw (queue-send registry channel shutdown c, room)
          (rw length-append (omega (arith, place c room)));
  }

  full_view :
      (c : Chan)
      → (view c).is_open ≡ true
      → has_room registry channel (view c) ≡ false
      → (view c).capacity ≤ length (view c).queue
  full_view c opened no_room = ground arith

  room_of :
      (c : Chan)
      → (view c).is_open ≡ true
      → length (view c).queue < (view c).capacity
      → has_room registry channel (view c) ≡ true
  room_of c opened less = ground arith

  -- With room at once, or room that two steps of the thread make during the first sleep.
  pub deliver-Delivered :
      (tries : ℕ) (busy : ℕ → ℕ) (s0 : Store) (acc : Accepted F64) (t : Thread F64 Store) (c : Chan)
      → Run json partition registry channel t.batch_rows s0 t.writer c acc
      → acc.1 ≡ false
      → (view c).is_open ≡ true
      → 1 ≤ (view c).capacity
      → length (view c).queue ≤ (view c).capacity
      → 2 ≤ busy (suc tries)
      → Delivered s0 acc t.batch_rows
          (view c).capacity
          (deliver json partition registry channel new_registry (suc (suc tries)) busy (some t) c).0
          (deliver json partition registry channel new_registry (suc (suc tries)) busy (some t) c).1
  deliver-Delivered tries busy s0 acc t c r before opened least most awake =
      elim (Bool-cases (has_room registry channel (view c))) [
        | inl room ↦
            subst (λ x. Delivered s0 acc t.batch_rows (view c).capacity x.0 x.1)
              (sym (deliver-room (suc tries) busy (some t) c room))
              (sent-Delivered s0 acc t c r room)
        | inr no_room ↦
            let c0 = (try_send shutdown c).1 in
            let same = (outcome_full c opened no_room).1 in
            let r0 : Run json partition registry channel t.batch_rows s0 t.writer c0 acc =
              rw no_room at (asked r) in
            let s1 =
              run_writer json partition registry channel t.batch_rows (busy (suc tries)) t.writer
                c0 in
            let kept =
              run_writer-Shrinks json partition registry channel t.batch_rows (busy (suc tries)) r0
                before in
            let waits : 0 < length (view c0).queue =
              subst (λ v. 0 < length v.queue) (sym same)
                (omega (arith, full_view c opened no_room)) in
            let less =
              run_writer-makes_room json partition registry channel t.batch_rows (busy (suc tries))
                r0 before awake waits in
            let capacity = kept.capacity ∙ ap (λ v. v.capacity) same in
            let room =
              room_of s1.1 (kept.is_open ∙ ap (λ v. v.is_open) same ∙ opened)
                (omega (arith, less, capacity, ap (λ v. length v.queue) same)) in
            let r1 =
              run_writer-Run json partition registry channel t.batch_rows (busy (suc tries)) r0 in
            subst (λ x. Delivered s0 acc t.batch_rows (view c).capacity x.0 x.1)
              (sym (
                deliver-full (suc tries) busy t c opened no_room
                ∙ deliver-room tries busy (some (record t { writer = s1.0 })) s1.1 room))
              (subst
                (λ n.
                  Delivered s0 acc t.batch_rows n (some (record t { writer = s1.0 }))
                    (try_send shutdown s1.1).1)
                capacity (sent-Delivered s0 acc (record t { writer = s1.0 }) s1.1 r1 room))
      ]
