-- ===== src/Engine/Lifecycle/Steps.antt =====
-- What the steps of the writer thread do to its channel before the shutdown message is accepted.
use tonggeret.Base.{
  ℕ, zero, suc, ◌+◌, ◌*◌, ◌<◌, ◌≤◌, ◌≡◌, ◌≢◌, ◌⊎◌, inl, inr, refl, sym, ap, ◌∙◌, false, List, [],
  ◌∷◌, arith, ltb, length, Bool-cases,
}
use mathlib.Core.Path.{subst}
use tonggeret.Types.{PipelineMsg}
use tonggeret.Channel.{Channel, View, next_of}
use tonggeret.Storage.Json.{Json}
use tonggeret.Storage.Partition.{Partition}
use tonggeret.Storage.Writer.{
  Phase, parked, draining, exited, Writer, on_wake, on_drain, dispatch, writer_step,
}
use tonggeret.Engine.{Registry}
use tonggeret.Engine.Pipeline.{Run, stepped, Accepted}
use tonggeret.Engine.Pipeline.Accounts.{exited-stored}
use tonggeret.Engine.Pipeline.Drain.{run_writer, phase_cost, phase_cost-le}

module _ {F64 : Type 0} (json : Json F64) (partition : Partition) (registry : Registry F64)
    (channel : Channel (PipelineMsg F64)) (batch_rows : ℕ) where
  open channel use {Chan, view, try_recv}
  open partition use {Store}

  -- the writer's own steps stay on a run
  pub run_writer-Run :
      (n : ℕ) {s0 : Store} {w : Writer F64 Store} {c : Chan} {acc : Accepted F64}
      → Run json partition registry channel batch_rows s0 w c acc
      → Run json partition registry channel batch_rows s0
          (run_writer json partition registry channel batch_rows n w c).0
          (run_writer json partition registry channel batch_rows n w c).1
          acc
  unfolding run_writer
  run_writer-Run zero r = r
  run_writer-Run (suc n) r = run_writer-Run n (stepped r)

  -- the writer does not return before the shutdown message is accepted
  pub running_before :
      {s0 : Store} {w : Writer F64 Store} {c : Chan} {acc : Accepted F64}
      → Run json partition registry channel batch_rows s0 w c acc
      → acc.1 ≡ false
      → w.phase ≢ exited
  running_before r before at =
      let (ended, stored, persisted) =
        exited-stored json partition registry channel batch_rows r at in
      cc (ended, before)

  -- What a step leaves of a channel: its capacity and its receiver, and no more messages; fewer steps
  -- are due if there was a message.
  pub record Falls (v : View (PipelineMsg F64)) (p : Phase) (v' : View (PipelineMsg F64))
      (p' : Phase) : Type 0 where
    pub capacity : v'.capacity ≡ v.capacity
    pub is_open : v'.is_open ≡ v.is_open
    pub fewer : length v'.queue ≤ length v.queue
    pub due :
        0 < length v.queue
        → (p' ≡ exited) ⊎ (2 * length v'.queue + phase_cost p' < 2 * length v.queue + phase_cost p)

  took :
      (v : View (PipelineMsg F64)) (p p' : Phase) (m : PipelineMsg F64) (q : List (PipelineMsg F64))
      → v.queue ≡ m ∷ q
      → Falls v p (record v { queue = q }) p'
  took v p p' m q e = record {
    capacity = refl;
    is_open = refl;
    fewer = omega (arith, ap length e);
    due = λ _. inr (omega (arith, ap length e, phase_cost-le p'));
  }

  had_none : (v : View (PipelineMsg F64)) (p p' : Phase) → v.queue ≡ [] → Falls v p v p'
  had_none v p p' e = record {
    capacity = refl;
    is_open = refl;
    fewer = omega arith;
    due = λ h. absurd (omega (arith, ap length e));
  }

  received-Falls :
      (q : List (PipelineMsg F64)) (v : View (PipelineMsg F64)) (p p' : Phase)
      → v.queue ≡ q
      → Falls v p (next_of v q).1 p'
  received-Falls [] v p p' e = had_none v p p' e
  received-Falls (m ∷ q) v p p' e = took v p p' m q e

  dispatch-Falls :
      (p : Phase) (w : Writer F64 Store) (c : Chan)
      → w.phase ≡ p
      → p ≢ exited
      → Falls
          (view c)
          p
          (view (dispatch json partition channel batch_rows p w c).1)
          (dispatch json partition channel batch_rows p w c).0.phase
  unfolding dispatch
  dispatch-Falls parked w c at runs =
      subst
        (λ v.
          Falls (view c) parked v
            (on_wake json partition channel batch_rows (try_recv c).0 w).phase)
        (sym (channel.view-recv c)) (received-Falls (view c).queue (view c) parked _ refl)
  dispatch-Falls draining w c at runs = elim (Bool-cases (ltb (length w.batch) batch_rows)) [
    | inl more ↦ rw more (
        subst
          (λ v.
            Falls (view c) draining v
              (on_drain json partition channel batch_rows (try_recv c).0 w).phase)
          (sym (channel.view-recv c)) (received-Falls (view c).queue (view c) draining _ refl))
    | inr full ↦ rw full (record {
      capacity = refl;
      is_open = refl;
      fewer = omega arith;
      due = λ _. inr (omega arith);
    })
  ]
  dispatch-Falls exited w c at runs = absurd (runs refl)

  pub writer_step-Falls :
      (w : Writer F64 Store) (c : Chan)
      → w.phase ≢ exited
      → Falls
          (view c)
          w.phase
          (view (writer_step json partition channel batch_rows w c).1)
          (writer_step json partition channel batch_rows w c).0.phase
  unfolding writer_step
  writer_step-Falls w c runs = dispatch-Falls w.phase w c refl runs

  -- the steps of a writer that does not return keep the receiver and add no message
  pub record Shrinks (v v' : View (PipelineMsg F64)) : Type 0 where
    pub capacity : v'.capacity ≡ v.capacity
    pub is_open : v'.is_open ≡ v.is_open
    pub fewer : length v'.queue ≤ length v.queue

  pub run_writer-Shrinks :
      (n : ℕ) {s0 : Store} {w : Writer F64 Store} {c : Chan} {acc : Accepted F64}
      → Run json partition registry channel batch_rows s0 w c acc
      → acc.1 ≡ false
      → Shrinks (view c) (view (run_writer json partition registry channel batch_rows n w c).1)
  unfolding run_writer
  run_writer-Shrinks zero r before = record { capacity = refl; is_open = refl; fewer = omega arith }
  run_writer-Shrinks (suc n) {w = w} {c = c} r before =
      let f = writer_step-Falls w c (running_before r before) in
      let g = run_writer-Shrinks n (stepped r) before in
      record {
        capacity = g.capacity ∙ f.capacity;
        is_open = g.is_open ∙ f.is_open;
        fewer = omega (arith, f.fewer, g.fewer);
      }

  progress :
      (v v' : View (PipelineMsg F64)) (p p' : Phase)
      → Falls v p v' p'
      → p' ≢ exited
      → (length v.queue ≡ 0)
        ⊎ (2 * length v'.queue + phase_cost p' < 2 * length v.queue + phase_cost p)
  progress v v' p p' f runs = elim (Bool-cases (ltb 0 (length v.queue))) [
    | inl waits ↦ elim (f.due (ground arith)) [ inl at ↦ absurd (runs at) | inr less ↦ inr less ]
    | inr idle ↦ inl (ground arith)
  ]

  -- after two steps or more there are fewer messages, if there was one
  pub run_writer-makes_room :
      (n : ℕ) {s0 : Store} {w : Writer F64 Store} {c : Chan} {acc : Accepted F64}
      → Run json partition registry channel batch_rows s0 w c acc
      → acc.1 ≡ false
      → 2 ≤ n
      → 0 < length (view c).queue
      → length (view (run_writer json partition registry channel batch_rows n w c).1).queue
        < length (view c).queue
  unfolding run_writer
  run_writer-makes_room zero r before two some_wait = absurd (omega arith)
  run_writer-makes_room (suc zero) r before two some_wait = absurd (omega arith)
  run_writer-makes_room (suc (suc n)) {w = w} {c = c} r before two some_wait =
      let r1 = stepped r in
      let r2 = stepped r1 in
      let s1 = writer_step json partition channel batch_rows w c in
      let s2 = writer_step json partition channel batch_rows s1.0 s1.1 in
      let f = writer_step-Falls w c (running_before r before) in
      let g = writer_step-Falls s1.0 s1.1 (running_before r1 before) in
      let later = run_writer-Shrinks n r2 before in
      let cost = phase_cost-le w.phase in
      elim (progress (view c) (view s1.1) w.phase s1.0.phase f (running_before r1 before)) [
        | inl idle ↦ absurd (omega arith)
        | inr first ↦
            elim (progress (view s1.1) (view s2.1) s1.0.phase s2.0.phase g
              (running_before r2 before)) [
                | inl idle ↦ omega (arith, later.fewer, g.fewer)
                | inr second ↦ omega (arith, later.fewer)
              ]
      ]
