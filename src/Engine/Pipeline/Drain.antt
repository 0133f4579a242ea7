-- ===== src/Engine/Pipeline/Drain.antt =====
-- The writer alone, from any state with a shutdown message in its channel, comes to its end.
use tonggeret.Base.{
  ℕ, zero, suc, ◌+◌, ◌*◌, ◌<◌, ◌≤◌, ◌⊎◌, ◌≡◌, refl, sym, ap, true, List, [], ◌∷◌, arith, Bool-cases,
  inl, inr, ltb, length,
}
use mathlib.Core.Path.{subst}
use tonggeret.Types.{PipelineMsg, metric, shutdown}
use tonggeret.Channel.{Channel}
use tonggeret.Storage.Json.{Json}
use tonggeret.Storage.Partition.{Partition}
use tonggeret.Storage.Writer.{
  Phase, parked, draining, exited, Writer, on_wake, on_drain, dispatch, writer_step,
}
use tonggeret.Engine.{Registry}
use tonggeret.Engine.Pipeline.{has_shutdown}
use tonggeret.Engine.Pipeline.Owed.{head_of, tail_of, received, left_behind}

-- one more step is due before the next message, if the writer must first flush
abbrev pub phase_cost : Phase → ℕ
phase_cost parked = 0
phase_cost draining = 1
phase_cost exited = 0

pub phase_cost-le : (p : Phase) → phase_cost p ≤ 1
phase_cost-le p = ground arith

not_nil :
    {F64 : Type 0} (queue : List (PipelineMsg F64)) → has_shutdown queue ≡ true → 0 < length queue
not_nil [] h = cc
not_nil (m ∷ ms) h = omega arith

module _ {F64 : Type 0} (json : Json F64) (partition : Partition) (registry : Registry F64)
    (channel : Channel (PipelineMsg F64)) (batch_rows : ℕ) where
  open channel use {Chan, view}
  open partition use {Store}

  -- the writer's steps, `fuel` of them, with no other thread in between
  unfoldable pub run_writer : ℕ → Writer F64 Store → Chan → Writer F64 Store × Chan
  run_writer zero w c = (w, c)
  run_writer (suc fuel) w c =
      let (w', c') = writer_step json partition channel batch_rows w c in run_writer fuel w' c'

  step_exited :
      (w : Writer F64 Store) (c : Chan)
      → w.phase ≡ exited
      → writer_step json partition channel batch_rows w c ≡ (w, channel.close c)
  unfolding writer_step dispatch
  step_exited w c e = ap (λ p. dispatch json partition channel batch_rows p w c) e

  exited_stays :
      (fuel : ℕ) (w : Writer F64 Store) (c : Chan)
      → w.phase ≡ exited
      → (run_writer fuel w c).0.phase ≡ exited
  unfolding run_writer
  exited_stays zero w c e = e
  exited_stays (suc fuel) w c e =
      subst (λ r. (run_writer fuel r.0 r.1).0.phase ≡ exited) (sym (step_exited w c e))
        (exited_stays fuel w (channel.close c) e)

  -- What a step leaves, for a queue that holds a shutdown message: the writer has returned, or fewer
  -- steps are due and the message is still there.
  abbrev IsCloser : ℕ → Writer F64 Store → List (PipelineMsg F64) → Type 0
  IsCloser cost w queue =
      (w.phase ≡ exited)
      ⊎ (2 * length queue + phase_cost w.phase < cost) × (has_shutdown queue ≡ true)

  wake-IsCloser :
      (queue : List (PipelineMsg F64)) (w : Writer F64 Store)
      → has_shutdown queue ≡ true
      → IsCloser
          (2 * length queue + 0)
          (on_wake json partition channel batch_rows (head_of queue) w)
          (tail_of queue)
  unfolding on_wake head_of tail_of
  wake-IsCloser [] w h = cc
  wake-IsCloser (metric e ∷ ms) w h = inr (omega arith, h)
  wake-IsCloser (shutdown ∷ ms) w h = inl refl

  drain-IsCloser :
      (queue : List (PipelineMsg F64)) (w : Writer F64 Store)
      → w.phase ≡ draining
      → has_shutdown queue ≡ true
      → IsCloser
          (2 * length queue + 1)
          (on_drain json partition channel batch_rows (head_of queue) w)
          (tail_of queue)
  unfolding on_drain head_of tail_of
  drain-IsCloser [] w at h = cc
  drain-IsCloser (metric e ∷ ms) w at h = inr (omega (arith, ap phase_cost at), h)
  drain-IsCloser (shutdown ∷ ms) w at h = inl refl

  step-IsCloser :
      (p : Phase) (w : Writer F64 Store) (c : Chan)
      → w.phase ≡ p
      → has_shutdown (view c).queue ≡ true
      → IsCloser
          (2 * length (view c).queue + phase_cost p)
          (dispatch json partition channel batch_rows p w c).0
          (view (dispatch json partition channel batch_rows p w c).1).queue
  unfolding dispatch
  step-IsCloser parked w c at h =
      rw
        (
          received json partition registry channel batch_rows c,
          left_behind json partition registry channel batch_rows c,
        )
        (wake-IsCloser (view c).queue w h)
  step-IsCloser draining w c at h = elim (Bool-cases (ltb (length w.batch) batch_rows)) [
    | inl more ↦
        rw
          (
            more,
            received json partition registry channel batch_rows c,
            left_behind json partition registry channel batch_rows c,
          )
          (drain-IsCloser (view c).queue w at h)
    | inr full ↦ rw full (inr (omega arith, h))
  ]
  step-IsCloser exited w c at h = inl at

  run-exited :
      (fuel : ℕ) (w : Writer F64 Store) (c : Chan)
      → has_shutdown (view c).queue ≡ true
      → 2 * length (view c).queue + phase_cost w.phase ≤ fuel
      → (run_writer fuel w c).0.phase ≡ exited
  unfolding run_writer writer_step
  run-exited zero w c h enough = absurd (omega (arith, not_nil (view c).queue h))
  run-exited (suc fuel) w c h enough = elim (step-IsCloser w.phase w c refl h) [
    | inl done ↦ exited_stays fuel _ _ done
    | inr (closer, h') ↦ run-exited fuel _ _ h' (omega arith)
  ]

  -- With a shutdown message in the channel, two steps for each message there and one more bring the
  -- writer to its end, wherever it stands and whatever `batch_rows` is.
  pub run_writer-exited :
      (fuel : ℕ) (w : Writer F64 Store) (c : Chan)
      → has_shutdown (view c).queue ≡ true
      → 2 * length (view c).queue + 1 ≤ fuel
      → (run_writer fuel w c).0.phase ≡ exited
  run_writer-exited fuel w c h enough = run-exited fuel w c h (omega (arith, phase_cost-le w.phase))
