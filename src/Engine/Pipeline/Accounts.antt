-- ===== src/Engine/Pipeline/Accounts.antt =====
-- What the writer and its channel hold, against what the channel accepted, in every run.
use tonggeret.Base.{
  ℕ, not, ◌≡◌, refl, sym, ap, ◌∙◌, true, some, [], if◌then◌else◌, Bool-cases, inl, inr, ◌&&◌,
  some_inj,
}
use mathlib.Core.Path.{subst}
use tonggeret.Types.{MetricEntry, PipelineMsg, metric, shutdown}
use tonggeret.Channel.{Channel}
use tonggeret.Storage.Json.{Json}
use tonggeret.Storage.Partition.{Partition}
use tonggeret.Storage.Writer.{exited, flush_batch, Writer, writer_step}
use tonggeret.Engine.{Registry, EngineHandle, record_entry}
use tonggeret.Engine.Record.{has_room, record_entry-tx, queue-send}
use tonggeret.Engine.Pipeline.{Run, begin, recorded, asked, stepped, Accepted, accept_if}
use tonggeret.Engine.Pipeline.Owed.{Owes, Accounts, Owes-send, dispatch-Accounts}

module _ {F64 : Type 0} (json : Json F64) (partition : Partition) (registry : Registry F64)
    (channel : Channel (PipelineMsg F64)) (batch_rows : ℕ) where
  open channel use {Chan, view, try_send}
  open partition use {Store}
  open registry use {Reg}

  sent-Accounts :
      (s0 : Store) (w : Writer F64 Store) (c : Chan) (acc : Accepted F64) (m : PipelineMsg F64)
      → Accounts json partition registry channel batch_rows s0 w (view c).queue acc
      → Accounts json partition registry channel batch_rows s0 w
          (view (try_send m c).1).queue
          (accept_if (has_room registry channel (view c)) m acc)
  sent-Accounts s0 w c acc m a = elim (Bool-cases (has_room registry channel (view c))) [
    | inl room ↦
        rw (queue-send registry channel m c, room)
          (record {
            done = a.done;
            stored = a.stored;
            owed =
                Owes-send json partition registry channel batch_rows w.phase w.batch a.done
                  (view c).queue w.persisted m acc a.owed;
          })
    | inr none_left ↦ rw (queue-send registry channel m c, none_left) a
  ]

  recorded-Accounts :
      (s0 : Store) (w : Writer F64 Store) (c : Chan) (acc : Accepted F64) (e : MetricEntry F64)
      (h h' : EngineHandle Chan Reg) {c' : Chan}
      → h.tx ≡ some c
      → record_entry registry channel e h ≡ some h'
      → h'.tx ≡ some c'
      → Accounts json partition registry channel batch_rows s0 w (view c).queue acc
      → Accounts json partition registry channel batch_rows s0 w
          (view c').queue
          (accept_if (not h.is_shutdown && has_room registry channel (view c)) (metric e) acc)
  recorded-Accounts s0 w c acc e h h' {c'} held returned left a =
      let after : (if h.is_shutdown then c else (try_send (metric e) c).1) ≡ c' =
        some_inj (sym (record_entry-tx registry channel e h h' c held returned) ∙ left) in
      elim (Bool-cases h.is_shutdown) [
        | inl down ↦ rw (← after, down) a
        | inr up ↦ rw (← after, up) (sent-Accounts s0 w c acc (metric e) a)
      ]

  -- However the steps interleave, the store holds a flushed prefix of the accepted entries, and the
  -- writer's batch and the channel hold the rest, in order.
  pub Run-Accounts :
      {s0 : Store} {w : Writer F64 Store} {c : Chan} {acc : Accepted F64}
      → Run json partition registry channel batch_rows s0 w c acc
      → Accounts json partition registry channel batch_rows s0 w (view c).queue acc
  unfolding flush_batch writer_step
  Run-Accounts (begin c e) = record { done = []; stored = refl; owed = (refl, rw e) }
  Run-Accounts {s0} (recorded {w = w} {c = c} {acc = acc} e h h' r held returned left) =
      recorded-Accounts s0 w c acc e h h' held returned left (Run-Accounts r)
  Run-Accounts {s0} (asked {w = w} {c = c} {acc = acc} r) =
      sent-Accounts s0 w c acc shutdown (Run-Accounts r)
  Run-Accounts {s0} (stepped {w = w} {c = c} {acc = acc} r) =
      dispatch-Accounts json partition registry channel batch_rows s0 w.phase w c acc refl
        (Run-Accounts r)

  -- When the writer has returned, whatever the interleaving was: the shutdown message was accepted;
  -- the store is what `flush_batch` makes of exactly the entries that the channel accepted before that
  -- message, in the order of acceptance; and the call that persists it has been made.
  pub exited-stored :
      {s0 : Store} {w : Writer F64 Store} {c : Chan} {acc : Accepted F64}
      → Run json partition registry channel batch_rows s0 w c acc
      → w.phase ≡ exited
      → (acc.1 ≡ true)
        × (flush_batch json partition acc.0 (s0, 0) ≡ (w.store, w.seq))
        × (w.persisted ≡ true)
  exited-stored {w = w} {c = c} {acc = acc} r at =
      let a = Run-Accounts r in
      let (e, p) : Owes json partition registry channel batch_rows exited w.batch (view c).queue
          a.done acc w.persisted =
        subst
          (λ p.
            Owes json partition registry channel batch_rows p w.batch (view c).queue a.done acc
              w.persisted)
          at a.owed in
      (ap (λ t. t.1) e, rw e a.stored, p)
