-- ===== src/Engine/Pipeline/Owed.antt =====
-- What the writer and its channel hold, against what the channel accepted, at each step of the writer.
use tonggeret.Base.{
  ℕ, ◌≡◌, refl, sym, ap, ◌∙◌, Bool, true, false, Option, none, some, List, [], ◌∷◌, ◌++◌,
  append_assoc, append-nil, Bool-cases, inl, inr, ltb, length,
}
use mathlib.Core.Path.{subst}
use tonggeret.Types.{MetricEntry, PipelineMsg, metric, shutdown}
use tonggeret.Channel.{Channel, View, next_of}
use tonggeret.Storage.Json.{Json}
use tonggeret.Storage.Partition.{Partition}
use tonggeret.Storage.Writer.{
  Phase, parked, draining, exited, flush_batch, Writer, flushed, on_wake, on_drain, dispatch,
}
use tonggeret.Storage.Writer.Laws.{flush_batch-append}
use tonggeret.Engine.{Registry}
use tonggeret.Engine.Pipeline.{
  entries_before, has_shutdown, accept, Accepted, entries_before-append, accept-append,
}

module _ {F64 : Type 0} where
  -- the message that a receiver takes, and what it leaves
  unfoldable pub head_of : List (PipelineMsg F64) → Option (PipelineMsg F64)
  head_of [] = none
  head_of (m ∷ ms) = some m

  unfoldable pub tail_of : List (PipelineMsg F64) → List (PipelineMsg F64)
  tail_of [] = []
  tail_of (m ∷ ms) = ms

module _ {F64 : Type 0} (json : Json F64) (partition : Partition) (registry : Registry F64)
    (channel : Channel (PipelineMsg F64)) (batch_rows : ℕ) where
  open channel use {Chan, view, try_send}
  open partition use {Store}
  open registry use {Reg}

  -- what the writer still has to store, by phase
  abbrev pub Owes :
      Phase
      → List (MetricEntry F64)
      → List (PipelineMsg F64)
      → List (MetricEntry F64)
      → Accepted F64
      → Bool
      → Type 0
  Owes parked batch queue done acc persisted =
      (batch ≡ []) × (acc ≡ (done ++ entries_before queue, has_shutdown queue))
  Owes draining batch queue done acc persisted =
      acc ≡ (done ++ (batch ++ entries_before queue), has_shutdown queue)
  Owes exited batch queue done acc persisted = (acc ≡ (done, true)) × (persisted ≡ true)

  -- The store holds what it holds after `flush_batch` of some entries, and these with the batch and
  -- the queue are what the channel accepted.
  pub record Accounts (s0 : Store) (w : Writer F64 Store) (queue : List (PipelineMsg F64))
      (acc : Accepted F64) : Type 0 where
    pub done : List (MetricEntry F64)
    pub stored : flush_batch json partition done (s0, 0) ≡ (w.store, w.seq)
    pub owed : Owes w.phase w.batch queue done acc w.persisted

  -- a message sent behind a queue, with `front` before all of it
  pub send_behind :
      (front : List (MetricEntry F64)) (queue : List (PipelineMsg F64)) (m : PipelineMsg F64)
      (acc : Accepted F64)
      → acc ≡ (front ++ entries_before queue, has_shutdown queue)
      → accept m acc ≡ (front ++ entries_before (queue ++ m ∷ []), has_shutdown (queue ++ m ∷ []))
  send_behind front queue m acc o = rw o (
      accept-append m front _ _
      ∙ ap (λ r. (front ++ r.0, r.1)) (sym (entries_before-append queue m)))

  pub Owes-send :
      (p : Phase) (batch done : List (MetricEntry F64)) (queue : List (PipelineMsg F64))
      (persisted : Bool) (m : PipelineMsg F64) (acc : Accepted F64)
      → Owes p batch queue done acc persisted
      → Owes p batch (queue ++ m ∷ []) done (accept m acc) persisted
  Owes-send parked batch done queue persisted m acc (e, o) = (e, send_behind done queue m acc o)
  Owes-send draining batch done queue persisted m acc o =
      send_behind (done ++ batch) queue m acc
        (o ∙ ap (λ l. (l, has_shutdown queue)) (sym (append_assoc done batch _)))
      ∙ ap (λ l. (l, has_shutdown (queue ++ m ∷ []))) (append_assoc done batch _)
  Owes-send exited batch done queue persisted (metric e) acc (o, p) = (rw o, p)
  Owes-send exited batch done queue persisted shutdown acc (o, p) = (rw o, p)

  module _ (s0 : Store) (w : Writer F64 Store) (done : List (MetricEntry F64)) (acc : Accepted F64)
      (stored : flush_batch json partition done (s0, 0) ≡ (w.store, w.seq)) where
    stored_flushed :
        flush_batch json partition (done ++ w.batch) (s0, 0)
        ≡ flush_batch json partition w.batch (w.store, w.seq)
    stored_flushed =
        flush_batch-append json partition done w.batch (s0, 0)
        ∙ ap (flush_batch json partition w.batch) stored

    wake-Accounts :
        (queue : List (PipelineMsg F64))
        → w.phase ≡ parked
        → Owes parked w.batch queue done acc w.persisted
        → Accounts s0
            (on_wake json partition channel batch_rows (head_of queue) w)
            (tail_of queue)
            acc
    unfolding on_wake head_of tail_of
    wake-Accounts [] at o = record {
      done = done;
      stored = stored;
      owed = subst (λ p. Owes p w.batch [] done acc w.persisted) (sym at) o;
    }
    wake-Accounts (metric e ∷ ms) at o = record { done = done; stored = stored; owed = o.1 }
    wake-Accounts (shutdown ∷ ms) at o = record {
      done = done;
      stored = stored;
      owed = (rw append-nil at o.1, refl);
    }

    drain-Accounts :
        (queue : List (PipelineMsg F64))
        → w.phase ≡ draining
        → Owes draining w.batch queue done acc w.persisted
        → Accounts s0
            (on_drain json partition channel batch_rows (head_of queue) w)
            (tail_of queue)
            acc
    unfolding on_drain head_of tail_of
    drain-Accounts [] at o = record {
      done = done ++ w.batch;
      stored = stored_flushed;
      owed = (refl, o ∙ ap (λ l. (l, false)) (sym (append_assoc done w.batch [])));
    }
    drain-Accounts (metric e ∷ ms) at o = record {
      done = done;
      stored = stored;
      owed =
          subst (λ p. Owes p (w.batch ++ e ∷ []) ms done acc w.persisted) (sym at)
            (rw append_assoc o);
    }
    drain-Accounts (shutdown ∷ ms) at o = record {
      done = done ++ w.batch;
      stored = stored_flushed;
      owed = (rw append-nil at o, refl);
    }

    full-Accounts :
        (queue : List (PipelineMsg F64))
        → Owes draining w.batch queue done acc w.persisted
        → Accounts s0 (flushed json partition channel batch_rows parked w) queue acc
    full-Accounts queue o = record {
      done = done ++ w.batch;
      stored = stored_flushed;
      owed = (refl, o ∙ ap (λ l. (l, has_shutdown queue)) (sym (append_assoc done w.batch _)));
    }

  pub head_of-next :
      (v : View (PipelineMsg F64)) (q : List (PipelineMsg F64)) → (next_of v q).0 ≡ head_of q
  unfolding head_of
  head_of-next v [] = refl
  head_of-next v (m ∷ ms) = refl

  pub tail_of-next :
      (v : View (PipelineMsg F64)) (q : List (PipelineMsg F64))
      → v.queue ≡ q
      → (next_of v q).1.queue ≡ tail_of q
  unfolding tail_of
  tail_of-next v [] e = e
  tail_of-next v (m ∷ ms) e = refl

  pub received : (c : Chan) → (channel.try_recv c).0 ≡ head_of (view c).queue
  received c = channel.recv_outcome c ∙ head_of-next (view c) (view c).queue

  pub left_behind : (c : Chan) → (view (channel.try_recv c).1).queue ≡ tail_of (view c).queue
  left_behind c = rw (channel.view-recv c) (tail_of-next (view c) (view c).queue refl)

  pub dispatch-Accounts :
      (s0 : Store) (p : Phase) (w : Writer F64 Store) (c : Chan) (acc : Accepted F64)
      → w.phase ≡ p
      → Accounts s0 w (view c).queue acc
      → Accounts s0
          (dispatch json partition channel batch_rows p w c).0
          (view (dispatch json partition channel batch_rows p w c).1).queue
          acc
  unfolding dispatch
  dispatch-Accounts s0 parked w c acc at a =
      rw (received c, left_behind c)
        (wake-Accounts s0 w a.done acc a.stored (view c).queue at
          (subst (λ p. Owes p w.batch (view c).queue a.done acc w.persisted) at a.owed))
  dispatch-Accounts s0 draining w c acc at a =
      let o : Owes draining w.batch (view c).queue a.done acc w.persisted =
        subst (λ p. Owes p w.batch (view c).queue a.done acc w.persisted) at a.owed in
      elim (Bool-cases (ltb (length w.batch) batch_rows)) [
        | inl more ↦
            rw (more, received c, left_behind c)
              (drain-Accounts s0 w a.done acc a.stored (view c).queue at o)
        | inr full ↦ rw full (full-Accounts s0 w a.done acc a.stored (view c).queue o)
      ]
  dispatch-Accounts s0 exited w c acc at a = record {
    done = a.done;
    stored = a.stored;
    owed =
        subst (λ p. Owes p w.batch (view (channel.close c)).queue a.done acc w.persisted) (sym at)
          (subst (λ p. Owes p w.batch (view c).queue a.done acc w.persisted) at a.owed);
  }
