-- ===== src/Engine/Lifecycle/Reach.antt =====
-- The processes that come of a first `init` while no compaction loop is started: callers record and the
-- writer thread takes steps, in any order. Each of them serves.
use mathlib.Core.Path.{subst}
use tonggeret.Base.{
  ℕ, ◌≤◌, ◌≡◌, refl, sym, ap, ◌∙◌, Bool, true, false, not, ◌&&◌, Option, some, List, [], ◌∷◌,
  length, length-append, arith, some_inj,
}
use tonggeret.Error.{Result, ok}
use tonggeret.Types.{PipelineMsg, MetricEntry, metric}
use tonggeret.Config.{Config}
use tonggeret.Channel.{Channel}
use tonggeret.Storage.Json.{Json}
use tonggeret.Storage.Partition.{Partition}
use tonggeret.Engine.{Registry, EngineHandle, record_entry}
use tonggeret.Engine.Record.{has_room, record_entry-tx, record_entry-up}
use tonggeret.Engine.Pipeline.{recorded, Accepted, accept_if}
use tonggeret.Engine.Pipeline.Drain.{run_writer}
use tonggeret.Engine.Lifecycle.{Env, Thread, State, fresh, init}
use tonggeret.Engine.Lifecycle.Steps.{run_writer-Run, run_writer-Shrinks}
use tonggeret.Engine.Lifecycle.Deliver.{Serving}
use tonggeret.Engine.Lifecycle.Start.{full_build}

module _ {F64 : Type 0} (json : Json F64) (partition : Partition) (registry : Registry F64)
    (channel : Channel (PipelineMsg F64)) (new_registry : List F64 → Result registry.Reg) where
  open channel use {Chan, view, try_send}
  open partition use {Store}
  open registry use {Reg}

  abbrev P : Type 0
  P = State json partition registry channel new_registry

  -- A process after a first `init`, and what its channel has accepted. No step starts a compaction loop
  -- or is a pass of one, so that this is what a process does if `init` has started none, which is where
  -- `running` is empty. A caller of `record` that panics in the registry leaves no process here.
  pub data Reach (env : Env Store) (c : Config F64) : P → Accepted F64 → Type 0 where
    begun :
        {p : P}
        → init json partition registry channel new_registry full_build env c
            (fresh json partition registry channel new_registry)
          ≡ (ok tt, p)
        → Reach env c p ([], false)
    records :
        {p : P} {acc : Accepted F64} (e : MetricEntry F64) (h h' : EngineHandle Chan Reg)
        (ch : Chan)
        → Reach env c p acc
        → p.global ≡ some h
        → h.tx ≡ some ch
        → record_entry registry channel e h ≡ some h'
        → Reach env c
            (record p { global = some h' })
            (accept_if (not h.is_shutdown && has_room registry channel (view ch)) (metric e) acc)
    writes :
        {p : P} {acc : Accepted F64} (n : ℕ) (h : EngineHandle Chan Reg) (ch : Chan)
        (t : Thread F64 Store)
        → Reach env c p acc
        → p.global ≡ some h
        → h.tx ≡ some ch
        → p.thread ≡ some t
        → Reach env c
            (record p {
              global = some (record h {
                tx = some (run_writer json partition registry channel t.batch_rows n t.writer ch).1;
              });
              thread = some (record t {
                writer = (run_writer json partition registry channel t.batch_rows n t.writer ch).0;
              });
            })
            acc

  -- the process serves with some handle, channel and thread
  pub record Serves (s0 : Store) (acc : Accepted F64) (capacity : ℕ) (p : P) : Type 0 where
    pub handle : EngineHandle Chan Reg
    pub chan : Chan
    pub thread : Thread F64 Store
    pub serving : Serving json partition registry channel new_registry s0 acc handle chan thread p
    pub capacity_is : (view chan).capacity ≡ capacity

  pub some_tx : {A : Type 0} {x y : A} {o : Option A} → o ≡ some x → o ≡ some y → x ≡ y
  some_tx e f = some_inj (sym e ∙ f)

  pub fits :
      (m : PipelineMsg F64) (c : Chan)
      → length (view c).queue ≤ (view c).capacity
      → ((view (try_send m c).1).capacity ≡ (view c).capacity)
        × ((view (try_send m c).1).is_open ≡ (view c).is_open)
        × (length (view (try_send m c).1).queue ≤ (view c).capacity)
  fits m c most =
      rw (channel.view-send m c) (ground (arith, length-append (view c).queue (m ∷ []), most))

  not_ended :
      (room : Bool) (e : MetricEntry F64) (acc : Accepted F64)
      → acc.1 ≡ false
      → (accept_if room (metric e) acc).1 ≡ false
  not_ended true e acc h = h
  not_ended false e acc h = h

  -- the same, with the handle and the channel that the globals hold
  pub at_globals :
      (s0 : Store) (acc : Accepted F64) (p : P) (h h' : EngineHandle Chan Reg) (c c' : Chan)
      (t : Thread F64 Store)
      → Serving json partition registry channel new_registry s0 acc h c t p
      → p.global ≡ some h'
      → h'.tx ≡ some c'
      → Serving json partition registry channel new_registry s0 acc h' c' t p × (c ≡ c')
  at_globals s0 acc p h h' c c' t v there attached =
      let same : h ≡ h' = some_tx v.global there in
      let same_chan : c ≡ c' = some_tx v.tx (ap (λ x. x.tx) same ∙ attached) in
      (
        subst (λ x. Serving json partition registry channel new_registry s0 acc h' x t p) same_chan
            (subst (λ x. Serving json partition registry channel new_registry s0 acc x c t p) same
              v),
        same_chan,
      )

  pub records-Serving :
      (s0 : Store) (acc : Accepted F64) (p : P) (e : MetricEntry F64) (h h' : EngineHandle Chan Reg)
      (c : Chan) (t : Thread F64 Store)
      → Serving json partition registry channel new_registry s0 acc h c t p
      → record_entry registry channel e h ≡ some h'
      → Serving json partition registry channel new_registry s0
          (accept_if (not h.is_shutdown && has_room registry channel (view c)) (metric e) acc)
          h'
          (try_send (metric e) c).1
          t
          (record p { global = some h' })
  records-Serving s0 acc p e h h' c t v done =
      let (capacity, opened, most) = fits (metric e) c v.most in
      let attached : h'.tx ≡ some (try_send (metric e) c).1 =
        record_entry-tx registry channel e h h' c v.tx done ∙ (rw v.up refl) in
      record {
        global = refl;
        up = record_entry-up registry channel e h h' c v.tx v.up done;
        tx = attached;
        thread = v.thread;
        join = v.join;
        run = recorded e h h' v.run v.tx done attached;
        before = not_ended (not h.is_shutdown && has_room registry channel (view c)) e acc v.before;
        is_open = opened ∙ v.is_open;
        least = omega (arith, capacity, v.least);
        most = omega (arith, capacity, most);
      }

  pub writes-Serving :
      (n : ℕ) (s0 : Store) (acc : Accepted F64) (p : P) (h : EngineHandle Chan Reg) (c : Chan)
      (t : Thread F64 Store)
      → Serving json partition registry channel new_registry s0 acc h c t p
      → Serving json partition registry channel new_registry s0 acc
          (record h {
            tx = some (run_writer json partition registry channel t.batch_rows n t.writer c).1;
          })
          (run_writer json partition registry channel t.batch_rows n t.writer c).1
          (record t {
            writer = (run_writer json partition registry channel t.batch_rows n t.writer c).0;
          })
          (record p {
            global = some (record h {
              tx = some (run_writer json partition registry channel t.batch_rows n t.writer c).1;
            });
            thread = some (record t {
              writer = (run_writer json partition registry channel t.batch_rows n t.writer c).0;
            });
          })
  writes-Serving n s0 acc p h c t v =
      let kept = run_writer-Shrinks json partition registry channel t.batch_rows n v.run v.before in
      record {
        global = refl;
        up = v.up;
        tx = refl;
        thread = refl;
        join = v.join;
        run = run_writer-Run json partition registry channel t.batch_rows n v.run;
        before = v.before;
        is_open = kept.is_open ∙ v.is_open;
        least = omega (arith, kept.capacity, v.least);
        most = omega (arith, kept.capacity, kept.fewer, v.most);
      }
