-- ===== src/Engine/Lifecycle/After.antt =====
-- After a `shutdown`: calls of `record` do nothing, and another `shutdown` returns at once.
use mathlib.Core.Path.{subst}
use tonggeret.Base.{
  none≢some, ℕ, ◌≡◌, refl, ap, true, Bool-cases, inl, inr, Option, none, some, List, some_inj,
}
use tonggeret.Error.{Result, ok}
use tonggeret.Types.{PipelineMsg, MetricEntry}
use tonggeret.Channel.{Channel}
use tonggeret.Storage.Json.{Json}
use tonggeret.Storage.Partition.{Partition}
use tonggeret.Engine.{Registry, EngineHandle, record_entry, global_record}
use tonggeret.Engine.Lifecycle.{State}
use tonggeret.Engine.Lifecycle.Close.{
  Ends, shut_down, shutdown_handle, close_down, stop_task, stopped, run_on, has_ended, ask,
}

module _ {F64 : Type 0} (json : Json F64) (partition : Partition) (registry : Registry F64)
    (channel : Channel (PipelineMsg F64)) (new_registry : List F64 → Result registry.Reg) where
  open partition use {Store}
  open registry use {Reg}
  open channel use {Chan}

  abbrev P : Type 0
  P = State json partition registry channel new_registry

  -- there is an engine, and it is shut down
  record IsDown (p : P) : Type 0 where
    handle : EngineHandle Chan Reg
    global : p.global ≡ some handle
    down : handle.is_shutdown ≡ true

  stop_task-global :
      (task : Option ℕ) (p : P)
      → (stop_task json partition registry channel new_registry task p).global ≡ p.global
  unfolding stop_task
  stop_task-global none p = refl
  stop_task-global (some t) p = refl

  stopped-IsDown :
      (h : EngineHandle Chan Reg) (s : Ends json partition registry channel new_registry) (p : P)
      → h.is_shutdown ≡ true
      → IsDown (stopped json partition registry channel new_registry h s p)
  stopped-IsDown h s p down = record {
    handle = record h { tx = s.1 };
    global = stop_task-global p.compaction_task _;
    down = down;
  }

  abbrev ended :
      ℕ
      → Ends json partition registry channel new_registry
      → Ends json partition registry channel new_registry
  ended waits s = run_on json partition registry channel new_registry waits s

  close_down-IsDown :
      (waits : ℕ) (h : EngineHandle Chan Reg)
      (s : Ends json partition registry channel new_registry) (p p' : P) (r : Result (Unit {0}))
      → h.is_shutdown ≡ true
      → close_down json partition registry channel new_registry waits h s p ≡ some (r, p')
      → IsDown p'
  unfolding close_down
  close_down-IsDown waits h s p p' r down done = elim (Bool-cases p.writer_join) [
    | inl joins ↦
        elim (Bool-cases
          (has_ended json partition registry channel new_registry (ended waits s).0)) [
            | inl over ↦
                let made = some_inj (rw (joins, over) at done) in
                subst IsDown (ap (λ x. x.1) made) (stopped-IsDown h (ended waits s) p down)
            | inr runs ↦ absurd (none≢some (rw (joins, runs) at done))
          ]
    | inr alone ↦
        let made = some_inj (rw alone at done) in
        subst IsDown (ap (λ x. x.1) made) (stopped-IsDown h s p down)
  ]

  shutdown_handle-IsDown :
      (busy : ℕ → ℕ) (waits : ℕ) (g : Option (EngineHandle Chan Reg)) (p p' : P)
      → p.global ≡ g
      → shutdown_handle json partition registry channel new_registry busy waits g p
        ≡ some (ok tt, p')
      → IsDown p'
  unfolding shutdown_handle
  shutdown_handle-IsDown busy waits none p p' there done = cc
  shutdown_handle-IsDown busy waits (some h) p p' there done = elim (Bool-cases h.is_shutdown) [
    | inl down ↦
        subst IsDown (ap (λ x. x.1) (some_inj (rw down at done)))
          (record { handle = h; global = there; down = down })
    | inr up ↦
        close_down-IsDown waits (record h { is_shutdown = true })
          (ask json partition registry channel new_registry busy h.tx p.thread) p p' (ok tt) refl
          (rw up at done)
  ]

  down-global_record :
      (e : MetricEntry F64) (p : P)
      → IsDown p
      → global_record registry channel e p.global ≡ some p.global
  unfolding global_record record_entry
  down-global_record e p d = rw (d.global, d.down) refl

  down-shut_down :
      (busy : ℕ → ℕ) (waits : ℕ) (p : P)
      → IsDown p
      → shut_down json partition registry channel new_registry busy waits p ≡ some (ok tt, p)
  unfolding shut_down shutdown_handle
  down-shut_down busy waits p d = rw (d.global, d.down) refl

  -- After a `shutdown` that returned without an error: a call of `record` through the global handle
  -- changes nothing, and neither panics nor counts a drop; and another `shutdown` returns without an
  -- error, changes nothing, and does not wait for the thread.
  pub shut_down-idle :
      (busy : ℕ → ℕ) (waits : ℕ) (p p' : P) (e : MetricEntry F64) (busy_again : ℕ → ℕ)
      → shut_down json partition registry channel new_registry busy waits p ≡ some (ok tt, p')
      → (global_record registry channel e p'.global ≡ some p'.global)
        × (shut_down json partition registry channel new_registry busy_again 0 p'
            ≡ some (ok tt, p'))
  shut_down-idle busy waits p p' e busy_again done =
      let d = shutdown_handle-IsDown busy waits p.global p p' refl (unfold shut_down in done) in
      (down-global_record e p' d, down-shut_down busy_again 0 p' d)
