-- ===== src/Engine/Lifecycle/Tasks.antt =====
-- Which compaction loops run after `shutdown`: it stops the loop that was spawned last and no other.
use tonggeret.Base.{
  ℕ, zero, suc, ◌+◌, ◌-◌, ◌≤◌, ◌≡◌, refl, sym, ap, ◌∙◌, true, false, Option, none, some, List, [],
  ◌∷◌, arith, Bool-cases, inl, inr, some_inj, none≢some,
}
use mathlib.Core.Path.{subst}
use tonggeret.Error.{Result}
use tonggeret.Types.{PipelineMsg}
use tonggeret.Config.{FjallConfig}
use tonggeret.Channel.{Channel}
use tonggeret.Storage.Json.{Json}
use tonggeret.Storage.Partition.{Partition}
use tonggeret.Engine.{Registry, EngineHandle}
use tonggeret.Engine.Lifecycle.{Thread, State, spawn_compaction_task, spawn_with}
use tonggeret.Engine.Lifecycle.Close.{
  without, stop_task, close_down, shut_down, has_ended, run_on, ask, stopped,
}
use tonggeret.Engine.Lifecycle.Shutdown.{shut_down-up}

-- the numbers below `n`, the greatest first
unfoldable pub below : ℕ → List ℕ
below zero = []
below (suc n) = n ∷ below n

abbrev last : ℕ → Option ℕ
last zero = none
last (suc n) = some n

without_high : (t n : ℕ) → n ≤ t → without t (below n) ≡ below n
unfolding without below
without_high t zero h = refl
without_high t (suc n) h = ground (arith, without_high t n)

without_last : (n : ℕ) → without n (n ∷ below n) ≡ below n
unfolding without
without_last n = ground (arith, without_high n n)

module _ {F64 : Type 0} (json : Json F64) (partition : Partition) (registry : Registry F64)
    (channel : Channel (PipelineMsg F64)) (new_registry : List F64 → Result registry.Reg) where
  open channel use {Chan}
  open partition use {Store}
  open registry use {Reg}

  abbrev P : Type 0
  P = State json partition registry channel new_registry

  -- `n` calls of `spawn_compaction_task` in a runtime
  unfoldable pub spawn_times : ℕ → FjallConfig → P → P
  spawn_times zero f p = p
  spawn_times (suc n) f p =
      spawn_times n f
        (spawn_compaction_task json partition registry channel new_registry true f p).1

  -- an engine with a store, before its shutdown
  pub record HasStore (h : EngineHandle Chan Reg) (p : P) : Type 0 where
    pub global : p.global ≡ some h
    pub has_fjall : h.has_fjall ≡ true
    pub up : h.is_shutdown ≡ false

  -- `n` loops have been spawned, they all run, and the last one is held
  pub record IsNumbered (n : ℕ) (p : P) : Type 0 where
    pub running : p.running ≡ below n
    pub spawned : p.spawned ≡ n
    pub held : p.compaction_task ≡ last n

  spawned_one :
      (f : FjallConfig) (h : EngineHandle Chan Reg) (p : P)
      → f.enable_compaction ≡ true
      → HasStore h p
      → (spawn_compaction_task json partition registry channel new_registry true f p).1 ≡ record p {
        compaction_task = some p.spawned;
        running = p.spawned ∷ p.running;
        spawned = suc p.spawned;
      }
  unfolding spawn_compaction_task
  spawned_one f h p on s = rw on (
      ap (λ g. (spawn_with json partition registry channel new_registry true g p).1) s.global
      ∙ (rw s.has_fjall refl))

  spawn_times-IsNumbered :
      (n k : ℕ) (f : FjallConfig) (h : EngineHandle Chan Reg) (p : P)
      → f.enable_compaction ≡ true
      → HasStore h p
      → IsNumbered k p
      → HasStore h (spawn_times n f p) × IsNumbered (n + k) (spawn_times n f p)
  unfolding spawn_times below
  spawn_times-IsNumbered zero k f h p on s i = (s, subst (λ m. IsNumbered m p) (omega arith) i)
  spawn_times-IsNumbered (suc n) k f h p on s i =
      let p1 : P = record p {
        compaction_task = some p.spawned;
        running = p.spawned ∷ p.running;
        spawned = suc p.spawned;
      } in
      let (s', i') =
        spawn_times-IsNumbered n (suc k) f h p1 on
          (record { global = s.global; has_fjall = s.has_fjall; up = s.up })
          (record {
            running = ap (λ m. m ∷ p.running) i.spawned ∙ ap (λ l. k ∷ l) i.running;
            spawned = ap suc i.spawned;
            held = ap some i.spawned;
          }) in
      let count : n + suc k ≡ suc n + k = omega arith in
      subst (λ q. HasStore h (spawn_times n f q) × IsNumbered (suc n + k) (spawn_times n f q))
        (sym (spawned_one f h p on s)) (s', subst (λ m. IsNumbered m (spawn_times n f p1)) count i')

  stop_task-running :
      (n : ℕ) (task : Option ℕ) (p : P)
      → task ≡ last n
      → p.running ≡ below n
      → (stop_task json partition registry channel new_registry task p).running ≡ below (n - 1)
  unfolding stop_task below without
  stop_task-running zero task p held all = rw held all
  stop_task-running (suc n) task p held all =
      let pred : n ≡ suc n - 1 = omega arith in
      rw held (ap (without n) all ∙ without_last n ∙ ap below pred)

  stopped-running :
      (n : ℕ) (h : EngineHandle Chan Reg) (s : Option (Thread F64 Store) × Option Chan) (p : P)
      → IsNumbered n p
      → (stopped json partition registry channel new_registry h s p).running ≡ below (n - 1)
  stopped-running n h (t, tx) p i = stop_task-running n p.compaction_task _ i.held i.running

  close_down-running :
      (waits n : ℕ) (h : EngineHandle Chan Reg) (s : Option (Thread F64 Store) × Option Chan)
      (p p' : P) (r : Result (Unit {0}))
      → IsNumbered n p
      → close_down json partition registry channel new_registry waits h s p ≡ some (r, p')
      → p'.running ≡ below (n - 1)
  unfolding close_down
  close_down-running waits n h s p p' r i done = elim (Bool-cases p.writer_join) [
    | inl join ↦
        elim (Bool-cases (
          has_ended json partition registry channel new_registry
            (run_on json partition registry channel new_registry waits s).0)) [
              | inl ended ↦
                  ap (λ x. x.1.running) (sym (some_inj (rw (join, ended) at done)))
                  ∙ stopped-running n h
                      (run_on json partition registry channel new_registry waits s) p i
              | inr waiting ↦ absurd (none≢some (rw (join, waiting) at done))
            ]
    | inr alone ↦
        ap (λ x. x.1.running) (sym (some_inj (rw alone at done))) ∙ stopped-running n h s p i
  ]

  -- On an engine with a store, of which no compaction loop runs: after `n` calls of
  -- `spawn_compaction_task` in a runtime and a `shutdown` that returns, all loops but the last one still
  -- run.
  pub shut_down-running :
      (n waits : ℕ) (busy : ℕ → ℕ) (f : FjallConfig) (h : EngineHandle Chan Reg) (p p' : P)
      (r : Result (Unit {0}))
      → f.enable_compaction ≡ true
      → HasStore h p
      → IsNumbered 0 p
      → shut_down json partition registry channel new_registry busy waits (spawn_times n f p)
        ≡ some (r, p')
      → p'.running ≡ below (n - 1)
  shut_down-running n waits busy f h p p' r on s i done =
      let (s', i') = spawn_times-IsNumbered n 0 f h p on s i in
      let total : n + 0 ≡ n = omega arith in
      let q = spawn_times n f p in
      close_down-running waits n (record h { is_shutdown = true })
        (ask json partition registry channel new_registry busy h.tx q.thread) q p' r
        (subst (λ m. IsNumbered m q) total i')
        (sym (
            shut_down-up json partition registry channel new_registry busy waits h q s'.global
              s'.up)
          ∙ done)
