-- ===== src/Engine/Lifecycle/Init.antt =====
-- What `init` does to the process on each of its outcomes.
use tonggeret.Base.{
  ◌≡◌, refl, sym, ◌∙◌, Bool, true, Option, none, some, List, ◌∷◌, arith, Bool-cases, inl, inr,
}
use tonggeret.Error.{Result, ok, err}
use tonggeret.Types.{PipelineMsg}
use tonggeret.Config.{Config, FjallConfig, validate}
use tonggeret.Channel.{Channel}
use tonggeret.Storage.Json.{Json}
use tonggeret.Storage.Partition.{Partition}
use tonggeret.Engine.{Registry, EngineHandle}
use tonggeret.Engine.Lifecycle.{
  Build, Env, State, init, validated, with_handle, open_store, after_open, publish_handle,
  spawn_threads, spawn_compaction_task, spawn_with, new_handle, is_initialized,
}

module _ {F64 : Type 0} (json : Json F64) (partition : Partition) (registry : Registry F64)
    (channel : Channel (PipelineMsg F64)) (new_registry : List F64 → Result registry.Reg) where
  open channel use {Chan, view, create}
  open partition use {Store}
  open registry use {Reg}

  abbrev P : Type 0
  P = State json partition registry channel new_registry

  abbrev H : Type 0
  H = EngineHandle Chan Reg

  -- the globals of the process, its thread and its loops are the same; a directory may have been opened
  pub record SameGlobals (p p' : P) : Type 0 where
    pub global : p'.global ≡ p.global
    pub writer_join : p'.writer_join ≡ p.writer_join
    pub compaction_task : p'.compaction_task ≡ p.compaction_task
    pub thread : p'.thread ≡ p.thread
    pub running : p'.running ≡ p.running

  -- An error leaves the globals alone, and no error means that the engine was not there and now is.
  abbrev pub InitOutcome : P → Result (Unit {0}) × P → Type 0
  InitOutcome p (ok u, p') =
      (p.global ≡ none) × (is_initialized json partition registry channel new_registry p' ≡ true)
  InitOutcome p (err e, p') = SameGlobals p p'

  same : (p : P) → SameGlobals p p
  same p = record {
    global = refl;
    writer_join = refl;
    compaction_task = refl;
    thread = refl;
    running = refl;
  }

  spawned_global :
      (in_runtime : Bool) (f : FjallConfig) (p : P)
      → (spawn_compaction_task json partition registry channel new_registry in_runtime f p).1.global
        ≡ p.global
  unfolding spawn_compaction_task
  spawned_global in_runtime f p = elim (Bool-cases f.enable_compaction) [
    | inl on ↦ rw on (with_global p.global)
    | inr off ↦ rw off refl
  ]
    where
      with_global :
          (g : Option H)
          → (spawn_with json partition registry channel new_registry in_runtime g p).1.global
            ≡ p.global
      with_global none = refl
      with_global (some h) = ground arith

  there_is :
      (p : P) (h : H)
      → p.global ≡ some h
      → is_initialized json partition registry channel new_registry p ≡ true
  unfolding is_initialized
  there_is p h e = rw e

  module _ (env : Env Store) (spawns : env.spawns ≡ true) (p0 : P) where
    spawn_threads-Outcome :
        (store : Option (FjallConfig × Store)) (h : H) (p : P)
        → p0.global ≡ none
        → p.global ≡ some h
        → InitOutcome p0 (spawn_threads json partition registry channel new_registry env store h p)
    unfolding spawn_threads
    spawn_threads-Outcome none h p absent there = (absent, there_is p h there)
    spawn_threads-Outcome (some (f, s)) h p absent there =
        rw spawns (absent, there_is _ h (spawned_global env.in_runtime f _ ∙ there))

    publish-Outcome :
        (store : Option (FjallConfig × Store)) (h : H) (g : Option H) (p : P)
        → p.global ≡ g
        → SameGlobals p0 p
        → InitOutcome p0
            (publish_handle json partition registry channel new_registry env store h g p)
    unfolding publish_handle
    publish-Outcome store h (some g) p e k = k
    publish-Outcome store h none p e k =
        spawn_threads-Outcome store h (record p { global = some h }) (sym k.global ∙ e) refl

    after_open-Outcome :
        (f : FjallConfig) (h : H) (r : Result Store)
        → InitOutcome p0 (after_open json partition registry channel new_registry env f h r p0)
    unfolding after_open
    after_open-Outcome f h (err e) = same p0
    after_open-Outcome f h (ok s) =
        publish-Outcome (some (f, s)) (record h { has_fjall = true }) p0.global
          (record p0 { opened = f.dir ∷ p0.opened }) refl
          (record {
            global = refl;
            writer_join = refl;
            compaction_task = refl;
            thread = refl;
            running = refl;
          })

    open_store-Outcome :
        (f : Option FjallConfig) (h : H)
        → InitOutcome p0 (open_store json partition registry channel new_registry env f h p0)
    unfolding open_store
    open_store-Outcome none h = publish-Outcome none h p0.global p0 refl (same p0)
    open_store-Outcome (some f) h = after_open-Outcome f h (env.open_handles f)

    with_handle-Outcome :
        (c : Config F64) (r : Result H)
        → InitOutcome p0 (with_handle json partition registry channel new_registry env c r p0)
    unfolding with_handle
    with_handle-Outcome c (err e) = same p0
    with_handle-Outcome c (ok h) = open_store-Outcome c.fjall h

    validated-Outcome :
        (build : Build) (c : Config F64) (r : Result (Unit {0}))
        → InitOutcome p0 (validated json partition registry channel new_registry build env c r p0)
    unfolding validated
    validated-Outcome build c (err e) = same p0
    validated-Outcome build c (ok u) =
        with_handle-Outcome c (new_handle json partition registry channel new_registry build c)

    -- If the thread can be spawned, a call of `init` that fails leaves the globals, the thread and the
    -- loops as they were, so it can be tried again; and one that succeeds has found no engine and leaves
    -- one.
    pub init-outcome :
        (build : Build) (c : Config F64)
        → InitOutcome p0 (init json partition registry channel new_registry build env c p0)
    unfolding init
    init-outcome build c = validated-Outcome build c (validate build.fjall_backend c)
