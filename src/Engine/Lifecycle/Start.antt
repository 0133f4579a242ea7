-- ===== src/Engine/Lifecycle/Start.antt =====
-- A process serves once `init` has started the writer thread; and `init` where the thread is not spawned.
use tonggeret.Base.{
  ℕ, ◌≤◌, ◌≡◌, refl, ◌∙◌, Bool, true, false, ◌&&◌, Option, none, some, List, [], ◌∷◌, arith,
  Bool-cases, inl, inr, codes,
}
use tonggeret.Error.{Result, ok, err, storage, already_initialized}
use tonggeret.Types.{PipelineMsg}
use tonggeret.Config.{Config, FjallConfig, validate}
use tonggeret.Config.Laws.{validate_iff, IsConfig}
use tonggeret.Channel.{Channel}
use tonggeret.Storage.Json.{Json}
use tonggeret.Storage.Partition.{Partition}
use tonggeret.Storage.Writer.{started}
use tonggeret.Engine.{Registry, EngineHandle}
use tonggeret.Engine.Pipeline.{begin}
use tonggeret.Engine.Lifecycle.{
  Build, Env, Thread, State, fresh, init, validated, with_handle, open_store, after_open,
  publish_handle, spawn_threads, spawn_compaction_task, spawn_with, new_handle, handle_with,
  is_initialized,
}
use tonggeret.Engine.Lifecycle.Deliver.{Serving}
use tonggeret.Engine.Lifecycle.Again.{IsErr, init_again-IsErr}

-- both features
abbrev pub full_build : Build
full_build = record { fjall_backend = true; prometheus_exporter = true }

module _ {F64 : Type 0} (json : Json F64) (partition : Partition) (registry : Registry F64)
    (channel : Channel (PipelineMsg F64)) (new_registry : List F64 → Result registry.Reg) where
  open channel use {Chan, view, create}
  open partition use {Store}
  open registry use {Reg}

  abbrev P : Type 0
  P = State json partition registry channel new_registry

  abbrev H : Type 0
  H = EngineHandle Chan Reg

  -- spawning a compaction loop touches nothing but the loops
  pub record KeepsThread (p p' : P) : Type 0 where
    pub global : p'.global ≡ p.global
    pub writer_join : p'.writer_join ≡ p.writer_join
    pub thread : p'.thread ≡ p.thread

  spawn_with-KeepsThread :
      (in_runtime : Bool) (g : Option H) (p : P)
      → KeepsThread p (spawn_with json partition registry channel new_registry in_runtime g p).1
  unfolding spawn_with
  spawn_with-KeepsThread in_runtime none p = record {
    global = refl;
    writer_join = refl;
    thread = refl;
  }
  spawn_with-KeepsThread in_runtime (some h) p = elim (Bool-cases (h.has_fjall && in_runtime)) [
    | inl on ↦ rw on (record { global = refl; writer_join = refl; thread = refl })
    | inr off ↦ rw off (record { global = refl; writer_join = refl; thread = refl })
  ]

  pub spawn_compaction_task-KeepsThread :
      (in_runtime : Bool) (f : FjallConfig) (p : P)
      → KeepsThread p
          (spawn_compaction_task json partition registry channel new_registry in_runtime f p).1
  unfolding spawn_compaction_task
  spawn_compaction_task-KeepsThread in_runtime f p = elim (Bool-cases f.enable_compaction) [
    | inl on ↦ rw on (spawn_with-KeepsThread in_runtime p.global p)
    | inr off ↦ rw off (record { global = refl; writer_join = refl; thread = refl })
  ]

  -- the handle that `init` publishes with a store
  abbrev pub full_handle : ℕ → Reg → H
  full_handle capacity reg =
      record (handle_with json partition registry channel new_registry (some (create capacity))
        (some reg)) { has_fjall = true }

  module _ (env : Env Store) (c : Config F64) (f : FjallConfig) (s : Store) (reg : Reg)
      (valid : validate true c ≡ ok tt) (stored : c.fjall ≡ some f)
      (opens : env.open_handles f ≡ ok s)
      (made : new_registry c.default_histogram_buckets ≡ ok reg) where
    -- as far as the spawning of the threads, every part of a full `init` succeeds
    init-spawns :
        init json partition registry channel new_registry full_build env c
          (fresh json partition registry channel new_registry)
        ≡ spawn_threads json partition registry channel new_registry env
            (some (f, s))
            (full_handle c.channel_capacity reg)
            (record (fresh json partition registry channel new_registry) {
              global = some (full_handle c.channel_capacity reg);
              opened = f.dir ∷ [];
            })
    unfolding init validated with_handle new_handle open_store after_open publish_handle
    init-spawns = rw (valid, stored, made, opens)

    thread_of : Thread F64 Store
    thread_of = record { writer = started s; batch_rows = f.batch_rows }

    pub capacity_least : 1 ≤ c.channel_capacity
    capacity_least =
        let valid_config : IsConfig true c = (validate_iff true c).0 valid in
        omega (arith, valid_config.capacity)

    -- A first `init` with both features, a valid configuration with a store, a store that opens, a
    -- registry that is made and a thread that is spawned returns without an error, and the process
    -- serves: from the opened store, with nothing accepted yet, through a channel of the configured
    -- capacity.
    pub init-Serving :
        env.spawns ≡ true
        → (p : P) × (init json partition registry channel new_registry full_build env c
              (fresh json partition registry channel new_registry)
            ≡ (ok tt, p))
          × Serving json partition registry channel new_registry s
              ([], false)
              (full_handle c.channel_capacity reg)
              (create c.channel_capacity)
              (record { writer = started s; batch_rows = f.batch_rows })
              p
    unfolding spawn_threads
    init-Serving spawns =
        let p0 = record (fresh json partition registry channel new_registry) {
          global = some (full_handle c.channel_capacity reg);
          opened = f.dir ∷ [];
          writer_join = true;
          thread = some (record { writer = started s; batch_rows = f.batch_rows });
        } in
        let k = spawn_compaction_task-KeepsThread env.in_runtime f p0 in
        let v = channel.view-create c.channel_capacity capacity_least in
        (
          (spawn_compaction_task json partition registry channel new_registry env.in_runtime f
              p0).1,
          init-spawns ∙ rw spawns,
          record {
            global = k.global;
            up = refl;
            tx = refl;
            thread = k.thread;
            join = k.writer_join;
            run = begin (create c.channel_capacity) (rw v);
            before = refl;
            is_open = rw v;
            least = rw v capacity_least;
            most = rw v (omega arith);
          },
        )

  -- directory of that store, and leaves all else of the process as it was.
  pub init_again-opened :
      (env : Env Store) (c : Config F64) (f : FjallConfig) (s : Store) (reg : Reg) (p : P) (h : H)
      → p.global ≡ some h
      → validate true c ≡ ok tt
      → c.fjall ≡ some f
      → env.open_handles f ≡ ok s
      → new_registry c.default_histogram_buckets ≡ ok reg
      → init json partition registry channel new_registry full_build env c p
        ≡ (err already_initialized, record p { opened = f.dir ∷ p.opened })
  unfolding init validated with_handle new_handle open_store after_open publish_handle
  init_again-opened env c f s reg p h there valid stored opens made =
      rw (valid, stored, made, opens, there)

  -- A first `init` in which every part succeeds but the thread is not spawned returns an error, and all
  -- the same there is an engine, so that every later `init` fails too.
  pub init_unspawned :
      (env : Env Store) (c : Config F64) (f : FjallConfig) (s : Store) (reg : Reg)
      → validate true c ≡ ok tt
      → c.fjall ≡ some f
      → env.open_handles f ≡ ok s
      → new_registry c.default_histogram_buckets ≡ ok reg
      → env.spawns ≡ false
      → (build' : Build) (env' : Env Store) (c' : Config F64)
      → let r =
          init json partition registry channel new_registry full_build env c
            (fresh json partition registry channel new_registry) in
        IsErr json partition registry channel new_registry r.0
        × (is_initialized json partition registry channel new_registry r.1 ≡ true)
        × IsErr json partition registry channel new_registry
            (init json partition registry channel new_registry build' env' c' r.1).0
  unfolding spawn_threads is_initialized
  init_unspawned env c f s reg valid stored opens made unspawned build' env' c' =
      let h = full_handle c.channel_capacity reg in
      let p = record (fresh json partition registry channel new_registry) {
        global = some (record h { tx = some (channel.close (create c.channel_capacity)) });
        opened = f.dir ∷ [];
      } in
      let e : init json partition registry channel new_registry full_build env c
            (fresh json partition registry channel new_registry)
          ≡ (err (storage (codes "spawn writer thread")), p) =
        init-spawns env c f s reg valid stored opens made ∙ rw unspawned in
      rw e (
        tt,
        refl,
        init_again-IsErr json partition registry channel new_registry build' env' c' p (λ x. cc),
      )
