-- ===== src/Engine/Lifecycle/Again.antt =====
-- An `init` where there is an engine already fails.
use tonggeret.Base.{◌≢◌, refl, true, Option, none, some, List, ◌∷◌}
use tonggeret.Error.{Result, ok, err}
use tonggeret.Types.{PipelineMsg}
use tonggeret.Config.{Config, FjallConfig, validate}
use tonggeret.Channel.{Channel}
use tonggeret.Storage.Json.{Json}
use tonggeret.Storage.Partition.{Partition}
use tonggeret.Engine.{Registry, EngineHandle}
use tonggeret.Engine.Lifecycle.{
  Build, Env, State, init, validated, with_handle, open_store, after_open, publish_handle,
  new_handle,
}

module _ {F64 : Type 0} (json : Json F64) (partition : Partition) (registry : Registry F64)
    (channel : Channel (PipelineMsg F64)) (new_registry : List F64 → Result registry.Reg) where
  open channel use {Chan, view, create}
  open partition use {Store}
  open registry use {Reg}

  abbrev P : Type 0
  P = State json partition registry channel new_registry

  abbrev H : Type 0
  H = EngineHandle Chan Reg

  -- there is an error
  abbrev pub IsErr : Result (Unit {0}) → Type 0
  IsErr (ok u) = ⊥
  IsErr (err e) = Unit

  pub publish-IsErr :
      (env : Env Store) (store : Option (FjallConfig × Store)) (h : H) (o : Option H) (p : P)
      → o ≢ none
      → IsErr (publish_handle json partition registry channel new_registry env store h o p).0
  unfolding publish_handle
  publish-IsErr env store h none p there = absurd (there refl)
  publish-IsErr env store h (some g) p there = tt

  pub after_open-IsErr :
      (env : Env Store) (f : FjallConfig) (h : H) (r : Result Store) (p : P)
      → p.global ≢ none
      → IsErr (after_open json partition registry channel new_registry env f h r p).0
  unfolding after_open
  after_open-IsErr env f h (err e) p there = tt
  after_open-IsErr env f h (ok s) p there =
      publish-IsErr env (some (f, s)) (record h { has_fjall = true }) p.global
        (record p { opened = f.dir ∷ p.opened }) there

  pub open_store-IsErr :
      (env : Env Store) (o : Option FjallConfig) (h : H) (p : P)
      → p.global ≢ none
      → IsErr (open_store json partition registry channel new_registry env o h p).0
  unfolding open_store
  open_store-IsErr env none h p there = publish-IsErr env none h p.global p there
  open_store-IsErr env (some f) h p there = after_open-IsErr env f h (env.open_handles f) p there

  pub with_handle-IsErr :
      (env : Env Store) (c : Config F64) (r : Result H) (p : P)
      → p.global ≢ none
      → IsErr (with_handle json partition registry channel new_registry env c r p).0
  unfolding with_handle
  with_handle-IsErr env c (err e) p there = tt
  with_handle-IsErr env c (ok h) p there = open_store-IsErr env c.fjall h p there

  pub validated-IsErr :
      (build : Build) (env : Env Store) (c : Config F64) (r : Result (Unit {0})) (p : P)
      → p.global ≢ none
      → IsErr (validated json partition registry channel new_registry build env c r p).0
  unfolding validated
  validated-IsErr build env c (err e) p there = tt
  validated-IsErr build env c (ok u) p there =
      with_handle-IsErr env c (new_handle json partition registry channel new_registry build c) p
        there

  -- Once there is an engine every `init` fails, whatever its configuration.
  pub init_again-IsErr :
      (build : Build) (env : Env Store) (c : Config F64) (p : P)
      → p.global ≢ none
      → IsErr (init json partition registry channel new_registry build env c p).0
  unfolding init
  init_again-IsErr build env c p there =
      validated-IsErr build env c (validate build.fjall_backend c) p there
  -- Where there is an engine, an `init` with both features, a valid configuration with a store, a store
  -- that opens and a registry that is made returns `AlreadyInitialized`, after it has opened the
