-- ===== src/Examples/Lifecycles.antt =====
-- The life of a process at concrete inputs.
use tonggeret.Base.{
  ap, sym, ◌∙◌, List, ℕ, ◌≡◌, refl, true, false, none, some, [], ◌∷◌, codes, arith,
}
use tonggeret.Error.{Result, ok, err, already_initialized}
use tonggeret.FilePath.{FilePath}
use tonggeret.Types.{PipelineMsg, metric}
use tonggeret.Config.{Config, new_fjall, default_full, validate}
use tonggeret.Channel.{View}
use tonggeret.Storage.Writer.{started}
use tonggeret.Engine.{EngineHandle, record_entry, update_registry, send, global_record}
use tonggeret.Engine.Pipeline.{begin, recorded}
use tonggeret.Engine.Lifecycle.{Env, Process, Thread, State, fresh, init, is_initialized}
use tonggeret.Engine.Lifecycle.Close.{shut_down}
use tonggeret.Engine.Lifecycle.Init.{InitOutcome, init-outcome}
use tonggeret.Engine.Lifecycle.Start.{
  full_build, full_handle, init-Serving, init_unspawned, init_again-opened,
}
use tonggeret.Engine.Lifecycle.Again.{IsErr}
use tonggeret.Engine.Lifecycle.Deliver.{Serving}
use tonggeret.Engine.Lifecycle.After.{shut_down-idle}
use tonggeret.Engine.Lifecycle.Hang.{shut_down-hangs}
use tonggeret.Engine.Lifecycle.Tasks.{below, spawn_times, shut_down-running}
use tonggeret.Engine.Lifecycle.Readable.{IsReadable}
use tonggeret.Engine.Lifecycle.Reach.{Reach, begun, records}
use tonggeret.Engine.Lifecycle.EndToEnd.{Reach-IsReadable}
use tonggeret.Examples.Values.{json}
use tonggeret.Examples.Stores.{partition, Items, inserts}
use tonggeret.Examples.Small.{registry, channel, sample, handle, room_for_two}

abbrev pub dir : FilePath
dir = record { rooted = true; parts = codes "data" ∷ [] }

abbrev pub config : Config ℕ
config = default_full (1 ∷ []) dir

-- the store is empty, and the thread is spawned
abbrev pub env : Env Items
env = record { open_handles = λ f. ok []; spawns = true; in_runtime = true }

-- no runtime is there, so that no compaction loop is started
abbrev pub outside : Env Items
outside = record env { in_runtime = false }

abbrev no_thread : Env Items
no_thread = record env { spawns = false }

abbrev pub new_registry : (buckets : List ℕ) → Result ℕ
new_registry buckets = ok 0

abbrev start : State json partition registry channel new_registry
start = fresh json partition registry channel new_registry

pub valid : validate true config ≡ ok tt
unfolding validate default_full
valid = refl

pub stored : config.fjall ≡ some (new_fjall dir)
unfolding default_full
stored = refl

init-outcome_example :
    InitOutcome json partition registry channel new_registry start
      (init json partition registry channel new_registry full_build env config start)
init-outcome_example =
    init-outcome json partition registry channel new_registry env refl start full_build config

init_unspawned_example :
    let r = init json partition registry channel new_registry full_build no_thread config start in
    IsErr json partition registry channel new_registry r.0
    × (is_initialized json partition registry channel new_registry r.1 ≡ true)
    × IsErr json partition registry channel new_registry
        (init json partition registry channel new_registry full_build env config r.1).0
init_unspawned_example =
    init_unspawned json partition registry channel new_registry no_thread config (new_fjall dir) []
      0 valid stored refl refl refl full_build env config

-- the thread of a started process
abbrev thread : Thread ℕ Items
thread = record { writer = started []; batch_rows = 8 }

-- a channel of one place, and the same with an observation in it
abbrev one_place : View (PipelineMsg ℕ)
one_place = record room_for_two { capacity = 1 }

abbrev taken : View (PipelineMsg ℕ)
taken = record one_place { queue = metric sample ∷ [] }

abbrev handle_one : EngineHandle (View (PipelineMsg ℕ)) ℕ
handle_one = record handle { tx = some one_place }

abbrev handle_taken : EngineHandle (View (PipelineMsg ℕ)) ℕ
handle_taken = record handle { tx = some taken; registry = some 1 }

takes : record_entry registry channel sample handle_one ≡ some handle_taken
unfolding record_entry update_registry send
takes = refl

abbrev process : State json partition registry channel new_registry
process = record start { global = some handle_taken; thread = some thread; writer_join = true }

serves :
    Serving json partition registry channel new_registry []
      (sample ∷ [], false)
      handle_taken
      taken
      thread
      process
serves = record {
  global = refl;
  up = refl;
  tx = refl;
  thread = refl;
  join = refl;
  run = recorded sample handle_one handle_taken (begin one_place refl) refl takes refl;
  before = refl;
  is_open = refl;
  least = omega arith;
  most = omega arith;
}

shut_down-hangs_example :
    shut_down json partition registry channel new_registry (λ n. 0) 1000 process ≡ none
shut_down-hangs_example =
    shut_down-hangs json partition registry channel new_registry (λ n. 0) 1000 []
      (sample ∷ [], false) handle_taken taken thread process serves refl (λ k. refl)

pub init_served :
    (p : State json partition registry channel new_registry) × (init json partition registry channel
        new_registry full_build outside config start
      ≡ (ok tt, p))
    × Serving json partition registry channel new_registry []
        ([], false)
        (full_handle json partition registry channel new_registry 16384 0)
        (channel.create 16384)
        (record { writer = started []; batch_rows = 1000 })
        p
unfolding default_full new_fjall
init_served =
    init-Serving json partition registry channel new_registry outside config (new_fjall dir) [] 0
      valid stored refl refl refl

-- a process with an engine and a store, but no thread
abbrev idle : State json partition registry channel new_registry
idle = record start { global = some (record handle { tx = none }) }

abbrev stopped : State json partition registry channel new_registry
stopped = record idle {
  global = some (record handle { tx = none; is_shutdown = true });
  running = 0 ∷ [];
  spawned = 2;
}

stops :
    shut_down json partition registry channel new_registry
      (λ n. 2)
      3
      (spawn_times json partition registry channel new_registry 2 (new_fjall dir) idle)
    ≡ some (ok tt, stopped)
unfolding shut_down spawn_times tonggeret.Engine.Lifecycle.spawn_compaction_task new_fjall
stops = refl

shut_down-running_example : stopped.running ≡ below 1
unfolding new_fjall below
shut_down-running_example =
    shut_down-running json partition registry channel new_registry 2 3 (λ n. 2) (new_fjall dir)
      (record handle { tx = none }) idle stopped (ok tt) refl
      (record { global = refl; has_fjall = refl; up = refl })
      (record { running = refl; spawned = refl; held = refl }) stops

init_again-opened_example :
    init json partition registry channel new_registry full_build env config process
    ≡ (err already_initialized, record process { opened = dir ∷ [] })
unfolding new_fjall
init_again-opened_example =
    init_again-opened json partition registry channel new_registry env config (new_fjall dir) [] 0
      process handle_taken refl valid stored refl refl

-- the channel and the handle of a first `init`, and what a call of `record` makes of them
abbrev first_chan : View (PipelineMsg ℕ)
first_chan = channel.create 16384

abbrev first_handle : EngineHandle (View (PipelineMsg ℕ)) ℕ
first_handle = full_handle json partition registry channel new_registry 16384 0

abbrev next_handle : EngineHandle (View (PipelineMsg ℕ)) ℕ
next_handle = record first_handle {
  tx = some (record first_chan { queue = metric sample ∷ [] });
  registry = some 1;
}

first_record : record_entry registry channel sample first_handle ≡ some next_handle
unfolding record_entry update_registry send
first_record = refl

abbrev pub running : State json partition registry channel new_registry
running = record init_served.0 { global = some next_handle }

pub reached :
    Reach json partition registry channel new_registry outside config running (sample ∷ [], false)
reached =
    records sample first_handle next_handle first_chan (begun init_served.1) init_served.2.global
      refl first_record

not_started :
    (init json partition registry channel new_registry full_build outside config start).1.running
    ≡ []
unfolding init validate default_full
not_started = refl

pub none_running : running.running ≡ []
none_running = ap (λ r. r.1.running) (sym init_served.1) ∙ not_started

Reach-IsReadable_example :
    (p' : State json partition registry channel new_registry) × (shut_down json partition registry
        channel new_registry
        (λ n. 2)
        40000
        running
      ≡ some (ok tt, p'))
    × IsReadable json partition registry channel new_registry inserts (sample ∷ []) p'.thread
unfolding default_full
Reach-IsReadable_example =
    Reach-IsReadable json partition registry channel new_registry outside config (new_fjall dir) []
      0 valid stored refl refl refl inserts (λ n. 2) 40000 running (sample ∷ [], false) reached
      none_running ((refl, (refl, tt)), tt) (omega arith) (omega arith) (omega arith)

shut_down-idle_example :
    (global_record registry channel sample stopped.global ≡ some stopped.global)
    × (shut_down json partition registry channel new_registry (λ n. 0) 0 stopped
        ≡ some (ok tt, stopped))
shut_down-idle_example =
    shut_down-idle json partition registry channel new_registry (λ n. 2) 3
      (spawn_times json partition registry channel new_registry 2 (new_fjall dir) idle) stopped
      sample (λ n. 0) stops
