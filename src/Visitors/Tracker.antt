-- ===== src/Visitors/Tracker.antt =====
-- visitors.rs: `VisitorsTracker`. The map is an association list, and the order in which it is iterated
-- an argument; the hash of a key, the metrics
-- engine and the arithmetic of `f64` are parameters. `contended` says that the lock is taken
-- elsewhere, so that `try_lock` fails. A panic is `none`.
pub mod Bounds
pub mod Sketches
pub mod Gauges
use tonggeret.Base.{
  ℕ, zero, suc, ◌+◌, ◌≡◌, refl, Bool, true, false, ◌&&◌, ◌||◌, not, Option, none, some, List, [],
  ◌∷◌, min, max, ltb, leb, if◌then◌else◌, ◌>>=◌, length, codes,
}
use tonggeret.Text.{Str, str_eq}
use tonggeret.Types.{PipelineMsg, MetricEntry, Label, MetricType, counter, gauge}
use tonggeret.Channel.{Channel}
use tonggeret.Engine.{Registry, EngineHandle, record_metric}
use tonggeret.Visitors.Region.{normalize_region, region_other}
use tonggeret.Visitors.Hll.{Hll, new, add, estimate, Floats}

abbrev pub visitors_total : Str
visitors_total = codes "visitors_total"

abbrev pub unique_visitors_estimate : Str
unique_visitors_estimate = codes "unique_visitors_estimate"

abbrev pub Sketches : Type 0
Sketches = List (Str × Hll)

-- `map.contains_key(&region)`
unfoldable pub contains_key : Str → Sketches → Bool
contains_key region [] = false
contains_key region ((r, s) ∷ m) = str_eq r region || contains_key region m

-- `map.get(&region)`
unfoldable pub get : Str → Sketches → Option Hll
get region [] = none
get region ((r, s) ∷ m) = let rest = get region m in if str_eq r region then some s else rest

-- `map.entry(bucket).or_default()`, changed by a function
unfoldable pub change : Str → (Hll → Hll) → Sketches → Sketches
change bucket f [] = (bucket, f new) ∷ []
change bucket f ((r, s) ∷ m) =
    let rest = change bucket f m in if str_eq r bucket then (r, f s) ∷ m else (r, s) ∷ rest

-- `VisitorsTracker`
pub record Tracker : Type 0 where
  pub inner : Sketches
  pub max_regions : ℕ

-- `VisitorsTracker::new`
unfoldable pub new_tracker : ℕ → Tracker
new_tracker max_regions = record { inner = []; max_regions = min (max max_regions 1) 4096 }

-- the bucket of a normalized region
unfoldable pub bucket_of : Str → Tracker → Str
unfolding contains_key
bucket_of region t =
    if not (contains_key region t.inner) && leb t.max_regions (length t.inner)
    then region_other
    else region

-- the visit folded into the sketch of its bucket
unfoldable pub fold_visit : {Key : Type 0} → (Key → ℕ) → Key → Str → Tracker → Tracker
unfolding bucket_of change
fold_visit hash_key visitor region t = record t {
  inner = change (bucket_of region t) (add hash_key visitor) t.inner;
}

-- `DEFAULT_MAX_REGIONS` and `global_tracker`, created on its first use
abbrev pub default_max_regions : ℕ
default_max_regions = 512

unfoldable pub global_tracker : Option Tracker → Tracker
global_tracker none = new_tracker default_max_regions
global_tracker (some t) = t

-- `VisitorsTracker::region_count`
unfoldable pub region_count : Bool → Tracker → ℕ
region_count contended t = if contended then 0 else length t.inner

module _ (floats : Floats) (registry : Registry floats.F64)
    (channel : Channel (PipelineMsg floats.F64)) (hash_key : Str → ℕ) where
  open floats use {F64, of_ℕ}
  open registry use {Reg}
  open channel use {Chan}

  abbrev pub Engine : Type 0
  Engine = Option (EngineHandle Chan Reg)

  abbrev pub region_label : Str → List Label
  region_label region = (codes "region", region) ∷ []

  -- `VisitorsTracker::observe`, at time `now`: what it returns, the tracker and the engine
  unfoldable pub observe :
      Bool → Option ℕ → Str → Str → Tracker → Engine → Option (Bool × Tracker × Engine)
  unfolding fold_visit
  observe contended now visitor raw t g =
      let region = normalize_region raw in
      do
        g' ←
            record_metric registry channel counter now visitors_total (of_ℕ 1) (region_label region)
              g
        some
            (if contended then (false, t, g') else (true, fold_visit hash_key visitor region t, g'))

  -- `VisitorsTracker::estimate`
  unfoldable pub estimate_of : Bool → Str → Tracker → ℕ
  estimate_of contended raw t =
      if contended
      then 0
      else elim (get (normalize_region raw) t.inner) [ some s ↦ estimate floats s | none ↦ 0 ]

  -- the loop of `snapshot`, over the regions in the order of the iteration; `clock r` is the time at
  -- which the gauge of the region `r` is recorded
  unfoldable pub export_gauges : (Str → Option ℕ) → Sketches → Engine → Option Engine
  export_gauges clock [] g = some g
  export_gauges clock ((r, s) ∷ m) g = do
    g' ←
        record_metric registry channel gauge (clock r) unique_visitors_estimate
          (of_ℕ (estimate floats s)) (region_label r) g
    export_gauges clock m g'

  -- `VisitorsTracker::snapshot`; `order` is the order in which the map is iterated
  unfoldable pub snapshot :
      Bool → (Sketches → Sketches) → (Str → Option ℕ) → Tracker → Engine → Option (ℕ × Engine)
  unfolding export_gauges
  snapshot contended order clock t g =
      if contended
      then some (0, g)
      else do g' ← export_gauges clock (order t.inner) g; some (length t.inner, g')

  -- `observe_visitor`, over what `GLOBAL_VISITORS` holds
  unfoldable pub observe_visitor :
      Bool
      → Option ℕ
      → Str
      → Str
      → Option Tracker
      → Engine
      → Option (Bool × Option Tracker × Engine)
  unfolding observe global_tracker
  observe_visitor contended now visitor raw t g = do
    (answer, t', g') ← observe contended now visitor raw (global_tracker t) g
    some (answer, some t', g')

  -- `snapshot_visitors`
  unfoldable pub snapshot_visitors :
      Bool
      → (Sketches → Sketches)
      → (Str → Option ℕ)
      → Option Tracker
      → Engine
      → Option (ℕ × Option Tracker × Engine)
  unfolding snapshot global_tracker
  snapshot_visitors contended order clock t g = do
    (n, g') ← snapshot contended order clock (global_tracker t) g
    some (n, some (global_tracker t), g')

  -- what a tick of the snapshot task meets: whether the lock is taken, the order in which the map is
  -- iterated, and the times of the gauges
  pub record Tick : Type 0 where
    pub contended : Bool
    pub order : Sketches → Sketches
    pub clock : Str → Option ℕ

  -- the ticks of the loop; a tick that panics ends it
  unfoldable pub ticks : List Tick → Option Tracker → Engine → Option (Option Tracker × Engine)
  unfolding snapshot_visitors
  ticks [] t g = some (t, g)
  ticks (tick ∷ rest) t g = do
    (n, t', g') ← snapshot_visitors tick.contended tick.order tick.clock t g
    ticks rest t' g'

  -- `spawn_snapshot_task`, up to the last of the ticks: whether there is a task, and what it does
  unfoldable pub spawn_snapshot_task :
      Bool → List Tick → Option Tracker → Engine → Bool × Option (Option Tracker × Engine)
  unfolding ticks
  spawn_snapshot_task in_runtime turns t g =
      if in_runtime then (true, ticks turns t g) else (false, some (t, g))
