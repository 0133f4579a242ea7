-- ===== src/Prometheus.antt =====
-- prometheus.rs: `PromRegistry`, over an interface of the `prometheus` crate. The three maps of
-- collectors are association lists, and the three copies of the code that differ in the kind of
-- collector are one definition by the metric type. A lock is poisoned only by a panic under its write
-- guard, and nothing under it panics. A panic is `none`.
pub mod Collectors
pub mod Arity
pub mod Stable
use tonggeret.Base.{
  ℕ, ◌≡◌, ◌≢◌, Bool, true, false, Option, none, some, List, [], ◌∷◌, ◌++◌, if◌then◌else◌, ◌>>=◌,
  length, codes,
}
use tonggeret.Text.{Str, str_eq}
use tonggeret.Text.Utf8.{Bytes, from_utf8}
use tonggeret.Error.{Result, ok, err, prometheus}
use tonggeret.Types.{
  MetricType, counter, gauge, histogram, MetricEntry, label_names_and_values, as_str,
}
use tonggeret.Engine.{Registry}

-- What the code uses of the crate. `Reg` is a registry with the values of its collectors; an update
-- through a collector may panic, and does if the number of label values is not that of its labels.
pub record Library (F64 : Type 0) : Type 1 where
  pub Reg : Type 0
  pub Vec : Type 0
  pub Counter : Type 0
  pub empty : Reg
  pub counter_with_opts : Str → Str → Option Counter
  pub register_counter : Counter → Reg → Option Reg
  pub inc : Counter → Reg → Reg
  -- a new collector, by its kind, name, help, buckets (for a histogram) and label names
  pub new_vec : MetricType → Str → Str → List F64 → List Str → Option Vec
  pub register : Vec → Reg → Option Reg
  -- `with_label_values(..)`, then `inc_by`, `set` or `observe`
  pub observe : MetricType → Vec → List Str → F64 → Reg → Option Reg
  pub encode : Reg → Option Bytes
  pub arity : Vec → ℕ
  pub arity-new_vec :
      (kind : MetricType) (name help : Str) (buckets : List F64) (names : List Str) (v : Vec)
      → new_vec kind name help buckets names ≡ some v
      → arity v ≡ length names
  pub observe-arity :
      (kind : MetricType) (v : Vec) (values : List Str) (x : F64) (reg : Reg)
      → arity v ≢ length values
      → observe kind v values x reg ≡ none

-- `PromRegistry`
pub record PromRegistry (F64 Reg Vec Counter : Type 0) : Type 0 where
  pub registry : Reg
  pub counters : List (Str × Vec)
  pub gauges : List (Str × Vec)
  pub histograms : List (Str × Vec)
  pub dropped_total : Counter
  pub default_buckets : List F64

-- `map.get(name)`
unfoldable pub find : {Vec : Type 0} → Str → List (Str × Vec) → Option Vec
find name [] = none
find name ((n, v) ∷ m) = let rest = find name m in if str_eq n name then some v else rest

module _ {F64 : Type 0} (library : Library F64) where
  open library use {Reg, Vec, Counter}

  abbrev pub Prom : Type 0
  Prom = PromRegistry F64 Reg Vec Counter

  -- the map of a kind of collector
  abbrev pub vecs : MetricType → Prom → List (Str × Vec)
  vecs counter p = p.counters
  vecs gauge p = p.gauges
  vecs histogram p = p.histograms

  abbrev pub add_vec : MetricType → Str → Vec → Prom → Prom
  add_vec counter name v p = record p { counters = (name, v) ∷ p.counters }
  add_vec gauge name v p = record p { gauges = (name, v) ∷ p.gauges }
  add_vec histogram name v p = record p { histograms = (name, v) ∷ p.histograms }

  -- `label_names_match`, `gauge_labels_match` and `histogram_labels_match`
  unfoldable pub label_names_match : Vec → List Str → Bool
  label_names_match v names = true

  abbrev pub help : MetricType → Str → Str
  help kind name = codes "tonggeret " ++ (as_str kind ++ (codes " " ++ name))

  -- what follows the registration of a collector: it is put in its map
  unfoldable pub registered : MetricType → Str → Vec → Option Reg → Prom → Option Vec × Prom
  registered kind name v none p = (none, p)
  registered kind name v (some reg) p = (some v, add_vec kind name v (record p { registry = reg }))

  -- the new collector, if its definition is valid, is registered
  unfoldable pub register_vec : MetricType → Str → Option Vec → Prom → Option Vec × Prom
  unfolding registered
  register_vec kind name none p = (none, p)
  register_vec kind name (some v) p = registered kind name v (library.register v p.registry) p

  -- what follows the look-up in the map
  unfoldable pub ensure_with : MetricType → Str → List Str → Option Vec → Prom → Option Vec × Prom
  unfolding label_names_match register_vec
  ensure_with kind name names (some v) p =
      if label_names_match v names then (some v, p) else (none, p)
  ensure_with kind name names none p =
      register_vec kind name (library.new_vec kind name (help kind name) p.default_buckets names) p

  -- `ensure_counter`, `ensure_gauge` and `ensure_histogram`
  unfoldable pub ensure : MetricType → Str → List Str → Prom → Option Vec × Prom
  unfolding ensure_with find
  ensure kind name names p = ensure_with kind name names (find name (vecs kind p)) p

  -- the update through the collector, if there is one
  unfoldable pub observe_with : MetricType → List Str → F64 → Option Vec × Prom → Option Prom
  observe_with kind values x (none, p) = some p
  observe_with kind values x (some v, p) = do
    reg ← library.observe kind v values x p.registry
    some (record p { registry = reg })

  -- `update`, with `observe_counter`, `observe_gauge` and `observe_histogram`
  unfoldable pub update : MetricEntry F64 → Prom → Option Prom
  unfolding observe_with ensure
  update e p =
      let (names, values) = label_names_and_values e.labels in
      observe_with e.metric_type values e.value (ensure e.metric_type e.name names p)

  -- `inc_dropped`
  unfoldable pub inc_dropped : Prom → Prom
  inc_dropped p = record p { registry = library.inc p.dropped_total p.registry }

  abbrev text_of : Option Str → Result Str
  text_of none = err (prometheus (codes "utf8"))
  text_of (some s) = ok s

  -- `gather_text`
  unfoldable pub gather_text : Prom → Result Str
  gather_text p = elim (library.encode p.registry) [
    | none ↦ err (prometheus (codes "encode"))
    | some bytes ↦ text_of (from_utf8 bytes)
  ]

  -- `PromRegistry::new`
  unfoldable pub new_prom : List F64 → Result Prom
  new_prom buckets =
      elim (library.counter_with_opts (codes "tonggeret_dropped_total")
        (codes "Total metric samples dropped because the Fjall channel was full")) [
          | none ↦ err (prometheus (codes "counter"))
          | some dropped ↦ elim (library.register_counter dropped library.empty) [
            | none ↦ err (prometheus (codes "register"))
            | some reg ↦ ok (record {
              registry = reg;
              counters = [];
              gauges = [];
              histograms = [];
              dropped_total = dropped;
              default_buckets = buckets;
            })
          ]
        ]

  -- the registry of the engine
  abbrev pub prom_registry : Registry F64
  prom_registry = record {
    Reg = Prom;
    update = update;
    inc_dropped = inc_dropped;
    gather_text = gather_text;
  }
