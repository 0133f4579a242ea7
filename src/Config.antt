-- ===== src/Config.antt =====
-- config.rs. Sizes are numbers of bytes, durations are numbers of seconds, and the feature
-- `fjall-backend` is a Boolean.
pub mod Laws
use tonggeret.Base.{
  ℕ, ◌+◌, ◌*◌, ◌≡◌, refl, Bool, true, false, Option, none, some, List, [], ◌∷◌, map, min, ltb, ◌==◌,
  if◌then◌else◌, codes,
}
use tonggeret.Text.{Str}
use tonggeret.Text.Hex.{max_u64}
use tonggeret.Error.{Error, Result, ok, err, invalid_config, ◌>>◌}
use tonggeret.FilePath.{FilePath, parent}

-- `FjallConfig`
pub record FjallConfig : Type 0 where
  pub dir : FilePath
  pub cache_size_bytes : ℕ
  pub memtable_bytes : ℕ
  pub cold_storage_dir : Option FilePath
  pub enable_compaction : Bool
  pub compaction_interval : ℕ
  pub retention : ℕ
  pub batch_rows : ℕ

-- `./data/fjall`
abbrev pub default_dir : FilePath
default_dir = record { rooted = false; parts = codes "." ∷ codes "data" ∷ codes "fjall" ∷ [] }

-- `FjallConfig::default`
abbrev pub default_fjall : FjallConfig
default_fjall = record {
  dir = default_dir;
  cache_size_bytes = 8 * 1024 * 1024;
  memtable_bytes = 2 * 1024 * 1024;
  cold_storage_dir = none;
  enable_compaction = true;
  compaction_interval = 3600;
  retention = 24 * 3600;
  batch_rows = 1000;
}

-- `FjallConfig::new`
unfoldable pub new_fjall : FilePath → FjallConfig
new_fjall dir = record default_fjall { dir = dir }

abbrev pub or_here : Option FilePath → FilePath
or_here none = record { rooted = false; parts = codes "." ∷ [] }
or_here (some p) = p

-- `FjallConfig::cold_dir`
unfoldable pub cold_dir : FjallConfig → FilePath
unfolding parent
cold_dir c = elim c.cold_storage_dir [ some d ↦ d | none ↦ or_here (parent c.dir) ]

-- `FjallConfig::memory_budget_bytes`, with `saturating_add`
unfoldable pub memory_budget_bytes : FjallConfig → ℕ
memory_budget_bytes c = min (c.cache_size_bytes + c.memtable_bytes) max_u64

-- `if bad { return Err(..) }`
abbrev pub reject_if : Bool → Str → Result (Unit {0})
reject_if true why = err (invalid_config why)
reject_if false why = ok tt

-- `FjallConfig::validate`
unfoldable pub validate_fjall : FjallConfig → Result (Unit {0})
validate_fjall c = do
  reject_if (ltb c.cache_size_bytes (1024 * 1024)) (codes "fjall.cache_size_bytes must be >= 1 MiB")
  reject_if (ltb c.memtable_bytes (256 * 1024)) (codes "fjall.memtable_bytes must be >= 256 KiB")
  reject_if (c.batch_rows == 0) (codes "fjall.batch_rows must be > 0")

-- the check of `fjall`, which depends on whether the feature is compiled in
unfoldable pub validate_backend : Bool → Option FjallConfig → Result (Unit {0})
unfolding validate_fjall
validate_backend feature none = ok tt
validate_backend true (some f) = validate_fjall f
validate_backend false (some f) =
    err (invalid_config (codes "fjall config supplied but `fjall-backend` feature is not enabled"))

-- `Config` with `PrometheusConfig`; a bucket bound is a value of type `F64`
pub record Config (F64 : Type 0) : Type 0 where
  pub channel_capacity : ℕ
  pub fjall : Option FjallConfig
  pub default_histogram_buckets : List F64

module _ {F64 : Type 0} where
  abbrev pub no_buckets : List F64 → Bool
  no_buckets [] = true
  no_buckets (b ∷ bs) = false

  -- `PrometheusConfig::default`, by the numbers of type `f64` that the literals are
  unfoldable pub prometheus_default : (ℕ → F64) → List F64
  prometheus_default of_ℕ = map of_ℕ (5 ∷ 10 ∷ 25 ∷ 50 ∷ 100 ∷ 250 ∷ 500 ∷ 1000 ∷ 2500 ∷ [])

  -- `Config::default_light`, given the default buckets
  unfoldable pub default_light : List F64 → Config F64
  default_light buckets = record {
    channel_capacity = 16384;
    fjall = none;
    default_histogram_buckets = buckets;
  }

  -- `Config::default_full`
  unfoldable pub default_full : List F64 → FilePath → Config F64
  unfolding new_fjall
  default_full buckets dir = record {
    channel_capacity = 16384;
    fjall = some (new_fjall dir);
    default_histogram_buckets = buckets;
  }

  -- `Config::default`, which is derived: zero capacity
  unfoldable pub derived_default : List F64 → Config F64
  derived_default buckets = record {
    channel_capacity = 0;
    fjall = none;
    default_histogram_buckets = buckets;
  }

  -- `Config::with_channel_capacity`
  unfoldable pub with_channel_capacity : Config F64 → ℕ → Config F64
  with_channel_capacity c cap_ = record c { channel_capacity = cap_ }

  -- `Config::with_fjall`
  unfoldable pub with_fjall : Config F64 → FjallConfig → Config F64
  with_fjall c f = record c { fjall = some f }

  -- `Config::validate`
  unfoldable pub validate : Bool → Config F64 → Result (Unit {0})
  unfolding validate_backend
  validate feature c = do
    reject_if (ltb c.channel_capacity 16) (codes "channel_capacity must be >= 16")
    reject_if (no_buckets c.default_histogram_buckets)
        (codes "prometheus.default_histogram_buckets must not be empty")
    validate_backend feature c.fjall
