-- ===== src/Config/Laws.antt =====
-- What `validate` accepts, which of the ready-made configurations it accepts, and the budget.
use tonggeret.Base.{
  ◌+◌, ◌*◌, ◌≤◌, ◌<◌, ◌≡◌, ◌≢◌, ◌↔◌, refl, Bool, true, false, Option, none, some, List, [], ◌∷◌,
  arith,
}
use tonggeret.Text.Hex.{max_u64}
use tonggeret.Error.{ok}
use tonggeret.FilePath.{FilePath}
use tonggeret.Config.{
  FjallConfig, new_fjall, memory_budget_bytes, validate_fjall, Config, default_light, default_full,
  derived_default, validate_backend, validate,
}

-- the bounds on the store's settings
pub record IsFjall (c : FjallConfig) : Type 0 where
  pub cache : 1024 * 1024 ≤ c.cache_size_bytes
  pub memtable : 256 * 1024 ≤ c.memtable_bytes
  pub rows : 0 < c.batch_rows

validate_fjall_iff : (c : FjallConfig) → (validate_fjall c ≡ ok tt) ↔ IsFjall c
unfolding validate_fjall
validate_fjall_iff c = ground arith

-- the store's settings are given only with the feature, and are in bounds
abbrev pub IsBackend : Bool → Option FjallConfig → Type 0
IsBackend feature none = Unit
IsBackend feature (some f) = (feature ≡ true) × IsFjall f

pub record IsConfig {F64 : Type 0} (feature : Bool) (c : Config F64) : Type 0 where
  pub capacity : 16 ≤ c.channel_capacity
  pub buckets : c.default_histogram_buckets ≢ []
  pub backend : IsBackend feature c.fjall

validate_backend_iff :
    (feature : Bool) (f : Option FjallConfig)
    → (validate_backend feature f ≡ ok tt) ↔ IsBackend feature f
unfolding validate_backend
validate_backend_iff feature none = ground arith
validate_backend_iff true (some f) = ground (arith, validate_fjall_iff f)
validate_backend_iff false (some f) = ground arith

-- `validate` accepts exactly the configurations with a capacity of at least 16, at least one
-- bucket, and store settings, if any, that are in bounds and come with the feature.
pub validate_iff :
    {F64 : Type 0} (feature : Bool) (c : Config F64)
    → (validate feature c ≡ ok tt) ↔ IsConfig feature c
unfolding validate
validate_iff feature c = ground (arith, validate_backend_iff feature c.fjall)

-- `default_light` is accepted with or without the feature, if there is a bucket, and `default_full`
-- exactly with it; what `Config::default()` gives is refused.
pub validate-defaults :
    {F64 : Type 0} (feature : Bool) (b : F64) (bs : List F64) (dir : FilePath)
    → (validate feature (default_light (b ∷ bs)) ≡ ok tt)
      × ((validate feature (default_full (b ∷ bs) dir) ≡ ok tt) ↔ (feature ≡ true))
      × (validate feature (derived_default (b ∷ bs)) ≢ ok tt)
unfolding validate default_light default_full derived_default
validate-defaults true b bs dir = (refl, ground arith, cc)
validate-defaults false b bs dir = (refl, ground arith, cc)

-- The budget of an accepted store is at least 1.25 MiB, and it is the sum of its two parts unless
-- that passes `u64::MAX`.
pub memory_budget-validate :
    (c : FjallConfig)
    → validate_fjall c ≡ ok tt
    → (1280 * 1024 ≤ memory_budget_bytes c)
      × (memory_budget_bytes c ≤ c.cache_size_bytes + c.memtable_bytes)
      × (c.cache_size_bytes + c.memtable_bytes ≤ max_u64
          → memory_budget_bytes c ≡ c.cache_size_bytes + c.memtable_bytes)
unfolding memory_budget_bytes
memory_budget-validate c h =
    let fits : IsFjall c = (validate_fjall_iff c).0 h in
    (omega arith, omega arith, λ k. omega arith)

-- the default budget is 10 MiB
budget_default : (dir : FilePath) → memory_budget_bytes (new_fjall dir) ≡ 10 * 1024 * 1024
unfolding memory_budget_bytes new_fjall
budget_default dir = refl
