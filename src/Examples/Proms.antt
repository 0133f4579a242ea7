-- ===== src/Examples/Proms.antt =====
-- A Prometheus library that counts updates, and updates of a registry over it.
use tonggeret.Base.{
  ℕ, suc, ◌≡◌, ◌≢◌, ◌⊎◌, refl, sym, none, some, List, [], ◌∷◌, ◌==◌, if◌then◌else◌, length, codes,
  arith, some_inj,
}
use tonggeret.Text.{str_eq}
use tonggeret.Types.{counter, label_names_and_values}
use tonggeret.Prometheus.{Library, Prom, find, vecs, update, new_prom}
use tonggeret.Prometheus.Collectors.{values_of, update-panics}
use tonggeret.Prometheus.Stable.{update_all, FailsAt, update_all-outcome}
use tonggeret.Prometheus.Arity.{HasArity}
use tonggeret.Error.{ok}
use tonggeret.Types.{MetricType, gauge, MetricEntry}
use tonggeret.Examples.Small.{sample}

pub none_if_other : (a b x : ℕ) → a ≢ b → (if a == b then some x else none) ≡ none
none_if_other a b x differs = ground arith

-- a collector is the number of its labels
abbrev pub library : Library ℕ
library = record {
  Reg = ℕ;
  Vec = ℕ;
  Counter = ℕ;
  empty = 0;
  counter_with_opts = λ name help. some 0;
  register_counter = λ c reg. some reg;
  inc = λ c reg. suc reg;
  new_vec = λ kind name help buckets names. some (length names);
  register = λ v reg. some reg;
  observe = λ kind v values x reg. if v == length values then some (suc reg) else none;
  encode = λ reg. some [];
  arity = λ v. v;
  arity-new_vec = λ kind name help buckets names v e. sym (some_inj e);
  observe-arity = λ kind v values x reg differs. none_if_other v (length values) (suc reg) differs;
}

-- a registry in which the counter `up` has as many labels as given
abbrev with_up : ℕ → Prom library
with_up labels = record {
  registry = 0;
  counters = (codes "up", labels) ∷ [];
  gauges = [];
  histograms = [];
  dropped_total = 0;
  default_buckets = 1 ∷ [];
}

up_found : find (codes "up") (vecs library counter (with_up 1)) ≡ some 1
unfolding find str_eq
up_found = refl

up_known : find (codes "up") (vecs library counter (with_up 0)) ≡ some 0
unfolding find str_eq
up_known = refl

other_labels : 1 ≢ length (values_of library sample)
unfolding label_names_and_values
other_labels e = absurd (omega (arith, e))

update-panics_example : update library sample (with_up 1) ≡ none
update-panics_example = update-panics library sample (with_up 1) 1 up_found other_labels

-- the labels of each metric: one for the gauge, none for the counter
abbrev keys : MetricType → List ℕ → ℕ
keys gauge name = 1
keys kind name = 0

abbrev per_region : MetricEntry ℕ
per_region = record sample { metric_type = gauge; labels = (codes "region", codes "ID") ∷ [] }

-- a new registry
abbrev pub fresh : Prom library
fresh = record (with_up 0) { counters = [] }

starts : new_prom library (1 ∷ []) ≡ ok fresh
unfolding new_prom
starts = refl

update_all-outcome_example :
    ((p' : Prom library) × (update_all library (sample ∷ per_region ∷ sample ∷ []) fresh ≡ some p')
      × HasArity library 1 (find (codes "up") (vecs library gauge p')))
    ⊎ (FailsAt library (sample ∷ per_region ∷ sample ∷ []) fresh
        × (update_all library (sample ∷ per_region ∷ sample ∷ []) fresh ≡ none))
update_all-outcome_example =
    update_all-outcome library keys (1 ∷ []) (sample ∷ per_region ∷ sample ∷ []) fresh gauge
      (codes "up") starts (refl, (refl, (refl, tt)))
