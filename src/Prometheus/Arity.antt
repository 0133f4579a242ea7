-- ===== src/Prometheus/Arity.antt =====
-- The collectors of a registry with a fixed number of labels for each metric: what `ensure` and an update keep.
use tonggeret.Base.{
  ℕ, ◌≡◌, refl, sym, ap, ◌∙◌, Option, none, some, List, ◌∷◌, length, length-map, some_inj,
  none≢some, Option-cases, Bool-cases, inl, inr,
}
use tonggeret.Text.{Str, str_eq}
use tonggeret.Text.Laws.{str_eq→eq}
use tonggeret.Types.{MetricType, counter, gauge, histogram, Label, label_names_and_values}
use tonggeret.Prometheus.{
  Library, Prom, find, vecs, add_vec, help, label_names_match, register_vec, registered,
  ensure_with, ensure,
}

module _ {F64 : Type 0} (library : Library F64) where
  open library use {Vec, Reg, arity}

  -- each collector has the number of labels of its metric
  unfoldable pub Conforms : (MetricType → Str → ℕ) → Prom library → Type 0
  Conforms keys p =
      (kind : MetricType) (name : Str) (v : Vec)
      → find name (vecs library kind p) ≡ some v
      → arity v ≡ keys kind name

  -- the collector, if there is one, has that number of labels
  abbrev pub HasArity : ℕ → Option Vec → Type 0
  HasArity n none = Unit
  HasArity n (some v) = arity v ≡ n

  pub found-HasArity :
      (n : ℕ) (o : Option Vec) → ((v : Vec) → o ≡ some v → arity v ≡ n) → HasArity n o
  found-HasArity n none h = tt
  found-HasArity n (some v) h = h v refl

  pub names-length :
      (labels : List Label) → length (label_names_and_values labels).0 ≡ length labels
  unfolding label_names_and_values
  names-length labels = length-map labels _

  pub values-length :
      (labels : List Label) → length (label_names_and_values labels).1 ≡ length labels
  unfolding label_names_and_values
  values-length labels = length-map labels _

  pub find-added :
      (n name : Str) (new v : Vec) (m : List (Str × Vec)) (keys : Str → ℕ)
      → arity new ≡ keys n
      → ((u : Vec) → find name m ≡ some u → arity u ≡ keys name)
      → find name ((n, new) ∷ m) ≡ some v
      → arity v ≡ keys name
  unfolding find
  find-added n name new v m keys fits others found = elim (Bool-cases (str_eq n name)) [
    | inl same ↦
        ap arity (sym (some_inj (rw same at found))) ∙ fits ∙ ap keys (str_eq→eq n name same)
    | inr differs ↦ others v (rw differs at found)
  ]

  pub add_vec-Conforms :
      (keys : MetricType → Str → ℕ) (of : MetricType) (n : Str) (new : Vec) (reg : Reg)
      (p : Prom library)
      → arity new ≡ keys of n
      → Conforms keys p
      → Conforms keys (add_vec library of n new (record p { registry = reg }))
  unfolding Conforms
  add_vec-Conforms keys counter n new reg p fits h counter name v =
      find-added n name new v p.counters (keys counter) fits (h counter name)
  add_vec-Conforms keys gauge n new reg p fits h gauge name v =
      find-added n name new v p.gauges (keys gauge) fits (h gauge name)
  add_vec-Conforms keys histogram n new reg p fits h histogram name v =
      find-added n name new v p.histograms (keys histogram) fits (h histogram name)
  add_vec-Conforms keys counter n new reg p fits h gauge name v = h gauge name v
  add_vec-Conforms keys counter n new reg p fits h histogram name v = h histogram name v
  add_vec-Conforms keys gauge n new reg p fits h counter name v = h counter name v
  add_vec-Conforms keys gauge n new reg p fits h histogram name v = h histogram name v
  add_vec-Conforms keys histogram n new reg p fits h counter name v = h counter name v
  add_vec-Conforms keys histogram n new reg p fits h gauge name v = h gauge name v

  -- what `ensure` gives conforms, the collector and the registry
  pub record Ensured (keys : MetricType → Str → ℕ) (kind : MetricType) (name : Str)
      (r : Option Vec × Prom library) : Type 0 where
    pub given : (v : Vec) → r.0 ≡ some v → arity v ≡ keys kind name
    pub conforms : Conforms keys r.1

  pub registered-Ensured :
      (keys : MetricType → Str → ℕ) (kind : MetricType) (name : Str) (v : Vec) (r : Option Reg)
      (p : Prom library)
      → arity v ≡ keys kind name
      → Conforms keys p
      → Ensured keys kind name (registered library kind name v r p)
  unfolding registered
  registered-Ensured keys kind name v none p fits h = record {
    given = λ u e. absurd (none≢some e);
    conforms = h;
  }
  registered-Ensured keys kind name v (some reg) p fits h = record {
    given = λ u e. ap arity (sym (some_inj e)) ∙ fits;
    conforms = add_vec-Conforms keys kind name v reg p fits h;
  }

  pub register_vec-Ensured :
      (keys : MetricType → Str → ℕ) (kind : MetricType) (name : Str) (o : Option Vec)
      (p : Prom library)
      → ((v : Vec) → o ≡ some v → arity v ≡ keys kind name)
      → Conforms keys p
      → Ensured keys kind name (register_vec library kind name o p)
  unfolding register_vec
  register_vec-Ensured keys kind name none p fits h = record {
    given = λ u e. absurd (none≢some e);
    conforms = h;
  }
  register_vec-Ensured keys kind name (some v) p fits h =
      registered-Ensured keys kind name v (library.register v p.registry) p (fits v refl) h

  pub ensure-Ensured :
      (keys : MetricType → Str → ℕ) (kind : MetricType) (name : Str) (names : List Str)
      (p : Prom library)
      → length names ≡ keys kind name
      → Conforms keys p
      → Ensured keys kind name (ensure library kind name names p)
  unfolding ensure ensure_with label_names_match
  ensure-Ensured keys kind name names p fits h =
      elim (Option-cases (find name (vecs library kind p))) [
        | inl fresh ↦ rw fresh (
            register_vec-Ensured keys kind name _ p
              (λ v made.
                library.arity-new_vec kind name (help library kind name) p.default_buckets names v
                  made
                ∙ fits)
              h)
        | inr (u, found) ↦ rw found (record {
          given = λ v e. ap arity (sym (some_inj e)) ∙ unfold Conforms in h kind name u found;
          conforms = h;
        })
      ]

  pub same_vecs :
      (kind : MetricType) (name : Str) (q : Prom library) (reg : Reg)
      → find name (vecs library kind (record q { registry = reg }))
        ≡ find name (vecs library kind q)
  same_vecs counter name q reg = refl
  same_vecs gauge name q reg = refl
  same_vecs histogram name q reg = refl

  pub observed-Conforms :
      (keys : MetricType → Str → ℕ) (q : Prom library) (reg : Reg)
      → Conforms keys q
      → Conforms keys (record q { registry = reg })
  unfolding Conforms
  observed-Conforms keys q reg h kind name v found =
      h kind name v (sym (same_vecs kind name q reg) ∙ found)
