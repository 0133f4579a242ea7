-- ===== src/Prometheus/Collectors.antt =====
-- A collector stays with the label names of its first observation.
use tonggeret.Base.{
  ◌≡◌, ◌≢◌, refl, sym, ap, ◌∙◌, Option, none, some, List, ◌∷◌, length, >>=-eq-some, some_inj,
  none≢some, Option-cases, Bool-cases, inl, inr,
}
use tonggeret.Text.{Str, str_eq}
use tonggeret.Text.Laws.{str_eq→eq}
use tonggeret.Types.{MetricType, counter, gauge, histogram, MetricEntry, label_names_and_values}
use tonggeret.Prometheus.{
  Library, Prom, find, vecs, add_vec, label_names_match, register_vec, registered, ensure_with,
  ensure, observe_with, update,
}

module _ {F64 : Type 0} (library : Library F64) where
  open library use {Vec, arity}

  -- the values of the labels of an entry
  abbrev pub values_of : MetricEntry F64 → List Str
  values_of e = (label_names_and_values e.labels).1

  -- An update of a metric that has a collector panics if the number of labels is not that of the
  -- collector.
  pub update-panics :
      (e : MetricEntry F64) (p : Prom library) (v : Vec)
      → find e.name (vecs library e.metric_type p) ≡ some v
      → arity v ≢ length (values_of e)
      → update library e p ≡ none
  unfolding update ensure observe_with ensure_with label_names_match
  update-panics e p v known differs =
      rw (known, library.observe-arity e.metric_type v (values_of e) e.value p.registry differs)

  observe_with-vecs :
      (of : MetricType) (values : List Str) (x : F64) (o : Option Vec) (q p' : Prom library)
      (kind : MetricType) (name : Str)
      → observe_with library of values x (o, q) ≡ some p'
      → find name (vecs library kind p') ≡ find name (vecs library kind q)
  unfolding observe_with
  observe_with-vecs of values x none q p' kind name done =
      ap (λ r. find name (vecs library kind r)) (sym (some_inj done))
  observe_with-vecs of values x (some v) q p' kind name done =
      let (reg, observed, made) = >>=-eq-some (library.observe of v values x q.registry) _ done in
      ap (λ r. find name (vecs library kind r)) (sym (some_inj made)) ∙ same_vecs kind name q reg
    where
      same_vecs :
          (kind : MetricType) (name : Str) (q : Prom library) (reg : library.Reg)
          → find name (vecs library kind (record q { registry = reg }))
            ≡ find name (vecs library kind q)
      same_vecs counter name q reg = refl
      same_vecs gauge name q reg = refl
      same_vecs histogram name q reg = refl

  find-add :
      (n name : Str) (new v : Vec) (m : List (Str × Vec))
      → find n m ≡ none
      → find name m ≡ some v
      → find name ((n, new) ∷ m) ≡ some v
  unfolding find
  find-add n name new v m fresh known = elim (Bool-cases (str_eq n name)) [
    | inl same ↦ absurd (none≢some (sym (rw (str_eq→eq n name same) at fresh) ∙ known))
    | inr differs ↦ rw differs known
  ]

  add_vec-keeps :
      (of kind : MetricType) (n name : Str) (new v : Vec) (reg : library.Reg) (p : Prom library)
      → find n (vecs library of p) ≡ none
      → find name (vecs library kind p) ≡ some v
      → find name (vecs library kind (add_vec library of n new (record p { registry = reg })))
        ≡ some v
  add_vec-keeps counter counter n name new v reg p fresh known =
      find-add n name new v p.counters fresh known
  add_vec-keeps gauge gauge n name new v reg p fresh known =
      find-add n name new v p.gauges fresh known
  add_vec-keeps histogram histogram n name new v reg p fresh known =
      find-add n name new v p.histograms fresh known
  add_vec-keeps counter gauge n name new v reg p fresh known = known
  add_vec-keeps counter histogram n name new v reg p fresh known = known
  add_vec-keeps gauge counter n name new v reg p fresh known = known
  add_vec-keeps gauge histogram n name new v reg p fresh known = known
  add_vec-keeps histogram counter n name new v reg p fresh known = known
  add_vec-keeps histogram gauge n name new v reg p fresh known = known

  registered-keeps :
      (of kind : MetricType) (n name : Str) (new : Vec) (r : Option library.Reg) (v : Vec)
      (p : Prom library)
      → find n (vecs library of p) ≡ none
      → find name (vecs library kind p) ≡ some v
      → find name (vecs library kind (registered library of n new r p).1) ≡ some v
  unfolding registered
  registered-keeps of kind n name new none v p fresh known = known
  registered-keeps of kind n name new (some reg) v p fresh known =
      add_vec-keeps of kind n name new v reg p fresh known

  register_vec-keeps :
      (of kind : MetricType) (n name : Str) (o : Option Vec) (v : Vec) (p : Prom library)
      → find n (vecs library of p) ≡ none
      → find name (vecs library kind p) ≡ some v
      → find name (vecs library kind (register_vec library of n o p).1) ≡ some v
  unfolding register_vec
  register_vec-keeps of kind n name none v p fresh known = known
  register_vec-keeps of kind n name (some new) v p fresh known =
      registered-keeps of kind n name new (library.register new p.registry) v p fresh known

  ensure-keeps :
      (of : MetricType) (n : Str) (names : List Str) (p : Prom library) (kind : MetricType)
      (name : Str) (v : Vec)
      → find name (vecs library kind p) ≡ some v
      → find name (vecs library kind (ensure library of n names p).1) ≡ some v
  unfolding ensure ensure_with label_names_match
  ensure-keeps of n names p kind name v known = elim (Option-cases (find n (vecs library of p))) [
    | inl fresh ↦ rw fresh (register_vec-keeps of kind n name _ v p fresh known)
    | inr (u, found) ↦ rw found known
  ]

  -- An update that returns keeps each collector that there was, of any kind, under its name.
  pub update-keeps :
      (e : MetricEntry F64) (p p' : Prom library) (kind : MetricType) (name : Str) (v : Vec)
      → find name (vecs library kind p) ≡ some v
      → update library e p ≡ some p'
      → find name (vecs library kind p') ≡ some v
  unfolding update
  update-keeps e p p' kind name v known done =
      let (names, values) = label_names_and_values e.labels in
      let q = ensure library e.metric_type e.name names p in
      observe_with-vecs e.metric_type (values_of e) e.value q.0 q.1 p' kind name done
      ∙ ensure-keeps e.metric_type e.name names p kind name v known
