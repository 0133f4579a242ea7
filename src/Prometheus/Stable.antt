-- ===== src/Prometheus/Stable.antt =====
-- Observations whose metrics keep their number of labels: what is left that can panic.
use tonggeret.Base.{
  ℕ, ◌≡◌, ◌⊎◌, ◌++◌, refl, sym, ap, ◌∙◌, Option, none, some, List, [], ◌∷◌, length, All, ◌>>=◌,
  none≢some, Option-cases, inl, inr, arith,
}
use tonggeret.Text.{Str}
use tonggeret.Error.{ok}
use tonggeret.Types.{MetricType, counter, gauge, histogram, MetricEntry, label_names_and_values}
use tonggeret.Prometheus.{Library, Prom, find, vecs, ensure, observe_with, update, new_prom}
use tonggeret.Prometheus.Collectors.{values_of}
use tonggeret.Prometheus.Arity.{
  Conforms, HasArity, found-HasArity, names-length, values-length, Ensured, ensure-Ensured,
  observed-Conforms,
}

-- with the same number of labels as each other observation of the metric
abbrev pub Fits : {F64 : Type 0} → (MetricType → Str → ℕ) → MetricEntry F64 → Type 0
Fits keys e = length e.labels ≡ keys e.metric_type e.name

module _ {F64 : Type 0} (library : Library F64) where
  open library use {Vec, Reg, arity}

  -- updates one after the other
  unfoldable pub update_all : List (MetricEntry F64) → Prom library → Option (Prom library)
  update_all [] p = some p
  update_all (e ∷ es) p = do p' ← update library e p; update_all es p'

  -- a new registry has no collector
  new_prom-vecs :
      (buckets : List F64) (p : Prom library) (kind : MetricType)
      → new_prom library buckets ≡ ok p
      → vecs library kind p ≡ []
  unfolding new_prom
  new_prom-vecs buckets p counter made = ground arith
  new_prom-vecs buckets p gauge made = ground arith
  new_prom-vecs buckets p histogram made = ground arith

  new_prom-Conforms :
      (keys : MetricType → Str → ℕ) (buckets : List F64) (p : Prom library)
      → new_prom library buckets ≡ ok p
      → Conforms library keys p
  unfolding Conforms find
  new_prom-Conforms keys buckets p made kind name v found =
      absurd (none≢some (ap (find name) (sym (new_prom-vecs buckets p kind made)) ∙ found))

  -- the collector of the metric of an entry, if there is one, and the registry that then has it
  abbrev pub ensured : MetricEntry F64 → Prom library → Option Vec × Prom library
  ensured e p = ensure library e.metric_type e.name (label_names_and_values e.labels).0 p

  -- an update that panics since the library refuses the observation, though there are as many values as
  -- the collector has labels
  pub record Refused (e : MetricEntry F64) (q : Prom library) : Type 0 where
    pub vec : Vec
    pub given : (ensured e q).0 ≡ some vec
    pub same_labels : arity vec ≡ length (values_of library e)
    pub refused :
        library.observe e.metric_type vec (values_of library e) e.value (ensured e q).1.registry
        ≡ none

  -- updates of which one panics so, after those before it
  pub record FailsAt (es : List (MetricEntry F64)) (p : Prom library) : Type 0 where
    pub before : List (MetricEntry F64)
    pub entry : MetricEntry F64
    pub after : List (MetricEntry F64)
    pub parts : es ≡ before ++ entry ∷ after
    pub at_entry : Prom library
    pub reached : update_all before p ≡ some at_entry
    pub refused : Refused entry at_entry

  -- a collector that is given conforms, so it has as many labels as there are values
  update-by :
      (keys : MetricType → Str → ℕ) (e : MetricEntry F64) (q : Prom library) (o : Option Vec)
      → (ensured e q).0 ≡ o
      → Fits keys e
      → Ensured library keys e.metric_type e.name (ensured e q)
      → ((p' : Prom library) × (observe_with library e.metric_type
              (values_of library e)
              e.value
              (o, (ensured e q).1)
            ≡ some p')
          × Conforms library keys p')
        ⊎ (Refused e q
            × (observe_with library e.metric_type (values_of library e) e.value (o, (ensured e q).1)
                ≡ none))
  unfolding observe_with
  update-by keys e q none at_none fits r = inl ((ensured e q).1, refl, r.conforms)
  update-by keys e q (some v) at_some fits r =
      let reg = (ensured e q).1.registry in
      elim (Option-cases (library.observe e.metric_type v (values_of library e) e.value reg)) [
        | inl panics ↦ inr (
          record {
            vec = v;
            given = at_some;
            same_labels = r.given v at_some ∙ sym (values-length library e.labels ∙ fits);
            refused = panics;
          },
          rw panics refl,
        )
        | inr (reg', done) ↦ inl (
          record (ensured e q).1 { registry = reg' },
          rw done refl,
          observed-Conforms library keys (ensured e q).1 reg' r.conforms,
        )
      ]

  update-cases :
      (keys : MetricType → Str → ℕ) (e : MetricEntry F64) (q : Prom library)
      → Fits keys e
      → Conforms library keys q
      → ((p' : Prom library) × (update library e q ≡ some p') × Conforms library keys p')
        ⊎ (Refused e q × (update library e q ≡ none))
  unfolding update
  update-cases keys e q fits h = update-by keys e q (ensured e q).0 refl fits (
      ensure-Ensured library keys e.metric_type e.name _ q (names-length library e.labels ∙ fits) h)

  update_all-cases :
      (keys : MetricType → Str → ℕ) (es : List (MetricEntry F64)) (p : Prom library)
      → All (Fits keys) es
      → Conforms library keys p
      → ((p' : Prom library) × (update_all es p ≡ some p') × Conforms library keys p')
        ⊎ (FailsAt es p × (update_all es p ≡ none))
  unfolding update_all
  update_all-cases keys [] p fits h = inl (p, refl, h)
  update_all-cases keys (e ∷ es) p (fits, others) h = elim (update-cases keys e p fits h) [
    | inr (refused, panics) ↦ inr (
      record {
        before = [];
        entry = e;
        after = es;
        parts = refl;
        at_entry = p;
        reached = refl;
        refused = refused;
      },
      rw panics refl,
    )
    | inl (p1, updated, conforms) ↦ elim (update_all-cases keys es p1 others conforms) [
      | inl (p', all_updated, still) ↦ inl (p', rw updated all_updated, still)
      | inr (fails, panics) ↦ inr (
        record {
          before = e ∷ fails.before;
          entry = fails.entry;
          after = fails.after;
          parts = ap (λ xs. e ∷ xs) fails.parts;
          at_entry = fails.at_entry;
          reached = rw updated fails.reached;
          refused = fails.refused;
        },
        rw updated panics,
      )
    ]
  ]

  -- On a new registry, updates by any observations, of which those of one kind and one name have the
  -- same number of labels, in any order: either all return, and then the collector of any kind and
  -- name, if there is one, has that number of labels; or one panics, after those before it have
  -- returned, since the library refuses an observation through the collector of its metric, to which
  -- as many values were given as it has labels. So none panics for the number of its labels.
  pub update_all-outcome :
      (keys : MetricType → Str → ℕ) (buckets : List F64) (es : List (MetricEntry F64))
      (p : Prom library) (kind : MetricType) (name : Str)
      → new_prom library buckets ≡ ok p
      → All (Fits keys) es
      → ((p' : Prom library) × (update_all es p ≡ some p')
          × HasArity library (keys kind name) (find name (vecs library kind p')))
        ⊎ (FailsAt es p × (update_all es p ≡ none))
  update_all-outcome keys buckets es p kind name made fits =
      elim (update_all-cases keys es p fits (new_prom-Conforms keys buckets p made)) [
        | inl (p', updated, conforms) ↦ inl (
          p',
          updated,
          found-HasArity library (keys kind name) _ (unfold Conforms in conforms kind name),
        )
        | inr failed ↦ inr failed
      ]
