-- ===== src/Examples/Gauges.antt =====
-- A snapshot of a tracker after two visits.
use tonggeret.Base.{
  ℕ, ◌≡◌, ◌≢◌, refl, sym, ap, ◌∙◌, some_inj, none≢some, true, none, false, Option, some, List, [],
  ◌∷◌, length, codes, arith,
}
use tonggeret.Text.{Str}
use tonggeret.Types.{MetricEntry, PipelineMsg, gauge, new_entry, sanitize_labels}
use tonggeret.Channel.{View}
use tonggeret.Engine.{EngineHandle, update_registry}
use tonggeret.Engine.Room.{HasRoom, update_registries}
use tonggeret.Visitors.Tracker.{Tracker, new_tracker, snapshot, unique_visitors_estimate}
use tonggeret.Visitors.Tracker.Sketches.{fold_visits}
use tonggeret.Visitors.Tracker.Gauges.{Exported, AreGauges, snapshot-Exported}
use tonggeret.Examples.Small.{channel, floats, room_for_two}
use tonggeret.Prometheus.{Prom, prom_registry, update}
use tonggeret.Examples.Proms.{library, fresh}
use mathlib.Core.List.Permᴰ

-- the hash of a visitor is the length of its key
abbrev hash_key : Str → ℕ
hash_key s = length s

abbrev visits : List (Str × Str)
visits = (codes "ada", codes "id") ∷ (codes "bob", codes "US") ∷ []

abbrev seen : Tracker
seen = fold_visits hash_key visits (new_tracker 8)

abbrev clock : Str → Option ℕ
clock region = some 7

two_regions : length seen.inner ≡ 2
unfolding fold_visits tonggeret.Visitors.Tracker.fold_visit new_tracker tonggeret.Text.str_eq
    tonggeret.Visitors.Region.normalize_region tonggeret.Visitors.Region.is_country
    tonggeret.Text.len tonggeret.Text.trim tonggeret.Text.Utf8.utf8
two_regions = refl

-- an engine with a Prometheus registry that has no collector yet
abbrev with_prom : EngineHandle (View (PipelineMsg ℕ)) (Prom library)
with_prom = record {
  tx = some room_for_two;
  registry = some fresh;
  dropped_total = 0;
  has_fjall = true;
  is_shutdown = false;
}

room : HasRoom (prom_registry library) channel (length seen.inner) with_prom room_for_two
room = record { up = refl; tx = refl; is_open = refl; room = omega (arith, two_regions) }

-- the gauges of the two regions, of any value
abbrev gauge_of : Str → ℕ → Option (MetricEntry ℕ)
gauge_of region x =
    new_entry (some 7) unique_visitors_estimate x gauge ((codes "region", region) ∷ [])

made_id : (x : ℕ) → (e : MetricEntry ℕ) × (gauge_of (codes "ID") x ≡ some e)
unfolding new_entry sanitize_labels tonggeret.Types.sanitize_up_to tonggeret.Types.is_dropped
    tonggeret.Text.is_empty tonggeret.Types.sanitize_metric_name tonggeret.Text.trim
    tonggeret.Text.str_eq tonggeret.Types.sanitize_label tonggeret.Types.cap_text tonggeret.Text.len
made_id x = (_, refl)

made_us : (x : ℕ) → (e : MetricEntry ℕ) × (gauge_of (codes "US") x ≡ some e)
unfolding new_entry sanitize_labels tonggeret.Types.sanitize_up_to tonggeret.Types.is_dropped
    tonggeret.Text.is_empty tonggeret.Types.sanitize_metric_name tonggeret.Text.trim
    tonggeret.Text.str_eq tonggeret.Types.sanitize_label tonggeret.Types.cap_text tonggeret.Text.len
made_us x = (_, refl)

both_taken :
    (x y : ℕ)
    → (o : Option (Prom library)) × (update_registries
          (prom_registry library)
          channel
          ((made_id x).0 ∷ (made_us y).0 ∷ [])
          (some fresh)
        ≡ some o)
unfolding made_id made_us update_registries update_registry update
    tonggeret.Types.label_names_and_values
both_taken x y = (_, refl)

both_takes :
    (x y : ℕ) (e d : MetricEntry ℕ)
    → gauge_of (codes "ID") x ≡ some e
    → gauge_of (codes "US") y ≡ some d
    → update_registries (prom_registry library) channel (e ∷ d ∷ []) (some fresh) ≢ none
both_takes x y e d made1 made2 panics =
    let same1 : (made_id x).0 ≡ e = some_inj (sym (made_id x).1 ∙ made1) in
    let same2 : (made_us y).0 ≡ d = some_inj (sym (made_us y).1 ∙ made2) in
    none≢some (
      sym panics
      ∙ sym (
          ap (λ g. update_registries (prom_registry library) channel (g ∷ d ∷ []) (some fresh))
            same1)
      ∙ sym (
          ap
            (λ g.
              update_registries (prom_registry library) channel ((made_id x).0 ∷ g ∷ [])
                (some fresh))
            same2)
      ∙ (both_taken x y).1)

takes :
    (gauges : List (MetricEntry ℕ))
    → AreGauges floats (prom_registry library) channel hash_key clock seen.inner gauges
    → update_registries (prom_registry library) channel gauges (some fresh) ≢ none
unfolding fold_visits tonggeret.Visitors.Tracker.fold_visit new_tracker tonggeret.Text.str_eq
    tonggeret.Visitors.Region.normalize_region tonggeret.Visitors.Region.is_country
    tonggeret.Text.len tonggeret.Text.trim tonggeret.Text.Utf8.utf8
takes [] made = absurd made
takes (e ∷ []) (made1, made2) = absurd made2
takes (e ∷ d ∷ []) (made1, (made2, u)) = both_takes _ _ e d made1 made2
takes (e ∷ d ∷ x ∷ xs) (made1, (made2, made3)) = absurd made3

snapshot-Exported_example :
    (h' : EngineHandle (View (PipelineMsg ℕ)) (Prom library)) × (snapshot floats
        (prom_registry library)
        channel
        hash_key
        false
        (λ m. m)
        clock
        seen
        (some with_prom)
      ≡ some (length seen.inner, some h'))
    × Exported floats
        (prom_registry library)
        channel
        hash_key
        clock
        seen.inner
        with_prom
        room_for_two
        h'
snapshot-Exported_example =
    snapshot-Exported floats (prom_registry library) channel hash_key (λ m. m) clock 8 visits
      with_prom room_for_two Permᴰ.refl room takes
