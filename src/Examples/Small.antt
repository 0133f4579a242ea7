-- ===== src/Examples/Small.antt =====
-- Regions, sketches, the tracker and the hot path of the engine at concrete inputs.
use tonggeret.Base.{
  ℕ, suc, ◌+◌, ◌≡◌, refl, true, false, ◌&&◌, not, none, some, List, [], ◌∷◌, max, if◌then◌else◌,
  length, codes, arith,
}
use tonggeret.Text.{Str, str_eq}
use tonggeret.Error.{ok}
use tonggeret.Types.{MetricEntry, PipelineMsg, metric, counter}
use tonggeret.Channel.{Channel, View, send_view, recv_view, close_view}
use tonggeret.Engine.{
  Registry, EngineHandle, record_entry, update_registry, send, record_metric, global_record,
}
use tonggeret.Engine.Record.{queue_of, record_entry-outcome}
use tonggeret.Visitors.Region.{normalize_region, parse_region, region_unknown, region_other}
use tonggeret.Visitors.Hll.{hll_m, new, add, add_all, Floats}
use tonggeret.Visitors.Hll.Laws.{register, register-add_all, highest}
use tonggeret.Visitors.Tracker.{
  new_tracker, fold_visit, get, change, contains_key, observe, bucket_of,
}
use tonggeret.Visitors.Tracker.Bounds.{
  IsBounded, IsMap, new_tracker-IsBounded, fold_visit-IsBounded,
}
use tonggeret.Visitors.Tracker.Sketches.{
  sketch_after, fold_visits, fold_visits-sketch, observe-outcome, or_new, Counted,
}

-- a registry that counts its updates
abbrev pub registry : Registry ℕ
registry = record {
  Reg = ℕ;
  update = λ e n. some (suc n);
  inc_dropped = λ n. n;
  gather_text = λ n. ok [];
}

-- a channel that is its view
abbrev pub channel : Channel (PipelineMsg ℕ)
channel = record {
  Chan = View (PipelineMsg ℕ);
  view = λ v. v;
  create = λ n. record { capacity = n; queue = []; is_open = true };
  try_send = send_view;
  try_recv = recv_view;
  close = close_view;
  send_outcome = λ m c. refl;
  view-send = λ m c. refl;
  recv_outcome = λ c. refl;
  view-recv = λ c. refl;
  view-close = λ c. refl;
  view-create = λ n h. refl;
}

abbrev pub sample : MetricEntry ℕ
sample = record {
  timestamp = some 5000;
  name = codes "up";
  value = 3;
  metric_type = counter;
  labels = [];
}

-- an empty channel for two messages
abbrev pub room_for_two : View (PipelineMsg ℕ)
room_for_two = record { capacity = 2; queue = []; is_open = true }

abbrev pub handle : EngineHandle (View (PipelineMsg ℕ)) ℕ
handle = record {
  tx = some room_for_two;
  registry = some 0;
  dropped_total = 0;
  has_fjall = true;
  is_shutdown = false;
}

abbrev pub handle_after : EngineHandle (View (PipelineMsg ℕ)) ℕ
handle_after = record handle {
  tx = some (record room_for_two { queue = metric sample ∷ [] });
  registry = some 1;
}

pub records : record_entry registry channel sample handle ≡ some handle_after
unfolding record_entry update_registry send
records = refl

updates : update_registry registry channel sample handle.registry ≡ some (some 1)
unfolding update_registry
updates = refl

record_entry-outcome_example :
    (queue_of registry channel handle_after.tx ≡ metric sample ∷ [])
    × (handle_after.dropped_total ≡ handle.dropped_total)
    × (handle_after.registry ≡ some 1)
record_entry-outcome_example =
    record_entry-outcome registry channel sample handle handle_after room_for_two (some 1) refl refl
      updates records

abbrev hashes : List ℕ
hashes = 77 ∷ 4503599627370497 ∷ []

new_full : length new.registers ≡ hll_m
unfolding new
new_full = refl

register-add_all_example :
    register (add_all hashes new).registers 1 ≡ max (register new.registers 1) (highest 1 hashes)
register-add_all_example = register-add_all hashes new 1 (omega arith, (omega arith, tt)) new_full

-- the identity as a hash
abbrev hash_of : ℕ → ℕ
hash_of n = n

fold_visit-IsBounded_example :
    IsBounded (fold_visit hash_of 77 (codes "DE") (new_tracker 3))
    × IsMap (fold_visit hash_of 77 (codes "DE") (new_tracker 3)).inner
fold_visit-IsBounded_example =
    fold_visit-IsBounded hash_of 77 (codes "DE") (new_tracker 3) (new_tracker-IsBounded 3).0
      (new_tracker-IsBounded 3).1

abbrev visits : List (ℕ × Str)
visits = (77, codes "DE") ∷ (5, codes "fr") ∷ []

two_regions : length (fold_visits hash_of visits (new_tracker 5)).inner ≡ 2
unfolding fold_visits fold_visit new_tracker bucket_of change contains_key normalize_region str_eq
    tonggeret.Visitors.Region.is_country tonggeret.Text.len tonggeret.Text.trim
    tonggeret.Text.Utf8.utf8
two_regions = refl

cap_five : (new_tracker 5).max_regions ≡ 5
unfolding new_tracker
cap_five = refl

fold_visits-sketch_example :
    get (codes "DE") (fold_visits hash_of visits (new_tracker 5)).inner
    ≡ sketch_after hash_of (codes "DE") visits (get (codes "DE") (new_tracker 5).inner)
fold_visits-sketch_example =
    fold_visits-sketch hash_of visits (new_tracker 5) (codes "DE")
      (omega (arith, two_regions, cap_five))

abbrev pub floats : Floats
floats = record {
  F64 = ℕ;
  of_ℕ = λ n. n;
  c_0_7213 = 1;
  c_1_079 = 1;
  c_2_5 = 2;
  plus = λ a b. a + b;
  times = λ a b. a + b;
  over = λ a b. a;
  at_most = λ a b. true;
  powi_2 = λ n. n;
  ln = λ a. a;
  to_u64 = λ a. a;
}

abbrev length_of : Str → ℕ
length_of s = length s

observed :
    observe floats registry channel length_of false none
      (codes "v")
      (codes "DE")
      (new_tracker 3)
      none
    ≡ some (
      true,
      fold_visit length_of (codes "v") (normalize_region (codes "DE")) (new_tracker 3),
      none,
    )
unfolding observe record_metric global_record tonggeret.Types.new_entry
    tonggeret.Types.sanitize_labels tonggeret.Types.sanitize_up_to tonggeret.Types.is_dropped
    tonggeret.Text.is_empty tonggeret.Types.sanitize_metric_name tonggeret.Text.trim str_eq
    tonggeret.Types.sanitize_label tonggeret.Types.cap_text tonggeret.Text.len normalize_region
    tonggeret.Visitors.Region.is_country tonggeret.Text.Utf8.utf8
observed = refl

observe-outcome_example :
    Counted floats registry channel length_of none (codes "DE") none none
    × (true ≡ not false)
    × (get
          (codes "DE")
          (fold_visit length_of (codes "v") (normalize_region (codes "DE")) (new_tracker 3)).inner
        ≡ (if not false
              && str_eq (codes "DE") (bucket_of (normalize_region (codes "DE")) (new_tracker 3))
            then some (add length_of (codes "v") (or_new (get (codes "DE") (new_tracker 3).inner)))
            else get (codes "DE") (new_tracker 3).inner))
observe-outcome_example =
    observe-outcome floats registry channel length_of false none (codes "v") (codes "DE")
      (new_tracker 3) none true
      (fold_visit length_of (codes "v") (normalize_region (codes "DE")) (new_tracker 3)) none
      (codes "DE") observed
