-- ===== src/Examples/Requests.antt =====
-- The middlewares and the search for a cold file at concrete inputs.
use tonggeret.Base.{
  ℕ, ◌≡◌, ◌≢◌, refl, true, false, Option, none, some, List, [], ◌∷◌, codes, arith, sym, ap, ◌∙◌,
  some_inj, none≢some,
}
use tonggeret.Text.{Str}
use tonggeret.Text.Decimal.{decimal}
use tonggeret.Types.{MetricEntry, PipelineMsg, counter, histogram, new_entry, sanitize_labels}
use tonggeret.Channel.{View}
use tonggeret.Engine.{EngineHandle, update_registry}
use tonggeret.Engine.Room.{update_registries}
use tonggeret.Prometheus.{Prom, prom_registry, update}
use tonggeret.Storage.ColdFiles.{latest_cold_file}
use tonggeret.Storage.ColdFiles.Newest.{IsLatest, latest_cold_file-IsLatest}
use tonggeret.Middleware.Requests.{
  Request, Clock, path_label, http_requests_total, http_request_duration_ms, request_labels,
  status_labels,
}
use tonggeret.Middleware.Axum.{track}
use tonggeret.Middleware.Actix.{Called, failed, call}
use tonggeret.Middleware.Agree.{answer_status, call-track}
use tonggeret.Middleware.Counted.{Counted, AreMade, track-Counted}
use tonggeret.Examples.Proms.{library, fresh}
use tonggeret.Examples.Small.{registry, channel, floats, handle, room_for_two}

abbrev clock : Clock ℕ
clock = record { at_counter = some 1; at_histogram = some 2; elapsed_ms = 12 }

abbrev request : Request
request = record {
  method = codes "GET";
  matched = none;
  path = codes "/users";
  header = λ name. none;
  peer = none;
}

abbrev Engine : Type 0
Engine = Option (EngineHandle (View (PipelineMsg ℕ)) ℕ)

-- a service that fails
abbrev fails : Engine → Option (Called ℕ ℕ × Engine)
fails g = some (failed 503, g)

abbrev status_of : ℕ → ℕ
status_of n = n

call-track_example :
    call floats registry channel status_of status_of clock request fails (some handle)
    ≡ track floats registry channel
        (answer_status status_of status_of)
        clock
        request
        fails
        (some handle)
call-track_example =
    call-track floats registry channel status_of status_of clock request fails (some handle)

-- an engine with a Prometheus registry that has no collector yet
abbrev with_prom : EngineHandle (View (PipelineMsg ℕ)) (Prom library)
with_prom = record {
  tx = some room_for_two;
  registry = some fresh;
  dropped_total = 0;
  has_fjall = true;
  is_shutdown = false;
}

abbrev PromEngine : Type 0
PromEngine = Option (EngineHandle (View (PipelineMsg ℕ)) (Prom library))

abbrev prom_answers : PromEngine → Option (ℕ × PromEngine)
prom_answers g = some (404, g)

cut_path : path_label none (codes "/users") ≡ some (codes "/users")
unfolding path_label tonggeret.Middleware.truncate_path tonggeret.Text.Utf8.utf8 tonggeret.Text.len
cut_path = refl

-- the count and the duration of the request
made_count :
    (e : MetricEntry ℕ) × (new_entry
        (some 1)
        http_requests_total
        1
        counter
        (status_labels (codes "GET") (codes "/users") (decimal 404))
      ≡ some e)
unfolding new_entry sanitize_labels tonggeret.Types.sanitize_up_to tonggeret.Types.is_dropped
    tonggeret.Text.is_empty tonggeret.Types.sanitize_metric_name tonggeret.Text.trim
    tonggeret.Text.str_eq tonggeret.Types.sanitize_label tonggeret.Types.cap_text tonggeret.Text.len
    decimal tonggeret.Text.Decimal.digits_up_to
made_count = (_, refl)

made_duration :
    (e : MetricEntry ℕ) × (new_entry
        (some 2)
        http_request_duration_ms
        12
        histogram
        (request_labels (codes "GET") (codes "/users"))
      ≡ some e)
unfolding new_entry sanitize_labels tonggeret.Types.sanitize_up_to tonggeret.Types.is_dropped
    tonggeret.Text.is_empty tonggeret.Types.sanitize_metric_name tonggeret.Text.trim
    tonggeret.Text.str_eq tonggeret.Types.sanitize_label tonggeret.Types.cap_text tonggeret.Text.len
made_duration = (_, refl)

both_taken :
    (o : Option (Prom library)) × (update_registries
        (prom_registry library)
        channel
        (made_count.0 ∷ made_duration.0 ∷ [])
        (some fresh)
      ≡ some o)
unfolding made_count made_duration update_registries update_registry update
    tonggeret.Types.label_names_and_values
both_taken = (_, refl)

takes :
    (path : Str) (count duration : MetricEntry ℕ)
    → path_label none (codes "/users") ≡ some path
    → AreMade floats
        (prom_registry library)
        channel
        clock
        (codes "GET")
        path
        (decimal 404)
        count
        duration
    → update_registries (prom_registry library) channel (count ∷ duration ∷ []) (some fresh) ≢ none
takes path count duration cut (made1, made2) panics =
    let same_path : codes "/users" ≡ path = some_inj (sym cut_path ∙ cut) in
    let same_count : made_count.0 ≡ count = some_inj (
      sym made_count.1
      ∙ ap
          (λ p.
            new_entry (some 1) http_requests_total 1 counter
              (status_labels (codes "GET") p (decimal 404)))
          same_path
      ∙ made1) in
    let same_duration : made_duration.0 ≡ duration = some_inj (
      sym made_duration.1
      ∙ ap
          (λ p.
            new_entry (some 2) http_request_duration_ms 12 histogram
              (request_labels (codes "GET") p))
          same_path
      ∙ made2) in
    none≢some (
      sym panics
      ∙ sym (
          ap
            (λ e.
              update_registries (prom_registry library) channel (e ∷ duration ∷ []) (some fresh))
            same_count)
      ∙ sym (
          ap
            (λ e.
              update_registries (prom_registry library) channel (made_count.0 ∷ e ∷ [])
                (some fresh))
            same_duration)
      ∙ both_taken.1)

track-Counted_example :
    (path : Str) × (h' : EngineHandle (View (PipelineMsg ℕ)) (Prom library)) × (path_label none
        (codes "/users")
      ≡ some path)
    × (track floats
          (prom_registry library)
          channel
          status_of
          clock
          request
          prom_answers
          (some with_prom)
        ≡ some (404, some h'))
    × Counted floats
        (prom_registry library)
        channel
        clock
        (codes "GET")
        path
        (decimal 404)
        with_prom
        room_for_two
        h'
track-Counted_example =
    track-Counted floats (prom_registry library) channel status_of clock request prom_answers
      (some with_prom) 404 with_prom room_for_two (ground arith) (ground arith) refl
      (record { up = refl; tx = refl; is_open = refl; room = omega arith }) takes

abbrev entries : List (Option Str)
entries =
    some (codes "metrics_cold_1.parquet")
    ∷ none
    ∷ some (codes "metrics_cold_2.parquet")
    ∷ some (codes "notes.txt")
    ∷ []

latest_cold_file-IsLatest_example : IsLatest (latest_cold_file (some entries)) entries
latest_cold_file-IsLatest_example = latest_cold_file-IsLatest entries
