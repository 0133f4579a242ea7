-- ===== src/Middleware/Axum.antt =====
-- middleware/axum.rs: `track`, `track_visitors` and `prometheus_handler`. A panic is `none`.
use tonggeret.Base.{ℕ, Bool, Option, none, some, List, [], ◌++◌, ◌>>=◌, codes}
use tonggeret.Text.{Str}
use tonggeret.Text.Decimal.{decimal}
use tonggeret.Error.{Result, ok, err, display}
use tonggeret.Types.{PipelineMsg, counter, histogram}
use tonggeret.Channel.{Channel}
use tonggeret.Engine.{Registry, EngineHandle, record_metric, prometheus_text}
use tonggeret.Visitors.Region.{parse_region, visitor_key}
use tonggeret.Visitors.Hll.{Floats}
use tonggeret.Visitors.Tracker.{Tracker, observe_visitor}
use tonggeret.Storage.ColdFiles.{latest_cold_file}
use tonggeret.Middleware.Requests.{
  Request, Clock, Reply, http_requests_total, http_request_duration_ms, exposition_type,
  unavailable, request_labels, status_labels, path_label, or_else,
}

module _ (floats : Floats) (registry : Registry floats.F64)
    (channel : Channel (PipelineMsg floats.F64)) where
  open floats use {F64, of_ℕ}
  open registry use {Reg}
  open channel use {Chan}

  abbrev pub Engine : Type 0
  Engine = Option (EngineHandle Chan Reg)

  -- what `GLOBAL_VISITORS` and `GLOBAL` hold
  abbrev pub World : Type 0
  World = Option Tracker × Engine

  -- the body of a scrape, by what `prometheus_text` returns
  unfoldable pub scrape : Result Str → Reply
  unfolding display
  scrape (ok body) = record { status = 200; content_type = some exposition_type; body = body }
  scrape (err e) = record { status = 503; content_type = none; body = unavailable ++ display e }

  -- `prometheus_handler`
  unfoldable pub prometheus_handler : Engine → Reply
  unfolding scrape
  prometheus_handler g = scrape (prometheus_text registry channel g)

  module _ {Resp : Type 0} (status_of : Resp → ℕ) where
    -- `track`, with `next` as the rest of the service
    unfoldable pub track :
        Clock F64 → Request → (Engine → Option (Resp × Engine)) → Engine → Option (Resp × Engine)
    unfolding path_label
    track clock req next g = do
      path ← path_label req.matched req.path
      (response, g') ← next g
      g₁ ←
          record_metric registry channel counter clock.at_counter http_requests_total (of_ℕ 1)
            (status_labels req.method path (decimal (status_of response))) g'
      g₂ ←
          record_metric registry channel histogram clock.at_histogram http_request_duration_ms
            clock.elapsed_ms (request_labels req.method path) g₁
      some (response, g₂)

  module _ (hash_key : Str → ℕ) {Resp : Type 0} where
    -- `track_visitors`
    unfoldable pub track_visitors :
        Bool → Option ℕ → Request → (World → Option (Resp × World)) → World → Option (Resp × World)
    unfolding observe_visitor
    track_visitors contended now req next (t, g) =
        let region =
          parse_region (req.header (codes "cf-ipcountry"))
            (req.header (codes "x-vercel-ip-country"))
            (req.header (codes "cloudfront-viewer-country")) in
        let user_agent = or_else [] (req.header (codes "user-agent")) in
        let key =
          visitor_key (req.header (codes "x-forwarded-for")) (or_else (codes "direct") req.peer)
            user_agent in
        do
          (answer, t', g') ←
              observe_visitor floats registry channel hash_key contended now key region t g
          next (t', g')

abbrev no_export : Str
no_export = codes "no parquet export available yet (compaction has not exported any keys)"

-- `serve_latest` of `parquet_route`, with `serve` for `ServeFile` and what `read_dir` gives
unfoldable pub serve_latest :
    {Resp : Type 0} → (Str → Resp) → (Reply → Resp) → Option (List (Option Str)) → Resp
unfolding latest_cold_file
serve_latest serve reply entries = elim (latest_cold_file entries) [
  | some name ↦ serve name
  | none ↦ reply (record { status = 404; content_type = none; body = no_export })
]
