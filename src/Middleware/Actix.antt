-- ===== src/Middleware/Actix.antt =====
-- middleware/actix.rs: the `call` of both services, and `prometheus_handler`. A panic is `none`.
use tonggeret.Base.{ℕ, Bool, Option, none, some, [], ◌++◌, ◌>>=◌, codes}
use tonggeret.Text.{Str}
use tonggeret.Text.Decimal.{decimal}
use tonggeret.Error.{Result, ok, err, display}
use tonggeret.Types.{PipelineMsg, counter, histogram}
use tonggeret.Channel.{Channel}
use tonggeret.Engine.{Registry, EngineHandle, record_metric, prometheus_text}
use tonggeret.Visitors.Region.{parse_region, visitor_key}
use tonggeret.Visitors.Hll.{Floats}
use tonggeret.Visitors.Tracker.{Tracker, observe_visitor}
use tonggeret.Middleware.Requests.{
  Request, Clock, Reply, http_requests_total, http_request_duration_ms, exposition_type,
  unavailable, request_labels, status_labels, path_label, or_else,
}

-- what a service answers: a response, or an error of the framework
pub data Called (Resp Err : Type 0) : Type 0 where
  answered : Resp → Called Resp Err
  failed : Err → Called Resp Err

module _ (floats : Floats) (registry : Registry floats.F64)
    (channel : Channel (PipelineMsg floats.F64)) where
  open floats use {F64, of_ℕ}
  open registry use {Reg}
  open channel use {Chan}

  abbrev pub Engine : Type 0
  Engine = Option (EngineHandle Chan Reg)

  -- what `GLOBAL_VISITORS` and `GLOBAL` hold
  abbrev pub World : Type 0
  World = Option Tracker × Engine

  -- the body of a scrape, by what `prometheus_text` returns
  unfoldable pub scrape : Result Str → Reply
  unfolding display
  scrape (ok body) = record { status = 200; content_type = some exposition_type; body = body }
  scrape (err e) = record { status = 503; content_type = none; body = unavailable ++ display e }

  -- `prometheus_handler`
  unfoldable pub prometheus_handler : Engine → Reply
  unfolding scrape
  prometheus_handler g = scrape (prometheus_text registry channel g)

  -- `status_of`, and the status of the `error_response` of an error
  module _ {Resp Err : Type 0} (status_of : Resp → ℕ) (error_status : Err → ℕ) where
    -- what follows the inner `call`
    unfoldable pub on_called :
        Clock F64 → Str → Str → Called Resp Err → Engine → Option (Called Resp Err × Engine)
    on_called clock method path (answered response) g = do
      g₁ ←
          record_metric registry channel counter clock.at_counter http_requests_total (of_ℕ 1)
            (status_labels method path (decimal (status_of response))) g
      g₂ ←
          record_metric registry channel histogram clock.at_histogram http_request_duration_ms
            clock.elapsed_ms (request_labels method path) g₁
      some (answered response, g₂)
    on_called clock method path (failed e) g = do
      g₁ ←
          record_metric registry channel counter clock.at_counter http_requests_total (of_ℕ 1)
            (status_labels method path (decimal (error_status e))) g
      g₂ ←
          record_metric registry channel histogram clock.at_histogram http_request_duration_ms
            clock.elapsed_ms (request_labels method path) g₁
      some (failed e, g₂)

    -- `TonggeretService::call`
    unfoldable pub call :
        Clock F64
        → Request
        → (Engine → Option (Called Resp Err × Engine))
        → Engine
        → Option (Called Resp Err × Engine)
    unfolding path_label on_called
    call clock req service g = do
      path ← path_label req.matched req.path
      (called, g') ← service g
      on_called clock req.method path called g'

  module _ (hash_key : Str → ℕ) {Answer : Type 0} where
    -- `TrackVisitorsService::call`
    unfoldable pub call_visitors :
        Bool
        → Option ℕ
        → Request
        → (World → Option (Answer × World))
        → World
        → Option (Answer × World)
    unfolding observe_visitor
    call_visitors contended now req service (t, g) =
        let peer = or_else (codes "direct") req.peer in
        let region =
          parse_region (req.header (codes "cf-ipcountry"))
            (req.header (codes "x-vercel-ip-country"))
            (req.header (codes "cloudfront-viewer-country")) in
        let user_agent = or_else [] (req.header (codes "user-agent")) in
        let key = visitor_key (req.header (codes "x-forwarded-for")) peer user_agent in
        do
          (answer, t', g') ←
              observe_visitor floats registry channel hash_key contended now key region t g
          service (t', g')
