-- ===== src/Middleware/Agree.antt =====
-- The two middlewares record the same.
use tonggeret.Base.{ℕ, ◌≡◌, refl, Bool, Option, Option-cases, inl, inr}
use tonggeret.Text.{Str}
use tonggeret.Types.{PipelineMsg}
use tonggeret.Channel.{Channel}
use tonggeret.Engine.{Registry}
use tonggeret.Visitors.Hll.{Floats}
use tonggeret.Middleware.Requests.{Request, Clock, path_label}
use tonggeret.Middleware.Axum.{track, track_visitors}
use tonggeret.Middleware.Actix.{
  Called, answered, failed, on_called, call, call_visitors, Engine, World,
}

-- the status of an answer
abbrev pub answer_status : {Resp Err : Type 0} → (Resp → ℕ) → (Err → ℕ) → Called Resp Err → ℕ
answer_status status_of error_status (answered response) = status_of response
answer_status status_of error_status (failed e) = error_status e

module _ (floats : Floats) (registry : Registry floats.F64)
    (channel : Channel (PipelineMsg floats.F64)) where
  -- For every request, every inner service, whether it answers with a response, with an error of the
  -- framework or panics, and every engine: the Actix middleware does what the Axum middleware does
  -- around the same service with its answers as the responses, an error with the status of its
  -- response.
  pub call-track :
      {Resp Err : Type 0} (status_of : Resp → ℕ) (error_status : Err → ℕ) (clock : Clock floats.F64)
      (req : Request)
      (service : Engine floats registry channel
        → Option (Called Resp Err × Engine floats registry channel))
      (g : Engine floats registry channel)
      → call floats registry channel status_of error_status clock req service g
        ≡ track floats registry channel (answer_status status_of error_status) clock req service g
  unfolding call track on_called
  call-track status_of error_status clock req service g =
      elim (Option-cases (path_label req.matched req.path)) [
        | inl panics ↦ rw panics
        | inr (path, cut) ↦ rw cut (elim (Option-cases (service g)) [
          | inl panics ↦ rw panics
          | inr ((answered response, g'), served) ↦ rw served
          | inr ((failed e, g'), served) ↦ rw served
        ])
      ]

  pub call_visitors-track_visitors :
      {Answer : Type 0} (hash_key : Str → ℕ) (contended : Bool) (now : Option ℕ) (req : Request)
      (service : World floats registry channel → Option (Answer × World floats registry channel))
      (w : World floats registry channel)
      → call_visitors floats registry channel hash_key contended now req service w
        ≡ track_visitors floats registry channel hash_key contended now req service w
  unfolding call_visitors track_visitors
  call_visitors-track_visitors hash_key contended now req service (t, g) = refl
