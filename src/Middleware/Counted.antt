-- ===== src/Middleware/Counted.antt =====
-- What a request leaves in the engine: one count and one duration.
use tonggeret.Base.{
  ℕ, zero, suc, ◌≡◌, ◌≢◌, inl, inr, refl, sym, ap, ◌∙◌, Option, none, some, [], ◌∷◌, ◌++◌, length,
  All, All-append, arith, Bool-cases, append_assoc, ltb, if_intro,
}
use tonggeret.Text.{Str}
use tonggeret.Text.Laws.{IsAscii, All-take}
use tonggeret.Text.Decimal.{decimal, digits_up_to}
use tonggeret.Types.{MetricEntry, PipelineMsg, metric, counter, histogram, new_entry}
use tonggeret.Channel.{Channel}
use tonggeret.Engine.{Registry, EngineHandle, update_registry}
use tonggeret.Engine.Record.{queue_of}
use tonggeret.Engine.Room.{
  HasRoom, update_registries, update_registries-two, two_updates, new_entry-returns,
  record_metric-Recorded,
}
use tonggeret.Visitors.Hll.{Floats}
use tonggeret.Middleware.{truncate_path-ascii}
use tonggeret.Middleware.Requests.{
  Request, Clock, http_requests_total, http_request_duration_ms, request_labels, status_labels,
  path_label,
}
use tonggeret.Middleware.Axum.{track}

digits_up_to-IsAscii : (w n : ℕ) → All IsAscii (digits_up_to w n)
unfolding digits_up_to
digits_up_to-IsAscii zero n = tt
digits_up_to-IsAscii (suc w) n = elim (Bool-cases (ltb n 10)) [
  | inl one ↦ rw one (ground arith, tt)
  | inr more ↦ rw more (All-append IsAscii _ _ (digits_up_to-IsAscii w _) (omega arith, tt))
]

-- the method is ASCII, and so is the pattern of the route, or the path if there is none
abbrev pub HasAscii : Option Str → Str → Type 0
HasAscii none path = All IsAscii path
HasAscii (some pattern) path = All IsAscii pattern

path_label-IsAscii :
    (matched : Option Str) (path : Str)
    → HasAscii matched path
    → (p : Str) × (path_label matched path ≡ some p) × All IsAscii p
unfolding path_label
path_label-IsAscii none path h = (
  _,
  truncate_path-ascii path h,
  if_intro (All IsAscii) (ltb 128 (length path)) (All-take IsAscii 128 path h) h,
)
path_label-IsAscii (some pattern) path h = (pattern, refl, h)

module _ (floats : Floats) (registry : Registry floats.F64)
    (channel : Channel (PipelineMsg floats.F64)) where
  open floats use {F64, of_ℕ}
  open channel use {Chan, view}
  open registry use {Reg}

  -- the count and the duration of a request
  abbrev pub AreMade : Clock F64 → Str → Str → Str → MetricEntry F64 → MetricEntry F64 → Type 0
  AreMade clock method path status count duration =
      (new_entry clock.at_counter http_requests_total (of_ℕ 1) counter
          (status_labels method path status)
        ≡ some count)
      × (new_entry clock.at_histogram http_request_duration_ms clock.elapsed_ms histogram
            (request_labels method path)
          ≡ some duration)

  -- one count and one duration are queued, in this order, and no drop is counted
  pub record Counted (clock : Clock F64) (method path status : Str) (h : EngineHandle Chan Reg)
      (c : Chan) (h' : EngineHandle Chan Reg) : Type 0 where
    pub count : MetricEntry F64
    pub duration : MetricEntry F64
    pub made : AreMade clock method path status count duration
    pub updated :
        update_registries registry channel (count ∷ duration ∷ []) h.registry ≡ some h'.registry
    pub queue :
        queue_of registry channel h'.tx ≡ (view c).queue ++ metric count ∷ metric duration ∷ []
    pub dropped : h'.dropped_total ≡ h.dropped_total

  -- If the method of a request is ASCII and so is the pattern of its route, or its path if it has none;
  -- if the inner service answers and leaves an engine before its shutdown, whose channel is open and has
  -- two free places; and if the registry, if there is one, takes the updates by the count and by the
  -- duration of this request, one after the other, without a panic: `track` returns the same response,
  -- and leaves one count with the method, the path label and the status, and then one duration with the
  -- method and the path label, in the registry and at the end of the queue; no drop is counted.
  pub track-Counted :
      {Resp : Type 0} (status_of : Resp → ℕ) (clock : Clock F64) (req : Request)
      (next : Option (EngineHandle Chan Reg) → Option (Resp × Option (EngineHandle Chan Reg)))
      (g : Option (EngineHandle Chan Reg)) (response : Resp) (h : EngineHandle Chan Reg) (c : Chan)
      → All IsAscii req.method
      → HasAscii req.matched req.path
      → next g ≡ some (response, some h)
      → HasRoom registry channel 2 h c
      → ((path : Str) (count duration : MetricEntry F64)
          → path_label req.matched req.path ≡ some path
          → AreMade clock req.method path (decimal (status_of response)) count duration
          → update_registries registry channel (count ∷ duration ∷ []) h.registry ≢ none)
      → (path : Str) × (h' : EngineHandle Chan Reg) × (path_label req.matched req.path ≡ some path)
        × (track floats registry channel status_of clock req next g ≡ some (response, some h'))
        × Counted clock req.method path (decimal (status_of response)) h c h'
  unfolding track decimal
  track-Counted status_of clock req next g response h c ascii ascii_path served k takes =
      let (path, cut, path_ascii) = path_label-IsAscii req.matched req.path ascii_path in
      let (e1, made1) =
        new_entry-returns registry channel clock.at_counter http_requests_total (of_ℕ 1) counter
          (status_labels req.method path (decimal (status_of response)))
          (inl ascii, (inl path_ascii, (inl (digits_up_to-IsAscii 5 (status_of response)), tt))) in
      let (e2, made2) =
        new_entry-returns registry channel clock.at_histogram http_request_duration_ms
          clock.elapsed_ms histogram (request_labels req.method path)
          (inl ascii, (inl path_ascii, tt)) in
      let (reg1, reg2, updated1, updated2) =
        two_updates registry channel e1 e2 h.registry (takes path e1 e2 cut (made1, made2)) in
      let (h1, recorded1, r1) =
        record_metric-Recorded registry channel counter clock.at_counter http_requests_total
          (of_ℕ 1) (status_labels req.method path (decimal (status_of response))) e1 reg1 1 h c
          made1 updated1 k in
      let (h2, recorded2, r2) =
        record_metric-Recorded registry channel histogram clock.at_histogram
          http_request_duration_ms clock.elapsed_ms (request_labels req.method path) e2 reg2 0 h1
          (channel.try_send (metric e1) c).1 made2
          (ap (update_registry registry channel e2) r1.updated ∙ updated2) r1.ready in
      (
        path,
        h2,
        cut,
        rw cut (rw served (rw recorded1 (rw recorded2 refl))),
        record {
          count = e1;
          duration = e2;
          made = (made1, made2);
          updated =
              update_registries-two registry channel e1 e2 h.registry reg1 reg2 updated1 updated2
              ∙ ap some (sym r2.updated);
          queue =
              ap (queue_of registry channel) r2.ready.tx
              ∙ r2.queue
              ∙ ap (λ q. q ++ metric e2 ∷ []) r1.queue
              ∙ append_assoc (view c).queue (metric e1 ∷ []) (metric e2 ∷ []);
          dropped = r2.dropped ∙ r1.dropped;
        },
      )
