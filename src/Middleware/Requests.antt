-- ===== src/Middleware/Requests.antt =====
-- What the middlewares use of a request and of a response. A handler is a step on the state that it
-- shares with the middleware; it may panic.
use tonggeret.Base.{ℕ, Option, none, some, List, [], ◌∷◌, codes}
use tonggeret.Text.{Str}
use tonggeret.Types.{Label}
use tonggeret.Middleware.{truncate_path}

-- A request: the route it matched, if any; the value of each header that is there as visible ASCII;
-- and the address of the peer, as far as the framework knows it.
pub record Request : Type 0 where
  pub method : Str
  pub matched : Option Str
  pub path : Str
  pub header : Str → Option Str
  pub peer : Option Str

-- the clock readings of one request
pub record Clock (F64 : Type 0) : Type 0 where
  pub at_counter : Option ℕ
  pub at_histogram : Option ℕ
  pub elapsed_ms : F64

-- a response of the scrape handler, with the content type that it names
pub record Reply : Type 0 where
  pub status : ℕ
  pub content_type : Option Str
  pub body : Str

abbrev pub http_requests_total : Str
http_requests_total = codes "http_requests_total"

abbrev pub http_request_duration_ms : Str
http_request_duration_ms = codes "http_request_duration_ms"

abbrev pub exposition_type : Str
exposition_type = codes "text/plain; version=0.0.4; charset=utf-8"

abbrev pub unavailable : Str
unavailable = codes "metrics unavailable: "

abbrev pub request_labels : Str → Str → List Label
request_labels method path = (codes "method", method) ∷ (codes "path", path) ∷ []

abbrev pub status_labels : Str → Str → Str → List Label
status_labels method path status =
    (codes "method", method) ∷ (codes "path", path) ∷ (codes "status", status) ∷ []

-- the pattern of the route, or the path of the request cut
unfoldable pub path_label : Option Str → Str → Option Str
unfolding truncate_path
path_label none path = truncate_path path
path_label (some pattern) path = some pattern

abbrev pub or_else : Str → Option Str → Str
or_else d none = d
or_else d (some s) = s
