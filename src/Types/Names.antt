-- ===== src/Types/Names.antt =====
-- Names: the metric types read back from their print, and metric names in the exposition grammar.
use tonggeret.Base.{codes, ◌≡◌, ◌↔◌, refl, ap, true, ℕ, [], ◌∷◌, arith, All, All-map, length, suc}
use tonggeret.Text.{Str, str_eq}
use tonggeret.Text.Laws.{IsAscii, str_eq→eq}
use tonggeret.Error.{ok}
use tonggeret.Types.{
  MetricType, counter, gauge, histogram, as_str, from_str, name_start, name_char, sanitize_rest,
  sanitize_metric_name,
}

from_str→eq : (t : MetricType) (s : Str) → from_str s ≡ ok t → s ≡ as_str t
unfolding from_str as_str
from_str→eq t s h = ground (
  arith,
  str_eq→eq s (codes "counter"),
  str_eq→eq s (codes "gauge"),
  str_eq→eq s (codes "histogram"),
)

from_str-as_str : (t : MetricType) → from_str (as_str t) ≡ ok t
unfolding from_str as_str str_eq
from_str-as_str counter = refl
from_str-as_str gauge = refl
from_str-as_str histogram = refl

-- Every metric type is read back from its print, and no text but that print is read as it.
pub from_str-as_str_iff : (t : MetricType) (s : Str) → (from_str s ≡ ok t) ↔ (s ≡ as_str t)
from_str-as_str_iff t s = (from_str→eq t s, λ e. rw e (from_str-as_str t))

-- `[a-zA-Z_:][a-zA-Z0-9_:]*`
abbrev pub IsName : Str → Type 0
IsName [] = ⊥
IsName (c ∷ s) = (name_start c ≡ true) × All (λ d. name_char d ≡ true) s

sanitize_rest-All : (s : Str) → All (λ d. name_char d ≡ true) (sanitize_rest s)
unfolding sanitize_rest
sanitize_rest-All [] = tt
sanitize_rest-All (c ∷ s) = (ground arith, sanitize_rest-All s)

-- A sanitized name is in the grammar `[a-zA-Z_:][a-zA-Z0-9_:]*`, whatever the text was.
pub sanitize_metric_name-IsName : (s : Str) → IsName (sanitize_metric_name s)
unfolding sanitize_metric_name
sanitize_metric_name-IsName [] = ground arith
sanitize_metric_name-IsName (c ∷ s) = (ground arith, sanitize_rest-All s)

sanitize_rest_self : (s : Str) → All (λ d. name_char d ≡ true) s → sanitize_rest s ≡ s
unfolding sanitize_rest
sanitize_rest_self [] h = refl
sanitize_rest_self (c ∷ s) (hc, hs) = ground (arith, sanitize_rest_self s hs)

sanitize-eq_self : (s : Str) → IsName s → sanitize_metric_name s ≡ s
unfolding sanitize_metric_name
sanitize-eq_self [] h = absurd h
sanitize-eq_self (c ∷ s) (hc, hs) = ground (arith, sanitize_rest_self s hs)

-- Exactly the names in the grammar are left as they are.
pub sanitize-eq_self_iff : (s : Str) → (sanitize_metric_name s ≡ s) ↔ IsName s
sanitize-eq_self_iff s = (λ e. rw e at (sanitize_metric_name-IsName s), sanitize-eq_self s)

pub sanitize_rest-length : (s : Str) → length (sanitize_rest s) ≡ length s
unfolding sanitize_rest
sanitize_rest-length [] = refl
sanitize_rest-length (c ∷ s) = ap suc (sanitize_rest-length s)

name_char-IsAscii : (c : ℕ) → name_char c ≡ true → IsAscii c
name_char-IsAscii c h = ground arith

pub IsName-IsAscii : (s : Str) → IsName s → All IsAscii s
IsName-IsAscii [] h = absurd h
IsName-IsAscii (c ∷ s) (hc, hs) = (ground arith, All-map name_char-IsAscii s hs)
