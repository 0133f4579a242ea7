-- ===== src/Visitors/Region.antt =====
-- visitors.rs: `parse_region`, `normalize_region` and `visitor_key`.
pub mod Laws
use tonggeret.Base.{
  ◌≡◌, refl, Bool, true, false, ◌&&◌, Option, none, some, List, [], ◌∷◌, ◌++◌, ◌==◌, if◌then◌else◌,
  all, codes,
}
use tonggeret.Text.{Str, len, trim, str_eq, is_empty, to_ascii_uppercase, is_ascii_alphabetic}
use tonggeret.Text.Utf8.{utf8}

abbrev pub region_unknown : Str
region_unknown = codes "unknown"

abbrev pub region_other : Str
region_other = codes "other"

-- `code.len() == 2 && code.bytes().all(|b| b.is_ascii_alphabetic())`
unfoldable pub is_country : Str → Bool
is_country code = (len code == 2) && all is_ascii_alphabetic (utf8 code)

-- the loop over the headers that are present
unfoldable pub first_country : List (Option Str) → Str
first_country [] = region_unknown
first_country (none ∷ headers) = first_country headers
first_country (some raw ∷ headers) =
    let code = to_ascii_uppercase (trim raw) in
    let rest = first_country headers in if is_country code then code else rest

-- `parse_region`
unfoldable pub parse_region : Option Str → Option Str → Option Str → Str
unfolding first_country
parse_region cf_ip vercel cloudfront = first_country (cf_ip ∷ vercel ∷ cloudfront ∷ [])

-- `normalize_region`
unfoldable pub normalize_region : Str → Str
normalize_region region =
    let code = to_ascii_uppercase (trim region) in
    if is_country code
    then code
    else if str_eq code (to_ascii_uppercase region_other)
    then region_other
    else region_unknown

-- `h.split(',').next()`
unfoldable pub before_comma : Str → Str
before_comma [] = []
before_comma (c ∷ s) = if c == b',' then [] else c ∷ before_comma s

-- the trimmed first entry, `peer` where it is empty
unfoldable pub or_peer : Str → Str → Str
or_peer peer [] = peer
or_peer peer (c ∷ s) = c ∷ s

abbrev client : Str → Option Str → Str
client peer none = peer
client peer (some h) = or_peer peer (trim (before_comma h))

-- `visitor_key`
unfoldable pub visitor_key : Option Str → Str → Str → Str
unfolding before_comma or_peer
visitor_key forwarded_for peer user_agent = client peer forwarded_for ++ (0 ∷ user_agent)

forwarded :
    visitor_key (some (codes "203.0.113.7, 70.41.3.18")) (codes "10.0.0.1") (codes "curl")
    ≡ codes "203.0.113.7" ++ (0 ∷ codes "curl")
unfolding visitor_key trim
forwarded = refl

german : parse_region (some (codes "de")) none none ≡ codes "DE"
unfolding parse_region is_country trim len utf8
german = refl
