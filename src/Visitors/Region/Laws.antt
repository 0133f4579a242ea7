-- ===== src/Visitors/Region/Laws.antt =====
-- The regions are two capital letters, `unknown` or `other`, and a region is normalized once.
use tonggeret.Base.{
  ℕ, ◌+◌, ◌<◌, ◌≡◌, ◌⊎◌, inl, inr, refl, Bool, true, false, ◌&&◌, Option, none, some, List, [], ◌∷◌,
  ◌++◌, ◌==◌, all, All, arith, Bool-cases, if_intro, ◌↔◌, lt→ltb, ==_iff,
}
use tonggeret.Text.{
  Str, len, len_utf8, trim, trim_start, trim_end, push_unless_blank, str_eq, to_ascii_uppercase,
  to_ascii_uppercase_char, is_ascii_uppercase, is_ascii_alphabetic,
}
use tonggeret.Text.Laws.{IsAscii, len_utf8_bounds, len_utf8-ascii}
use tonggeret.Text.Utf8.{utf8, utf8_char}
use tonggeret.Visitors.Region.{
  region_unknown, region_other, is_country, first_country, parse_region, normalize_region,
}

-- two capital letters
abbrev pub IsCountry : Str → Type 0
IsCountry [] = ⊥
IsCountry (a ∷ []) = ⊥
IsCountry (a ∷ b ∷ []) = (is_ascii_uppercase a ≡ true) × (is_ascii_uppercase b ≡ true)
IsCountry (a ∷ b ∷ c ∷ s) = ⊥

one_byte : (c : ℕ) → len_utf8 c ≡ 1 → c < 0x80
unfolding len_utf8
one_byte c h = ground arith

-- a character of two bytes does not pass as two letters
two_bytes : (c : ℕ) → len_utf8 c ≡ 2 → all is_ascii_alphabetic (utf8_char c ++ []) ≡ false
unfolding len_utf8 utf8_char
two_bytes c h = ground arith

upper_letter :
    (c : ℕ)
    → is_ascii_alphabetic (to_ascii_uppercase_char c) ≡ true
    → is_ascii_uppercase (to_ascii_uppercase_char c) ≡ true
upper_letter c h = ground arith

char_ascii : (c : ℕ) → c < 0x80 → utf8_char c ≡ c ∷ []
unfolding utf8_char
char_ascii c h = rw (lt→ltb c 0x80 h)

parts : (b c : Bool) → (b && c) ≡ true → (b ≡ true) × (c ≡ true)
parts b c h = ground arith

two_letters :
    (a b : ℕ)
    → all is_ascii_alphabetic (a ∷ b ∷ []) ≡ true
    → (is_ascii_alphabetic a ≡ true) × (is_ascii_alphabetic b ≡ true)
two_letters a b h = let (first, others) = parts _ _ h in (first, (parts _ _ others).0)

-- two letters
abbrev IsLetters : Str → Type 0
IsLetters [] = ⊥
IsLetters (a ∷ []) = ⊥
IsLetters (a ∷ b ∷ []) = (is_ascii_alphabetic a ≡ true) × (is_ascii_alphabetic b ≡ true)
IsLetters (a ∷ b ∷ c ∷ s) = ⊥

is_country-IsLetters : (s : Str) → is_country s ≡ true → IsLetters s
unfolding is_country len utf8
is_country-IsLetters [] h = cc
is_country-IsLetters (a ∷ []) h =
    let (size, letters) =
      parts (len_utf8 a + 0 == 2) (all is_ascii_alphabetic (utf8_char a ++ [])) h in
    cc (two_bytes a (omega (arith, (==_iff (len_utf8 a + 0) 2).0 size)), letters)
is_country-IsLetters (a ∷ b ∷ []) h =
    let (size, letters) =
      parts (len_utf8 a + (len_utf8 b + 0) == 2)
        (all is_ascii_alphabetic (utf8_char a ++ (utf8_char b ++ []))) h in
    let total : len_utf8 a + (len_utf8 b + 0) ≡ 2 = (==_iff _ 2).0 size in
    let first : a < 0x80 = one_byte a (omega (arith, len_utf8_bounds a, len_utf8_bounds b)) in
    let second : b < 0x80 = one_byte b (omega (arith, len_utf8_bounds a, len_utf8_bounds b)) in
    two_letters a b (rw (char_ascii a first, char_ascii b second) at letters)
is_country-IsLetters (a ∷ b ∷ c ∷ s) h =
    let (size, letters) = parts (len_utf8 a + (len_utf8 b + (len_utf8 c + len s)) == 2) _ h in
    absurd (
      omega (
        arith,
        (==_iff (len_utf8 a + (len_utf8 b + (len_utf8 c + len s))) 2).0 size,
        len_utf8_bounds a,
        len_utf8_bounds b,
        len_utf8_bounds c,
      ))

capitals : (s : Str) → IsLetters (to_ascii_uppercase s) → IsCountry (to_ascii_uppercase s)
capitals [] h = absurd h
capitals (a ∷ []) h = absurd h
capitals (a ∷ b ∷ []) (ha, hb) = (upper_letter a ha, upper_letter b hb)
capitals (a ∷ b ∷ c ∷ s) h = absurd h

-- a text that passes the test, in upper case, is two capital letters
upper_IsCountry :
    (s : Str) → is_country (to_ascii_uppercase s) ≡ true → IsCountry (to_ascii_uppercase s)
upper_IsCountry s h = capitals s (is_country-IsLetters (to_ascii_uppercase s) h)

country_fixed : (s : Str) → IsCountry s → to_ascii_uppercase (trim s) ≡ s
unfolding trim trim_start trim_end push_unless_blank
country_fixed [] h = absurd h
country_fixed (a ∷ []) h = absurd h
country_fixed (a ∷ b ∷ []) h = ground arith
country_fixed (a ∷ b ∷ c ∷ s) h = absurd h

capital_ascii : (c : ℕ) → is_ascii_uppercase c ≡ true → c < 0x80
capital_ascii c h = ground arith

capital_letter : (c : ℕ) → is_ascii_uppercase c ≡ true → is_ascii_alphabetic c ≡ true
capital_letter c h = ground arith

country_passes : (s : Str) → IsCountry s → is_country s ≡ true
unfolding is_country len utf8
country_passes [] h = absurd h
country_passes (a ∷ []) h = absurd h
country_passes (a ∷ b ∷ []) (ha, hb) = rw (
  len_utf8-ascii a (capital_ascii a ha),
  len_utf8-ascii b (capital_ascii b hb),
  char_ascii a (capital_ascii a ha),
  char_ascii b (capital_ascii b hb),
  capital_letter a ha,
  capital_letter b hb,
)
country_passes (a ∷ b ∷ c ∷ s) h = absurd h

-- the labels of a region
abbrev pub IsRegion : Str → Type 0
IsRegion s = IsCountry s ⊎ (s ≡ region_other) ⊎ (s ≡ region_unknown)

-- A normalized region is two capital letters, `other` or `unknown`.
pub normalize_region-IsRegion : (s : Str) → IsRegion (normalize_region s)
unfolding normalize_region
normalize_region-IsRegion s =
    let code = to_ascii_uppercase (trim s) in
    elim (Bool-cases (is_country code)) [
      | inl good ↦ rw good (inl (upper_IsCountry (trim s) good))
      | inr bad ↦ rw bad (
          if_intro IsRegion (str_eq code (to_ascii_uppercase region_other)) (inr (inl refl))
            (inr (inr refl)))
    ]

upper_IsAscii : (c : ℕ) → is_ascii_uppercase c ≡ true → IsAscii c
upper_IsAscii c h = ground arith

pub IsRegion-IsAscii : (s : Str) → IsRegion s → All IsAscii s
IsRegion-IsAscii [] (inl h) = tt
IsRegion-IsAscii (a ∷ []) (inl h) = absurd h
IsRegion-IsAscii (a ∷ b ∷ []) (inl (ha, hb)) = (upper_IsAscii a ha, (upper_IsAscii b hb, tt))
IsRegion-IsAscii (a ∷ b ∷ c ∷ s) (inl h) = absurd h
IsRegion-IsAscii s (inr (inl e)) =
    rw e (omega arith, (omega arith, (omega arith, (omega arith, (omega arith, tt)))))
IsRegion-IsAscii s (inr (inr e)) = rw e (
  omega arith,
  (omega arith, (omega arith, (omega arith, (omega arith, (omega arith, (omega arith, tt)))))),
)

region_fixed : (s : Str) → IsRegion s → normalize_region s ≡ s
unfolding normalize_region
region_fixed s (inl h) = rw (country_fixed s h, country_passes s h)
region_fixed s (inr (inl e)) = rw e (unfold is_country trim len utf8 str_eq in refl)
region_fixed s (inr (inr e)) = rw e (unfold is_country trim len utf8 str_eq in refl)

first_country-shape :
    (headers : List (Option Str))
    → IsCountry (first_country headers) ⊎ (first_country headers ≡ region_unknown)
unfolding first_country
first_country-shape [] = inr refl
first_country-shape (none ∷ headers) = first_country-shape headers
first_country-shape (some raw ∷ headers) =
    elim (Bool-cases (is_country (to_ascii_uppercase (trim raw)))) [
      | inl good ↦ rw good (inl (upper_IsCountry (trim raw) good))
      | inr bad ↦ rw bad (first_country-shape headers)
    ]

-- What `parse_region` gives is two capital letters or `unknown`, and the tracker keeps it as it is.
pub parse_region-normalized :
    (cf vercel cloudfront : Option Str)
    → (IsCountry (parse_region cf vercel cloudfront)
        ⊎ (parse_region cf vercel cloudfront ≡ region_unknown))
      × (normalize_region (parse_region cf vercel cloudfront) ≡ parse_region cf vercel cloudfront)
unfolding parse_region
parse_region-normalized cf vercel cloudfront =
    let headers = cf ∷ vercel ∷ cloudfront ∷ [] in
    (
      first_country-shape headers,
      region_fixed (first_country headers) (elim (first_country-shape headers) [
        | inl country ↦ inl country
        | inr unknown ↦ inr (inr unknown)
      ]),
    )

-- Exactly the regions are left as they are.
pub normalize_region-eq_self_iff : (s : Str) → (normalize_region s ≡ s) ↔ IsRegion s
normalize_region-eq_self_iff s = (λ e. rw e at (normalize_region-IsRegion s), region_fixed s)
