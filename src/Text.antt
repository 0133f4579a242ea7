-- ===== src/Text.antt =====
-- The parts of Rust's `str` and `char` that the crate uses. A text is the list of its code points.
pub mod Laws
pub mod Utf8
pub mod Hex
pub mod Decimal
use tonggeret.Base.{
  ℕ, suc, ◌+◌, ◌-◌, ◌<◌, ◌≤◌, zero, ◌≡◌, refl, Bool, true, false, ◌&&◌, ◌||◌, Option, none, some,
  List, [], ◌∷◌, map, arith, ltb, leb, ◌==◌, if◌then◌else◌, between, ◌>>=◌, codes,
}

abbrev pub Str : Type 0
Str = List ℕ

-- `char::is_ascii_uppercase`, `is_ascii_lowercase`, `is_ascii_digit`
abbrev pub is_ascii_uppercase : ℕ → Bool
is_ascii_uppercase c = between b'A' b'Z' c

abbrev pub is_ascii_lowercase : ℕ → Bool
is_ascii_lowercase c = between b'a' b'z' c

abbrev pub is_ascii_digit : ℕ → Bool
is_ascii_digit c = between b'0' b'9' c

abbrev pub is_ascii_alphabetic : ℕ → Bool
is_ascii_alphabetic c = is_ascii_uppercase c || is_ascii_lowercase c

abbrev pub is_ascii_alphanumeric : ℕ → Bool
is_ascii_alphanumeric c = is_ascii_alphabetic c || is_ascii_digit c

-- `char::is_whitespace`, the Unicode property White_Space
abbrev pub is_whitespace : ℕ → Bool
is_whitespace c =
    between 9 13 c
    || c == 32
    || c == 0x85
    || c == 0xa0
    || c == 0x1680
    || between 0x2000 0x200a c
    || c == 0x2028
    || c == 0x2029
    || c == 0x202f
    || c == 0x205f
    || c == 0x3000

abbrev pub to_ascii_uppercase_char : ℕ → ℕ
to_ascii_uppercase_char c = if is_ascii_lowercase c then c - 32 else c

-- `str::to_ascii_uppercase`
abbrev pub to_ascii_uppercase : Str → Str
to_ascii_uppercase s = map to_ascii_uppercase_char s

-- The bytes of one character in UTF-8, `char::len_utf8`.
unfoldable pub len_utf8 : ℕ → ℕ
len_utf8 c = if ltb c 0x80 then 1 else if ltb c 0x800 then 2 else if ltb c 0x10000 then 3 else 4

-- `str::len`: bytes, not characters
unfoldable pub len : Str → ℕ
unfolding len_utf8
len [] = 0
len (c ∷ s) = len_utf8 c + len s

-- `String::truncate` at a length below the text's own: it keeps that many bytes, and panics, here
-- `none`, if the cut falls inside a character.
unfoldable pub truncate : ℕ → Str → Option Str
unfolding len_utf8
truncate zero s = some []
truncate (suc n) [] = none
truncate (suc n) (c ∷ s) =
    let rest = truncate (suc n - len_utf8 c) s in
    if ltb (suc n) (len_utf8 c) then none else do r ← rest; some (c ∷ r)

unfoldable pub trim_start : Str → Str
trim_start [] = []
trim_start (c ∷ s) = if is_whitespace c then trim_start s else c ∷ s

-- a blank is dropped before nothing
unfoldable pub push_unless_blank : ℕ → Str → Str
push_unless_blank c [] = if is_whitespace c then [] else c ∷ []
push_unless_blank c (d ∷ s) = c ∷ d ∷ s

unfoldable pub trim_end : Str → Str
unfolding push_unless_blank
trim_end [] = []
trim_end (c ∷ s) = push_unless_blank c (trim_end s)

-- `str::trim`
unfoldable pub trim : Str → Str
unfolding trim_start trim_end push_unless_blank
trim s = trim_end (trim_start s)

-- `==` on texts
unfoldable pub str_eq : Str → Str → Bool
str_eq [] [] = true
str_eq (a ∷ s) (b ∷ t) = (a == b) && str_eq s t
str_eq _ _ = false

-- `str::is_empty`
unfoldable pub is_empty : Str → Bool
is_empty [] = true
is_empty (c ∷ s) = false

trim_both : trim (codes " de\t") ≡ codes "de"
unfolding trim
trim_both = refl
