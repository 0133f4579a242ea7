-- ===== src/Text/Utf8.antt =====
-- UTF-8: the bytes of a text (`String::into_bytes`), and the text of bytes (`str::from_utf8`).
use tonggeret.Base.{
  ℕ, zero, suc, ◌+◌, ◌-◌, ◌*◌, ◌/◌, ◌%◌, ◌<◌, ◌≤◌, ◌≡◌, inl, inr, refl, Bool, true, false, ◌&&◌,
  ◌||◌, Option, none, some, List, [], ◌∷◌, ◌++◌, arith, ltb, leb, if◌then◌else◌, between, ◌>>=◌,
  All, codes, append_assoc, le→leb, le→ltb, lt→ltb, between_intro, between_above, Bool-cases,
  ltb→lt,
}
use tonggeret.Text.{Str}
use tonggeret.Text.Laws.{IsAscii}

abbrev pub Bytes : Type 0
Bytes = List ℕ

unfoldable pub utf8_char : ℕ → Bytes
utf8_char c =
    if ltb c 0x80
    then c ∷ []
    else if ltb c 0x800
    then (0xc0 + c / 64) ∷ (0x80 + c % 64) ∷ []
    else if ltb c 0x10000
    then (0xe0 + c / 4096) ∷ (0x80 + c / 64 % 64) ∷ (0x80 + c % 64) ∷ []
    else (0xf0 + c / 262144) ∷ (0x80 + c / 4096 % 64) ∷ (0x80 + c / 64 % 64) ∷ (0x80 + c % 64) ∷ []

unfoldable pub utf8 : Str → Bytes
unfolding utf8_char
utf8 [] = []
utf8 (c ∷ s) = utf8_char c ++ utf8 s

-- a Unicode scalar value, which a Rust `char` is: no surrogate, and in range
abbrev pub is_scalar : ℕ → Bool
is_scalar c = ltb c 0xd800 || between 0xe000 0x10ffff c

-- Reads bytes: how many continuation bytes are awaited, the bits so far, and the least code point
-- that may be spelled with as many bytes.
unfoldable pub scan : ℕ → ℕ → ℕ → Bytes → Option Str
scan zero acc least [] = some []
scan (suc n) acc least [] = none
scan zero acc least (b ∷ bs) =
    let one = (do s ← scan 0 0 0 bs; some (b ∷ s)) in
    let two = scan 1 (b - 0xc0) 0x80 bs in
    let three = scan 2 (b - 0xe0) 0x800 bs in
    let four = scan 3 (b - 0xf0) 0x10000 bs in
    if ltb b 0x80
    then one
    else if between 0xc0 0xdf b
    then two
    else if between 0xe0 0xef b
    then three
    else if between 0xf0 0xf7 b
    then four
    else none
scan (suc zero) acc least (b ∷ bs) =
    let c = acc * 64 + (b - 0x80) in
    let last = (do s ← scan 0 0 0 bs; some (c ∷ s)) in
    if between 0x80 0xbf b && (is_scalar c && leb least c) then last else none
scan (suc (suc n)) acc least (b ∷ bs) =
    let more = scan (suc n) (acc * 64 + (b - 0x80)) least bs in
    if between 0x80 0xbf b then more else none

-- `std::str::from_utf8`
unfoldable pub from_utf8 : Bytes → Option Str
unfolding scan
from_utf8 bs = scan 0 0 0 bs

abbrev pub IsScalar : ℕ → Type 0
IsScalar c = is_scalar c ≡ true

scan-one :
    (c : ℕ) (bs : Bytes) → c < 0x80 → scan 0 0 0 (c ∷ bs) ≡ (do s ← scan 0 0 0 bs; some (c ∷ s))
unfolding scan
scan-one c bs h = ground arith

-- a byte 10xxxxxx
is_continuation : (x : ℕ) → between 0x80 0xbf (0x80 + x % 64) ≡ true
is_continuation x = ground arith

-- the six bits of a continuation byte, put back
put_back : (acc x : ℕ) → acc ≡ x / 64 → acc * 64 + (0x80 + x % 64 - 0x80) ≡ x
put_back acc x h = omega arith

scan_last :
    (acc least c : ℕ) (bs : Bytes)
    → IsScalar c
    → least ≤ c
    → acc ≡ c / 64
    → scan 1 acc least ((0x80 + c % 64) ∷ bs) ≡ (do s ← scan 0 0 0 bs; some (c ∷ s))
unfolding scan
scan_last acc least c bs hc hl ha = rw (put_back acc c ha, is_continuation c, hc, le→leb least c hl)

scan_more :
    (n acc least x : ℕ) (bs : Bytes)
    → acc ≡ x / 64
    → scan (suc (suc n)) acc least ((0x80 + x % 64) ∷ bs) ≡ scan (suc n) x least bs
unfolding scan
scan_more n acc least x bs ha = rw (put_back acc x ha, is_continuation x)

scan_lead_2 : (x : ℕ) (bs : Bytes) → x < 32 → scan 0 0 0 ((0xc0 + x) ∷ bs) ≡ scan 1 x 0x80 bs
unfolding scan
scan_lead_2 x bs h =
    let e : 0xc0 + x - 0xc0 ≡ x = omega arith in
    rw (
      e,
      le→ltb (0xc0 + x) 0x80 (omega arith),
      between_intro 0xc0 0xdf (0xc0 + x) (omega arith) (omega arith),
    )

scan_lead_3 : (x : ℕ) (bs : Bytes) → x < 16 → scan 0 0 0 ((0xe0 + x) ∷ bs) ≡ scan 2 x 0x800 bs
unfolding scan
scan_lead_3 x bs h =
    let e : 0xe0 + x - 0xe0 ≡ x = omega arith in
    rw (
      e,
      le→ltb (0xe0 + x) 0x80 (omega arith),
      between_above 0xc0 0xdf (0xe0 + x) (omega arith),
      between_intro 0xe0 0xef (0xe0 + x) (omega arith) (omega arith),
    )

scan_lead_4 : (x : ℕ) (bs : Bytes) → x < 8 → scan 0 0 0 ((0xf0 + x) ∷ bs) ≡ scan 3 x 0x10000 bs
unfolding scan
scan_lead_4 x bs h =
    let e : 0xf0 + x - 0xf0 ≡ x = omega arith in
    rw (
      e,
      le→ltb (0xf0 + x) 0x80 (omega arith),
      between_above 0xc0 0xdf (0xf0 + x) (omega arith),
      between_above 0xe0 0xef (0xf0 + x) (omega arith),
      between_intro 0xf0 0xf7 (0xf0 + x) (omega arith) (omega arith),
    )

scalar-lt : (c : ℕ) → IsScalar c → c < 0x110000
scalar-lt c h = ground arith

ltb→ge : (a b : ℕ) → ltb a b ≡ false → b ≤ a
ltb→ge a b h = ground arith

-- One character's bytes are read back as that character.
scan-utf8_char :
    (c : ℕ) (bs : Bytes)
    → IsScalar c
    → scan 0 0 0 (utf8_char c ++ bs) ≡ (do s ← scan 0 0 0 bs; some (c ∷ s))
unfolding utf8_char
scan-utf8_char c bs h = elim (Bool-cases (ltb c 0x80)) [
  | inl one ↦ rw one (scan-one c bs (ltb→lt c 0x80 one))
  | inr n1 ↦ elim (Bool-cases (ltb c 0x800)) [
    | inl two ↦
        rw (n1, two, scan_lead_2 (c / 64) _ (omega (arith, ltb→lt c 0x800 two)))
          (scan_last (c / 64) 0x80 c bs h (ltb→ge c 0x80 n1) refl)
    | inr n2 ↦ elim (Bool-cases (ltb c 0x10000)) [
      | inl three ↦
          rw
            (
              n1,
              n2,
              three,
              scan_lead_3 (c / 4096) _ (omega (arith, ltb→lt c 0x10000 three)),
              scan_more 0 (c / 4096) 0x800 (c / 64) _ (omega arith),
            )
            (scan_last (c / 64) 0x800 c bs h (ltb→ge c 0x800 n2) refl)
      | inr n3 ↦
          rw
            (
              n1,
              n2,
              n3,
              scan_lead_4 (c / 262144) _ (omega (arith, scalar-lt c h)),
              scan_more 1 (c / 262144) 0x10000 (c / 4096) _ (omega arith),
              scan_more 0 (c / 4096) 0x10000 (c / 64) _ (omega arith),
            )
            (scan_last (c / 64) 0x10000 c bs h (ltb→ge c 0x10000 n3) refl)
    ]
  ]
]

-- Text is read back from its bytes.
pub from_utf8-utf8 : (s : Str) → All IsScalar s → from_utf8 (utf8 s) ≡ some s
unfolding from_utf8 utf8
from_utf8-utf8 [] h = refl
from_utf8-utf8 (c ∷ s) (hc, hs) = rw (scan-utf8_char c (utf8 s) hc, from_utf8-utf8 s hs)

pub utf8-append : (s t : Str) → utf8 (s ++ t) ≡ utf8 s ++ utf8 t
unfolding utf8
utf8-append [] t = refl
utf8-append (c ∷ s) t = rw (utf8-append s t, append_assoc)

-- ASCII text is its own bytes.
pub utf8-ascii : (s : Str) → All IsAscii s → utf8 s ≡ s
unfolding utf8
utf8-ascii [] h = refl
utf8-ascii (c ∷ s) (hc, hs) = rw (lt→ltb c 0x80 hc, utf8-ascii s hs)

pub ascii-IsScalar : (c : ℕ) → IsAscii c → IsScalar c
ascii-IsScalar c h = ground arith

utf8_ok : from_utf8 (utf8 (codes "é過x")) ≡ some (codes "é過x")
unfolding from_utf8 utf8
utf8_ok = refl

surrogate : (from_utf8 (0xed ∷ 0xa0 ∷ 0x80 ∷ []) ≡ none) × (from_utf8 (0xc0 ∷ 0x80 ∷ []) ≡ none)
unfolding from_utf8
surrogate = (refl, refl)
