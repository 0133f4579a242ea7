-- ===== src/Text/Hex.antt =====
-- Hexadecimal: `{:016x}` and `{:08x}` of a number that fits, and `u64::from_str_radix(s, 16)`.
pub mod Laws
use tonggeret.Base.{
  ℕ, zero, suc, ◌+◌, ◌-◌, ◌*◌, ◌/◌, ◌%◌, ◌^◌, ◌<◌, ◌≤◌, ◌≡◌, refl, Bool, true, false, ◌||◌, Option,
  none, some, List, [], ◌∷◌, ◌++◌, arith, ltb, ◌==◌, if◌then◌else◌, between, ◌>>=◌, All, codes,
}
use tonggeret.Text.{Str, is_ascii_digit}

abbrev pub max_u64 : ℕ
max_u64 = 2 ^ 64 - 1

abbrev pub hex_digit : ℕ → ℕ
hex_digit d = if ltb d 10 then b'0' + d else b'a' + (d - 10)

-- the `width` digits of a number below 16 ^ width, the first one first
unfoldable pub hex : ℕ → ℕ → Str
hex zero n = []
hex (suc width) n = hex_digit (n / 16 ^ width) ∷ hex width (n % 16 ^ width)

-- `char::to_digit(16)`
abbrev pub to_digit : ℕ → Option ℕ
to_digit c =
    if is_ascii_digit c
    then some (c - b'0')
    else if between b'a' b'f' c
    then some (c - b'a' + 10)
    else if between b'A' b'F' c
    then some (c - b'A' + 10)
    else none

-- the digits, with `checked_mul` and `checked_add` on a `u64`
unfoldable pub read_digits : Str → ℕ → Option ℕ
read_digits [] acc = some acc
read_digits (c ∷ s) acc = do
  d ← to_digit c
  let next = acc * 16 + d
  let rest = read_digits s next
  if ltb max_u64 next then none else rest

-- `u64::from_str_radix(s, 16)`: a `+` may stand before the digits
unfoldable pub from_str_radix_16 : Str → Option ℕ
unfolding read_digits
from_str_radix_16 [] = none
from_str_radix_16 (c ∷ []) = read_digits (c ∷ []) 0
from_str_radix_16 (c ∷ d ∷ s) =
    if c == b'+' then read_digits (d ∷ s) 0 else read_digits (c ∷ d ∷ s) 0

hex_padded : hex 8 0xbeef ≡ codes "0000beef"
unfolding hex
hex_padded = refl

read_back : from_str_radix_16 (codes "+00fF") ≡ some 255
unfolding from_str_radix_16
read_back = refl
