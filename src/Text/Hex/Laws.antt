-- ===== src/Text/Hex/Laws.antt =====
-- Hexadecimal digits are read back, are ASCII, and are ordered as their values are.
use native.Mathlib.Nat.{pow-suc, le_trans}
use tonggeret.Base.{
  ℕ, zero, suc, ◌+◌, ◌*◌, ◌/◌, ◌%◌, ◌^◌, ◌<◌, ◌≤◌, ◌≡◌, ◌≢◌, refl, false, some, arith, ltb, ◌==◌,
  All, length, ap, ◌∙◌, le→ltb,
}
use tonggeret.Text.Laws.{IsAscii}
use tonggeret.Text.Hex.{max_u64, hex_digit, hex, to_digit, read_digits, from_str_radix_16}

pub to_digit-hex_digit : (d : ℕ) → d < 16 → to_digit (hex_digit d) ≡ some d
to_digit-hex_digit d h = ground arith

pub hex_digit-IsAscii : (d : ℕ) → d < 16 → IsAscii (hex_digit d)
hex_digit-IsAscii d h = ground arith

pub hex_digit-ne_colon : (d : ℕ) → d < 16 → hex_digit d ≢ b':'
hex_digit-ne_colon d h = ground arith

pub hex_digit_lt : (a b : ℕ) → a < 16 → b < 16 → ltb (hex_digit a) (hex_digit b) ≡ ltb a b
hex_digit_lt a b ha hb = ground arith

pub hex_digit_eq : (a b : ℕ) → a < 16 → b < 16 → (hex_digit a == hex_digit b) ≡ (a == b)
hex_digit_eq a b ha hb = ground arith

pub pow-pos : (w : ℕ) → 1 ≤ 16 ^ w
pow-pos zero = omega arith
pow-pos (suc w) = rw pow-suc (omega (arith, pow-pos w))

-- with `p` for a power of 16
first_lt_of : (p n : ℕ) → n < p * 16 → n / p < 16
first_lt_of p n h = grind arith

-- reading on behind one more digit
shift_digit : (p n acc : ℕ) → (acc * 16 + n / p) * p + n % p ≡ acc * (p * 16) + n
shift_digit p n acc = omega arith

-- no partial value is larger than the whole
le_shift : (p x r : ℕ) → 1 ≤ p → x ≤ x * p + r
le_shift zero x r h = elim h [ ]
le_shift (suc p) x r h = omega arith

-- The first digit, and what the others spell.
pub first_lt : (w n : ℕ) → n < 16 ^ suc w → n / 16 ^ w < 16
first_lt w n h = first_lt_of (16 ^ w) n (rw (← pow-suc) h)

pub rest_lt : (w n : ℕ) → n % 16 ^ w < 16 ^ w
rest_lt w n = omega (arith, pow-pos w)

pub length-hex : (w n : ℕ) → length (hex w n) ≡ w
unfolding hex
length-hex zero n = refl
length-hex (suc w) n = ap suc (length-hex w (n % 16 ^ w))

-- What holds of every digit holds of all that `hex` writes.
pub hex-All {ℓ} :
    (P : ℕ → Type ℓ)
    → ((d : ℕ) → d < 16 → P (hex_digit d))
    → (w n : ℕ) → n < 16 ^ w
    → All P (hex w n)
unfolding hex
hex-All P at zero n h = tt
hex-All P at (suc w) n h =
    (at (n / 16 ^ w) (first_lt w n h), hex-All P at w (n % 16 ^ w) (rest_lt w n))

read_digits-hex :
    (w n acc : ℕ)
    → n < 16 ^ w
    → acc * 16 ^ w + n ≤ max_u64
    → read_digits (hex w n) acc ≡ some (acc * 16 ^ w + n)
unfolding hex read_digits
read_digits-hex zero n acc h fits = ground arith
read_digits-hex (suc w) n acc h fits =
    let p = 16 ^ w in
    let next = acc * 16 + n / p in
    let e : next * p + n % p ≡ acc * (p * 16) + n = shift_digit p n acc in
    let fits' : next * p + n % p ≤ max_u64 = rw (e, ← pow-suc) fits in
    let small : next ≤ max_u64 = le_trans (le_shift p next (n % p) (pow-pos w)) fits' in
    rw (
      to_digit-hex_digit (n / p) (first_lt w n h),
      le→ltb max_u64 next small,
      read_digits-hex w (n % p) next (rest_lt w n) fits',
      e,
      pow-suc,
    )

hex_digit-ne_plus : (d : ℕ) → d < 16 → (hex_digit d == b'+') ≡ false
hex_digit-ne_plus d h = ground arith

no_sign :
    (w n : ℕ)
    → n < 16 ^ suc (suc w)
    → from_str_radix_16 (hex (suc (suc w)) n) ≡ read_digits (hex (suc (suc w)) n) 0
unfolding from_str_radix_16 hex
no_sign w n h = rw (hex_digit-ne_plus (n / 16 ^ suc w) (first_lt (suc w) n h))

-- The 16 digits of a `u64` are read back.
pub from_str_radix_16-hex : (n : ℕ) → n ≤ max_u64 → from_str_radix_16 (hex 16 n) ≡ some n
unfolding from_str_radix_16
from_str_radix_16-hex n h =
    no_sign 14 n (omega arith)
    ∙ read_digits-hex 16 n 0 (omega arith) (omega arith)
    ∙ ap some (omega arith)
