-- ===== src/Text/Laws.antt =====
-- What the text functions promise: lengths, cuts at ASCII text, trimming, and equality.
use tonggeret.Base.{
  ℕ, suc, ◌+◌, ◌-◌, ◌<◌, ◌≤◌, zero, ◌≡◌, refl, true, some, [], ◌∷◌, ◌++◌, ◌↔◌, take, arith, All,
  length, Option-cases, inl, inr,
}
use tonggeret.Text.{Str, len, len_utf8, truncate, str_eq}

-- the code points below 128
abbrev pub IsAscii : ℕ → Type 0
IsAscii c = c < 0x80

pub str_eq_refl : (s : Str) → str_eq s s ≡ true
unfolding str_eq
str_eq_refl [] = refl
str_eq_refl (c ∷ s) = ground (arith, str_eq_refl s)

pub str_eq→eq : (s t : Str) → str_eq s t ≡ true → s ≡ t
unfolding str_eq
str_eq→eq [] [] h = refl
str_eq→eq [] (b ∷ t) h = cc
str_eq→eq (a ∷ s) [] h = cc
str_eq→eq (a ∷ s) (b ∷ t) h = ground (arith, str_eq→eq s t)

pub str_eq_sym : (s t : Str) → str_eq s t ≡ str_eq t s
unfolding str_eq
str_eq_sym [] [] = refl
str_eq_sym [] (b ∷ t) = refl
str_eq_sym (a ∷ s) [] = refl
str_eq_sym (a ∷ s) (b ∷ t) = ground (arith, str_eq_sym s t)

pub str_eq_iff : (s t : Str) → (str_eq s t ≡ true) ↔ (s ≡ t)
str_eq_iff s t = (str_eq→eq s t, λ e. rw e (str_eq_refl t))

pub len_utf8_bounds : (c : ℕ) → (1 ≤ len_utf8 c) × (len_utf8 c ≤ 4)
unfolding len_utf8
len_utf8_bounds c = ground arith

pub len-ascii : (s : Str) → All IsAscii s → len s ≡ length s
unfolding len
len-ascii [] h = refl
len-ascii (c ∷ s) (hc, hs) = ground (arith, len-ascii s hs)

-- A cut that succeeds below the length of the text keeps exactly that many bytes.
pub len-truncate : (n : ℕ) (s : Str) {t : Str} → truncate n s ≡ some t → len t ≡ n
unfolding truncate len
len-truncate zero s h = ground arith
len-truncate (suc n) [] h = cc
len-truncate (suc n) (c ∷ s) {t} h = elim (Option-cases (truncate (suc n - len_utf8 c) s)) [
  | inl e ↦ ground arith
  | inr (r, e) ↦ ground (arith, len-truncate (suc n - len_utf8 c) s e)
]

pub len_utf8-ascii : (c : ℕ) → IsAscii c → len_utf8 c ≡ 1
unfolding len_utf8
len_utf8-ascii c h = ground arith

-- A cut through ASCII text never panics, and keeps that many characters.
pub truncate-ascii :
    (n : ℕ) (s : Str) → All IsAscii s → n ≤ length s → truncate n s ≡ some (take n s)
unfolding truncate
truncate-ascii zero s h fits = refl
truncate-ascii (suc n) [] h fits = absurd (omega arith)
truncate-ascii (suc n) (c ∷ s) (hc, hs) fits =
    ground (arith, len_utf8-ascii c hc, truncate-ascii n s hs)

pub All-take {ℓ} : (P : ℕ → Type ℓ) (n : ℕ) (s : Str) → All P s → All P (take n s)
All-take P zero s h = tt
All-take P (suc n) [] h = tt
All-take P (suc n) (c ∷ s) (hc, hs) = (hc, All-take P n s hs)

pub length-take-le : (n : ℕ) (s : Str) → length (take n s) ≤ n
length-take-le zero s = omega arith
length-take-le (suc n) [] = omega arith
length-take-le (suc n) (c ∷ s) = omega (arith, length-take-le n s)

pub len-append : (s t : Str) → len (s ++ t) ≡ len s + len t
unfolding len
len-append [] t = omega arith
len-append (c ∷ s) t = omega (arith, len-append s t)

pub len_utf8-wide : (c : ℕ) → 0x80 ≤ c → 2 ≤ len_utf8 c
unfolding len_utf8
len_utf8-wide c h = ground arith
