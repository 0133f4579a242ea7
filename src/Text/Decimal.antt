-- ===== src/Text/Decimal.antt =====
-- `u16::to_string`: a number in decimal. Five digits are enough for a `u16`.
use tonggeret.Base.{
  ℕ, zero, suc, ◌+◌, ◌/◌, ◌%◌, ◌≡◌, refl, [], ◌∷◌, ◌++◌, ltb, if◌then◌else◌, codes,
}
use tonggeret.Text.{Str}

-- at most that many digits
unfoldable pub digits_up_to : ℕ → ℕ → Str
digits_up_to zero n = []
digits_up_to (suc w) n =
    let front = digits_up_to w (n / 10) in
    if ltb n 10 then (b'0' + n) ∷ [] else front ++ (b'0' + n % 10) ∷ []

unfoldable pub decimal : ℕ → Str
unfolding digits_up_to
decimal n = digits_up_to 5 n

not_found : decimal 404 ≡ codes "404"
unfolding decimal
not_found = refl
