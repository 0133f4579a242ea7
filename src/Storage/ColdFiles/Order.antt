-- ===== src/Storage/ColdFiles/Order.antt =====
-- The order of bytes is transitive.
use tonggeret.Base.{◌≡◌, true, [], ◌∷◌, arith, refl}
use tonggeret.Text.Utf8.{Bytes}
use tonggeret.Storage.Keys.{lex_ltb}

pub lex_ltb_trans : (a b c : Bytes) → lex_ltb a b ≡ true → lex_ltb b c ≡ true → lex_ltb a c ≡ true
unfolding lex_ltb
lex_ltb_trans [] [] c h k = cc
lex_ltb_trans (x ∷ a) [] c h k = cc
lex_ltb_trans a (y ∷ b) [] h k = cc
lex_ltb_trans [] (y ∷ b) (z ∷ c) h k = refl
lex_ltb_trans (x ∷ a) (y ∷ b) (z ∷ c) h k = ground (arith, lex_ltb_trans a b c)
