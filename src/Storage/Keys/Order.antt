-- ===== src/Storage/Keys/Order.antt =====
-- The byte order of the keys is the order of time, then sequence number, then name, so a cutoff is
-- a range that ends at a prefix.
use tonggeret.Base.{
  Option, ℕ, zero, suc, ◌+◌, ◌*◌, ◌/◌, ◌%◌, ◌<◌, ◌≤◌, ◌^◌, ◌≡◌, refl, Bool, true, false, some, [],
  ◌∷◌, ◌++◌, arith, ltb, ◌==◌, if◌then◌else◌, All, ap, ◌∙◌, append-nil, sym,
}
use tonggeret.Text.{Str}
use tonggeret.Text.Utf8.{Bytes, utf8, utf8-ascii, IsScalar}
use tonggeret.Text.Hex.{hex, max_u64}
use tonggeret.Text.Hex.Laws.{first_lt, rest_lt, hex_digit_lt, hex_digit_eq}
use tonggeret.Storage.Keys.{encode_key, cutoff_prefix, lex_ltb, decode_key}
use tonggeret.Storage.Keys.RoundTrip.{encode_key-fields, hex-IsAscii, decode_key-encode_key}

-- the order of a pair of numbers, and of what follows where they are equal
abbrev pub then_by : ℕ → ℕ → Bool → Bool
then_by a b later = if ltb a b then true else if a == b then later else false

lt_of_div-lt : (p a b : ℕ) → a / p < b / p → a < b
lt_of_div-lt p a b h = grind arith

same_div : (p a b : ℕ) → a / p ≡ b / p → a + b % p ≡ b + a % p
same_div p a b h = omega (arith, ap (λ (q : ℕ). q * p) h)

-- to compare numbers is to compare quotients, then remainders
then_by-div :
    (p a b : ℕ) (later : Bool)
    → then_by (a / p) (b / p) (then_by (a % p) (b % p) later) ≡ then_by a b later
then_by-div p a b later = ground (arith, lt_of_div-lt p a b, lt_of_div-lt p b a, same_div p a b)

lex_ltb-hex :
    (w a b : ℕ) (xs ys : Bytes)
    → a < 16 ^ w
    → b < 16 ^ w
    → lex_ltb (hex w a ++ xs) (hex w b ++ ys) ≡ then_by a b (lex_ltb xs ys)
unfolding lex_ltb hex
lex_ltb-hex zero a b xs ys ha hb = ground arith
lex_ltb-hex (suc w) a b xs ys ha hb =
    rw
      (
        hex_digit_lt (a / 16 ^ w) (b / 16 ^ w) (first_lt w a ha) (first_lt w b hb),
        hex_digit_eq (a / 16 ^ w) (b / 16 ^ w) (first_lt w a ha) (first_lt w b hb),
        lex_ltb-hex w (a % 16 ^ w) (b % 16 ^ w) xs ys (rest_lt w a) (rest_lt w b),
      )
      (then_by-div (16 ^ w) a b (lex_ltb xs ys))

lex_ltb-colon : (xs ys : Bytes) → lex_ltb (b':' ∷ xs) (b':' ∷ ys) ≡ lex_ltb xs ys
unfolding lex_ltb
lex_ltb-colon xs ys = refl

-- For times of 64 bits and sequence numbers of 32, keys compare as bytes the way their times
-- compare; at one time as their sequence numbers; at one time and sequence number as the bytes of
-- their names.
pub lex_ltb-encode_key :
    (ts ts' seq seq' : ℕ) (name name' : Str)
    → ts ≤ max_u64
    → ts' ≤ max_u64
    → seq < 2 ^ 32
    → seq' < 2 ^ 32
    → lex_ltb (encode_key ts seq name) (encode_key ts' seq' name')
      ≡ then_by ts ts' (then_by seq seq' (lex_ltb (utf8 name) (utf8 name')))
lex_ltb-encode_key ts ts' seq seq' name name' ht ht' hs hs' = rw (
  encode_key-fields ts seq name ht hs,
  encode_key-fields ts' seq' name' ht' hs',
  lex_ltb-hex 16 ts ts' _ _ (omega arith) (omega arith),
  lex_ltb-colon,
  lex_ltb-hex 8 seq seq' _ _ (omega arith) (omega arith),
  lex_ltb-colon,
)

lex_ltb-nil : (xs : Bytes) → lex_ltb xs [] ≡ false
unfolding lex_ltb
lex_ltb-nil [] = refl
lex_ltb-nil (x ∷ xs) = refl

-- For times of 64 bits and a sequence number of 32, a key sorts below the prefix of a cutoff exactly
-- if its time is before the cutoff.
pub lex_ltb-cutoff_prefix :
    (ts seq cutoff : ℕ) (name : Str)
    → ts ≤ max_u64
    → seq < 2 ^ 32
    → cutoff ≤ max_u64
    → lex_ltb (encode_key ts seq name) (cutoff_prefix cutoff) ≡ ltb ts cutoff
unfolding cutoff_prefix
lex_ltb-cutoff_prefix ts seq cutoff name ht hs hc =
    rw
      (
        encode_key-fields ts seq name ht hs,
        utf8-ascii (hex 16 cutoff) (hex-IsAscii 16 cutoff (omega arith)),
        ← append-nil (hex 16 cutoff),
        lex_ltb-hex 16 ts cutoff _ [] (omega arith) (omega arith),
        lex_ltb-nil,
      )
      (ground arith)

pub lex_ltb_irrefl : (xs : Bytes) → lex_ltb xs xs ≡ false
unfolding lex_ltb
lex_ltb_irrefl [] = refl
lex_ltb_irrefl (x ∷ xs) = ground (arith, lex_ltb_irrefl xs)

-- For times of 64 bits, sequence numbers of 32 and names of Unicode scalar values, keys that are
-- equal have equal times, sequence numbers and names.
pub encode_key-injective :
    (ts ts' seq seq' : ℕ) (name name' : Str)
    → ts ≤ max_u64
    → ts' ≤ max_u64
    → seq < 2 ^ 32
    → seq' < 2 ^ 32
    → All IsScalar name
    → All IsScalar name'
    → encode_key ts seq name ≡ encode_key ts' seq' name'
    → (ts ≡ ts') × (seq ≡ seq') × (name ≡ name')
encode_key-injective ts ts' seq seq' name name' ht ht' hs hs' hn hn' e =
    let same : ◌≡◌ {A = Option (ℕ × Str)} (some (ts, name)) (some (ts', name')) =
      sym (decode_key-encode_key ts seq name ht hs hn)
      ∙ ap decode_key e
      ∙ decode_key-encode_key ts' seq' name' ht' hs' hn' in
    let forth : lex_ltb (encode_key ts seq name) (encode_key ts' seq' name') ≡ false =
      rw e (lex_ltb_irrefl _) in
    let back : lex_ltb (encode_key ts' seq' name') (encode_key ts seq name) ≡ false =
      rw e (lex_ltb_irrefl _) in
    let forth' = lex_ltb-encode_key ts ts' seq seq' name name' ht ht' hs hs' in
    let back' = lex_ltb-encode_key ts' ts seq' seq name' name ht' ht hs' hs in
    let ts_eq : ts ≡ ts' = cc same in (ts_eq, ground arith, cc same)
