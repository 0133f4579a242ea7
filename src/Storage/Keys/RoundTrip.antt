-- ===== src/Storage/Keys/RoundTrip.antt =====
-- A key is decoded to the time and the name that it was encoded from.
use tonggeret.Base.{ℕ, ◌<◌, ◌≤◌, ◌^◌, ◌≡◌, ◌≢◌, refl, some, [], ◌∷◌, ◌++◌, arith, All, All-map}
use tonggeret.Text.{Str}
use tonggeret.Text.Laws.{IsAscii}
use tonggeret.Text.Utf8.{
  Bytes, utf8, from_utf8, utf8-append, utf8-ascii, from_utf8-utf8, IsScalar, ascii-IsScalar,
}
use tonggeret.Text.Hex.{hex, max_u64}
use tonggeret.Text.Hex.Laws.{hex-All, hex_digit-IsAscii, hex_digit-ne_colon, from_str_radix_16-hex}
use tonggeret.Storage.Keys.{encode_key, split_colon, decode_key}

abbrev pub LacksColon : Bytes → Type 0
LacksColon = All (λ b. b ≢ b':')

pub split_colon-append :
    (xs ys : Bytes) → LacksColon xs → split_colon (xs ++ (b':' ∷ ys)) ≡ (xs, some ys)
unfolding split_colon
split_colon-append [] ys h = refl
split_colon-append (x ∷ xs) ys (hx, hs) = ground (arith, split_colon-append xs ys hs)

pub hex-IsAscii : (w n : ℕ) → n < 16 ^ w → All IsAscii (hex w n)
hex-IsAscii = hex-All IsAscii hex_digit-IsAscii

pub hex-LacksColon : (w n : ℕ) → n < 16 ^ w → LacksColon (hex w n)
hex-LacksColon = hex-All (λ b. b ≢ b':') hex_digit-ne_colon

-- the bytes of a key, field by field
pub encode_key-fields :
    (ts seq : ℕ) (name : Str)
    → ts ≤ max_u64
    → seq < 2 ^ 32
    → encode_key ts seq name ≡ hex 16 ts ++ (b':' ∷ (hex 8 seq ++ (b':' ∷ utf8 name)))
unfolding encode_key
encode_key-fields ts seq name ht hs =
    let colon : (s : Str) → utf8 (b':' ∷ s) ≡ b':' ∷ utf8 s = λ s. (unfold utf8 in refl) in
    rw (
      utf8-append (hex 16 ts) _,
      utf8-ascii (hex 16 ts) (hex-IsAscii 16 ts (omega arith)),
      colon (hex 8 seq ++ (b':' ∷ name)),
      utf8-append (hex 8 seq) _,
      utf8-ascii (hex 8 seq) (hex-IsAscii 8 seq (omega arith)),
      colon name,
    )

-- ASCII bytes are the text of themselves.
from_utf8-ascii : (s : Str) → All IsAscii s → from_utf8 s ≡ some s
from_utf8-ascii s h = rw (utf8-ascii s h) at (from_utf8-utf8 s (All-map ascii-IsScalar s h))

-- `decode_key` gives back the time and the name of a key that `encode_key` writes, for every `u64`,
-- every `u32` and every text of Unicode scalar values, colons included.
pub decode_key-encode_key :
    (ts seq : ℕ) (name : Str)
    → ts ≤ max_u64
    → seq < 2 ^ 32
    → All IsScalar name
    → decode_key (encode_key ts seq name) ≡ some (ts, name)
unfolding decode_key
decode_key-encode_key ts seq name ht hs hn = rw (
  encode_key-fields ts seq name ht hs,
  split_colon-append (hex 16 ts) _ (hex-LacksColon 16 ts (omega arith)),
  from_utf8-ascii (hex 16 ts) (hex-IsAscii 16 ts (omega arith)),
  split_colon-append (hex 8 seq) _ (hex-LacksColon 8 seq (omega arith)),
  from_utf8-utf8 name hn,
  from_str_radix_16-hex ts ht,
)
