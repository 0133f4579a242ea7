-- ===== src/Storage/Keys.antt =====
-- storage/fjall_engine.rs, the key codec: `{micros:016x}:{seq:08x}:<name>` as bytes.
pub mod Order
pub mod RoundTrip
use tonggeret.Base.{
  ℕ, ◌<◌, ◌≤◌, ◌^◌, ◌≡◌, refl, Bool, true, false, Option, none, some, List, [], ◌∷◌, ◌++◌, ltb,
  ◌==◌, if◌then◌else◌, ◌>>=◌, codes,
}
use tonggeret.Text.{Str}
use tonggeret.Text.Utf8.{Bytes, utf8, from_utf8}
use tonggeret.Text.Hex.{hex, from_str_radix_16}

-- `encode_key`, of a `u64`, a `u32` and a name
unfoldable pub encode_key : ℕ → ℕ → Str → Bytes
encode_key ts_micros seq name = utf8 (hex 16 ts_micros ++ (b':' ∷ (hex 8 seq ++ (b':' ∷ name))))

-- `cutoff_prefix`
unfoldable pub cutoff_prefix : ℕ → Bytes
cutoff_prefix cutoff_micros = utf8 (hex 16 cutoff_micros)

-- one step of `splitn` at `:`, the piece before it and what follows
unfoldable pub split_colon : Bytes → Bytes × Option Bytes
split_colon [] = ([], none)
split_colon (b ∷ bs) =
    let (piece, rest) = split_colon bs in if b == b':' then ([], some bs) else (b ∷ piece, rest)

-- `decode_key`; of the three pieces that `splitn(3, ..)` gives the second is not read
unfoldable pub decode_key : Bytes → Option (ℕ × Str)
decode_key key = do
  let first = split_colon key
  ts ← from_utf8 first.0
  behind ← first.1
  name_bytes ← (split_colon behind).1
  name ← from_utf8 name_bytes
  ts_micros ← from_str_radix_16 ts
  some (ts_micros, name)

-- `Ord` of byte slices, the order of the keys in the store
unfoldable pub lex_ltb : Bytes → Bytes → Bool
lex_ltb [] [] = false
lex_ltb [] (b ∷ bs) = true
lex_ltb (a ∷ as_) [] = false
lex_ltb (a ∷ as_) (b ∷ bs) =
    let later = lex_ltb as_ bs in if ltb a b then true else if a == b then later else false

not_a_key : decode_key (codes "not-a-key") ≡ none
unfolding decode_key split_colon from_utf8
not_a_key = refl

some_key :
    decode_key (encode_key 2000 3 (codes "http:requests")) ≡ some (2000, codes "http:requests")
unfolding decode_key encode_key split_colon from_utf8 from_str_radix_16 hex utf8
some_key = refl
