-- ===== src/Storage/Writer/Stored.antt =====
-- What `flush_batch` stores: no entry of a batch takes the place of another.
use tonggeret.Base.{
  ℕ, ◌+◌, ◌-◌, ◌%◌, ◌^◌, ◌≤◌, ◌<◌, ◌≡◌, ◌≢◌, refl, ◌∙◌, false, Option, none, some, List, [], ◌∷◌,
  length, All, arith, Bool-cases, inl, inr, if◌then◌else◌,
}
use tonggeret.Text.{Str, str_eq}
use tonggeret.Text.Hex.{max_u64}
use tonggeret.Text.Laws.{str_eq_refl, str_eq→eq}
use tonggeret.Text.Utf8.{Bytes, IsScalar}
use tonggeret.Types.{MetricEntry}
use tonggeret.Storage.Json.{Json}
use tonggeret.Storage.Keys.{encode_key}
use tonggeret.Storage.Keys.Order.{encode_key-injective}
use tonggeret.Storage.Values.{entry_micros, entry_micros-le, encode_value}
use tonggeret.Storage.Partition.{Partition}
use tonggeret.Storage.Writer.{flush_batch, kept, next_seq}

-- the name is one of Unicode scalar values, as every `String` is
abbrev pub IsNamed : {F64 : Type 0} → MetricEntry F64 → Type 0
IsNamed e = All IsScalar e.name

seq_differs : (q q' d : ℕ) → q' < 2 ^ 32 → 1 ≤ d → d < 2 ^ 32 → q ≡ (q' + d) % 2 ^ 32 → q' ≢ q
seq_differs q q' d hq least most e same = omega arith

seq_moves : (q q' d : ℕ) → 1 ≤ d → q ≡ (q' + d) % 2 ^ 32 → q ≡ (next_seq q' + (d - 1)) % 2 ^ 32
seq_moves q q' d least e = omega arith

seq_around : (q : ℕ) → q < 2 ^ 32 → q ≡ (next_seq q + (2 ^ 32 - 1)) % 2 ^ 32
seq_around q h = omega arith

next_seq_lt : (q : ℕ) → next_seq q < 2 ^ 32
next_seq_lt q = omega arith

-- keys with other sequence numbers differ
keys_differ :
    (ts ts' q q' : ℕ) (name name' : Str)
    → ts ≤ max_u64
    → ts' ≤ max_u64
    → q < 2 ^ 32
    → q' < 2 ^ 32
    → All IsScalar name
    → All IsScalar name'
    → q' ≢ q
    → str_eq (encode_key ts' q' name') (encode_key ts q name) ≡ false
keys_differ ts ts' q q' name name' ht ht' hq hq' hn hn' other =
    elim (Bool-cases (str_eq (encode_key ts' q' name') (encode_key ts q name))) [
      | inl same ↦ absurd (
          other
            (encode_key-injective ts' ts q' q name' name ht' ht hq' hq hn' hn
              (str_eq→eq _ _ same)).1)
      | inr differs ↦ differs
    ]

module _ {F64 : Type 0} (json : Json F64) (partition : Partition)
    (inserts : (k v : Bytes) (s : partition.Store) → partition.insert k v s ≢ none) where
  open partition use {Store, get, insert, get-insert}

  after_insert :
      (k v j : Bytes) (s : Store) (r : Option Store)
      → insert k v s ≡ r
      → get j (kept json partition s r) ≡ (if str_eq k j then some v else get j s)
  after_insert k v j s none e = absurd (inserts k v s e)
  after_insert k v j s (some s') e = get-insert k v s s' e j

  -- a batch with other sequence numbers leaves a key as it is
  flush_batch-other :
      (batch : List (MetricEntry F64)) (s : Store) (ts q q' d : ℕ) (name : Str)
      → ts ≤ max_u64
      → q < 2 ^ 32
      → q' < 2 ^ 32
      → All IsScalar name
      → All IsNamed batch
      → length batch ≤ d
      → d < 2 ^ 32
      → q ≡ (q' + d) % 2 ^ 32
      → get (encode_key ts q name) (flush_batch json partition batch (s, q')).0
        ≡ get (encode_key ts q name) s
  unfolding flush_batch
  flush_batch-other [] s ts q q' d name ht hq hq' hn named few most e = refl
  flush_batch-other (x ∷ batch) s ts q q' d name ht hq hq' hn (named_x, named) few most e =
      let least : 1 ≤ d = omega (arith, few) in
      let differs =
        keys_differ ts (entry_micros x) q q' name x.name ht (entry_micros-le x) hq hq' hn named_x
          (seq_differs q q' d hq' least most e) in
      flush_batch-other batch _ ts q (next_seq q') (d - 1) name ht hq (next_seq_lt q') hn named
        (omega (arith, few)) (omega (arith, most)) (seq_moves q q' d least e)
      ∙ after_insert (encode_key (entry_micros x) q' x.name) (encode_value json x)
          (encode_key ts q name) s _ refl
      ∙ rw differs refl

  -- each entry is in the store under its key, with its payload; the first has the number `seq`
  abbrev pub Stores : List (MetricEntry F64) → ℕ → Store → Type 0
  Stores [] seq s = Unit
  Stores (x ∷ batch) seq s =
      (get (encode_key (entry_micros x) seq x.name) s ≡ some (encode_value json x))
      × Stores batch (next_seq seq) s

  -- If inserts succeed and names are of Unicode scalar values, then after `flush_batch` of at most 2^32
  -- entries each of them is in the store under its key, with its payload, whatever their times and names
  -- and also where the sequence number wraps around.
  pub flush_batch-Stores :
      (batch : List (MetricEntry F64)) (s : Store) (seq : ℕ)
      → seq < 2 ^ 32
      → All IsNamed batch
      → length batch ≤ 2 ^ 32
      → Stores batch seq (flush_batch json partition batch (s, seq)).0
  unfolding flush_batch
  flush_batch-Stores [] s seq h named few = tt
  flush_batch-Stores (x ∷ batch) s seq h (named_x, named) few = (
    flush_batch-other batch _ (entry_micros x) seq (next_seq seq) (2 ^ 32 - 1) x.name
          (entry_micros-le x) h (next_seq_lt seq) named_x named (omega (arith, few)) (omega arith)
          (seq_around seq h)
        ∙ after_insert (encode_key (entry_micros x) seq x.name) (encode_value json x)
            (encode_key (entry_micros x) seq x.name) s _ refl
        ∙ rw (str_eq_refl (encode_key (entry_micros x) seq x.name)) refl,
    flush_batch-Stores batch _ (next_seq seq) (next_seq_lt seq) named (omega (arith, few)),
  )
