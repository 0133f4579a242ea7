-- ===== src/Storage/Export/Entries.antt =====
-- The row of an entry, and its key in a store to which a batch has been flushed.
use mathlib.Core.Path.{subst}
use tonggeret.Base.{
  ℕ, suc, ◌+◌, ◌^◌, ◌<◌, ◌≡◌, ◌≢◌, sym, ap, none, some, List, [], ◌∷◌, ◌++◌, length, All, min,
  arith,
}
use tonggeret.Text.Utf8.{Bytes}
use tonggeret.Types.{MetricEntry, as_str}
use tonggeret.Storage.Json.{Json}
use tonggeret.Storage.Partition.{Partition}
use tonggeret.Storage.Keys.{encode_key}
use tonggeret.Storage.Values.{
  unwrap_or, entry_micros, labels_value, encode_value, decode_value-encode_value,
}
use tonggeret.Storage.Writer.{next_seq}
use tonggeret.Storage.Writer.Stored.{Stores}
use tonggeret.Storage.Export.{Row, Outcomes, row_of, max_i64}

pub All-at {ℓ κ} :
    {A : Type ℓ} (P : A → Type κ) (xs : List A) (a : A) (ys : List A) → All P (xs ++ a ∷ ys) → P a
All-at P [] a ys (h, _) = h
All-at P (x ∷ xs) a ys (_, h) = All-at P xs a ys h

pub plus_none : (seq : ℕ) → seq + 0 ≡ seq
plus_none seq = omega arith

pub none_plus : (n : ℕ) → 0 + n ≡ n
none_plus n = omega arith

pub seq_next : (seq n : ℕ) → seq + suc n < 2 ^ 32 → next_seq seq + n ≡ seq + suc n
seq_next seq n h = omega arith

module _ {F64 : Type 0} (json : Json F64) (zero_f64 : F64) where
  -- the row of an entry: its time at most `i64::MAX`, and its value as JSON reads it back, or `0.0`
  unfoldable pub entry_row : MetricEntry F64 → Row F64
  entry_row e = record {
    ts = min (entry_micros e) max_i64;
    name = e.name;
    value = unwrap_or zero_f64 (json.read_number e.value);
    kind = as_str e.metric_type;
    labels = json.to_string (json.settle (labels_value json e.labels));
  }

  pub row_of-encode_value :
      (partition : Partition) (outcomes : Outcomes) (e : MetricEntry F64)
      → row_of json partition zero_f64 outcomes (entry_micros e) e.name (encode_value json e)
        ≡ entry_row e
  unfolding row_of entry_row
  row_of-encode_value partition outcomes e =
      ap
        (λ d. record {
          ts = min (entry_micros e) max_i64;
          name = e.name;
          value = d.0;
          kind = d.1;
          labels = d.2;
        })
        (decode_value-encode_value json zero_f64 e)

module _ {F64 : Type 0} (json : Json F64) (partition : Partition)
    (inserts : (k v : Bytes) (s : partition.Store) → partition.insert k v s ≢ none) where
  open partition use {Store, get}

  pub Stores-at :
      (xs : List (MetricEntry F64)) (e : MetricEntry F64) (ys : List (MetricEntry F64)) (seq : ℕ)
      (s : Store)
      → seq + length xs < 2 ^ 32
      → Stores json partition inserts (xs ++ e ∷ ys) seq s
      → get (encode_key (entry_micros e) (seq + length xs) e.name) s ≡ some (encode_value json e)
  Stores-at [] e ys seq s h (held, _) =
      subst (λ n. get (encode_key (entry_micros e) n e.name) s ≡ some (encode_value json e))
        (sym (plus_none seq)) held
  Stores-at (x ∷ xs) e ys seq s h (_, rest) =
      subst (λ n. get (encode_key (entry_micros e) n e.name) s ≡ some (encode_value json e))
        (seq_next seq (length xs) h)
        (Stores-at xs e ys (next_seq seq) s (omega (arith, seq_next seq (length xs) h)) rest)
