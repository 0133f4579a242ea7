-- ===== src/Storage/Shared.antt =====
-- A compaction pass and the writer thread on one store, interleaved: each removal of the pass and each
-- insert of the thread is a step. The scan of the pass is lazy, over the live partition, so nothing is
-- assumed of which inserts it sees: a pass is one over any items that the scan may give.
pub mod Log
pub mod Recent
pub mod Plain
pub mod Alone
use tonggeret.Base.{
  ℕ, ◌≡◌, refl, Bool, true, false, Option, none, some, List, [], ◌∷◌, ◌++◌, if◌then◌else◌, All,
  none≢some, if_intro,
}
use tonggeret.Text.{str_eq}
use tonggeret.Text.Utf8.{Bytes}
use tonggeret.Types.{MetricEntry}
use tonggeret.Storage.Json.{Json}
use tonggeret.Storage.Keys.{encode_key}
use tonggeret.Storage.Values.{entry_micros, encode_value}
use tonggeret.Storage.Partition.{Partition}
use tonggeret.Storage.Writer.{kept, next_seq}
use tonggeret.Storage.Export.{Files, Outcomes, run_items}

-- an operation on the store
pub data StoreOp : Type 0 where
  put : Bytes → Bytes → StoreOp
  drop_key : Bytes → StoreOp

-- two sequences of operations, in any order that keeps the order of each
pub data Interleaves : List StoreOp → List StoreOp → List StoreOp → Type 0 where
  done : Interleaves [] [] []
  left :
      {xs ys zs : List StoreOp} (x : StoreOp)
      → Interleaves xs ys zs
      → Interleaves (x ∷ xs) ys (x ∷ zs)
  right :
      {xs ys zs : List StoreOp} (y : StoreOp)
      → Interleaves xs ys zs
      → Interleaves xs (y ∷ ys) (y ∷ zs)

abbrev pub drops : List Bytes → List StoreOp
drops [] = []
drops (k ∷ ks) = drop_key k ∷ drops ks

module _ {F64 : Type 0} (json : Json F64) (partition : Partition) where
  open partition use {
    Store, get, insert, remove, range, get-insert, get-remove, range-get, get-range,
  }

  -- an operation that fails is logged, and changes nothing
  unfoldable pub run_op : StoreOp → Store → Store
  run_op (put k v) s = kept json partition s (insert k v s)
  run_op (drop_key k) s = kept json partition s (remove k s)

  unfoldable pub run_ops : List StoreOp → Store → Store
  unfolding run_op
  run_ops [] s = s
  run_ops (op ∷ ops) s = run_ops ops (run_op op s)

  -- the inserts of `flush_batch`
  unfoldable pub writer_ops : List (MetricEntry F64) → ℕ → List StoreOp
  writer_ops [] seq = []
  writer_ops (e ∷ batch) seq =
      put (encode_key (entry_micros e) seq e.name) (encode_value json e)
      ∷ writer_ops batch (next_seq seq)

-- A store of which only the removals are noted, in order: what a pass would remove from any store.
abbrev pub recorder : Partition
recorder = record {
  Store = List Bytes;
  get = λ k ks. none;
  insert = λ k v ks. none;
  remove = λ k ks. some (ks ++ k ∷ []);
  range = λ bound ks. [];
  get-insert = λ k v ks ks' e j. absurd (none≢some e);
  get-remove = λ k ks ks' e j. if_intro (λ o. none ≡ o) (str_eq k j) refl refl;
  range-get = λ bound ks. tt;
  get-range = λ bound ks read k v held low. absurd (none≢some held);
}

-- the keys that a pass over the items removes, in order, whether or not the store then drops them
unfoldable pub removals_of :
    {F64 : Type 0}
    → Json F64
    → F64
    → Outcomes
    → List (Option (Bytes × Bytes))
    → Files F64
    → List Bytes
removals_of json zero_f64 outcomes items files =
    (run_items json recorder zero_f64 outcomes items [] files).1
