-- ===== src/Storage/Shared/Log.antt =====
-- Sequences of operations, and the removals of a pass: each is of a key that its scan gave.
use tonggeret.Base.{ℕ, ◌≡◌, refl, ap, Option, List, [], ◌∷◌, ◌++◌, All, All-append}
use tonggeret.Text.Utf8.{Bytes}
use tonggeret.Types.{MetricEntry}
use tonggeret.Storage.Json.{Json}
use tonggeret.Storage.Partition.{Partition}
use tonggeret.Storage.Writer.{flush_batch}
use tonggeret.Storage.Export.{Files, Outcomes}
use tonggeret.Storage.Export.Stores.{Keys, run_items-keeps}
use tonggeret.Storage.Shared.{
  StoreOp, drop_key, drops, run_op, run_ops, writer_ops, recorder, removals_of,
}

pub drops-append :
    (ks : List Bytes) (k : Bytes) → drops (ks ++ k ∷ []) ≡ drops ks ++ drop_key k ∷ []
drops-append [] k = refl
drops-append (j ∷ ks) k = ap (λ x. drop_key j ∷ x) (drops-append ks k)

module _ {F64 : Type 0} (json : Json F64) (partition : Partition) where
  open partition use {Store, get, remove, range, range-get}

  pub run_ops-append :
      (xs ys : List StoreOp) (s : Store)
      → run_ops json partition (xs ++ ys) s
        ≡ run_ops json partition ys (run_ops json partition xs s)
  unfolding run_ops
  run_ops-append [] ys s = refl
  run_ops-append (x ∷ xs) ys s = run_ops-append xs ys _

  -- the writer's operations on their own are `flush_batch`
  pub run_ops-writer_ops :
      (batch : List (MetricEntry F64)) (seq : ℕ) (s : Store)
      → run_ops json partition (writer_ops json partition batch seq) s
        ≡ (flush_batch json partition batch (s, seq)).0
  unfolding run_ops run_op writer_ops flush_batch
  run_ops-writer_ops [] seq s = refl
  run_ops-writer_ops (e ∷ batch) seq s = run_ops-writer_ops batch _ _

-- The removals of a pass are of keys of its items.
pub removals_of-All :
    {F64 : Type 0} (json : Json F64) (zero_f64 : F64) (outcomes : Outcomes) (J : Bytes → Type 0)
    (items : List (Option (Bytes × Bytes))) (files : Files F64)
    → Keys J items
    → All J (removals_of json zero_f64 outcomes items files)
unfolding removals_of
removals_of-All json zero_f64 outcomes J items files js =
    run_items-keeps json recorder zero_f64 outcomes J (All J)
      (λ j ks h all. All-append J ks (j ∷ []) all (h, tt)) items [] files js tt
