-- ===== src/Storage/Writer/Laws.antt =====
-- `flush_batch` in parts: what it does to two batches in a row.
use tonggeret.Base.{ℕ, ◌≡◌, refl, List, [], ◌∷◌, ◌++◌}
use tonggeret.Types.{MetricEntry}
use tonggeret.Storage.Json.{Json}
use tonggeret.Storage.Partition.{Partition}
use tonggeret.Storage.Writer.{flush_batch}

module _ {F64 : Type 0} (json : Json F64) (partition : Partition) where
  open partition use {Store}

  pub flush_batch-append :
      (xs ys : List (MetricEntry F64)) (st : Store × ℕ)
      → flush_batch json partition (xs ++ ys) st
        ≡ flush_batch json partition ys (flush_batch json partition xs st)
  unfolding flush_batch
  flush_batch-append [] ys st = refl
  flush_batch-append (x ∷ xs) ys st = flush_batch-append xs ys _
