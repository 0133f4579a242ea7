-- ===== src/Storage/Shared/Recent.antt =====
-- A pass and the writer thread, interleaved: the keys that the pass does not read.

use tonggeret.Base.{
  ℕ, ◌≡◌, ◌≢◌, ◌⊎◌, inl, inr, refl, sym, ap, ◌∙◌, true, false, Bool-cases, Option, none, some, List,
  [], ◌∷◌, if◌then◌else◌, All,
}
use tonggeret.Text.{str_eq}
use tonggeret.Text.Laws.{str_eq→eq}
use tonggeret.Text.Utf8.{Bytes}
use tonggeret.Types.{MetricEntry}
use tonggeret.Storage.Json.{Json}
use tonggeret.Storage.Keys.{cutoff_prefix, lex_ltb}
use tonggeret.Storage.Partition.{Partition}
use tonggeret.Storage.Writer.{kept, flush_batch}
use tonggeret.Storage.Export.{Files, Outcomes, cutoff_micros}
use tonggeret.Storage.Shared.{
  StoreOp, put, drop_key, Interleaves, done, left, right, drops, run_op, run_ops, writer_ops,
  removals_of,
}
use tonggeret.Storage.Export.Stores.{Keys, Keys-map}
use tonggeret.Storage.Shared.Log.{run_ops-writer_ops, removals_of-All}

module _ {F64 : Type 0} (json : Json F64) (partition : Partition) (zero_f64 : F64)
    (outcomes : Outcomes) where
  open partition use {Store, get, insert, remove, range, get-insert, get-remove, range-get}

  -- removals of other keys, and no insert
  abbrev Spares : Bytes → List StoreOp → Type 0
  Spares k [] = Unit
  Spares k (put j v ∷ ops) = ⊥
  Spares k (drop_key j ∷ ops) = (str_eq j k ≡ false) × Spares k ops

  -- inserts, and no removal
  abbrev ArePuts : List StoreOp → Type 0
  ArePuts [] = Unit
  ArePuts (put j v ∷ ops) = ArePuts ops
  ArePuts (drop_key j ∷ ops) = ⊥

  writer_ops-ArePuts :
      (batch : List (MetricEntry F64)) (seq : ℕ) → ArePuts (writer_ops json partition batch seq)
  unfolding writer_ops
  writer_ops-ArePuts [] seq = tt
  writer_ops-ArePuts (e ∷ batch) seq = writer_ops-ArePuts batch _

  drops-Spares :
      (k : Bytes) (ks : List Bytes) → All (λ j. str_eq j k ≡ false) ks → Spares k (drops ks)
  drops-Spares k [] h = tt
  drops-Spares k (j ∷ ks) (d, h) = (d, drops-Spares k ks h)

  after_drop :
      (j k : Bytes) (s : Store) (r : Option Store)
      → remove j s ≡ r
      → str_eq j k ≡ false
      → get k (kept json partition s r) ≡ get k s
  after_drop j k s none e d = refl
  after_drop j k s (some t) e d = get-remove j s t e k ∙ rw d refl

  after_put :
      (inserts : (k v : Bytes) (s : Store) → insert k v s ≢ none) (j v k : Bytes) (s : Store)
      (r : Option Store)
      → insert j v s ≡ r
      → get k (kept json partition s r) ≡ (if str_eq j k then some v else get k s)
  after_put inserts j v k s none e = absurd (inserts j v s e)
  after_put inserts j v k s (some t) e = get-insert j v s t e k

  -- a key that the pass does not remove is, after any interleaving, as the inserts alone leave it
  interleaved-get :
      (inserts : (k v : Bytes) (s : Store) → insert k v s ≢ none) (k : Bytes)
      {removals puts ops : List StoreOp} (s s' : Store)
      → Interleaves removals puts ops
      → Spares k removals
      → ArePuts puts
      → get k s ≡ get k s'
      → get k (run_ops json partition ops s) ≡ get k (run_ops json partition puts s')
  unfolding run_ops run_op
  interleaved-get inserts k s s' done a b same = same
  interleaved-get inserts k s s' (left (drop_key j) z) (d, a) b same =
      interleaved-get inserts k _ s' z a b (after_drop j k s (remove j s) refl d ∙ same)
  interleaved-get inserts k s s' (left (put j v) z) a b same = absurd a
  interleaved-get inserts k s s' (right (put j v) z) a b same =
      interleaved-get inserts k _ _ z a b (
        after_put inserts j v k s (insert j v s) refl
        ∙ ap (λ x. if str_eq j k then some v else x) same
        ∙ sym (after_put inserts j v k s' (insert j v s') refl))
  interleaved-get inserts k s s' (right (drop_key j) z) a b same = absurd b

  true≢false : true ≡ false → ⊥
  true≢false e = cc

  -- a key from the bound on is none below the bound
  above_other :
      (bound k : Bytes)
      → lex_ltb k bound ≡ false
      → (j : Bytes) → lex_ltb j bound ≡ true
      → str_eq j k ≡ false
  above_other bound k above j below = elim (Bool-cases (str_eq j k)) [
    | inl same ↦
        absurd (true≢false (sym below ∙ ap (λ x. lex_ltb x bound) (str_eq→eq j k same) ∙ above))
    | inr other ↦ other
  ]

  spared_in :
      (bound k : Bytes) (items : List (Option (Bytes × Bytes)))
      → Keys (λ j. lex_ltb j bound ≡ true) items
      → (lex_ltb k bound ≡ false) ⊎ Keys (λ j. str_eq j k ≡ false) items
      → Keys (λ j. str_eq j k ≡ false) items
  spared_in bound k items below (inl above) = Keys-map (above_other bound k above) items below
  spared_in bound k items below (inr others) = others

  -- If inserts succeed: whatever items the scan of a pass gives, with keys below the prefix of its
  -- cutoff (it is lazy, so it may or may not give what is inserted meanwhile), and in whatever order the
  -- removals of the pass and the inserts of a batch of the writer thread interleave, a key that is not
  -- below the prefix of the cutoff, or that the scan does not give, is in the end as `flush_batch` on
  -- its own would leave it, whatever fails in the pass.
  pub get-interleaved :
      (inserts : (k v : Bytes) (s : Store) → insert k v s ≢ none) (now_micros retention : ℕ)
      (items : List (Option (Bytes × Bytes))) (files : Files F64) (s : Store)
      (batch : List (MetricEntry F64)) (seq : ℕ) (ops : List StoreOp) (k : Bytes)
      → Keys (λ j. lex_ltb j (cutoff_prefix (cutoff_micros now_micros retention)) ≡ true) items
      → (lex_ltb k (cutoff_prefix (cutoff_micros now_micros retention)) ≡ false)
        ⊎ Keys (λ j. str_eq j k ≡ false) items
      → Interleaves
          (drops (removals_of json zero_f64 outcomes items files))
          (writer_ops json partition batch seq)
          ops
      → get k (run_ops json partition ops s) ≡ get k (flush_batch json partition batch (s, seq)).0
  get-interleaved inserts now_micros retention items files s batch seq ops k below spared z =
      let others =
        spared_in (cutoff_prefix (cutoff_micros now_micros retention)) k items below spared in
      interleaved-get inserts k s s z
        (drops-Spares k _
          (removals_of-All json zero_f64 outcomes (λ j. str_eq j k ≡ false) items files others))
        (writer_ops-ArePuts batch seq) refl
      ∙ ap (get k) (run_ops-writer_ops json partition batch seq s)
