-- ===== src/Storage/Export/Removed.antt =====
-- Which keys a pass exports, and what removals leave of a store.
use tonggeret.Base.{
  ◌≡◌, ◌≢◌, ◌⊎◌, refl, Bool, true, false, ◌||◌, Option, none, some, List, [], ◌∷◌, ◌++◌,
  if◌then◌else◌, arith, Bool-cases, inl, inr,
}
use tonggeret.Text.{str_eq}
use tonggeret.Text.Laws.{str_eq_refl}
use tonggeret.Text.Utf8.{Bytes}
use tonggeret.Error.{Result, ok, err}
use tonggeret.Storage.Json.{Json}
use tonggeret.Storage.Partition.{Partition}
use tonggeret.Storage.Writer.{kept}
use tonggeret.Storage.Keys.{decode_key}
use tonggeret.Storage.Export.{Outcomes, Pass, remove_all}
use tonggeret.Storage.Export.Tally.{Post}

-- whether a key is in a list of keys
abbrev pub has_key : Bytes → List Bytes → Bool
has_key k [] = false
has_key k (j ∷ ks) = str_eq j k || has_key k ks

pub has_key-append :
    (k : Bytes) (ks : List Bytes) (j : Bytes)
    → has_key k ks ≡ true
    → has_key k (ks ++ j ∷ []) ≡ true
has_key-append k [] j h = cc
has_key-append k (i ∷ ks) j h = ground (arith, has_key-append k ks j)

pub has_key-last : (k : Bytes) (ks : List Bytes) → has_key k (ks ++ k ∷ []) ≡ true
has_key-last k [] = rw (str_eq_refl k)
has_key-last k (i ∷ ks) = ground (arith, has_key-last k ks)

pub Post-unit :
    {F64 Store : Type 0} (r : Result (Unit {0}) × Pass F64 Store) → Post (λ q. Unit {0}) r
Post-unit (ok u, p) = tt
Post-unit (err e, p) = tt

-- whether a key is read, and decodes, among the items
abbrev pub Exports : Bytes → List (Option (Bytes × Bytes)) → Type 0
Exports k [] = ⊥
Exports k (none ∷ items) = Exports k items
Exports k (some (key, payload) ∷ items) = ((k ≡ key) × (decode_key key ≢ none)) ⊎ Exports k items

module _ {F64 : Type 0} (json : Json F64) (partition : Partition) (zero_f64 : F64)
    (outcomes : Outcomes)
    (removes : (k : Bytes) (s : partition.Store) → partition.remove k s ≢ none) where
  open partition use {Store, get, remove, get-remove}

  pub after_remove :
      (k j : Bytes) (s : Store) (r : Option Store)
      → remove j s ≡ r
      → get k (kept json partition s r) ≡ (if str_eq j k then none else get k s)
  after_remove k j s none e = absurd (removes j s e)
  after_remove k j s (some s') e = get-remove j s s' e k

  pub gone_stays :
      (k : Bytes) (ks : List Bytes) (s : Store)
      → get k s ≡ none
      → get k (remove_all json partition zero_f64 outcomes ks s) ≡ none
  unfolding remove_all
  gone_stays k [] s h = h
  gone_stays k (j ∷ ks) s h =
      gone_stays k ks _ (ground (arith, after_remove k j s (remove j s) refl))

  pub gone_all :
      (k : Bytes) (ks : List Bytes) (s : Store)
      → has_key k ks ≡ true
      → get k (remove_all json partition zero_f64 outcomes ks s) ≡ none
  unfolding remove_all
  gone_all k [] s h = cc
  gone_all k (j ∷ ks) s h = elim (Bool-cases (str_eq j k)) [
    | inl this ↦ gone_stays k ks _ (ground (arith, after_remove k j s (remove j s) refl))
    | inr other ↦ gone_all k ks _ (ground arith)
  ]
