-- ===== src/Examples/Stores.antt =====
-- A store as a list of items, the latest first: the items of a range are those that `get` finds.
use tonggeret.Base.{
  ◌≡◌, ◌≢◌, refl, ap, ◌∙◌, Bool, true, false, ◌&&◌, Option, none, some, List, [], ◌∷◌,
  if◌then◌else◌, All, Bool-cases, inl, inr, arith, some_inj,
}
use tonggeret.Text.{str_eq}
use tonggeret.Text.Laws.{str_eq_refl, str_eq→eq}
use tonggeret.Text.Utf8.{Bytes}
use tonggeret.Storage.Keys.{lex_ltb}
use tonggeret.Storage.Partition.{Partition, has_item}

abbrev pub Items : Type 0
Items = List (Bytes × Bytes)

abbrev pub find : Bytes → Items → Option Bytes
find k [] = none
find k ((j, v) ∷ s) = let rest = find k s in if str_eq j k then some v else rest

abbrev pub without : Bytes → Items → Items
without k [] = []
without k ((j, v) ∷ s) = let rest = without k s in if str_eq k j then rest else (j, v) ∷ rest

abbrev pub finds : Option Bytes → Bytes → Bool
finds none v = false
finds (some u) v = str_eq u v

abbrev pub below : Bytes → Items → Items → List (Option (Bytes × Bytes))
below bound s [] = []
below bound s ((k, v) ∷ items) =
    let rest = below bound s items in
    if finds (find k s) v && lex_ltb k bound then some (k, v) ∷ rest else rest

pub find-without :
    (k : Bytes) (s : Items) (j : Bytes)
    → find j (without k s) ≡ (if str_eq k j then none else find j s)
find-without k [] j = ground arith
find-without k ((i, v) ∷ s) j = elim (Bool-cases (str_eq k i)) [
  | inl same ↦ rw same (find-without k s j ∙ rw (str_eq→eq k i same) (ground arith))
  | inr differs ↦ rw differs (elim (Bool-cases (str_eq i j)) [
    | inl found ↦ rw found (rw (rw (str_eq→eq i j found) at differs) refl)
    | inr other ↦ rw other (find-without k s j)
  ])
]

finds-eq : (o : Option Bytes) (v : Bytes) → finds o v ≡ true → o ≡ some v
finds-eq none v h = cc
finds-eq (some u) v h = rw (str_eq→eq u v h)

both : (b c : Bool) → (b && c) ≡ true → (b ≡ true) × (c ≡ true)
both b c h = ground arith

pub below-find :
    (bound : Bytes) (s items : Items)
    → All
        (λ item.
          (k v : Bytes) → item ≡ some (k, v) → (find k s ≡ some v) × (lex_ltb k bound ≡ true))
        (below bound s items)
below-find bound s [] = tt
below-find bound s ((k, v) ∷ items) = elim (Bool-cases (finds (find k s) v && lex_ltb k bound)) [
  | inl good ↦
      let (found, low) = both (finds (find k s) v) (lex_ltb k bound) good in
      rw good (
        λ k' v' e.
            rw (← ap (λ x. x.0) (some_inj e), ← ap (λ x. x.1) (some_inj e))
              ((finds-eq (find k s) v found, low)),
        below-find bound s items,
      )
  | inr bad ↦ rw bad (below-find bound s items)
]

pub find-below :
    (bound : Bytes) (s items : Items) (k v : Bytes)
    → find k items ≡ some v
    → find k s ≡ some v
    → lex_ltb k bound ≡ true
    → has_item k v (below bound s items) ≡ true
find-below bound s [] k v h found low = cc
find-below bound s ((j, u) ∷ items) k v h found low = elim (Bool-cases (str_eq j k)) [
  | inl same ↦
      let value : u ≡ v = some_inj (rw same at h) in
      let key = str_eq→eq j k same in
      rw (value, key, found, str_eq_refl v, low, str_eq_refl k, str_eq_refl v) refl
  | inr differs ↦
      let rest = find-below bound s items k v (rw differs at h) found low in
      elim (Bool-cases (finds (find j s) u && lex_ltb j bound)) [
        | inl good ↦ rw good (ground (arith, rest))
        | inr bad ↦ rw bad rest
      ]
]

-- no item of a range fails to be read
pub below_read : (bound : Bytes) (s items : Items) → All (λ i. i ≢ none) (below bound s items)
below_read bound s [] = tt
below_read bound s ((k, v) ∷ items) = elim (Bool-cases (finds (find k s) v && lex_ltb k bound)) [
  | inl good ↦ rw good ((λ e. cc), below_read bound s items)
  | inr bad ↦ rw bad (below_read bound s items)
]

-- in this store inserts and removals succeed
pub inserts : (k v : Bytes) (s : Items) → some ((k, v) ∷ s) ≢ none
inserts k v s e = cc

pub removes : (k : Bytes) (s : Items) → some (without k s) ≢ none
removes k s e = cc

abbrev pub partition : Partition
partition = record {
  Store = Items;
  get = find;
  insert = λ k v s. some ((k, v) ∷ s);
  remove = λ k s. some (without k s);
  range = λ bound s. below bound s s;
  get-insert = λ k v s s' e j. rw (← some_inj e) refl;
  get-remove = λ k s s' e j. rw (← some_inj e) (find-without k s j);
  range-get = λ bound s. below-find bound s s;
  get-range = λ bound s _ k v found low. find-below bound s s k v found found low;
}
