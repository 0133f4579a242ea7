-- ===== src/Storage/Partition.antt =====
-- What the crate uses of a `fjall` partition, as an interface: an ordered map from keys to values.
-- What is read in a range is in the store, below the bound; and if every item is read, all that is in
-- the store below the bound is.
-- `none` is an error of the store, which then holds what it held.
use tonggeret.Base.{
  ◌≡◌, ◌≢◌, Bool, true, false, ◌&&◌, ◌||◌, Option, none, some, List, [], ◌∷◌, if◌then◌else◌, All,
}
use tonggeret.Text.{str_eq}
use tonggeret.Text.Utf8.{Bytes}
use tonggeret.Storage.Keys.{lex_ltb}

-- whether a key is among the items of a range, with that value
abbrev pub has_item : Bytes → Bytes → List (Option (Bytes × Bytes)) → Bool
has_item k v [] = false
has_item k v (none ∷ items) = has_item k v items
has_item k v (some (j, u) ∷ items) = (str_eq k j && str_eq v u) || has_item k v items

pub record Partition : Type 1 where
  pub Store : Type 0
  pub get : Bytes → Store → Option Bytes
  pub insert : Bytes → Bytes → Store → Option Store
  pub remove : Bytes → Store → Option Store
  -- `range(..bound)`, over the store as it is at the call; `none` is an item that fails to be read
  pub range : Bytes → Store → List (Option (Bytes × Bytes))
  pub get-insert :
      (k v : Bytes) (s s' : Store)
      → insert k v s ≡ some s'
      → (j : Bytes) → get j s' ≡ (if str_eq k j then some v else get j s)
  pub get-remove :
      (k : Bytes) (s s' : Store)
      → remove k s ≡ some s'
      → (j : Bytes) → get j s' ≡ (if str_eq k j then none else get j s)
  pub range-get :
      (bound : Bytes) (s : Store)
      → All
          (λ item.
            (k v : Bytes) → item ≡ some (k, v) → (get k s ≡ some v) × (lex_ltb k bound ≡ true))
          (range bound s)
  pub get-range :
      (bound : Bytes) (s : Store)
      → All (λ item. item ≢ none) (range bound s)
      → (k v : Bytes) → get k s ≡ some v
      → lex_ltb k bound ≡ true
      → has_item k v (range bound s) ≡ true
