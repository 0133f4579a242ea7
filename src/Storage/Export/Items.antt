-- ===== src/Storage/Export/Items.antt =====
-- The items of a range, and the rows that a pass makes of them.
use mathlib.Core.Path.{subst}
use tonggeret.Base.{
  ℕ, ◌≡◌, ◌≢◌, ◌⊎◌, refl, sym, ◌∙◌, ap, true, Bool-cases, Option, none, some, List, [], ◌∷◌, ◌++◌,
  All, All-append, inl, inr, none≢some, arith, ◌&&◌,
}
use tonggeret.Text.{Str, str_eq}
use tonggeret.Text.Laws.{str_eq→eq}
use tonggeret.Text.Utf8.{Bytes}
use tonggeret.Storage.Json.{Json}
use tonggeret.Storage.Partition.{Partition, has_item}
use tonggeret.Storage.Keys.{decode_key, lex_ltb}
use tonggeret.Storage.Export.{Row, Outcomes, row_of}
use tonggeret.Storage.Export.Tally.{rows_of, row_decoded}
use tonggeret.Storage.Export.Removed.{Exports}

-- whether a row is among those
abbrev pub HasRow : {F64 : Type 0} → Row F64 → List (Row F64) → Type 0
HasRow r [] = ⊥
HasRow r (x ∷ xs) = (r ≡ x) ⊎ HasRow r xs

pub has_item-Exports :
    (k v : Bytes) (items : List (Option (Bytes × Bytes)))
    → decode_key k ≢ none
    → has_item k v items ≡ true
    → Exports k items
has_item-Exports k v [] d h = cc
has_item-Exports k v (none ∷ items) d h = has_item-Exports k v items d h
has_item-Exports k v (some (j, u) ∷ items) d h = elim (Bool-cases (str_eq k j)) [
  | inl same ↦ let e = str_eq→eq k j same in inl (e, subst (λ x. decode_key x ≢ none) e d)
  | inr other ↦ inr (has_item-Exports k v items d (ground arith))
]

module _ {F64 : Type 0} (json : Json F64) (partition : Partition) (zero_f64 : F64)
    (outcomes : Outcomes) where
  open partition use {Store, get, range, remove, get-remove, range-get, get-range}

  HasRow-append_left : (r : Row F64) (xs ys : List (Row F64)) → HasRow r xs → HasRow r (xs ++ ys)
  HasRow-append_left r [] ys h = absurd h
  HasRow-append_left r (x ∷ xs) ys (inl e) = inl e
  HasRow-append_left r (x ∷ xs) ys (inr h) = inr (HasRow-append_left r xs ys h)

  HasRow-append_right : (r : Row F64) (xs ys : List (Row F64)) → HasRow r ys → HasRow r (xs ++ ys)
  HasRow-append_right r [] ys h = h
  HasRow-append_right r (x ∷ xs) ys h = inr (HasRow-append_right r xs ys h)

  HasRow-decoded :
      (d : Option (ℕ × Str)) (ts : ℕ) (name : Str) (v : Bytes)
      → d ≡ some (ts, name)
      → HasRow
          (row_of json partition zero_f64 outcomes ts name v)
          (row_decoded json partition zero_f64 outcomes d v)
  unfolding row_decoded
  HasRow-decoded none ts name v e = absurd (none≢some e)
  HasRow-decoded (some (t, n)) ts name v e = inl cc

  -- an item that is read has its row
  pub HasRow-rows_of :
      (k v : Bytes) (ts : ℕ) (name : Str) (items : List (Option (Bytes × Bytes)))
      → decode_key k ≡ some (ts, name)
      → has_item k v items ≡ true
      → HasRow
          (row_of json partition zero_f64 outcomes ts name v)
          (rows_of json partition zero_f64 outcomes items)
  unfolding rows_of
  HasRow-rows_of k v ts name [] d h = cc
  HasRow-rows_of k v ts name (none ∷ items) d h = HasRow-rows_of k v ts name items d h
  HasRow-rows_of k v ts name (some (j, u) ∷ items) d h =
      elim (Bool-cases (str_eq k j && str_eq v u)) [
        | inl same ↦
            let e = str_eq→eq k j (ground arith) in
            let f = str_eq→eq v u (ground arith) in
            HasRow-append_left _ (row_decoded json partition zero_f64 outcomes (decode_key j) u) _ (
              subst
                (λ x.
                  HasRow (row_of json partition zero_f64 outcomes ts name x)
                    (row_decoded json partition zero_f64 outcomes (decode_key j) u))
                (sym f) (HasRow-decoded (decode_key j) ts name u (ap decode_key (sym e) ∙ d)))
        | inr other ↦
            HasRow-append_right _ (row_decoded json partition zero_f64 outcomes (decode_key j) u) _
              (HasRow-rows_of k v ts name items d (ground arith))
      ]

  -- the row is that of an entry of the store whose key sorts below the bound
  pub record IsOf (bound : Bytes) (s : Store) (r : Row F64) : Type 0 where
    pub key : Bytes
    pub payload : Bytes
    pub ts : ℕ
    pub name : Str
    pub held : get key s ≡ some payload
    pub below : lex_ltb key bound ≡ true
    pub decodes : decode_key key ≡ some (ts, name)
    pub row : r ≡ row_of json partition zero_f64 outcomes ts name payload

  row_decoded-IsOf :
      (bound : Bytes) (s : Store) (k v : Bytes) (d : Option (ℕ × Str))
      → decode_key k ≡ d
      → (get k s ≡ some v) × (lex_ltb k bound ≡ true)
      → All (IsOf bound s) (row_decoded json partition zero_f64 outcomes d v)
  unfolding row_decoded
  row_decoded-IsOf bound s k v none e h = tt
  row_decoded-IsOf bound s k v (some (ts, name)) e h = (
    record {
      key = k;
      payload = v;
      ts = ts;
      name = name;
      held = h.0;
      below = h.1;
      decodes = e;
      row = refl;
    },
    tt,
  )

  pub rows_of-IsOf :
      (bound : Bytes) (s : Store) (items : List (Option (Bytes × Bytes)))
      → All
          (λ item.
            (k v : Bytes) → item ≡ some (k, v) → (get k s ≡ some v) × (lex_ltb k bound ≡ true))
          items
      → All (IsOf bound s) (rows_of json partition zero_f64 outcomes items)
  unfolding rows_of
  rows_of-IsOf bound s [] h = tt
  rows_of-IsOf bound s (none ∷ items) (_, h) = rows_of-IsOf bound s items h
  rows_of-IsOf bound s (some (k, v) ∷ items) (x, h) =
      All-append (IsOf bound s) _ _ (row_decoded-IsOf bound s k v (decode_key k) refl (x k v refl))
        (rows_of-IsOf bound s items h)
