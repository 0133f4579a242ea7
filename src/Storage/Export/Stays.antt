-- ===== src/Storage/Export/Stays.antt =====
-- What a pass does not touch: the keys from its cutoff on, and those that are not there.

use tonggeret.Base.{
  ℕ, ◌≡◌, refl, true, false, Bool-cases, Option, none, some, List, [], ◌∷◌, All, All-map, inl, inr,
}
use tonggeret.Text.{str_eq}
use tonggeret.Text.Laws.{str_eq→eq}
use tonggeret.Text.Utf8.{Bytes}
use tonggeret.Storage.Json.{Json}
use tonggeret.Storage.Partition.{Partition}
use tonggeret.Storage.Keys.{cutoff_prefix, lex_ltb}
use tonggeret.Storage.Writer.{kept}
use tonggeret.Storage.Export.{Outcomes, Files, cutoff_micros, run_compaction_once}
use tonggeret.Storage.Export.Stores.{Keys, run_compaction_once-keeps}

Keys-map :
    (J K : Bytes → Type 0) (items : List (Option (Bytes × Bytes)))
    → All (λ i. (k v : Bytes) → i ≡ some (k, v) → K k) items
    → ((k : Bytes) → K k → J k)
    → Keys J items
Keys-map J K [] h f = tt
Keys-map J K (none ∷ items) (_, h) f = Keys-map J K items h f
Keys-map J K (some (k, v) ∷ items) (x, h) f = (f k (x k v refl), Keys-map J K items h f)

module _ {F64 : Type 0} (json : Json F64) (partition : Partition) (zero_f64 : F64)
    (outcomes : Outcomes) where
  open partition use {Store, get, range, remove, get-remove, range-get, get-range}

  -- removing another key keeps what a key holds
  kept-get :
      (k : Bytes) (j : Bytes) (s : Store) (r : Option Store) (v : Option Bytes)
      → remove j s ≡ r
      → str_eq j k ≡ false
      → get k s ≡ v
      → get k (kept json partition s r) ≡ v
  kept-get k j s none v e d g = g
  kept-get k j s (some s') v e d g = rw (get-remove j s s' e k, d) g

  -- removing keeps a key that is not there so
  kept-none :
      (k : Bytes) (j : Bytes) (s : Store) (r : Option Store)
      → remove j s ≡ r
      → get k s ≡ none
      → get k (kept json partition s r) ≡ none
  kept-none k j s none e g = g
  kept-none k j s (some s') e g = elim (Bool-cases (str_eq j k)) [
    | inl same ↦ rw (get-remove j s s' e k, same) refl
    | inr other ↦ rw (get-remove j s s' e k, other) g
  ]

  other_key :
      (bound k j : Bytes) → lex_ltb k bound ≡ false → lex_ltb j bound ≡ true → str_eq j k ≡ false
  other_key bound k j hk hj = elim (Bool-cases (str_eq j k)) [
    | inl same ↦ let e = str_eq→eq j k same in cc
    | inr other ↦ other
  ]

  -- A pass, however it comes out, leaves every key that does not sort below the prefix of its cutoff as
  -- it was.
  pub get-run_compaction_once :
      (now_micros retention : ℕ) (s : Store) (files : Files F64) (k : Bytes)
      → lex_ltb k (cutoff_prefix (cutoff_micros now_micros retention)) ≡ false
      → get k
          (run_compaction_once json partition zero_f64 outcomes now_micros
            (some retention)
            s
            files).1
        ≡ get k s
  get-run_compaction_once now_micros retention s files k h =
      let bound = cutoff_prefix (cutoff_micros now_micros retention) in
      run_compaction_once-keeps json partition zero_f64 outcomes (λ j. str_eq j k ≡ false)
        (λ s'. get k s' ≡ get k s) (λ j s' d g. kept-get k j s' (remove j s') _ refl d g) now_micros
        retention s files
        (Keys-map _ (λ j. lex_ltb j bound ≡ true) (range bound s)
          (All-map (λ i x k v e. (x k v e).1) (range bound s) (range-get bound s))
          (λ j. other_key bound k j h))
        refl

  -- A pass, however it comes out, adds no key.
  pub get-run_compaction_once-none :
      (now_micros retention : ℕ) (s : Store) (files : Files F64) (k : Bytes)
      → get k s ≡ none
      → get k
          (run_compaction_once json partition zero_f64 outcomes now_micros
            (some retention)
            s
            files).1
        ≡ none
  get-run_compaction_once-none now_micros retention s files k h =
      let bound = cutoff_prefix (cutoff_micros now_micros retention) in
      run_compaction_once-keeps json partition zero_f64 outcomes (λ j. Unit) (λ s'. get k s' ≡ none)
        (λ j s' _ g. kept-none k j s' (remove j s') refl g) now_micros retention s files
        (Keys-map _ (λ j. lex_ltb j bound ≡ true) (range bound s)
          (All-map (λ i x k v e. (x k v e).1) (range bound s) (range-get bound s)) (λ j _. tt))
        h
