-- ===== src/Storage/ColdFiles/Newest.antt =====
-- What `latest_cold_file` finds.
use tonggeret.Base.{
  ◌≡◌, ◌⊎◌, inl, inr, refl, sym, ◌∙◌, true, false, Bool-cases, Option, none, some, List, [], ◌∷◌,
  All, All-map,
}
use tonggeret.Text.{Str}
use tonggeret.Text.Utf8.{utf8}
use tonggeret.Storage.Keys.{lex_ltb}
use tonggeret.Storage.Keys.Order.{lex_ltb_irrefl}
use tonggeret.Storage.ColdFiles.{is_cold_name, cold_names, later, newest, latest_cold_file}
use tonggeret.Storage.ColdFiles.Order.{lex_ltb_trans}

-- the entry is not the name of a cold file
abbrev pub IsOther : Option Str → Type 0
IsOther none = Unit
IsOther (some m) = is_cold_name m ≡ false

-- the entry is not the name of a cold file after `n`
abbrev pub IsNoLater : Str → Option Str → Type 0
IsNoLater n none = Unit
IsNoLater n (some m) = (is_cold_name m ≡ false) ⊎ (lex_ltb (utf8 n) (utf8 m) ≡ false)

abbrev pub HasEntry : Str → List (Option Str) → Type 0
HasEntry n [] = ⊥
HasEntry n (e ∷ entries) = (e ≡ some n) ⊎ HasEntry n entries

abbrev pub IsLatest : Option Str → List (Option Str) → Type 0
IsLatest none entries = All IsOther entries
IsLatest (some n) entries = HasEntry n entries × (is_cold_name n ≡ true) × All (IsNoLater n) entries

other-IsNoLater : (n : Str) (e : Option Str) → IsOther e → IsNoLater n e
other-IsNoLater n none h = tt
other-IsNoLater n (some m) h = inl h

IsNoLater-trans :
    (m n : Str)
    → lex_ltb (utf8 m) (utf8 n) ≡ true
    → (e : Option Str) → IsNoLater m e
    → IsNoLater n e
IsNoLater-trans m n less none h = tt
IsNoLater-trans m n less (some k) (inl other) = inl other
IsNoLater-trans m n less (some k) (inr h) = elim (Bool-cases (lex_ltb (utf8 n) (utf8 k))) [
  | inl more ↦ absurd (true≢false (sym (lex_ltb_trans (utf8 m) (utf8 n) (utf8 k) less more) ∙ h))
  | inr least ↦ inr least
]
  where
    true≢false : true ≡ false → ⊥
    true≢false e = cc

later-IsLatest :
    (n : Str) (o : Option Str) (entries : List (Option Str))
    → is_cold_name n ≡ true
    → IsLatest o entries
    → IsLatest (later n o) (some n ∷ entries)
unfolding later
later-IsLatest n none entries cold h =
    (inl refl, cold, (inr (lex_ltb_irrefl (utf8 n)), All-map (other-IsNoLater n) entries h))
later-IsLatest n (some m) entries cold (there, cold_m, top) =
    elim (Bool-cases (lex_ltb (utf8 m) (utf8 n))) [
      | inl less ↦ rw less (
        inl refl,
        cold,
        (inr (lex_ltb_irrefl (utf8 n)), All-map (IsNoLater-trans m n less) entries top),
      )
      | inr least ↦ rw least (inr there, cold_m, (inr least, top))
    ]

passed_over :
    (e : Option Str) (o : Option Str) (entries : List (Option Str))
    → IsOther e
    → IsLatest o entries
    → IsLatest o (e ∷ entries)
passed_over e none entries other h = (other, h)
passed_over e (some n) entries other (there, cold, top) =
    (inr there, cold, (other-IsNoLater n e other, top))

-- `latest_cold_file` finds an entry that is the name of a cold file and after which no name of a cold
-- file sorts, or nothing if no entry is the name of a cold file.
pub latest_cold_file-IsLatest :
    (entries : List (Option Str)) → IsLatest (latest_cold_file (some entries)) entries
unfolding latest_cold_file newest cold_names
latest_cold_file-IsLatest [] = tt
latest_cold_file-IsLatest (none ∷ entries) =
    passed_over none (newest (cold_names entries)) entries tt (latest_cold_file-IsLatest entries)
latest_cold_file-IsLatest (some n ∷ entries) = elim (Bool-cases (is_cold_name n)) [
  | inl cold ↦ rw cold (
      later-IsLatest n (newest (cold_names entries)) entries cold
        (latest_cold_file-IsLatest entries))
  | inr other ↦ rw other (
      passed_over (some n) (newest (cold_names entries)) entries other
        (latest_cold_file-IsLatest entries))
]
