-- ===== src/Storage/ColdFiles/Put.antt =====
-- Cold files with a row, before and after a file is put among them.

use tonggeret.Base.{◌≡◌, ◌⊎◌, inl, inr, Bool, false, Bool-cases, ◌||◌, List, [], ◌∷◌, arith}
use tonggeret.Text.{Str, str_eq}
use tonggeret.Storage.Export.{Row, Files, put_file}
use tonggeret.Storage.Export.Items.{HasRow}

-- one of the files has the row
abbrev pub IsCold : {F64 : Type 0} → Row F64 → Files F64 → Type 0
IsCold r [] = ⊥
IsCold r ((n, rows) ∷ files) = HasRow r rows ⊎ IsCold r files

-- whether there is a file of that name
abbrev pub has_file : {F64 : Type 0} → Str → Files F64 → Bool
has_file name [] = false
has_file name ((n, rows) ∷ files) = str_eq n name || has_file name files

pub put_file-IsCold :
    {F64 : Type 0} (r : Row F64) (name : Str) (rows : List (Row F64)) (files : Files F64)
    → has_file name files ≡ false
    → IsCold r files
    → IsCold r (put_file name rows files)
unfolding put_file
put_file-IsCold r name rows [] new cold = absurd cold
put_file-IsCold r name rows ((n, old) ∷ files) new cold = elim (Bool-cases (str_eq n name)) [
  | inl same ↦ cc
  | inr other ↦ rw other (elim cold [
    | inl here ↦ inl here
    | inr there ↦ inr (put_file-IsCold r name rows files (ground arith) there)
  ])
]

pub put_file-HasRow :
    {F64 : Type 0} (r : Row F64) (name : Str) (rows : List (Row F64)) (files : Files F64)
    → HasRow r rows
    → IsCold r (put_file name rows files)
unfolding put_file
put_file-HasRow r name rows [] h = inl h
put_file-HasRow r name rows ((n, old) ∷ files) h = elim (Bool-cases (str_eq n name)) [
  | inl same ↦ rw same (inl h)
  | inr other ↦ rw other (inr (put_file-HasRow r name rows files h))
]

pub has_file-put_file :
    {F64 : Type 0} (other name : Str) (rows : List (Row F64)) (files : Files F64)
    → has_file other files ≡ false
    → str_eq name other ≡ false
    → has_file other (put_file name rows files) ≡ false
unfolding put_file
has_file-put_file other name rows [] h d = ground arith
has_file-put_file other name rows ((n, old) ∷ files) h d = elim (Bool-cases (str_eq n name)) [
  | inl same ↦ rw same (ground arith)
  | inr differs ↦ rw differs (ground (arith, has_file-put_file other name rows files))
]
