-- ===== src/Examples/Values.antt =====
-- JSON values as trees. A value is printed in ASCII, as a program for a machine with a stack: `1`
-- counts up, `,` moves the count in front of a text, and each other letter makes a value.
use tonggeret.Base.{
  ℕ, zero, suc, ◌+◌, ◌≡◌, refl, ap, ◌∙◌, Bool, true, false, Option, none, some, List, [], ◌∷◌, ◌++◌,
  ◌==◌, if◌then◌else◌, All, All-append, arith, Option-cases, inl, inr,
}
use mathlib.Core.Option
use tonggeret.Text.{Str, str_eq}
use tonggeret.Text.Laws.{IsAscii}
use tonggeret.Text.Utf8.{Bytes, utf8, utf8-ascii}
use tonggeret.Storage.Json.{Json, last_of}

pub data Tree : Type 0 where
  num : ℕ → Tree
  text : Str → Tree
  nil : Tree
  field : Str → Tree → Tree → Tree

-- the count, the text and the stack
pub record Machine : Type 0 where
  pub count : ℕ
  pub chars : Str
  pub stack : List Tree

abbrev pub pair_up : Str → List Tree → List Tree
pair_up k (r ∷ v ∷ st) = field k v r ∷ st
pair_up k st = st

abbrev pub at_rest : List Tree → Machine
at_rest st = record { count = 0; chars = []; stack = st }

abbrev pub step : ℕ → Machine → Machine
step c m =
    if c == b'1'
    then record m { count = suc m.count }
    else if c == b','
    then record m { count = 0; chars = m.count ∷ m.chars }
    else if c == b'n'
    then at_rest (num m.count ∷ m.stack)
    else if c == b's'
    then at_rest (text m.chars ∷ m.stack)
    else if c == b'e'
    then at_rest (nil ∷ m.stack)
    else at_rest (pair_up m.chars m.stack)

abbrev pub run : Bytes → Machine → Machine
run [] m = m
run (c ∷ cs) m = run cs (step c m)

abbrev pub unary : ℕ → Str
unary zero = []
unary (suc n) = b'1' ∷ unary n

-- the last character first
abbrev pub spell : Str → Str
spell [] = []
spell (c ∷ s) = spell s ++ (unary c ++ (b',' ∷ []))

abbrev pub print : Tree → Str
print (num n) = unary n ++ (b'n' ∷ [])
print (text s) = spell s ++ (b's' ∷ [])
print nil = b'e' ∷ []
print (field k v r) = print v ++ (print r ++ (spell k ++ (b'o' ∷ [])))

run-append : (xs ys : Str) (m : Machine) → run (xs ++ ys) m ≡ run ys (run xs m)
run-append [] ys m = refl
run-append (x ∷ xs) ys m = run-append xs ys (step x m)

run-unary :
    (n k : ℕ) (s : Str) (st : List Tree)
    → run (unary n) (record { count = k; chars = s; stack = st })
      ≡ record { count = n + k; chars = s; stack = st }
run-unary zero k s st = ap (λ c. record { count = c; chars = s; stack = st }) (omega arith)
run-unary (suc n) k s st =
    run-unary n (suc k) s st ∙ ap (λ c. record { count = c; chars = s; stack = st }) (omega arith)

run-spell :
    (s : Str) (st : List Tree)
    → run (spell s) (at_rest st) ≡ record { count = 0; chars = s; stack = st }
run-spell [] st = refl
run-spell (c ∷ s) st =
    rw
      (
        run-append (spell s) (unary c ++ (b',' ∷ [])),
        run-spell s st,
        run-append (unary c) (b',' ∷ []),
        run-unary c 0 s st,
      )
      (ap (λ n. record { count = 0; chars = n ∷ s; stack = st }) (omega arith))

run-print : (v : Tree) (st : List Tree) → run (print v) (at_rest st) ≡ at_rest (v ∷ st)
run-print (num n) st =
    rw (run-append (unary n) (b'n' ∷ []), run-unary n 0 [] st)
      (ap (λ k. at_rest (num k ∷ st)) (omega arith))
run-print (text s) st = rw (run-append (spell s) (b's' ∷ []), run-spell s st)
run-print nil st = refl
run-print (field k v r) st = rw (
  run-append (print v) (print r ++ (spell k ++ (b'o' ∷ []))),
  run-print v st,
  run-append (print r) (spell k ++ (b'o' ∷ [])),
  run-print r (v ∷ st),
  run-append (spell k) (b'o' ∷ []),
  run-spell k (r ∷ v ∷ st),
)

unary-IsAscii : (n : ℕ) → All IsAscii (unary n)
unary-IsAscii zero = tt
unary-IsAscii (suc n) = (omega arith, unary-IsAscii n)

spell-IsAscii : (s : Str) → All IsAscii (spell s)
spell-IsAscii [] = tt
spell-IsAscii (c ∷ s) =
    All-append IsAscii (spell s) _ (spell-IsAscii s)
      (All-append IsAscii (unary c) _ (unary-IsAscii c) (omega arith, tt))

print-IsAscii : (v : Tree) → All IsAscii (print v)
print-IsAscii (num n) = All-append IsAscii (unary n) _ (unary-IsAscii n) (omega arith, tt)
print-IsAscii (text s) = All-append IsAscii (spell s) _ (spell-IsAscii s) (omega arith, tt)
print-IsAscii nil = (omega arith, tt)
print-IsAscii (field k v r) = All-append IsAscii (print v) _ (print-IsAscii v) (
    All-append IsAscii (print r) _ (print-IsAscii r)
      (All-append IsAscii (spell k) _ (spell-IsAscii k) (omega arith, tt)))

abbrev pub top : List Tree → Option Tree
top [] = none
top (v ∷ st) = some v

abbrev pub read : Bytes → Option Tree
read s = top (run s (at_rest [])).stack

pub read-print : (v : Tree) → read (utf8 (print v)) ≡ some v
read-print v = rw (utf8-ascii (print v) (print-IsAscii v), run-print v [])

abbrev pub fields_of : List (Str × Tree) → Tree
fields_of [] = nil
fields_of ((k, v) ∷ fields) = field k v (fields_of fields)

abbrev pub lookup : Str → Tree → Option Tree
lookup k (field j v r) = elim (lookup k r) [
  | some b ↦ some b
  | none ↦ if str_eq j k then some v else none
]
lookup k _ = none

pub lookup-fields_of :
    (k : Str) (fields : List (Str × Tree))
    → lookup k (fields_of fields) ≡ Option.map (λ v. v) (last_of k fields)
unfolding last_of
lookup-fields_of k [] = refl
lookup-fields_of k ((j, v) ∷ fields) = elim (Option-cases (last_of k fields)) [
  | inl e ↦ rw (lookup-fields_of k fields, e) (ground arith)
  | inr (a, e) ↦ rw (lookup-fields_of k fields, e)
]

abbrev pub number_of : Tree → Option ℕ
number_of (num n) = some n
number_of _ = none

abbrev pub text_of : Tree → Option Str
text_of (text s) = some s
text_of _ = none

abbrev pub has_fields : Tree → Bool
has_fields nil = true
has_fields (field k v r) = true
has_fields _ = false

pub fields_of-has_fields : (fields : List (Str × Tree)) → has_fields (fields_of fields) ≡ true
fields_of-has_fields [] = refl
fields_of-has_fields ((k, v) ∷ fields) = refl

abbrev pub json : Json ℕ
json = record {
  Value = Tree;
  number = num;
  string = text;
  object = fields_of;
  to_string = print;
  from_slice = read;
  get = lookup;
  as_f64 = number_of;
  as_str = text_of;
  is_object = has_fields;
  settle = λ v. v;
  read_number = some;
  from_slice-to_string = read-print;
  get-object = lookup-fields_of;
  as_f64-number = λ x. refl;
  as_str-string = λ s. refl;
  is_object-object = fields_of-has_fields;
}
