-- ===== src/Visitors/Hll/Sets.antt =====
-- A sketch depends on the set of the visitors that were counted and on nothing else: it is a function on
-- lists of hashes up to order and repetition.
use tonggeret.Base.{
  ℕ, ◌≡◌, refl, sym, ap, ◌∙◌, Bool, true, false, ◌||◌, List, [], ◌∷◌, ◌==◌, Bool-cases, inl, inr,
  arith, ==_iff,
}
use mathlib.Core.Quot
use mathlib.Core.Quot.{Quot, Quot-set}
use tonggeret.Visitors.Hll.{Hll, new, add_hash, add_all}
use tonggeret.Visitors.Hll.Laws.{add_hash_idem, add_all-add_hash}

-- whether a hash is among the hashes
abbrev pub has : ℕ → List ℕ → Bool
has a [] = false
has a (x ∷ xs) = (x == a) || has a xs

-- the same visitors, in any order and any number of times
abbrev pub SameVisitors : List ℕ → List ℕ → Type 0
SameVisitors xs ys = (a : ℕ) → has a xs ≡ has a ys

add_hash-has :
    (a : ℕ) (ys : List ℕ) (h : Hll) → has a ys ≡ true → add_hash a (add_all ys h) ≡ add_all ys h
unfolding add_all
add_hash-has a [] h seen = cc
add_hash-has a (y ∷ ys) h seen = elim (Bool-cases (y == a)) [
  | inl same ↦
      let e : y ≡ a = (==_iff y a).0 same in
      rw e (sym (add_all-add_hash ys a (add_hash a h)) ∙ ap (add_all ys) (add_hash_idem a h))
  | inr other ↦ add_hash-has a ys (add_hash y h) (ground arith)
]

-- visitors that were counted already change nothing
add_all-has :
    (xs ys : List ℕ) (h : Hll)
    → ((a : ℕ) → has a xs ≡ true → has a ys ≡ true)
    → add_all xs (add_all ys h) ≡ add_all ys h
unfolding add_all
add_all-has [] ys h seen = refl
add_all-has (x ∷ xs) ys h seen =
    ap (add_all xs) (add_hash-has x ys h (seen x (ground arith)))
    ∙ add_all-has xs ys h (λ a among. seen a (ground arith))

add_all_comm : (xs ys : List ℕ) (h : Hll) → add_all xs (add_all ys h) ≡ add_all ys (add_all xs h)
unfolding add_all
add_all_comm [] ys h = refl
add_all_comm (x ∷ xs) ys h =
    ap (add_all xs) (sym (add_all-add_hash ys x h)) ∙ add_all_comm xs ys (add_hash x h)

-- Lists with the same visitors make the same sketch, whatever was counted before.
pub add_all-SameVisitors :
    (xs ys : List ℕ) (h : Hll) → SameVisitors xs ys → add_all xs h ≡ add_all ys h
add_all-SameVisitors xs ys h same =
    sym (add_all-has ys xs h (λ a among. same a ∙ among))
    ∙ add_all_comm ys xs h
    ∙ add_all-has xs ys h (λ a among. sym (same a) ∙ among)

pub Hll-IsSet : IsSet Hll
Hll-IsSet = hlevel

-- sets of visitors
abbrev pub Visitors : Type 0
Visitors = Quot SameVisitors

pub visit_same : (a : ℕ) (xs ys : List ℕ) → SameVisitors xs ys → SameVisitors (a ∷ xs) (a ∷ ys)
visit_same a xs ys same b = ground (arith, same b)

-- a set with one more visitor
unfoldable pub visit : ℕ → Visitors → Visitors
visit a =
    Quot.lift Quot-set (λ xs. Quot.mk (a ∷ xs)) (λ xs ys same. Quot.sound (visit_same a xs ys same))

-- the sketch of a set of visitors
unfoldable pub sketch : Visitors → Hll
sketch =
    Quot.lift Hll-IsSet (λ xs. add_all xs new) (λ xs ys same. add_all-SameVisitors xs ys new same)

-- For every set of visitors: counting one more in its sketch gives the sketch of the set with that
-- visitor.
pub sketch-visit : (a : ℕ) (v : Visitors) → sketch (visit a v) ≡ add_hash a (sketch v)
unfolding sketch visit add_all
sketch-visit a = Quot.ind (λ v. Hll-IsSet _ _) (λ xs. add_all-add_hash xs a new)

-- In a set it does not matter who comes first, nor whether a visitor comes again.
pub visit_laws :
    (a b : ℕ) (v : Visitors)
    → (visit a (visit b v) ≡ visit b (visit a v)) × (visit a (visit a v) ≡ visit a v)
unfolding visit
visit_laws a b v = (swapped v, again v)
  where
    swapped : (v : Visitors) → visit a (visit b v) ≡ visit b (visit a v)
    swapped = Quot.ind (λ v. Quot-set _ _) (λ xs. Quot.sound (λ c. ground arith))

    again : (v : Visitors) → visit a (visit a v) ≡ visit a v
    again = Quot.ind (λ v. Quot-set _ _) (λ xs. Quot.sound (λ c. ground arith))
