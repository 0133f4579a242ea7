-- ===== src/Visitors/Tracker/Bounds.antt =====
-- The tracker keeps one sketch per region, at most `max_regions` of them and one more for `other`.
use tonggeret.Base.{
  ℕ, suc, ◌+◌, ◌≤◌, ◌≡◌, ◌⊎◌, inl, inr, refl, Bool, true, false, ◌&&◌, ◌||◌, not, [], ◌∷◌, leb,
  if◌then◌else◌, length, arith, Bool-cases,
}
use tonggeret.Text.{Str, str_eq}
use tonggeret.Text.Laws.{str_eq_refl, str_eq→eq, str_eq_sym}
use tonggeret.Visitors.Region.{region_other}
use tonggeret.Visitors.Hll.{Hll, add}
use tonggeret.Visitors.Tracker.{
  Sketches, Tracker, contains_key, change, new_tracker, bucket_of, fold_visit,
}

-- no region twice
unfoldable pub IsMap : Sketches → Type 0
IsMap [] = Unit
IsMap ((r, s) ∷ m) = (contains_key r m ≡ false) × IsMap m

-- The bounds of a tracker: `other` may be one more than the cap.
unfoldable pub IsBounded : Tracker → Type 0
IsBounded t =
    (1 ≤ t.max_regions)
    × (t.max_regions ≤ 4096)
    × ((length t.inner ≤ t.max_regions)
        ⊎ ((contains_key region_other t.inner ≡ true) × (length t.inner ≤ t.max_regions + 1)))

pub length-change :
    (bucket : Str) (f : Hll → Hll) (m : Sketches)
    → length (change bucket f m) ≡ (if contains_key bucket m then length m else suc (length m))
unfolding change contains_key
length-change bucket f [] = refl
length-change bucket f ((r, s) ∷ m) = ground (arith, length-change bucket f m)

contains_key-change :
    (bucket : Str) (f : Hll → Hll) (key : Str) (m : Sketches)
    → contains_key key (change bucket f m) ≡ (str_eq bucket key || contains_key key m)
unfolding change contains_key
contains_key-change bucket f key [] = refl
contains_key-change bucket f key ((r, s) ∷ m) = elim (Bool-cases (str_eq r bucket)) [
  | inl same ↦ rw same (rw (str_eq→eq r bucket same) (ground arith))
  | inr differs ↦ rw differs (ground (arith, contains_key-change bucket f key m))
]

change-IsMap : (bucket : Str) (f : Hll → Hll) (m : Sketches) → IsMap m → IsMap (change bucket f m)
unfolding change IsMap contains_key
change-IsMap bucket f [] h = (refl, tt)
change-IsMap bucket f ((r, s) ∷ m) (fresh, others) = elim (Bool-cases (str_eq r bucket)) [
  | inl same ↦ rw same ((fresh, others))
  | inr differs ↦ rw differs (
    ground (arith, contains_key-change bucket f r m, str_eq_sym bucket r, fresh),
    change-IsMap bucket f m others,
  )
]

pub new_tracker-IsBounded :
    (most : ℕ) → IsBounded (new_tracker most) × IsMap (new_tracker most).inner
unfolding new_tracker IsBounded IsMap
new_tracker-IsBounded most = ((omega arith, omega arith, inl (omega arith)), tt)

-- the size and the bucket `other` after a visit
Grows : Sketches → Sketches → ℕ → Type 0
Grows m m' most =
    (length m' ≤ most) ⊎ ((contains_key region_other m' ≡ true) × (length m' ≤ most + 1))

grow_into :
    (f : Hll → Hll) (region : Str) (m : Sketches) (most : ℕ) (known over : Bool)
    → contains_key region m ≡ known
    → leb most (length m) ≡ over
    → (length m ≤ most) ⊎ ((contains_key region_other m ≡ true) × (length m ≤ most + 1))
    → Grows m (change (if not known && over then region_other else region) f m) most
unfolding Grows
grow_into f region m most true over h o fits =
    ground (arith, length-change region f m, contains_key-change region f region_other m)
grow_into f region m most false true h o fits = ground (
  arith,
  length-change region_other f m,
  contains_key-change region_other f region_other m,
  str_eq_refl region_other,
)
grow_into f region m most false false h o fits = ground (arith, length-change region f m)

-- A visit keeps the cap of a tracker between 1 and 4096, one sketch per region, and at most as many
-- regions as the cap, or one more if `other` is among them.
pub fold_visit-IsBounded :
    {Key : Type 0} (hash_key : Key → ℕ) (visitor : Key) (region : Str) (t : Tracker)
    → IsBounded t
    → IsMap t.inner
    → IsBounded (fold_visit hash_key visitor region t)
      × IsMap (fold_visit hash_key visitor region t).inner
unfolding fold_visit IsBounded bucket_of Grows
fold_visit-IsBounded hash_key visitor region t (low, high, fits) one = (
  (low, high, grow_into (add hash_key visitor) region t.inner t.max_regions _ _ refl refl fits),
  change-IsMap (bucket_of region t) (add hash_key visitor) t.inner one,
)
