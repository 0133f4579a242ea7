-- ===== src/Visitors/Tracker/Sketches.antt =====
-- What a visit does to the sketches and to the engine, and what a snapshot exports.
use tonggeret.Base.{
  ℕ, ◌<◌, ◌≤◌, ◌≡◌, inl, inr, refl, sym, ◌∙◌, ap, Bool, true, false, ◌&&◌, not, Option, none, some,
  List, [], ◌∷◌, if◌then◌else◌, length, arith, Bool-cases, >>=-eq-some, some_inj,
}
use tonggeret.Text.{Str, str_eq}
use tonggeret.Text.Laws.{str_eq→eq, str_eq_sym}
use tonggeret.Types.{PipelineMsg, counter}
use tonggeret.Channel.{Channel}
use tonggeret.Engine.{Registry, record_metric}
use tonggeret.Visitors.Region.{normalize_region}
use tonggeret.Visitors.Hll.{Hll, new, add, Floats}
use tonggeret.Visitors.Tracker.{
  Sketches, Tracker, Engine, get, change, bucket_of, fold_visit, observe, visitors_total,
  region_label,
}
use tonggeret.Visitors.Tracker.Bounds.{length-change}

-- the sketch of an entry, a new one where there is none
abbrev pub or_new : Option Hll → Hll
or_new none = new
or_new (some s) = s

get-change :
    (bucket : Str) (f : Hll → Hll) (key : Str) (m : Sketches)
    → get key (change bucket f m)
      ≡ (if str_eq key bucket then some (f (or_new (get bucket m))) else get key m)
unfolding get change
get-change bucket f key [] = ground (arith, str_eq_sym bucket key)
get-change bucket f key ((r, s) ∷ m) = elim (Bool-cases (str_eq r bucket)) [
  | inl same ↦ rw same (rw (str_eq→eq r bucket same) (ground (arith, str_eq_sym bucket key)))
  | inr differs ↦ rw differs (elim (Bool-cases (str_eq r key)) [
    | inl found ↦ rw found (rw (rw (str_eq→eq r key found) at differs) refl)
    | inr other ↦ rw other (get-change bucket f key m)
  ])
]

get-change_own :
    (bucket : Str) (f : Hll → Hll) (key : Str) (m : Sketches)
    → get key (change bucket f m)
      ≡ (if str_eq key bucket then some (f (or_new (get key m))) else get key m)
get-change_own bucket f key m = elim (Bool-cases (str_eq key bucket)) [
  | inl same ↦ rw same (get-change bucket f key m ∙ rw same (rw (str_eq→eq key bucket same) refl))
  | inr differs ↦ rw differs (get-change bucket f key m ∙ rw differs refl)
]

-- the sketch of one region after visits, from its own visits
unfoldable pub sketch_after :
    {Key : Type 0} → (Key → ℕ) → Str → List (Key × Str) → Option Hll → Option Hll
sketch_after hash_key region [] o = o
sketch_after hash_key region ((visitor, raw) ∷ visits) o =
    sketch_after hash_key region visits
      (if str_eq region (normalize_region raw) then some (add hash_key visitor (or_new o)) else o)

-- visits one after the other
unfoldable pub fold_visits : {Key : Type 0} → (Key → ℕ) → List (Key × Str) → Tracker → Tracker
fold_visits hash_key [] t = t
fold_visits hash_key ((visitor, raw) ∷ visits) t =
    fold_visits hash_key visits (fold_visit hash_key visitor (normalize_region raw) t)

fold_visit-grows :
    {Key : Type 0} (hash_key : Key → ℕ) (visitor : Key) (region : Str) (t : Tracker)
    → length t.inner ≤ length (fold_visit hash_key visitor region t).inner
unfolding fold_visit
fold_visit-grows hash_key visitor region t =
    ground (arith, length-change (bucket_of region t) (add hash_key visitor) t.inner)

fold_visits-grows :
    {Key : Type 0} (hash_key : Key → ℕ) (visits : List (Key × Str)) (t : Tracker)
    → length t.inner ≤ length (fold_visits hash_key visits t).inner
unfolding fold_visits
fold_visits-grows hash_key [] t = omega arith
fold_visits-grows hash_key ((visitor, raw) ∷ visits) t = omega (
  arith,
  fold_visit-grows hash_key visitor (normalize_region raw) t,
  fold_visits-grows hash_key visits (fold_visit hash_key visitor (normalize_region raw) t),
)

bucket-room :
    (region : Str) (t : Tracker) → length t.inner < t.max_regions → bucket_of region t ≡ region
unfolding bucket_of
bucket-room region t h = ground arith

get-fold_visit :
    {Key : Type 0} (hash_key : Key → ℕ) (visitor : Key) (key region : Str) (t : Tracker)
    → length t.inner < t.max_regions
    → get key (fold_visit hash_key visitor region t).inner ≡ (
        if str_eq key region
        then some (add hash_key visitor (or_new (get key t.inner)))
        else get key t.inner)
unfolding fold_visit
get-fold_visit hash_key visitor key region t room =
    rw (bucket-room region t room) (get-change_own region (add hash_key visitor) key t.inner)

-- If a tracker has room for another region after some visits, the sketch of each region is made of
-- the visits of that region and of no other.
pub fold_visits-sketch :
    {Key : Type 0} (hash_key : Key → ℕ) (visits : List (Key × Str)) (t : Tracker) (region : Str)
    → length (fold_visits hash_key visits t).inner < t.max_regions
    → get region (fold_visits hash_key visits t).inner
      ≡ sketch_after hash_key region visits (get region t.inner)
unfolding fold_visits sketch_after fold_visit
fold_visits-sketch hash_key [] t region room = refl
fold_visits-sketch hash_key ((visitor, raw) ∷ visits) t region room =
    let t' = fold_visit hash_key visitor (normalize_region raw) t in
    let grown = fold_visit-grows hash_key visitor (normalize_region raw) t in
    let later = fold_visits-grows hash_key visits t' in
    fold_visits-sketch hash_key visits t' region room
    ∙ ap (sketch_after hash_key region visits)
        (get-fold_visit hash_key visitor region (normalize_region raw) t (omega arith))

module _ (floats : Floats) (registry : Registry floats.F64)
    (channel : Channel (PipelineMsg floats.F64)) (hash_key : Str → ℕ) where
  -- the engine of a call after its visit is counted
  abbrev pub Counted :
      Option ℕ
      → Str
      → Engine floats registry channel hash_key
      → Engine floats registry channel hash_key
      → Type 0
  Counted now raw g g' =
      record_metric registry channel counter now visitors_total (floats.of_ℕ 1)
        (region_label floats registry channel hash_key (normalize_region raw)) g
      ≡ some g'

  -- A call of `observe` that returns has counted the visit in the total, whether or not the lock was
  -- taken elsewhere, and it returns false exactly if it was. Then every sketch is as before; if it was
  -- not, the sketch of the visit's bucket has the visitor, and every other sketch is as before.
  pub observe-outcome :
      (contended : Bool) (now : Option ℕ) (visitor raw : Str) (t : Tracker)
      (g : Engine floats registry channel hash_key) (answer : Bool) (t' : Tracker)
      (g' : Engine floats registry channel hash_key) (key : Str)
      → observe floats registry channel hash_key contended now visitor raw t g
        ≡ some (answer, t', g')
      → Counted now raw g g'
        × (answer ≡ not contended)
        × (get key t'.inner ≡ (
            if not contended && str_eq key (bucket_of (normalize_region raw) t)
            then some (add hash_key visitor (or_new (get key t.inner)))
            else get key t.inner))
  unfolding observe fold_visit
  observe-outcome true now visitor raw t g answer t' g' key h =
      let (g₁, counted, done) =
        >>=-eq-some
          (record_metric registry channel counter now visitors_total (floats.of_ℕ 1)
            (region_label floats registry channel hash_key (normalize_region raw)) g)
          _ h in
      let e = some_inj done in
      (counted ∙ ap (λ x. some x.2) e, sym (ap (λ x. x.0) e), ap (λ x. get key x.1.inner) (sym e))
  observe-outcome false now visitor raw t g answer t' g' key h =
      let (g₁, counted, done) =
        >>=-eq-some
          (record_metric registry channel counter now visitors_total (floats.of_ℕ 1)
            (region_label floats registry channel hash_key (normalize_region raw)) g)
          _ h in
      let e = some_inj done in
      (
        counted ∙ ap (λ x. some x.2) e,
        sym (ap (λ x. x.0) e),
        ap (λ x. get key x.1.inner) (sym e)
            ∙ get-change_own (bucket_of (normalize_region raw) t) (add hash_key visitor) key
                t.inner,
      )
