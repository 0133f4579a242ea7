-- ===== src/Types/Labels.antt =====
-- Labels: the bounds that `sanitize_labels` puts on an observation, and when it panics.
use tonggeret.Base.{
  ℕ, zero, suc, ◌≤◌, ◌<◌, ◌≡◌, ◌≢◌, ◌↔◌, ◌⊎◌, inl, inr, refl, true, false, none, some, List, [],
  ◌∷◌, ◌++◌, ◌&&◌, ◌||◌, arith, ltb, if◌then◌else◌, ◌>>=◌, All, length, take, codes, Bool-cases,
  if_intro, le→ltb, lt→ltb, ap, >>=-eq-some, some_inj,
}
use mathlib.Core.Path.{subst}
use tonggeret.Text.{Str, len, len_utf8, truncate, trim, str_eq, is_empty}
use tonggeret.Text.Laws.{
  len-append, len_utf8-wide, IsAscii, len-ascii, len-truncate, truncate-ascii, All-take,
}
use tonggeret.Types.{
  Label, max_pairs, max_key, max_val, cap_text, is_dropped, sanitize_label, sanitize_up_to,
  sanitize_labels, sanitize_metric_name, name_char,
}
use tonggeret.Types.Names.{IsName, IsName-IsAscii, sanitize_metric_name-IsName}

-- A cut text is at most as long as the bound, in bytes.
cap_text-bound : (most : ℕ) (s : Str) {t : Str} → cap_text most s ≡ some t → len t ≤ most
unfolding cap_text
cap_text-bound most s {t} h = ground (arith, len-truncate most s {t = t})

IsName-take : (n : ℕ) (s : Str) → IsName s → IsName (take (suc n) s)
IsName-take n [] h = h
IsName-take n (c ∷ s) (hc, hs) = (hc, All-take (λ d. name_char d ≡ true) n s hs)

-- ASCII text is never cut inside a character.
pub cap_text-ascii :
    (most : ℕ) (s : Str)
    → All IsAscii s
    → cap_text most s ≡ some (if ltb most (length s) then take most s else s)
unfolding cap_text
cap_text-ascii most s h = rw (len-ascii s h) (ground (arith, truncate-ascii most s h))

cap_text-IsName :
    (most : ℕ) (s : Str) {t : Str} → IsName s → cap_text (suc most) s ≡ some t → IsName t
cap_text-IsName most s h e =
    subst IsName (cc (cap_text-ascii (suc most) s (IsName-IsAscii s h), e))
      (if_intro IsName (ltb (suc most) (length s)) (IsName-take most s h) h)

-- The bounds on one label pair.
abbrev pub IsLabel : Label → Type 0
IsLabel (k, v) = IsName k × (len k ≤ max_key) × (len v ≤ max_val)

drops_blank :
    (t : Str)
    → ((is_empty (sanitize_metric_name t)
          || (str_eq (sanitize_metric_name t) (codes "_unnamed") && is_empty t))
        ≡ true)
      ↔ (t ≡ [])
unfolding is_empty sanitize_metric_name str_eq
drops_blank [] = ground arith
drops_blank (c ∷ s) = ground arith

-- A pair is dropped exactly if its key is blank.
pub is_dropped_iff : (k : Str) → (is_dropped k ≡ true) ↔ (trim k ≡ [])
unfolding is_dropped
is_dropped_iff k = drops_blank (trim k)

-- A pair that is kept has a key in the grammar, and both parts within their bounds.
sanitize_label-IsLabel : (l : Label) {m : Label} → sanitize_label l ≡ some m → IsLabel m
unfolding sanitize_label
sanitize_label-IsLabel (k, v) {m} h =
    let name = sanitize_metric_name (trim k) in
    let (key, ek, h') = >>=-eq-some (cap_text max_key name) _ h in
    let (val, ev, e) = >>=-eq-some (cap_text max_val v) _ h' in
    subst IsLabel (cc e) (
      cap_text-IsName 127 name (sanitize_metric_name-IsName (trim k)) ek,
      cap_text-bound max_key name ek,
      cap_text-bound max_val v ev,
    )

-- What the bounds ask of a list of label pairs.
abbrev pub AreLabels : ℕ → List Label → Type 0
AreLabels most ls = (length ls ≤ most) × All IsLabel ls

AreLabels-cons :
    (room : ℕ) (l : Label) (labels : List Label) {out : List Label}
    → ((ls : List Label) → sanitize_up_to room labels ≡ some ls → AreLabels room ls)
    → (do m ← sanitize_label l; ls ← sanitize_up_to room labels; some (m ∷ ls)) ≡ some out
    → AreLabels (suc room) out
AreLabels-cons room l labels ih h =
    let (m, em, h') = >>=-eq-some (sanitize_label l) _ h in
    let (ls, els, e) = >>=-eq-some (sanitize_up_to room labels) _ h' in
    let (few, good) = ih ls els in
    subst (AreLabels (suc room)) (some_inj e) (omega arith, (sanitize_label-IsLabel l em, good))

sanitize_up_to-AreLabels :
    (room : ℕ) (labels : List Label) {out : List Label}
    → sanitize_up_to room labels ≡ some out
    → AreLabels room out
unfolding sanitize_up_to
sanitize_up_to-AreLabels zero labels h = ground arith
sanitize_up_to-AreLabels (suc room) [] h = ground arith
sanitize_up_to-AreLabels (suc room) ((k, v) ∷ labels) h = elim (Bool-cases (is_dropped k)) [
  | inl drop ↦ sanitize_up_to-AreLabels (suc room) labels (rw drop at h)
  | inr keep ↦
      AreLabels-cons room (k, v) labels (λ ls e. sanitize_up_to-AreLabels room labels e)
        (rw keep at h)
]

-- If `sanitize_labels` returns, it returns at most 16 pairs, each with a key in the grammar of
-- names of at most 128 bytes and a value of at most 256 bytes.
pub sanitize_labels-AreLabels :
    (labels : List Label) {out : List Label}
    → sanitize_labels labels ≡ some out
    → AreLabels max_pairs out
unfolding sanitize_labels
sanitize_labels-AreLabels labels h = sanitize_up_to-AreLabels max_pairs labels h

-- A value that `sanitize_labels` can cut: ASCII text, or no longer than 256 bytes.
abbrev pub IsCuttable : Label → Type 0
IsCuttable l = All IsAscii l.1 ⊎ (len l.1 ≤ max_val)

cap_text-returns :
    (most : ℕ) (v : Str) → All IsAscii v ⊎ (len v ≤ most) → (t : Str) × (cap_text most v ≡ some t)
cap_text-returns most v (inl ascii) = (_, cap_text-ascii most v ascii)
cap_text-returns most v (inr fits) = unfold cap_text in (v, rw (le→ltb most (len v) fits))

sanitize_label-returns : (l : Label) → IsCuttable l → (m : Label) × (sanitize_label l ≡ some m)
unfolding sanitize_label
sanitize_label-returns (k, v) h =
    let name = sanitize_metric_name (trim k) in
    let (val, ev) = cap_text-returns max_val v h in
    let key = if ltb max_key (length name) then take max_key name else name in
    (
      (key, val),
      rw (
        cap_text-ascii max_key name (IsName-IsAscii name (sanitize_metric_name-IsName (trim k))),
        ev,
      ),
    )

sanitize_up_to-returns :
    (room : ℕ) (labels : List Label)
    → All IsCuttable labels
    → (out : List Label) × (sanitize_up_to room labels ≡ some out)
unfolding sanitize_up_to
sanitize_up_to-returns zero labels h = ([], refl)
sanitize_up_to-returns (suc room) [] h = ([], refl)
sanitize_up_to-returns (suc room) ((k, v) ∷ labels) (hl, hs) = elim (Bool-cases (is_dropped k)) [
  | inl drop ↦ rw drop (sanitize_up_to-returns (suc room) labels hs)
  | inr keep ↦
      let (m, em) = sanitize_label-returns (k, v) hl in
      let (ls, els) = sanitize_up_to-returns room labels hs in rw keep (m ∷ ls, rw (em, els))
]

-- If each value is ASCII text or has at most 256 bytes, `sanitize_labels` returns, with at most 16
-- pairs, each with a key in the grammar of names of at most 128 bytes and a value of at most 256
-- bytes.
pub sanitize_labels-returns :
    (labels : List Label)
    → All IsCuttable labels
    → (out : List Label) × (sanitize_labels labels ≡ some out) × AreLabels max_pairs out
unfolding sanitize_labels
sanitize_labels-returns labels h =
    let (out, e) = sanitize_up_to-returns max_pairs labels h in
    (out, e, sanitize_up_to-AreLabels max_pairs labels e)

-- A cut one byte into a character of several bytes panics.
pub truncate_inside :
    (xs : Str) (c : ℕ) (ys : Str)
    → All IsAscii xs
    → 0x80 ≤ c
    → truncate (suc (length xs)) (xs ++ c ∷ ys) ≡ none
unfolding truncate len_utf8
truncate_inside [] c ys h wide = ground arith
truncate_inside (x ∷ xs) c ys (hx, hs) wide = ground (arith, truncate_inside xs c ys hs wide)

cap_text_inside :
    (xs : Str) (c : ℕ) (ys : Str)
    → All IsAscii xs
    → length xs ≡ 255
    → 0x80 ≤ c
    → cap_text max_val (xs ++ c ∷ ys) ≡ none
unfolding cap_text
cap_text_inside xs c ys hx hl wide =
    let long : 256 < len (xs ++ c ∷ ys) =
      rw len-append (unfold len in omega (arith, len-ascii xs hx, len_utf8-wide c wide)) in
    rw (lt→ltb 256 _ long) (rw (ap suc hl) at (truncate_inside xs c ys hx wide))

-- A first pair with a key that is not blank, and a value of 255 ASCII characters before a
-- character that is not ASCII, makes `sanitize_labels` panic.
pub sanitize_labels-panics :
    (k xs : Str) (c : ℕ) (ys : Str) (labels : List Label)
    → trim k ≢ []
    → All IsAscii xs
    → length xs ≡ 255
    → 0x80 ≤ c
    → sanitize_labels ((k, xs ++ c ∷ ys) ∷ labels) ≡ none
unfolding sanitize_labels sanitize_up_to sanitize_label
sanitize_labels-panics k xs c ys labels hk hx hl wide =
    let kept : is_dropped k ≡ false = ground (arith, is_dropped_iff k) in
    let cut : cap_text max_val (xs ++ c ∷ ys) ≡ none = cap_text_inside xs c ys hx hl wide in
    let name = sanitize_metric_name (trim k) in
    rw (
      kept,
      cap_text-ascii max_key name (IsName-IsAscii name (sanitize_metric_name-IsName (trim k))),
      cut,
    )
