-- ===== src/Middleware.antt =====
-- middleware/axum.rs and middleware/actix.rs: `truncate_path`, the same in both. The slice `p[..128]`
-- panics, here `none`, if the cut falls inside a character.
pub mod Requests
pub mod Axum
pub mod Actix
pub mod Agree
pub mod Counted
use tonggeret.Base.{
  ℕ, suc, ◌<◌, ◌≤◌, ◌≡◌, ap, lt→ltb, Option, none, some, ◌∷◌, ◌++◌, All, arith, length, take, ltb,
  if◌then◌else◌,
}
use tonggeret.Text.{Str, len, truncate}
use tonggeret.Text.Laws.{IsAscii, len-ascii, len-append, len_utf8-wide}
use tonggeret.Types.Labels.{truncate_inside, cap_text-ascii}
use tonggeret.Types.{cap_text}

abbrev pub max_path : ℕ
max_path = 128

-- `truncate_path`
unfoldable pub truncate_path : Str → Option Str
truncate_path p = if ltb max_path (len p) then truncate max_path p else some p

-- A path in ASCII is cut to its first 128 characters, and is kept as it is where it has no more.
pub truncate_path-ascii :
    (p : Str)
    → All IsAscii p
    → truncate_path p ≡ some (if ltb max_path (length p) then take max_path p else p)
unfolding truncate_path cap_text
truncate_path-ascii p h = cap_text-ascii max_path p h

-- A path of 127 ASCII characters and then one above ASCII makes `truncate_path` panic.
pub truncate_path-panics :
    (xs : Str) (c : ℕ) (ys : Str)
    → All IsAscii xs
    → length xs ≡ 127
    → 0x80 ≤ c
    → truncate_path (xs ++ c ∷ ys) ≡ none
unfolding truncate_path
truncate_path-panics xs c ys h size high =
    let long : 128 < len (xs ++ c ∷ ys) =
      rw len-append (unfold len in omega (arith, len-ascii xs h, len_utf8-wide c high)) in
    rw (lt→ltb 128 _ long) (rw (ap suc size) at (truncate_inside xs c ys h high))
