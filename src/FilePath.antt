-- ===== src/FilePath.antt =====
-- The parts of Rust's `std::path` that the crate uses. A path is its components, as the standard
-- library compares paths: `.` counts as a component only at the front.
use tonggeret.Base.{Bool, Option, none, some, List, [], ◌∷◌, ◌++◌}
use tonggeret.Text.{Str}

pub record FilePath : Type 0 where
  pub rooted : Bool
  pub parts : List Str

-- all components but the last
abbrev pub init_of : List Str → List Str
init_of [] = []
init_of (x ∷ []) = []
init_of (x ∷ y ∷ xs) = x ∷ init_of (y ∷ xs)

abbrev parent_parts : Bool → List Str → Option FilePath
parent_parts rooted [] = none
parent_parts rooted (x ∷ xs) = some (record { rooted = rooted; parts = init_of (x ∷ xs) })

-- `Path::parent`: none of `/` and of the empty path
unfoldable pub parent : FilePath → Option FilePath
parent p = parent_parts p.rooted p.parts

-- `Path::join` with a file name
unfoldable pub join : FilePath → Str → FilePath
join p name = record { rooted = p.rooted; parts = p.parts ++ name ∷ [] }
