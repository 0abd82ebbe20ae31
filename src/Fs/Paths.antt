-- ===== src/Fs/Paths.antt =====
-- parse_path of kernel/fs/fs.c. A path is the list of its bytes before the NUL.
pub mod Split
use oslab_2024fall.Prelude.{
  ℕ, ◌+◌, Bool, true, false, Option, none, some, List, [], ◌∷◌, ◌==◌, ◌&&◌, ltb, length,
  if◌then◌else◌,
}
use oslab_2024fall.Prelude.Maybe.{◌>>=◌, ◌>>◌, assert}

abbrev pub max_pathname_len : ℕ
max_pathname_len = 27

-- The bytes up to a slash or the end, and what is behind the slash, if there is one.
unfoldable pub until_slash : List ℕ → List ℕ × Option (List ℕ)
until_slash [] = ([], none)
until_slash (c ∷ path) =
    let (name, rest) = until_slash path in if c == b'/' then ([], some path) else (c ∷ name, rest)

-- What follows a slash, or the empty name.
unfoldable pub next_name : Option (List ℕ) → List ℕ × Option (List ℕ)
unfolding until_slash
next_name none = ([], none)
next_name (some path) = until_slash path

-- The three names; what is behind a third slash is left out.
unfoldable pub split_path : List ℕ → List ℕ × List ℕ × List ℕ
unfolding until_slash next_name
split_path path =
    let (dir1, rest1) = until_slash path in
    let (dir2, rest2) = next_name rest1 in (dir1, dir2, (next_name rest2).0)

abbrev pub fits_name : List ℕ → Bool
fits_name name = ltb (length name) max_pathname_len

-- A name that does not fit its array is written behind it; the model has no result then.
unfoldable pub fitting : List ℕ × List ℕ × List ℕ → Option (List ℕ × List ℕ × List ℕ)
fitting (dir1, dir2, dir3) = do
  assert (fits_name dir1 && fits_name dir2 && fits_name dir3)
  some (dir1, dir2, dir3)

unfoldable pub parse_path : List ℕ → Option (List ℕ × List ℕ × List ℕ)
unfolding split_path fitting
parse_path path = fitting (split_path path)

-- The names that find_inode goes through: a missing second one ends the path.
unfoldable pub levels : List ℕ × List ℕ × List ℕ → List (List ℕ)
levels (dir1, [], dir3) = dir1 ∷ []
levels (dir1, c ∷ dir2, []) = dir1 ∷ (c ∷ dir2) ∷ []
levels (dir1, c ∷ dir2, d ∷ dir3) = dir1 ∷ (c ∷ dir2) ∷ (d ∷ dir3) ∷ []
