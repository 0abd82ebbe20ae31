-- ===== src/Fs/Paths/Split.antt =====
-- A path is made of its names and the slashes between them.
use oslab_2024fall.Prelude.{
  ℕ, ◌<◌, ◌≡◌, refl, true, false, Option, none, some, List, [], ◌∷◌, ◌++◌, ◌==◌, has, length, arith,
  ◌∙◌, ap,
}
use oslab_2024fall.Fs.Paths.{until_slash, next_name, split_path, parse_path, fits_name, fitting}

-- A name without a slash is found again.
until_slash-append :
    (name rest : List ℕ)
    → has b'/' name ≡ false
    → until_slash (name ++ b'/' ∷ rest) ≡ (name, some rest)
unfolding until_slash
until_slash-append [] rest h = refl
until_slash-append (c ∷ name) rest h =
    let off : (c == b'/') ≡ false = ground arith in
    let later = until_slash-append name rest (ground arith) in
    rw (until_slash, off) (ap (λ (r : List ℕ × Option (List ℕ)). (c ∷ r.0, r.1)) later)

until_slash-last : (name : List ℕ) → has b'/' name ≡ false → until_slash name ≡ (name, none)
unfolding until_slash
until_slash-last [] h = refl
until_slash-last (c ∷ name) h =
    let off : (c == b'/') ≡ false = ground arith in
    let later = until_slash-last name (ground arith) in
    rw (until_slash, off) (ap (λ (r : List ℕ × Option (List ℕ)). (c ∷ r.0, r.1)) later)

-- The names from the first one and what follows it on, and from the second one on.
abbrev from_first : List ℕ × Option (List ℕ) → List ℕ × List ℕ × List ℕ
from_first r = (r.0, (next_name (r.1)).0, (next_name ((next_name (r.1)).1)).0)

abbrev from_second : List ℕ → List ℕ × Option (List ℕ) → List ℕ × List ℕ × List ℕ
from_second a r = (a, r.0, (next_name (r.1)).0)

split_path-three :
    (a b c : List ℕ)
    → has b'/' a ≡ false
    → has b'/' b ≡ false
    → has b'/' c ≡ false
    → split_path (a ++ b'/' ∷ (b ++ b'/' ∷ c)) ≡ (a, b, c)
unfolding split_path next_name
split_path-three a b c ha hb hc =
    ap from_first (until_slash-append a (b ++ b'/' ∷ c) ha)
    ∙ ap (from_second a) (until_slash-append b c hb)
    ∙ ap (λ (r : List ℕ × Option (List ℕ)). (a, b, r.0)) (until_slash-last c hc)

pub split_path-one : (a : List ℕ) → has b'/' a ≡ false → split_path a ≡ (a, [], [])
unfolding split_path next_name
split_path-one a ha = ap from_first (until_slash-last a ha)

pub parse_path-one :
    (a : List ℕ) → has b'/' a ≡ false → length a < 27 → parse_path a ≡ some (a, [], [])
unfolding parse_path fitting
parse_path-one a ha la =
    let e : fits_name a ≡ true = ground arith in ap fitting (split_path-one a ha) ∙ rw e refl

-- For three names without a slash and of fewer than 27 bytes each, parse_path of the names with
-- slashes between them gives the three names.
pub parse_path-three :
    (a b c : List ℕ)
    → has b'/' a ≡ false
    → has b'/' b ≡ false
    → has b'/' c ≡ false
    → length a < 27
    → length b < 27
    → length c < 27
    → parse_path (a ++ b'/' ∷ (b ++ b'/' ∷ c)) ≡ some (a, b, c)
unfolding parse_path fitting
parse_path-three a b c ha hb hc la lb lc =
    let ea : fits_name a ≡ true = ground arith in
    let eb : fits_name b ≡ true = ground arith in
    let ec : fits_name c ≡ true = ground arith in
    ap fitting (split_path-three a b c ha hb hc) ∙ rw (ea, eb, ec) refl
