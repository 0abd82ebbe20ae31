-- ===== src/Libs/Strings.antt =====
-- strcmp of libs/string.c. A C string is the list of its bytes before the NUL.
use oslab_2024fall.Prelude.{ℕ, ◌≡◌, refl, Bool, true, false, List, [], ◌∷◌, ◌==◌, ◌&&◌, arith}

-- strcmp(str1, str2) == 0
unfoldable pub strcmp_is_zero : List ℕ → List ℕ → Bool
strcmp_is_zero [] [] = true
strcmp_is_zero [] (b ∷ t) = false
strcmp_is_zero (a ∷ s) [] = false
strcmp_is_zero (a ∷ s) (b ∷ t) = a == b && strcmp_is_zero s t

pub strcmp_refl : (s : List ℕ) → strcmp_is_zero s s ≡ true
unfolding strcmp_is_zero
strcmp_refl [] = refl
strcmp_refl (a ∷ s) = ground (arith, strcmp_refl s)

pub strcmp_eq : (s t : List ℕ) → strcmp_is_zero s t ≡ true → s ≡ t
unfolding strcmp_is_zero
strcmp_eq [] [] h = refl
strcmp_eq [] (b ∷ t) h = absurd (ground arith)
strcmp_eq (a ∷ s) [] h = absurd (ground arith)
strcmp_eq (a ∷ s) (b ∷ t) h = ground (arith, strcmp_eq s t)
