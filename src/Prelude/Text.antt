-- ===== src/Prelude/Text.antt =====
-- String literals as the list of their bytes, and comparisons with a literal.
use Prim.Native.Nat.{ℕ}
use Prim.Native.Char.{code}
use Prim.Native.String.{String}
use mathlib.Core.Bool.{Bool, true, false, ◌&&◌}
use mathlib.Core.List.{List, [], ◌∷◌}
use mathlib.Core.Option.{Option, none, some}
use oslab_2024fall.Prelude.Tests.{◌==◌, if◌then◌else◌}

abbrev pub codes : String → List ℕ
codes String.[] = []
codes (String.◌∷◌ c s) = code c ∷ codes s

-- strcmp with a literal says equal; a NUL ends the text.
unfoldable pub is_text : List ℕ → List ℕ → Bool
is_text [] [] = true
is_text [] (d ∷ expected) = false
is_text (c ∷ text) [] = c == 0
is_text (c ∷ text) (d ∷ expected) = c == d && is_text text expected

-- What follows a literal, if the text starts with it.
unfoldable pub after_text : List ℕ → List ℕ → Option (List ℕ)
after_text [] text = some text
after_text (d ∷ expected) [] = none
after_text (d ∷ expected) (c ∷ text) =
    let rest = after_text expected text in if c == d then rest else none
