-- ===== src/Drivers/Screen/Reflush.antt =====
-- After screen_reflush the terminal shows the screen.
use oslab_2024fall.Prelude.{
  ℕ, zero, suc, ◌+◌, ◌≤◌, ◌<◌, ◌≡◌, refl, Bool, true, ◌==◌, ◌&&◌, ◌||◌, leb, ltb, arith, Bool-cases,
  inl, inr, ◌∙◌, ap, if◌then◌else◌,
}
use oslab_2024fall.Drivers.Screen.{
  Screen, screen_loc, screen_width, screen_height, reflush_cell, reflush_line, reflush_lines,
  screen_reflush,
}

-- The terminal shows the old buffer.
abbrev pub IsShown : Screen → Type 0
IsShown s =
    (j i : ℕ)
    → j < screen_width
    → i < screen_height
    → s.terminal (j + 1) (i + 1) ≡ s.old_screen (screen_loc j i)

same_cell :
    (j k i l : ℕ)
    → j < screen_width
    → k < screen_width
    → (screen_loc j i == screen_loc k l) ≡ (j == k && i == l)
same_cell j k i l hj hk = ground arith

reflush_cell-IsShown :
    (j i : ℕ) (s : Screen) → j < screen_width → IsShown s → IsShown (reflush_cell j i s)
unfolding reflush_cell
reflush_cell-IsShown j i s lt h k l hk hl = ground (arith, h k l hk hl, same_cell j k i l lt hk)

-- What a part of the loops leaves: the same new buffer, and old characters replaced at the places that
-- pass a test.
abbrev Replaced : (ℕ → Bool) → Screen → Screen → Type 0
Replaced p s s' =
    (s'.new_screen ≡ s.new_screen)
    × ((loc : ℕ) → s'.old_screen loc ≡ (if p loc then s.new_screen loc else s.old_screen loc))

reflush_cell-Replaced :
    (j i : ℕ) (s : Screen) → Replaced (λ loc. screen_loc j i == loc) s (reflush_cell j i s)
unfolding reflush_cell
reflush_cell-Replaced j i s =
    elim (Bool-cases (s.new_screen (screen_loc j i) == s.old_screen (screen_loc j i))) [
      | inl e ↦ rw (reflush_cell, e) (refl, λ loc. ground arith)
      | inr e ↦ rw (reflush_cell, e) (refl, λ loc. ground arith)
    ]

-- One part after another.
Replaced-twice :
    (p q r : ℕ → Bool) (s t u : Screen)
    → Replaced p s t
    → Replaced q t u
    → ((loc : ℕ) → r loc ≡ (p loc || q loc))
    → Replaced r s u
Replaced-twice p q r s t u (a, b) (c, d) same =
    (c ∙ a, λ loc. let e = ap (λ g. g loc) a in ground (arith, b loc, d loc, same loc, e))

-- The places of the first `n` columns of a line, and of the first `n` lines.
abbrev in_line : ℕ → ℕ → ℕ → Bool
in_line n i loc = leb (screen_loc 0 i) loc && ltb loc (screen_loc n i)

abbrev in_lines : ℕ → ℕ → Bool
in_lines n loc = ltb loc (screen_loc 0 n)

reflush_line-Replaced : (n i : ℕ) (s : Screen) → Replaced (in_line n i) s (reflush_line n i s)
unfolding reflush_line
reflush_line-Replaced zero i s = (refl, λ loc. ground arith)
reflush_line-Replaced (suc n) i s =
    Replaced-twice (in_line n i) (λ loc. screen_loc n i == loc) (in_line (suc n) i) s
      (reflush_line n i s) (reflush_cell n i (reflush_line n i s)) (reflush_line-Replaced n i s)
      (reflush_cell-Replaced n i (reflush_line n i s)) (λ loc. ground arith)

reflush_lines-Replaced : (n : ℕ) (s : Screen) → Replaced (in_lines n) s (reflush_lines n s)
unfolding reflush_lines
reflush_lines-Replaced zero s = (refl, λ loc. ground arith)
reflush_lines-Replaced (suc n) s =
    Replaced-twice (in_lines n) (in_line screen_width n) (in_lines (suc n)) s (reflush_lines n s)
      (reflush_line screen_width n (reflush_lines n s)) (reflush_lines-Replaced n s)
      (reflush_line-Replaced screen_width n (reflush_lines n s)) (λ loc. ground arith)

reflush_line-IsShown :
    (n i : ℕ) (s : Screen) → n ≤ screen_width → IsShown s → IsShown (reflush_line n i s)
unfolding reflush_line
reflush_line-IsShown zero i s le h = h
reflush_line-IsShown (suc n) i s le h =
    reflush_cell-IsShown n i (reflush_line n i s) (omega arith)
      (reflush_line-IsShown n i s (omega arith) h)

reflush_lines-IsShown : (n : ℕ) (s : Screen) → IsShown s → IsShown (reflush_lines n s)
unfolding reflush_lines
reflush_lines-IsShown zero s h = h
reflush_lines-IsShown (suc n) s h =
    reflush_line-IsShown screen_width n (reflush_lines n s) (omega arith)
      (reflush_lines-IsShown n s h)

on_screen :
    (j i : ℕ)
    → j < screen_width
    → i < screen_height
    → in_lines screen_height (screen_loc j i) ≡ true
on_screen j i lj li = ground arith

-- When the terminal shows the old buffer at every place of the screen, it shows it after
-- screen_reflush too, and every place of the terminal then shows the character of the new
-- buffer.
pub screen_reflush-shows :
    (s : Screen)
    → IsShown s
    → IsShown (screen_reflush s)
      × ((j i : ℕ)
          → j < screen_width
          → i < screen_height
          → (screen_reflush s).terminal (j + 1) (i + 1) ≡ s.new_screen (screen_loc j i))
unfolding screen_reflush
screen_reflush-shows s h =
    let shown = reflush_lines-IsShown screen_height s h in
    let (same, old) = reflush_lines-Replaced screen_height s in
    (
      shown,
      λ j i lj li.
          let e : in_lines screen_height (screen_loc j i) ≡ true = on_screen j i lj li in
          shown j i lj li ∙ (rw e at (old (screen_loc j i))),
    )
