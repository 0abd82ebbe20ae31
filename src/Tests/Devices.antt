-- ===== src/Tests/Devices.antt =====
-- The kernel lock and the screen.
use oslab_2024fall.Prelude.{ℕ, ◌+◌, ◌≡◌, ◌<◌, refl, [], ◌∷◌, arith, ◌==◌, if◌then◌else◌}
use oslab_2024fall.Smp.{lock_round, locking, outside, Harts, enters, tries, start, later}
use oslab_2024fall.Smp.Exclusion.{IsExclusive, Reach-IsExclusive}
use oslab_2024fall.Drivers.Screen.{
  Screen, screen_write, screen_reflush, screen_loc, screen_width, screen_height,
}
use oslab_2024fall.Drivers.Screen.Reflush.{IsShown, screen_reflush-shows}
use oslab_2024fall.Drivers.Screen.Cursor.{IsCursor, screen_write-IsCursor}

-- Hart 1 has called lock_kernel.
abbrev called : Harts
called = record { whole_kernel_lock = 0; phase = λ i. if 1 == i then locking else outside }

Reach-IsExclusive_example : IsExclusive (lock_round 1 called)
Reach-IsExclusive_example = Reach-IsExclusive (later (later start (enters 1 refl)) (tries 1 refl))

-- A screen of blanks with an x at its first place, which the terminal does not show yet.
abbrev one_letter : Screen
one_letter = record {
  new_screen = λ loc. if loc == 0 then b'x' else 32;
  old_screen = λ loc. 32;
  cursor_x = 79;
  cursor_y = 49;
  terminal = λ x y. 32;
}

screen_reflush-shows_example :
    IsShown (screen_reflush one_letter)
    × ((j i : ℕ)
        → j < screen_width
        → i < screen_height
        → (screen_reflush one_letter).terminal (j + 1) (i + 1)
          ≡ one_letter.new_screen (screen_loc j i))
screen_reflush-shows_example = screen_reflush-shows one_letter (λ j i lj li. refl)

screen_write-IsCursor_example : IsCursor (screen_write (b'a' ∷ 10 ∷ 8 ∷ []) one_letter)
screen_write-IsCursor_example =
    screen_write-IsCursor (b'a' ∷ 10 ∷ 8 ∷ []) one_letter (omega arith, omega arith)
