-- ===== src/Drivers/Screen/Cursor.antt =====
-- Where the cursor can be, and what screen_write_ch writes.
use oslab_2024fall.Prelude.{ℕ, ◌*◌, ◌≤◌, ◌<◌, ◌≡◌, ◌≢◌, arith, List, [], ◌∷◌}
use oslab_2024fall.Drivers.Screen.{
  Screen, screen_width, screen_height, screen_loc, screen_write_ch, screen_write, step_back,
  step_on, screen_move_cursor,
}

-- The cursor is on the screen, or on the line below it.
abbrev pub IsCursor : Screen → Type 0
IsCursor s = (s.cursor_x < screen_width) × (s.cursor_y ≤ screen_height)

screen_write_ch-IsCursor : (ch : ℕ) (s : Screen) → IsCursor s → IsCursor (screen_write_ch ch s)
unfolding screen_write_ch step_back step_on
screen_write_ch-IsCursor ch s h = ground arith

-- screen_write of any bytes keeps the column of the cursor below 80 and its line at most 50,
-- which is the line below the screen.
pub screen_write-IsCursor :
    (buff : List ℕ) (s : Screen) → IsCursor s → IsCursor (screen_write buff s)
unfolding screen_write
screen_write-IsCursor [] s h = h
screen_write-IsCursor (ch ∷ buff) s h =
    screen_write-IsCursor buff (screen_write_ch ch s) (screen_write_ch-IsCursor ch s h)

-- A character below the screen is written behind the buffer.
pub screen_write_ch-beyond :
    (ch : ℕ) (s : Screen)
    → ch ≢ 10
    → ch ≢ 8
    → ch ≢ 127
    → s.cursor_y ≡ screen_height
    → (screen_width * screen_height ≤ screen_loc s.cursor_x s.cursor_y)
      × ((screen_write_ch ch s).new_screen (screen_loc s.cursor_x s.cursor_y) ≡ ch)
unfolding screen_write_ch step_on
screen_write_ch-beyond ch s a b c e = (omega arith, ground arith)

pub screen_move_cursor-inside :
    (x y : ℕ) (s : Screen)
    → ((screen_move_cursor x y s).cursor_x < screen_width)
      × ((screen_move_cursor x y s).cursor_y < screen_height)
unfolding screen_move_cursor
screen_move_cursor-inside x y s = ground arith
