-- ===== src/Drivers/Screen.antt =====
-- The screen buffer of drivers/screen.c. What vt100_move_cursor and bios_putchar send is modelled as
-- the characters that the terminal shows, by column and line from 1 on.
pub mod Cursor
pub mod Reflush
use oslab_2024fall.Prelude.{
  ℕ, zero, suc, ◌+◌, ◌-◌, ◌*◌, ◌^◌, Bool, true, false, List, [], ◌∷◌, ◌==◌, ◌&&◌, ◌||◌, ltb, leb,
  if◌then◌else◌,
}
use oslab_2024fall.Prelude.Table.{update}

abbrev pub screen_width : ℕ
screen_width = 80

abbrev pub screen_height : ℕ
screen_height = 50

-- The cursor is the one of the running task.
pub record Screen : Type 0 where
  pub new_screen : ℕ → ℕ
  pub old_screen : ℕ → ℕ
  pub cursor_x : ℕ
  pub cursor_y : ℕ
  pub terminal : ℕ → ℕ → ℕ

abbrev pub screen_loc : ℕ → ℕ → ℕ
screen_loc x y = y * screen_width + x

-- if (cursor_y < SCREEN_HEIGHT) cursor_y++
abbrev pub next_line : ℕ → ℕ
next_line y = if ltb y screen_height then y + 1 else y

abbrev pub put_new : ℕ → ℕ → Screen → Screen
put_new loc ch s = record s { new_screen = update s.new_screen loc ch }

-- The cursor one place back, on the line before at the start of a line.
unfoldable pub step_back : Screen → Screen
step_back s =
    if ltb 0 s.cursor_x
    then record s { cursor_x = s.cursor_x - 1 }
    else if ltb 0 s.cursor_y
    then record s { cursor_y = s.cursor_y - 1; cursor_x = screen_width - 1 }
    else s

-- The cursor one place on.
unfoldable pub step_on : Screen → Screen
step_on s =
    if leb screen_width (s.cursor_x + 1)
    then record s { cursor_x = 0; cursor_y = next_line s.cursor_y }
    else record s { cursor_x = s.cursor_x + 1 }

-- A line feed, a backspace or delete, or another character.
unfoldable pub screen_write_ch : ℕ → Screen → Screen
unfolding step_back step_on
screen_write_ch ch s =
    if ch == 10
    then record s { cursor_x = 0; cursor_y = next_line s.cursor_y }
    else if ch == 8 || ch == 127
    then (let back = step_back s in put_new (screen_loc back.cursor_x back.cursor_y) 32 back)
    else step_on (put_new (screen_loc s.cursor_x s.cursor_y) ch s)

unfoldable pub screen_write : List ℕ → Screen → Screen
unfolding screen_write_ch
screen_write [] s = s
screen_write (ch ∷ buff) s = screen_write buff (screen_write_ch ch s)

-- An int below 0 is its word of 32 bits.
abbrev pub clamp : ℕ → ℕ → ℕ
clamp x limit = if ltb x (2 ^ 31) && leb limit x then limit - 1 else if leb (2 ^ 31) x then 0 else x

unfoldable pub screen_move_cursor : ℕ → ℕ → Screen → Screen
screen_move_cursor x y s = record s {
  cursor_x = clamp x screen_width;
  cursor_y = clamp y screen_height;
}

-- One place of the screen: a changed character is sent to the terminal.
unfoldable pub reflush_cell : ℕ → ℕ → Screen → Screen
reflush_cell j i s =
    let loc = screen_loc j i in
    if s.new_screen loc == s.old_screen loc then s else record s {
      terminal = update s.terminal (j + 1) (update (s.terminal (j + 1)) (i + 1) (s.new_screen loc));
      old_screen = update s.old_screen loc (s.new_screen loc);
    }

-- The loops of screen_reflush, on the first `n` columns of a line and on the first `n` lines.
unfoldable pub reflush_line : ℕ → ℕ → Screen → Screen
unfolding reflush_cell
reflush_line zero i s = s
reflush_line (suc n) i s = reflush_cell n i (reflush_line n i s)

unfoldable pub reflush_lines : ℕ → Screen → Screen
unfolding reflush_line
reflush_lines zero s = s
reflush_lines (suc n) s = reflush_line screen_width n (reflush_lines n s)

unfoldable pub screen_reflush : Screen → Screen
unfolding reflush_lines
screen_reflush s = reflush_lines screen_height s

-- The loops of screen_clear; they write blanks to both buffers.
unfoldable pub blank_line : ℕ → ℕ → Screen → Screen
blank_line zero i s = s
blank_line (suc n) i s =
    let before = blank_line n i s in
    record before {
      new_screen = update before.new_screen (screen_loc n i) 32;
      old_screen = update before.old_screen (screen_loc n i) 32;
    }

unfoldable pub blank_lines : ℕ → Screen → Screen
unfolding blank_line
blank_lines zero s = s
blank_lines (suc n) s = blank_line screen_width n (blank_lines n s)

-- vt100_clear leaves blanks on the terminal.
unfoldable pub screen_clear : Screen → Screen
unfolding blank_lines screen_reflush
screen_clear s =
    screen_reflush (record (blank_lines screen_height (record s { terminal = λ x y. 32 })) {
      cursor_x = 0;
      cursor_y = 0;
    })
