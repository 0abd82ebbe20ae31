-- ===== src/Mm/Bitmap/Bits.antt =====
-- Setting, clearing and testing one bit of a byte, for every byte and every bit.
use oslab_2024fall.Prelude.{
  ℕ, ◌+◌, ◌*◌, ◌/◌, ◌%◌, ◌<◌, ◌≡◌, refl, Bool, true, false, ◌&&◌, ◌||◌, not, ◌==◌, ltb, arith,
}
use oslab_2024fall.Prelude.Seq.{passes, passes-true}
use oslab_2024fall.Mm.Bitmap.{set_bit, clear_bit, test_bit}

abbrev eqb : Bool → Bool → Bool
eqb true b = b
eqb false b = not b

set_row : ℕ → ℕ → ℕ → Bool
set_row byte i j =
    eqb (test_bit (set_bit byte i) j) ((i == j) || test_bit byte j) && ltb (set_bit byte i) 256

clear_row : ℕ → ℕ → ℕ → Bool
clear_row byte i j =
    eqb (test_bit (clear_bit byte i) j) (not (i == j) && test_bit byte j)
    && ltb (clear_bit byte i) 256

-- A byte and two bits in one number: byte * 64 + i * 8 + j.
at_packed : (ℕ → ℕ → ℕ → Bool) → ℕ → Bool
at_packed row x = row (x / 64) (x / 8 % 8) (x % 8)

set_table : passes (at_packed set_row) 16384 ≡ true
unfolding passes set_bit test_bit at_packed set_row
set_table = refl

clear_table : passes (at_packed clear_row) 16384 ≡ true
unfolding passes clear_bit test_bit at_packed clear_row
clear_table = refl

from_table :
    (row : ℕ → ℕ → ℕ → Bool)
    → passes (at_packed row) 16384 ≡ true
    → (byte i j : ℕ) → byte < 256
    → i < 8
    → j < 8
    → row byte i j ≡ true
unfolding at_packed
from_table row table byte i j hb hi hj =
    let x = byte * 64 + i * 8 + j in
    let e1 : x / 64 ≡ byte = omega arith in
    let e2 : x / 8 % 8 ≡ i = omega arith in
    let e3 : x % 8 ≡ j = omega arith in
    rw (e1, e2, e3) at (passes-true (at_packed row) 16384 table x (omega arith))

module _ (byte i j : ℕ) (hb : byte < 256) (hi : i < 8) (hj : j < 8) where
  -- Setting bit `i` of a byte sets that bit alone, and the result is a byte.
  pub test_bit-set_bit :
      (test_bit (set_bit byte i) j ≡ ((i == j) || test_bit byte j)) × (set_bit byte i < 256)
  unfolding set_row
  test_bit-set_bit = ground (arith, from_table set_row set_table byte i j)

  -- Clearing bit `i` of a byte clears that bit alone, and the result is a byte.
  pub test_bit-clear_bit :
      (test_bit (clear_bit byte i) j ≡ (not (i == j) && test_bit byte j)) × (clear_bit byte i < 256)
  unfolding clear_row
  test_bit-clear_bit = ground (arith, from_table clear_row clear_table byte i j)

full_row : ℕ → ℕ → ℕ → Bool
full_row byte i j = not (byte == 0xff) || test_bit byte j

full_table : passes (at_packed full_row) 16384 ≡ true
unfolding passes test_bit at_packed full_row
full_table = refl

-- Every bit of 0xff is set.
pub test_bit_full : (byte j : ℕ) → byte ≡ 0xff → j < 8 → test_bit byte j ≡ true
unfolding full_row
test_bit_full byte j e hj = ground (arith, from_table full_row full_table byte 0 j)
