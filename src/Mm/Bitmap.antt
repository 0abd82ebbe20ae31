-- ===== src/Mm/Bitmap.antt =====
-- The page bitmaps of kernel/mm/mm.c: find_free_pages, mark_page_allocated and unmark_page_free.
-- A bitmap is an array of bytes (plain `char` is unsigned on RISC-V), a function of the index.
pub mod Bits
pub mod Search
use Prim.Native.Nat.{bit_and, bit_or}
use oslab_2024fall.Prelude.{
  ℕ, zero, suc, ◌+◌, ◌-◌, ◌*◌, ◌/◌, ◌%◌, ◌^◌, Bool, true, false, Option, none, some, ◌==◌, leb, not,
  if◌then◌else◌, ◌<◌,
}
use oslab_2024fall.Prelude.Table.{update}

abbrev pub Bitmap : Type 0
Bitmap = ℕ → ℕ

-- Every element is a byte.
abbrev pub IsBytes : Bitmap → Type 0
IsBytes bitmap = (i : ℕ) → bitmap i < 256

-- byte | (1 << bit)
unfoldable pub set_bit : ℕ → ℕ → ℕ
set_bit byte bit = bit_or byte (2 ^ bit)

-- byte & ~(1 << bit), on a byte.
unfoldable pub clear_bit : ℕ → ℕ → ℕ
clear_bit byte bit = bit_and byte (255 - 2 ^ bit)

-- byte & (1 << bit), as a condition.
unfoldable pub test_bit : ℕ → ℕ → Bool
test_bit byte bit = not (bit_and byte (2 ^ bit) == 0)

-- The bitmap is a parameter without a bound, as in the source: the callers know how long it is.
unfoldable pub mark_page_allocated : ℕ → Bitmap → Bitmap
mark_page_allocated page_idx bitmap =
    update bitmap (page_idx / 8) (set_bit (bitmap (page_idx / 8)) (page_idx % 8))

unfoldable pub unmark_page_free : ℕ → Bitmap → Bitmap
unmark_page_free page_idx bitmap =
    update bitmap (page_idx / 8) (clear_bit (bitmap (page_idx / 8)) (page_idx % 8))

-- NPAGES2BITMAPCH
abbrev pub npages2bitmapch : ℕ → ℕ
npages2bitmapch npages = npages / 8 + (if npages % 8 == 0 then 0 else 1)

-- How a scan of one byte ends: with a page, with `return -1`, or at its last bit.
pub data Scan : Type 0 where
  found : ℕ → Scan
  beyond : Scan
  full : Scan

-- `for (bit...)`, with `n` bits left.
unfoldable pub scan_bits : Bitmap → ℕ → ℕ → ℕ → ℕ → Scan
scan_bits bitmap page_num byte_idx bit zero = full
scan_bits bitmap page_num byte_idx bit (suc n) =
    let page_idx = byte_idx * 8 + bit in
    let rest = scan_bits bitmap page_num byte_idx (bit + 1) n in
    if leb page_num page_idx
    then beyond
    else if not (test_bit (bitmap byte_idx) bit)
    then found page_idx
    else rest

-- `for (byte_idx...)`, with `n` bytes left. `none` is the returned -1.
unfoldable pub scan_bytes : Bitmap → ℕ → ℕ → ℕ → Option ℕ
scan_bytes bitmap page_num byte_idx zero = none
scan_bytes bitmap page_num byte_idx (suc n) =
    let rest = scan_bytes bitmap page_num (byte_idx + 1) n in
    if bitmap byte_idx == 0xff then rest else elim (scan_bits bitmap page_num byte_idx 0 8) [
      | found page_idx ↦ some page_idx
      | beyond ↦ none
      | full ↦ rest
    ]

unfoldable pub find_free_pages : Bitmap → ℕ → Option ℕ
unfolding scan_bytes scan_bits test_bit
find_free_pages bitmap page_num = scan_bytes bitmap page_num 0 (npages2bitmapch page_num)

-- Whether the bit of a page is set.
unfoldable pub is_allocated : Bitmap → ℕ → Bool
is_allocated bitmap page_idx = test_bit (bitmap (page_idx / 8)) (page_idx % 8)
