-- ===== src/Mm/Pte/Fields.antt =====
-- The fields of an entry: the frame number and the attributes.
use Prim.Native.Nat.{bit_and, bit_or}
use oslab_2024fall.Prelude.{ℕ, ◌+◌, ◌-◌, ◌*◌, ◌/◌, ◌%◌, ◌^◌, ◌<◌, ◌≡◌, refl, true, arith, ◌==◌}
use oslab_2024fall.Prelude.Digits.{
  or_at_10, or_at_44, and_at_10, and_at_44, bit_or-zero, bit_and-zero, bit_or-lt_1024, zero-bit_or,
  bit_and-le_left, bit_and_ones, bit_and-bit_or, bit_and-not,
}
use oslab_2024fall.Prelude.Seq.{passes, passes-true}
use oslab_2024fall.Mm.Pte.{
  get_pfn, set_pfn, get_attribute, set_attribute, clear_attribute, kva2pa, pa2kva, pfn_mask, not_64,
}

keep_low_table : passes (λ x. bit_and x 1023 == x) 1024 ≡ true
unfolding passes
keep_low_table = refl

keep_low : (x : ℕ) → x < 1024 → bit_and x 1023 ≡ x
keep_low x h = ground (arith, passes-true (λ y. bit_and y 1023 == y) 1024 keep_low_table x h)

-- The entry without its frame number, above its attributes.
cleared :
    (entry : ℕ)
    → entry < 2 ^ 64
    → bit_and entry (not_64 (pfn_mask * 2 ^ 10)) ≡ entry / 2 ^ 54 * 2 ^ 54 + entry % 2 ^ 10
cleared entry h = omega (
  arith,
  and_at_10 entry (not_64 (pfn_mask * 2 ^ 10)),
  and_at_44 (entry / 1024) (1023 * 2 ^ 44),
  bit_and-zero (entry / 1024 % 0x100000000000),
  keep_low (entry / 1024 / 0x100000000000) (omega arith),
  keep_low (entry % 1024) (omega arith),
)

or_high : (h pfn : ℕ) → pfn < 2 ^ 44 → bit_or (h * 2 ^ 44) pfn ≡ h * 2 ^ 44 + pfn
or_high h pfn k =
    let a : h * 2 ^ 44 / 0x100000000000 ≡ h = omega arith in
    let b : pfn / 0x100000000000 ≡ 0 = omega arith in
    let c : h * 2 ^ 44 % 0x100000000000 ≡ 0 = omega arith in
    let d : pfn % 0x100000000000 ≡ pfn = omega arith in
    let e = rw (a, b, c, d, bit_or-zero h, zero-bit_or pfn) at (or_at_44 (h * 2 ^ 44) pfn) in
    omega (arith, e)

or_fields :
    (h lo pfn : ℕ)
    → lo < 1024
    → pfn < 2 ^ 44
    → bit_or (h * 2 ^ 54 + lo) (pfn * 1024) ≡ h * 2 ^ 54 + pfn * 2 ^ 10 + lo
or_fields h lo pfn l k =
    let a : (h * 2 ^ 54 + lo) / 1024 ≡ h * 2 ^ 44 = omega arith in
    let b : pfn * 1024 / 1024 ≡ pfn = omega arith in
    let c : (h * 2 ^ 54 + lo) % 1024 ≡ lo = omega arith in
    let d : pfn * 1024 % 1024 ≡ 0 = omega arith in
    let e =
      rw (a, b, c, d, bit_or-zero lo, or_high h pfn k) at
        (or_at_10 (h * 2 ^ 54 + lo) (pfn * 1024)) in
    omega (arith, e)

-- What set_pfn makes of an entry.
pub set_pfn_lem :
    (entry pfn : ℕ)
    → entry < 2 ^ 64
    → pfn < 2 ^ 44
    → set_pfn entry pfn ≡ entry / 2 ^ 54 * 2 ^ 54 + pfn * 2 ^ 10 + entry % 2 ^ 10
unfolding set_pfn
set_pfn_lem entry pfn h k =
    let fits : pfn * 2 ^ 10 % 2 ^ 64 ≡ pfn * 1024 = omega arith in
    rw (cleared entry h, fits) (or_fields (entry / 2 ^ 54) (entry % 2 ^ 10) pfn (omega arith) k)

-- For a 64-bit entry and a frame number below 2 ^ 44, get_pfn reads back the frame number that
-- set_pfn wrote, the ten attribute bits and the bits from 54 on are unchanged, and the entry
-- fits 64 bits.
pub get_pfn-set_pfn :
    (entry pfn : ℕ)
    → entry < 2 ^ 64
    → pfn < 2 ^ 44
    → (get_pfn (set_pfn entry pfn) ≡ pfn)
      × (set_pfn entry pfn % 2 ^ 10 ≡ entry % 2 ^ 10)
      × (set_pfn entry pfn / 2 ^ 54 ≡ entry / 2 ^ 54)
      × (set_pfn entry pfn < 2 ^ 64)
unfolding get_pfn
get_pfn-set_pfn entry pfn h k = rw (set_pfn_lem entry pfn h k) (omega arith)

pub set_attribute_parts :
    (entry bits : ℕ)
    → bits < 1024
    → (set_attribute entry bits / 1024 ≡ entry / 1024)
      × (set_attribute entry bits % 1024 ≡ bit_or (entry % 1024) bits)
unfolding set_attribute
set_attribute_parts entry bits h =
    let a : bits / 1024 ≡ 0 = omega arith in
    let b : bits % 1024 ≡ bits = omega arith in
    let e = rw (a, b, bit_or-zero (entry / 1024)) at (or_at_10 entry bits) in
    omega (arith, e, bit_or-lt_1024 (entry % 1024) bits (omega arith) h)

and_ones : (x : ℕ) → x < 2 ^ 54 → bit_and x (2 ^ 54 - 1) ≡ x
and_ones x h = bit_and_ones 54 x h

pub clear_attribute_parts :
    (entry bits : ℕ)
    → entry < 2 ^ 64
    → bits < 1024
    → (clear_attribute entry bits / 1024 ≡ entry / 1024)
      × (clear_attribute entry bits % 1024 ≡ bit_and (entry % 1024) (1023 - bits))
unfolding clear_attribute
clear_attribute_parts entry bits k h =
    let a : not_64 bits / 1024 ≡ 2 ^ 54 - 1 = omega arith in
    let b : not_64 bits % 1024 ≡ 1023 - bits = omega arith in
    let e = rw (a, b, and_ones (entry / 1024) (omega arith)) at (and_at_10 entry (not_64 bits)) in
    omega (arith, e, bit_and-le_left 1024 (entry % 1024) (1023 - bits) (omega arith))

pub get_attribute_low :
    (entry mask : ℕ) → mask < 1024 → get_attribute entry mask ≡ get_attribute (entry % 1024) mask
unfolding get_attribute
get_attribute_low entry mask h =
    let a : mask / 1024 ≡ 0 = omega arith in
    let b : mask % 1024 ≡ mask = omega arith in
    let e = rw (a, b, bit_and-zero (entry / 1024)) at (and_at_10 entry mask) in omega (arith, e)

-- set_attribute and clear_attribute with attribute bits: the bits are all set, or all clear,
-- and the frame number and the bits above it stay.
pub set_attribute_lem :
    (entry bits : ℕ)
    → entry < 2 ^ 64
    → bits < 1024
    → (get_attribute (set_attribute entry bits) bits ≡ bits)
      × (get_pfn (set_attribute entry bits) ≡ get_pfn entry)
      × (set_attribute entry bits < 2 ^ 64)
unfolding get_pfn
set_attribute_lem entry bits h k =
    let (p, q) = set_attribute_parts entry bits k in
    (
      unfold get_attribute set_attribute in bit_and-bit_or 10 entry bits k,
      omega (arith, p),
      omega (arith, p),
    )

pub clear_attribute_lem :
    (entry bits : ℕ)
    → entry < 2 ^ 64
    → bits < 1024
    → (get_attribute (clear_attribute entry bits) bits ≡ 0)
      × (get_pfn (clear_attribute entry bits) ≡ get_pfn entry)
      × (clear_attribute entry bits < 2 ^ 64)
unfolding get_pfn
clear_attribute_lem entry bits h k =
    let (p, q) = clear_attribute_parts entry bits h k in
    (
      unfold get_attribute clear_attribute in bit_and-not 64 entry bits (omega arith),
      omega (arith, p),
      omega (arith, p),
    )

-- Kernel addresses and physical addresses are one to one.
pub pa2kva-kva2pa : (kva : ℕ) → kva < 2 ^ 64 → pa2kva (kva2pa kva) ≡ kva
unfolding pa2kva kva2pa
pa2kva-kva2pa kva h = omega arith
