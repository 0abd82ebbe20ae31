-- ===== src/Mm/Bitmap/Search.antt =====
-- What the page bitmap operations mean: a set of page indices, its least missing element below a
-- bound, and the updates of one element.
use oslab_2024fall.Prelude.{
  ℕ, zero, suc, ◌+◌, ◌*◌, ◌/◌, ◌%◌, ◌≤◌, ◌<◌, ◌≡◌, refl, true, false, Option, none, some, ◌&&◌,
  ◌||◌, not, ◌==◌, leb, ltb, arith, Bool-cases, inl, inr, ◌∙◌,
}
use oslab_2024fall.Mm.Bitmap.{
  Bitmap, IsBytes, Scan, found, beyond, full, scan_bits, scan_bytes, find_free_pages, is_allocated,
  mark_page_allocated, unmark_page_free, test_bit, npages2bitmapch,
}
use oslab_2024fall.Mm.Bitmap.Bits.{test_bit-set_bit, test_bit-clear_bit, test_bit_full}

pub same_page : (p q : ℕ) → p / 8 ≡ q / 8 → (p % 8 == q % 8) ≡ (p == q)
same_page p q e = ground arith

-- In a bitmap of bytes, after mark_page_allocated of page p a page q is allocated exactly when
-- it is p or was allocated before.
pub is_allocated-mark :
    (bitmap : Bitmap) (p q : ℕ)
    → IsBytes bitmap
    → is_allocated (mark_page_allocated p bitmap) q ≡ ((p == q) || is_allocated bitmap q)
unfolding is_allocated mark_page_allocated
is_allocated-mark bitmap p q bytes = ground (
  arith,
  test_bit-set_bit (bitmap (p / 8)) (p % 8) (q % 8) (bytes (p / 8)) (omega arith) (omega arith),
  same_page p q,
)

pub mark-IsBytes :
    (bitmap : Bitmap) (p : ℕ) → IsBytes bitmap → IsBytes (mark_page_allocated p bitmap)
unfolding mark_page_allocated
mark-IsBytes bitmap p bytes i = ground (
  arith,
  bytes i,
  test_bit-set_bit (bitmap (p / 8)) (p % 8) 0 (bytes (p / 8)) (omega arith) (omega arith),
)

-- In a bitmap of bytes, after unmark_page_free of page p a page q is allocated exactly when it
-- is not p and was allocated before.
pub is_allocated-unmark :
    (bitmap : Bitmap) (p q : ℕ)
    → IsBytes bitmap
    → is_allocated (unmark_page_free p bitmap) q ≡ (not (p == q) && is_allocated bitmap q)
unfolding is_allocated unmark_page_free
is_allocated-unmark bitmap p q bytes = ground (
  arith,
  test_bit-clear_bit (bitmap (p / 8)) (p % 8) (q % 8) (bytes (p / 8)) (omega arith) (omega arith),
  same_page p q,
)

pub unmark-IsBytes :
    (bitmap : Bitmap) (p : ℕ) → IsBytes bitmap → IsBytes (unmark_page_free p bitmap)
unfolding unmark_page_free
unmark-IsBytes bitmap p bytes i = ground (
  arith,
  bytes i,
  test_bit-clear_bit (bitmap (p / 8)) (p % 8) 0 (bytes (p / 8)) (omega arith) (omega arith),
)

-- What the scan of one byte says, with pages `lo .. byte_idx * 8 + bit - 1` already seen taken.
abbrev ScanSays : Bitmap → ℕ → ℕ → ℕ → Scan → Type 0
ScanSays bitmap page_num lo hi (found p) =
    (lo ≤ p)
    × (p < hi)
    × (p < page_num)
    × (is_allocated bitmap p ≡ false)
    × ((q : ℕ) → lo ≤ q → q < p → is_allocated bitmap q ≡ true)
ScanSays bitmap page_num lo hi beyond =
    (page_num < hi) × ((q : ℕ) → lo ≤ q → q < page_num → is_allocated bitmap q ≡ true)
ScanSays bitmap page_num lo hi full = (q : ℕ) → lo ≤ q → q < hi → is_allocated bitmap q ≡ true

at_bit :
    (bitmap : Bitmap) (byte_idx bit q : ℕ)
    → bit < 8
    → q ≡ byte_idx * 8 + bit
    → is_allocated bitmap q ≡ test_bit (bitmap byte_idx) bit
unfolding is_allocated
at_bit bitmap byte_idx bit q h e =
    let e1 : q / 8 ≡ byte_idx = omega arith in let e2 : q % 8 ≡ bit = omega arith in rw (e1, e2)

-- One more page below, seen taken.
ScanSays-extend :
    (bitmap : Bitmap) (page_num lo hi : ℕ) (r : Scan)
    → is_allocated bitmap lo ≡ true
    → ScanSays bitmap page_num (lo + 1) hi r
    → ScanSays bitmap page_num lo hi r
ScanSays-extend bitmap page_num lo hi (found p) taken (a, b, c, d, e) = (
  omega arith,
  b,
  c,
  d,
  λ q l u. elim (Bool-cases (q == lo)) [ inl s ↦ ground arith | inr s ↦ e q (ground arith) u ],
)
ScanSays-extend bitmap page_num lo hi beyond taken (a, e) = (
  a,
  λ q l u. elim (Bool-cases (q == lo)) [ inl s ↦ ground arith | inr s ↦ e q (ground arith) u ],
)
ScanSays-extend bitmap page_num lo hi full taken e =
    λ q l u. elim (Bool-cases (q == lo)) [ inl s ↦ ground arith | inr s ↦ e q (ground arith) u ]

scan_bits-says :
    (bitmap : Bitmap) (page_num byte_idx bit n : ℕ)
    → bit + n ≡ 8
    → ScanSays bitmap page_num
        (byte_idx * 8 + bit)
        (byte_idx * 8 + 8)
        (scan_bits bitmap page_num byte_idx bit n)
unfolding scan_bits
scan_bits-says bitmap page_num byte_idx bit zero e = λ q lo hi. absurd (omega arith)
scan_bits-says bitmap page_num byte_idx bit (suc n) e =
    elim (Bool-cases (leb page_num (byte_idx * 8 + bit))) [
      | inl past ↦ rw past (ground arith, λ q lo hi. absurd (ground arith))
      | inr within ↦ rw within (elim (Bool-cases (test_bit (bitmap byte_idx) bit)) [
        | inl taken ↦ rw taken (
            ScanSays-extend bitmap page_num (byte_idx * 8 + bit) (byte_idx * 8 + 8) _
              (at_bit bitmap byte_idx bit (byte_idx * 8 + bit) (omega arith) refl ∙ taken)
              (let z : byte_idx * 8 + (bit + 1) ≡ byte_idx * 8 + bit + 1 = omega arith in
                rw z at (scan_bits-says bitmap page_num byte_idx (bit + 1) n (omega arith))))
        | inr free ↦ rw free (
          omega arith,
          omega arith,
          ground arith,
          at_bit bitmap byte_idx bit (byte_idx * 8 + bit) (omega arith) refl ∙ free,
          λ q lo hi. absurd (omega arith),
        )
      ])
    ]

-- The first free page below `page_num` from page `lo` on, or none.
abbrev pub Finds : Bitmap → ℕ → ℕ → Option ℕ → Type 0
Finds bitmap page_num lo (some p) =
    (lo ≤ p)
    × (p < page_num)
    × (is_allocated bitmap p ≡ false)
    × ((q : ℕ) → lo ≤ q → q < p → is_allocated bitmap q ≡ true)
Finds bitmap page_num lo none = (q : ℕ) → lo ≤ q → q < page_num → is_allocated bitmap q ≡ true

-- Pages `lo .. hi - 1` seen taken.
Finds-extend :
    (bitmap : Bitmap) (page_num lo hi : ℕ) (r : Option ℕ)
    → lo ≤ hi
    → ((q : ℕ) → lo ≤ q → q < hi → is_allocated bitmap q ≡ true)
    → Finds bitmap page_num hi r
    → Finds bitmap page_num lo r
Finds-extend bitmap page_num lo hi none le taken e = λ q l u. elim (Bool-cases (ltb q hi)) [
  | inl s ↦ taken q l (ground arith)
  | inr s ↦ e q (ground arith) u
]
Finds-extend bitmap page_num lo hi (some p) le taken (a, c, d, e) = (
  omega arith,
  c,
  d,
  λ q l u. elim (Bool-cases (ltb q hi)) [
    | inl s ↦ taken q l (ground arith)
    | inr s ↦ e q (ground arith) u
  ],
)

-- What follows the scan of a byte: the later bytes matter only if it was full.
after_scan :
    (bitmap : Bitmap) (page_num lo : ℕ) (s : Scan) (rest : Option ℕ)
    → ScanSays bitmap page_num lo (lo + 8) s
    → Finds bitmap page_num (lo + 8) rest
    → Finds bitmap page_num lo (elim s [ found p ↦ some p | beyond ↦ none | full ↦ rest ])
after_scan bitmap page_num lo (found p) rest (a, b, c, d, e) later = (a, c, d, e)
after_scan bitmap page_num lo beyond rest (a, e) later = e
after_scan bitmap page_num lo full rest e later =
    Finds-extend bitmap page_num lo (lo + 8) rest (omega arith) e later

byte_full :
    (bitmap : Bitmap) (byte_idx : ℕ)
    → bitmap byte_idx ≡ 0xff
    → (q : ℕ) → byte_idx * 8 ≤ q
    → q < byte_idx * 8 + 8
    → is_allocated bitmap q ≡ true
byte_full bitmap byte_idx e q lo hi =
    at_bit bitmap byte_idx (q % 8) q (omega arith) (omega arith)
    ∙ test_bit_full (bitmap byte_idx) (q % 8) e (omega arith)

pub scan_bytes-Finds :
    (bitmap : Bitmap) (page_num byte_idx n : ℕ)
    → page_num ≤ (byte_idx + n) * 8
    → Finds bitmap page_num (byte_idx * 8) (scan_bytes bitmap page_num byte_idx n)
unfolding scan_bytes
scan_bytes-Finds bitmap page_num byte_idx zero h = λ q lo hi. absurd (omega arith)
scan_bytes-Finds bitmap page_num byte_idx (suc n) h =
    let e : (byte_idx + 1) * 8 ≡ byte_idx * 8 + 8 = omega arith in
    let later = rw e at (scan_bytes-Finds bitmap page_num (byte_idx + 1) n (omega arith)) in
    elim (Bool-cases (bitmap byte_idx == 0xff)) [
      | inl is_full ↦ rw is_full (
          Finds-extend bitmap page_num (byte_idx * 8) (byte_idx * 8 + 8) _ (omega arith)
            (byte_full bitmap byte_idx (ground arith)) later)
      | inr not_full ↦ rw not_full (
          after_scan bitmap page_num (byte_idx * 8) _ _
            (let z : byte_idx * 8 + 0 ≡ byte_idx * 8 = omega arith in
              rw z at (scan_bits-says bitmap page_num byte_idx 0 8 refl))
            later)
    ]

-- find_free_pages returns the least page below page_num whose bit is clear, or none (the -1 of
-- the source) and then every page below page_num is allocated.
pub find_free_pages-Finds :
    (bitmap : Bitmap) (page_num : ℕ) → Finds bitmap page_num 0 (find_free_pages bitmap page_num)
unfolding find_free_pages
find_free_pages-Finds bitmap page_num =
    scan_bytes-Finds bitmap page_num 0 (npages2bitmapch page_num) (ground arith)
