-- ===== src/Fs/Free/Bits.antt =====
-- The map of blocks on the card when bits of it are cleared: the 512 bytes of its last sector.
use oslab_2024fall.Prelude.{
  ℕ, zero, suc, ◌+◌, ◌-◌, ◌/◌, ◌%◌, ◌<◌, ◌≡◌, refl, Bool, false, ◌==◌, ◌&&◌, ◌||◌, not, Bool-cases,
  arith, inl, inr,
}
use oslab_2024fall.Libs.Memory.{Memory}
use oslab_2024fall.Mm.Bitmap.{is_allocated}
use oslab_2024fall.Mm.Bitmap.Bits.{test_bit-clear_bit}
use oslab_2024fall.Mm.Bitmap.Search.{same_page}
use oslab_2024fall.Fs.Maps.{clear_map_bit}

-- A sector number that is not 0 stands for a block of data, the blocks being counted from sector 802 on.
abbrev pub is_block : ℕ → ℕ → Bool
is_block sector q = not (sector == 0) && ((sector - 802) / 8 == q)

-- Whether block `q` is one of the first `n` of some blocks.
unfoldable pub has_block : ℕ → (ℕ → ℕ) → ℕ → Bool
has_block zero blocks q = false
has_block (suc i) blocks q = is_block (blocks i) q || has_block i blocks q

-- The map `map1` is `map` with the bits of some blocks cleared.
pub record Clears (freed : ℕ → Bool) (map map1 : ℕ → ℕ) : Type 0 where
  pub bytes : (i : ℕ) → i < 512 → map1 i < 256
  pub bits : (q : ℕ) → q < 4096 → is_allocated map1 q ≡ (not (freed q) && is_allocated map q)

pub Clears-trans :
    (n : ℕ) (blocks : ℕ → ℕ) (map map1 map2 : ℕ → ℕ)
    → Clears (is_block (blocks n)) map map1
    → Clears (has_block n blocks) map1 map2
    → Clears (has_block (suc n) blocks) map map2
unfolding has_block
Clears-trans n blocks map map1 map2 c1 c2 = record {
  bytes = c2.bytes;
  bits = λ q lt. let h1 = c1.bits q lt in let h2 = c2.bits q lt in ground (arith, h1, h2);
}

pub clear_map_bit-Clears :
    (a p : ℕ) (m : Memory) (map : ℕ → ℕ)
    → ((i : ℕ) → i < 512 → map i < 256)
    → ((i : ℕ) → i < 512 → m (a + i) ≡ map i)
    → Clears (λ q. p == q) map (λ i. clear_map_bit a p m (a + i))
unfolding clear_map_bit is_allocated
clear_map_bit-Clears a p m map bytes same = record {
  bytes = λ i lt. elim (Bool-cases (p / 8 == i)) [
    | inl e ↦
        let at : p / 8 ≡ i = ground arith in
        let here = same i lt in
        let cleared =
          test_bit-clear_bit (map i) (p % 8) 0 (bytes i lt) (omega arith) (omega arith) in
        ground (arith, at, here, cleared)
    | inr e ↦ let here = same i lt in let byte = bytes i lt in ground (arith, here, byte)
  ];
  bits = λ q lt. elim (Bool-cases (p / 8 == q / 8)) [
    | inl e ↦
        let at : p / 8 ≡ q / 8 = ground arith in
        let here = same (q / 8) (omega arith) in
        let cleared =
          test_bit-clear_bit (map (q / 8)) (p % 8) (q % 8) (bytes (q / 8) (omega arith))
            (omega arith) (omega arith) in
        let page = same_page p q at in ground (arith, at, here, cleared, page)
    | inr e ↦
        let here = same (q / 8) (omega arith) in
        let other : (p == q) ≡ false = ground arith in ground (arith, here, other)
  ];
}

pub Clears-ext :
    (freed freed1 : ℕ → Bool) (map map1 map2 : ℕ → ℕ)
    → ((q : ℕ) → freed1 q ≡ freed q)
    → ((i : ℕ) → i < 512 → map2 i ≡ map1 i)
    → Clears freed map map1
    → Clears freed1 map map2
unfolding is_allocated
Clears-ext freed freed1 map map1 map2 same same_bytes c = record {
  bytes = λ i lt. rw (same_bytes i lt) (c.bytes i lt);
  bits = λ q lt. rw (same_bytes (q / 8) (omega arith), same q) (c.bits q lt);
}

pub Clears-refl :
    (freed : ℕ → Bool) (map : ℕ → ℕ)
    → ((q : ℕ) → freed q ≡ false)
    → ((i : ℕ) → i < 512 → map i < 256)
    → Clears freed map map
Clears-refl freed map none_freed bytes = record {
  bytes = bytes;
  bits = λ q lt. rw (none_freed q) refl;
}
