-- ===== src/Tests/Files.antt =====
-- The sector cache over a card that is a function.
use oslab_2024fall.Prelude.{ℕ, ◌+◌, ◌≡◌, ◌≢◌, refl, [], ◌∷◌, ◌==◌, arith, if◌then◌else◌}
use oslab_2024fall.Fs.Cache.{SdCard, Bcache, bwrite_back, bwrite, bread, bflush}
use oslab_2024fall.Fs.Cache.Caches.{Caches}
use oslab_2024fall.Fs.Cache.Rounds.{
  Wrote, ReadBack, put_range, put_sector, bwrite-Wrote, bread-ReadBack,
}
use oslab_2024fall.Fs.Cache.Flush.{WrittenBack, bflush-WrittenBack}

pub card_same : (d : ℕ → ℕ → ℕ) (s : ℕ) (x : ℕ → ℕ) (i : ℕ) → (if s == s then x i else d s i) ≡ x i
card_same d s x i = ground arith

pub card_other :
    (d : ℕ → ℕ → ℕ) (s t : ℕ) (x : ℕ → ℕ) (i : ℕ) → s ≢ t → (if s == t then x i else d t i) ≡ d t i
card_other d s t x i ne = ground arith

abbrev pub card : SdCard (ℕ → ℕ → ℕ)
card = record {
  read = λ d s i. d s i;
  write = λ d s x t i. if s == t then x i else d t i;
  read_same = λ d s x i lt. card_same d s x i;
  read_other = λ d s t x i ne. card_other d s t x i ne;
}

abbrev pub sectors : ℕ → ℕ → ℕ
sectors s i = s + i

-- Buffer 2 holds sector 9 with other bytes than the card, which has zeros there.
abbrev pub cached : Bcache (ℕ → ℕ → ℕ)
cached = record {
  buf = λ b. record {
    valid = if b == 2 then 1 else 0;
    dirty = 1;
    sectorid = if b == 2 then 9 else 0;
    bytes = λ i. 9 + i;
  };
  lru = 2 ∷ [];
  disk = λ s i. if s == 9 then 0 else s + i;
  policy = bwrite_back;
}

pub cached-Caches : Caches card sectors cached
cached-Caches = record {
  nodup = (refl, tt);
  in_use = λ b m. ground arith;
  free = λ b lt m. ground arith;
  one_each = λ b d m n eq. ground arith;
  held = λ b i m lt. ground arith;
  on_disk = λ s i lt cl. ground (arith, cl 2);
}

bwrite-Wrote_example :
    Wrote card (put_range 8 2 100 (λ a. a + 7) sectors) (bwrite card 100 2 8 (λ a. a + 7) cached)
bwrite-Wrote_example =
    bwrite-Wrote card sectors 2 100 8 (λ a. a + 7) cached cached-Caches (omega arith)

bread-ReadBack_example :
    ReadBack card sectors
      (put_sector 100 (sectors (8 + 1)) (λ a. a + 7))
      (bread card 100 2 8 (λ a. a + 7) cached)
bread-ReadBack_example =
    bread-ReadBack card sectors 1 100 8 (λ a. a + 7) cached cached-Caches (omega arith)

bflush-WrittenBack_example : WrittenBack card sectors (bflush card cached)
bflush-WrittenBack_example = bflush-WrittenBack card sectors cached cached-Caches
