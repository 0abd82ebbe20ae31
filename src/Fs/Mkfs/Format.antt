-- ===== src/Fs/Mkfs/Format.antt =====
-- The card after the first part of do_mkfs: the magic number, and the root inode.
use oslab_2024fall.Prelude.{
  ℕ, zero, suc, ◌+◌, ◌^◌, ◌<◌, ◌≡◌, refl, false, Option, none, some, List, [], ◌∷◌, arith, inr, ◌∙◌,
}
use oslab_2024fall.Libs.Memory.{Memory, bzero, memset_lem}
use oslab_2024fall.Mm.Bitmap.{is_allocated, test_bit}
use oslab_2024fall.Mm.Bitmap.Search.{Finds}
use oslab_2024fall.Fs.Cache.{SdCard, Bcache}
use oslab_2024fall.Fs.Cache.Caches.{Caches}
use oslab_2024fall.Fs.Cache.Rounds.{put_range}
use oslab_2024fall.Fs.State.{Buffers, Fs, word_at, put_word}
use oslab_2024fall.Fs.Maps.{bytes_from}
use oslab_2024fall.Fs.Maps.Take.{write_sectors-state}
use oslab_2024fall.Fs.Dirs.Entries.{word_at-ext, word_at-put_word}
use oslab_2024fall.Fs.Create.Frame.{Apart}
use oslab_2024fall.Fs.Create.FreeInode.{find_free_inode-Keeps}
use oslab_2024fall.Fs.Mkfs.{
  init_bcache, put_words, superblock_words, superblock_magic, write_superblock, clear_maps,
  format_card,
}

put_words_before :
    (a c : ℕ) (words : List ℕ) (mem : Memory) → c < a → put_words a words mem c ≡ mem c
unfolding put_words
put_words_before a c [] mem lt = refl
put_words_before a c (w ∷ words) mem lt =
    put_words_before (a + 4) c words (put_word a w mem) (omega arith) ∙ ground arith

-- The first word of a structure.
put_words-first :
    (a w : ℕ) (words : List ℕ) (mem : Memory)
    → w < 2 ^ 32
    → word_at (put_words a (w ∷ words) mem) a ≡ w
unfolding put_words
put_words-first a w words mem fits =
    word_at-ext (put_words a (w ∷ words) mem) (put_word a w mem) a
      (λ i lt. put_words_before (a + 4) (a + i) words (put_word a w mem) (omega arith))
    ∙ word_at-put_word a w mem fits

put_words-magic :
    (a : ℕ) (mem : Memory) → word_at (put_words a superblock_words mem) a ≡ superblock_magic
put_words-magic a mem = put_words-first a superblock_magic _ mem (omega arith)

bzero-first : (a n : ℕ) (mem : Memory) → 0 < n → bzero a n mem (a + 0) ≡ 0
unfolding bzero
bzero-first a n mem lt = memset_lem a 0 n mem (a + 0) ∙ ground arith

-- A clear map has its first bit free.
clear_first : (map : ℕ → ℕ) → map 0 ≡ 0 → is_allocated map 0 ≡ false
unfolding is_allocated test_bit
clear_first map clear = rw clear refl

Finds-first : (map : ℕ → ℕ) (found : Option ℕ) → map 0 ≡ 0 → Finds map 4096 0 found → found ≡ some 0
Finds-first map none clear all =
    absurd (let h = all 0 (omega arith) (omega arith) in let e = clear_first map clear in cc)
Finds-first map (some zero) clear least = refl
Finds-first map (some (suc p)) clear (lo, lt, free, least) =
    absurd (let h = least 0 (omega arith) (omega arith) in let e = clear_first map clear in cc)

module _ {D : Type 0} (sd : SdCard D) (b : Buffers) where
  -- An empty cache over a card stands for what the card holds.
  pub init_bcache-Caches : (c : Bcache D) → Caches sd (sd.read c.disk) (init_bcache c)
  unfolding init_bcache
  init_bcache-Caches c = record {
    nodup = tt;
    in_use = λ i e. absurd cc;
    free = λ i lt e. ground arith;
    one_each = λ i k e. absurd cc;
    held = λ i k e. absurd cc;
    on_disk = λ s i lt cl. refl;
  }

  -- What the card holds after the first part of do_mkfs.
  pub record Formatted (r : Option (Option ℕ × Fs D)) : Type 0 where
    pub after : Fs D
    pub sectors : ℕ → ℕ → ℕ
    pub is_some : r ≡ some (some 0, after)
    pub caches : Caches sd sectors after.cache
    pub magic : word_at (sectors 256) 0 ≡ superblock_magic

  -- When the static buffers are apart, the first part of do_mkfs, up to the number of the
  -- root inode, always succeeds whatever the card and the cache hold. The root inode is inode
  -- 0, and the cache stands for sectors of which the first one of the file system begins with
  -- the magic number.
  pub format_card-Formatted :
      (get_timer : ℕ → ℕ) (fs : Fs D) → Apart b → Formatted (format_card sd b get_timer fs)
  unfolding format_card write_superblock clear_maps
  format_card-Formatted get_timer fs apart =
      let r0 = init_bcache-Caches fs.cache in
      let f0 = sd.read fs.cache.disk in
      let m1 = put_words b.superblock_buffer superblock_words fs.mem in
      let fs0 : Fs D = record fs { cache = init_bcache fs.cache; mem = m1 } in
      let (c1, r1, e1) = write_sectors-state sd f0 1 b.superblock_buffer 256 fs0 r0 (omega arith) in
      let f1 = put_range 256 1 b.superblock_buffer m1 f0 in
      let m2 = bzero b.block_map 16384 m1 in
      let fs1 : Fs D = record fs0 { cache = c1; mem = m2 } in
      let (c2, r2, e2) = write_sectors-state sd f1 32 b.block_map 257 fs1 r1 (omega arith) in
      let f2 = put_range 257 32 b.block_map m2 f1 in
      let m3 = bzero b.inode_map 512 m2 in
      let fs2 : Fs D = record fs1 { cache = c2; mem = m3 } in
      let (c3, r3, e3) = write_sectors-state sd f2 1 b.inode_map 289 fs2 r2 (omega arith) in
      let f3 = put_range 289 1 b.inode_map m3 f2 in
      let (found, fs4, f4, k, least, e4) =
        find_free_inode-Keeps sd b f3 (record fs2 { cache = c3 }) apart r3 in
      let cleared : m3 (b.inode_map + 0) ≡ 0 = bzero-first b.inode_map 512 m2 (omega arith) in
      let first : found ≡ some 0 = Finds-first (f3 289) found cleared least in
      let byte : (i : ℕ) → f4 256 i ≡ m1 (b.superblock_buffer + i) =
        λ i. k.sectors 256 i (inr (omega arith)) in
      record {
        after = fs4;
        sectors = f4;
        is_some = rw (format_card, write_superblock, clear_maps, e1, e2, e3, e4, first) refl;
        caches = k.caches;
        magic =
            word_at-ext (f4 256) (bytes_from b.superblock_buffer m1) 0 (λ i lt. byte (0 + i))
            ∙ (let z : b.superblock_buffer + 0 ≡ b.superblock_buffer = omega arith in rw z refl)
            ∙ put_words-magic b.superblock_buffer fs.mem;
      }
