-- ===== src/Fs/Free/Direct.antt =====
-- The loop of free_inode over direct blocks.
use oslab_2024fall.Prelude.{
  ℕ, zero, suc, ◌+◌, ◌-◌, ◌/◌, ◌≤◌, ◌<◌, ◌≡◌, refl, true, false, some, ◌==◌, ◌&&◌, ltb, leb, arith,
  ◌⊎◌, inl, inr, ◌∙◌,
}
use oslab_2024fall.Libs.Memory.{Memory}
use oslab_2024fall.Fs.Cache.{SdCard}
use oslab_2024fall.Fs.Cache.Caches.{Caches}
use oslab_2024fall.Fs.Cache.Rounds.{put_range, put_sector}
use oslab_2024fall.Fs.State.{Buffers, Fs, word_at}
use oslab_2024fall.Fs.Maps.{free_block, clear_map_bit, sector2block}
use oslab_2024fall.Fs.Maps.Take.{read_sectors-state, write_sectors-state}
use oslab_2024fall.Fs.Blocks.{path_of, blocks_at}
use oslab_2024fall.Fs.Files.{inode_at}
use oslab_2024fall.Fs.Dirs.Entries.{word_at-ext}
use oslab_2024fall.Fs.Create.NewFile.{Within}
use oslab_2024fall.Fs.Create.Frame.{put_sector-Outside, offset-small}
use oslab_2024fall.Fs.Free.{free_when, free_at, free_blocks}
use oslab_2024fall.Fs.Free.Bits.{
  is_block, has_block, Clears, Clears-trans, Clears-ext, Clears-refl, clear_map_bit-Clears,
}

-- A sector of one of the 131003 blocks of data, which begin at sector 802, or no block.
abbrev pub IsBlock : ℕ → Type 0
IsBlock sector = (sector ≡ 0) ⊎ ((802 ≤ sector) × (sector < 1048826))

module _ {D : Type 0} (sd : SdCard D) (b : Buffers) where
  -- From a state over the sectors f to one over f1: inode_buffer and the sectors but the map of blocks.
  pub record KeepsInode (f : ℕ → ℕ → ℕ) (fs : Fs D) (f1 : ℕ → ℕ → ℕ) (fs1 : Fs D) : Type 0 where
    pub caches : Caches sd f1 fs1.cache
    pub memory : (a : ℕ) → Within a b.inode_buffer 512 → fs1.mem a ≡ fs.mem a
    pub sectors : (t i : ℕ) → (t < 257) ⊎ (289 ≤ t) → f1 t i ≡ f t i

  KeepsInode-trans :
      (f : ℕ → ℕ → ℕ) (fs : Fs D) (f1 : ℕ → ℕ → ℕ) (fs1 : Fs D) (f2 : ℕ → ℕ → ℕ) (fs2 : Fs D)
      → KeepsInode f fs f1 fs1
      → KeepsInode f1 fs1 f2 fs2
      → KeepsInode f fs f2 fs2
  KeepsInode-trans f fs f1 fs1 f2 fs2 k1 k2 = record {
    caches = k2.caches;
    memory = λ a kept. k2.memory a kept ∙ k1.memory a kept;
    sectors = λ t i out. k2.sectors t i out ∙ k1.sectors t i out;
  }

  -- inode_buffer is apart from the map of blocks.
  abbrev pub ApartMap : Type 0
  ApartMap = (b.inode_buffer + 512 ≤ b.block_map) ⊎ (b.block_map + 16384 ≤ b.inode_buffer)

  -- A byte of the map of blocks that was read.
  read_map_byte :
      (f : ℕ → ℕ → ℕ) (i : ℕ) (mem : Memory)
      → i < 512
      → put_sector b.block_map (f (257 + 31)) mem (b.block_map + i) ≡ f 288 i
  read_map_byte f i mem less =
      let at : b.block_map + i - b.block_map ≡ i = omega arith in
      let inside : (leb b.block_map (b.block_map + i) && ltb (b.block_map + i) (b.block_map + 512))
          ≡ true =
        ground arith in
      rw (at, inside) refl

  free_block-KeepsInode :
      (f : ℕ → ℕ → ℕ) (sector : ℕ) (fs : Fs D)
      → ApartMap
      → 802 ≤ sector
      → sector < 1048826
      → ((i : ℕ) → i < 512 → f 288 i < 256)
      → Caches sd f fs.cache
      → (fs1 : Fs D) × (f1 : ℕ → ℕ → ℕ) × KeepsInode f fs f1 fs1
        × Clears (is_block sector) (f 288) (f1 288)
        × (free_block sd b sector fs ≡ some fs1)
  unfolding free_block clear_map_bit
  free_block-KeepsInode f sector fs apart lo hi bytes r =
      let (c, m, r', same, e) = read_sectors-state sd f 31 b.block_map 257 fs r (omega arith) in
      let m1 = clear_map_bit b.block_map (sector2block sector) m in
      let (c1, r1, e1) =
        write_sectors-state sd f 32 b.block_map 257 (record fs { mem = m1; cache = c }) r'
          (omega arith) in
      let enough : leb 802 sector ≡ true = ground arith in
      (
        record fs { mem = m1; cache = c1 },
        put_range 257 32 b.block_map m1 f,
        record {
          caches = r1;
          memory = λ a kept.
              let low = kept.0 in
              let high = kept.1 in
              let out : m a ≡ fs.mem a =
                same a ∙ put_sector-Outside b.block_map (f (257 + 31)) fs.mem a (ground arith) in
              let byte : sector2block sector / 8 < 16384 = omega arith in ground (arith, out, byte);
          sectors = λ t i out. ground arith;
        },
        Clears-ext (λ q. sector2block sector == q) (is_block sector) (f 288)
            (λ i. clear_map_bit b.block_map (sector2block sector) m (b.block_map + i))
            (put_range 257 32 b.block_map m1 f 288) (λ q. ground arith) (λ i less. refl)
            (clear_map_bit-Clears b.block_map (sector2block sector) m (f 288) bytes
              (λ i less. same (b.block_map + i) ∙ read_map_byte f i fs.mem less)),
        rw (free_block, enough, e, e1) refl,
      )

  free_direct-KeepsInode :
      (f : ℕ → ℕ → ℕ) (i inode : ℕ) (fs : Fs D)
      → ApartMap
      → i < 7
      → IsBlock (word_at fs.mem (blocks_at inode i))
      → ((k : ℕ) → k < 512 → f 288 k < 256)
      → Caches sd f fs.cache
      → (fs1 : Fs D) × (f1 : ℕ → ℕ → ℕ) × KeepsInode f fs f1 fs1
        × Clears (is_block (word_at fs.mem (blocks_at inode i))) (f 288) (f1 288)
        × (free_at sd b i inode fs ≡ some (i, fs1))
  unfolding free_at free_when path_of
  free_direct-KeepsInode f i inode fs apart lt (inl none_there) bytes r =
      let small : ltb i 7 ≡ true = ground arith in
      (
        fs,
        f,
        record { caches = r; memory = λ a kept. refl; sectors = λ t k out. refl },
        Clears-refl (is_block (word_at fs.mem (blocks_at inode i))) (f 288)
            (λ q. rw none_there refl) bytes,
        rw (free_at, path_of, small, free_when, none_there) refl,
      )
  free_direct-KeepsInode f i inode fs apart lt (inr (lo, hi)) bytes r =
      let small : ltb i 7 ≡ true = ground arith in
      let there : (word_at fs.mem (blocks_at inode i) == 0) ≡ false = ground arith in
      let (fs1, f1, k, c, e) =
        free_block-KeepsInode f (word_at fs.mem (blocks_at inode i)) fs apart lo hi bytes r in
      (fs1, f1, k, c, rw (free_at, path_of, small, free_when, there, e) refl)

  -- A block of an inode in inode_buffer is kept.
  block-kept :
      (f f1 : ℕ → ℕ → ℕ) (k idx : ℕ) (fs fs1 : Fs D)
      → KeepsInode f fs f1 fs1
      → k < 7
      → word_at fs1.mem (blocks_at (inode_at sd b idx) k)
        ≡ word_at fs.mem (blocks_at (inode_at sd b idx) k)
  block-kept f f1 k idx fs fs1 kept lt =
      let small = offset-small sd b idx in
      word_at-ext fs1.mem fs.mem (blocks_at (inode_at sd b idx) k)
        (λ i less. kept.memory (blocks_at (inode_at sd b idx) k + i) (omega arith, omega arith))

  pub free_blocks-KeepsInode :
      (f : ℕ → ℕ → ℕ) (blocks : ℕ → ℕ) (n idx : ℕ) (fs : Fs D)
      → ApartMap
      → n ≤ 7
      → ((k : ℕ) → k < n → word_at fs.mem (blocks_at (inode_at sd b idx) k) ≡ blocks k)
      → ((k : ℕ) → k < n → IsBlock (blocks k))
      → ((i : ℕ) → i < 512 → f 288 i < 256)
      → Caches sd f fs.cache
      → (fs1 : Fs D) × (f1 : ℕ → ℕ → ℕ) × KeepsInode f fs f1 fs1
        × Clears (has_block n blocks) (f 288) (f1 288)
        × (free_blocks sd b n n (inode_at sd b idx) fs ≡ some fs1)
  unfolding free_blocks has_block
  free_blocks-KeepsInode f blocks zero idx fs apart le words valid bytes r = (
    fs,
    f,
    record { caches = r; memory = λ a kept. refl; sectors = λ t k out. refl },
    Clears-refl (has_block zero blocks) (f 288) (λ q. refl) bytes,
    refl,
  )
  free_blocks-KeepsInode f blocks (suc i) idx fs apart le words valid bytes r =
      let word = words i (omega arith) in
      let (fs1, f1, k1, c1, e1) =
        free_direct-KeepsInode f i (inode_at sd b idx) fs apart (omega arith)
          (rw word (valid i (omega arith))) bytes r in
      let (fs2, f2, k2, c2, e2) =
        free_blocks-KeepsInode f1 blocks i idx fs1 apart (omega arith)
          (λ k lt. block-kept f f1 k idx fs fs1 k1 (omega arith) ∙ words k (omega arith))
          (λ k lt. valid k (omega arith)) c1.bytes k1.caches in
      let next : ltb i (suc i) ≡ true = ground arith in
      let freed : Clears (is_block (blocks i)) (f 288) (f1 288) = rw word at c1 in
      (
        fs2,
        f2,
        KeepsInode-trans f fs f1 fs1 f2 fs2 k1 k2,
        Clears-trans i blocks (f 288) (f1 288) (f2 288) freed c2,
        rw (free_blocks, next, e1, e2) refl,
      )
