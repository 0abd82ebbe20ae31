-- ===== src/Fs/Free.antt =====
-- free_inode of kernel/fs/fs.c: the blocks of an inode, the inode and its bit of the map are freed.
pub mod Bits
pub mod Direct
pub mod Freed
use oslab_2024fall.Prelude.{
  ℕ, zero, suc, ◌+◌, ◌-◌, ◌/◌, ◌%◌, Bool, Option, some, ◌==◌, not, ltb, if◌then◌else◌,
}
use oslab_2024fall.Prelude.Maybe.{◌>>=◌}
use oslab_2024fall.Libs.Memory.{bzero}
use oslab_2024fall.Fs.Cache.{SdCard}
use oslab_2024fall.Fs.State.{
  Buffers, Fs, block_size, fs_start_sector, inode_map_size, inode_map_offset, word_at, read_sectors,
  write_sectors,
}
use oslab_2024fall.Fs.Maps.{free_block, clear_map_bit}
use oslab_2024fall.Fs.Blocks.{
  direct, single, double, triple, too_far, path_of, direct_block_num, nblock_lv1, nblock_lv2,
  nblock_lv3, blocks_at, read_block, rdata_word,
}
use oslab_2024fall.Fs.Files.{inode_at, load_inode}
use oslab_2024fall.Fs.Inodes.{store_inode}

module _ {D : Type 0} (sd : SdCard D) (b : Buffers) where
  unfoldable pub free_when : Bool → ℕ → Fs D → Option (Fs D)
  free_when c sector fs = let freed = free_block sd b sector fs in if c then freed else some fs

  -- A block of data that is freed unless it is empty, and its block lv1 with its first index.
  unfoldable pub free_lv1 : ℕ → ℕ → ℕ → Fs D → Option (Fs D)
  unfolding free_when
  free_lv1 sector i1 index fs = do
    read ← read_block sd b sector fs
    let data_block_sec = rdata_word sd b i1 read
    fs1 ← free_when (not (data_block_sec == 0)) data_block_sec read
    free_when (index % nblock_lv1 == 0) sector fs1

  -- The same through a block lv2. The result has the index, moved back over a missing block lv1.
  unfoldable pub free_lv2 : ℕ → ℕ → ℕ → ℕ → Fs D → Option (ℕ × Fs D)
  unfolding free_lv1
  free_lv2 sector i2 i1 index fs = do
    read ← read_block sd b sector fs
    let block_lv1_sec = rdata_word sd b i2 read
    let freed = (free_lv1 block_lv1_sec i1 index read >>= λ fs1. some (index, fs1))
    (index1, fs1) ← (if block_lv1_sec == 0 then some (index - index % nblock_lv1, read) else freed)
    fs2 ← free_when (index1 % nblock_lv2 == 0) sector fs1
    some (index1, fs2)

  -- The same through a block lv3.
  unfoldable pub free_lv3 : ℕ → ℕ → ℕ → ℕ → ℕ → Fs D → Option (ℕ × Fs D)
  unfolding free_lv2
  free_lv3 sector i3 i2 i1 index fs = do
    read ← read_block sd b sector fs
    let block_lv2_sec = rdata_word sd b i3 read
    let freed = free_lv2 block_lv2_sec i2 i1 index read
    (index1, fs1) ← (if block_lv2_sec == 0 then some (index - index % nblock_lv2, read) else freed)
    fs2 ← free_when (index1 % nblock_lv3 == 0) sector fs1
    some (index1, fs2)

  -- A round of the loop of free_inode; the result has `i`, moved back over the missing blocks.
  unfoldable pub free_at : ℕ → ℕ → Fs D → Option (ℕ × Fs D)
  unfolding path_of free_lv3
  free_at i inode fs =
      let root = (λ (k : ℕ). word_at fs.mem (blocks_at inode k)) in
      let base2 = direct_block_num + nblock_lv1 in
      let base3 = base2 + nblock_lv2 in
      elim (path_of i) [
        | direct k ↦ (free_when (not (root k == 0)) (root k) fs >>= λ fs1. some (i, fs1))
        | single i1 ↦
            (let freed = (free_lv1 (root 7) i1 i1 fs >>= λ fs1. some (i, fs1)) in
              if root 7 == 0 then some (direct_block_num, fs) else freed)
        | double i2 i1 ↦
            (let freed =
                (free_lv2 (root 8) i2 i1 (i - base2) fs >>= λ (index, fs1).
                some (base2 + index, fs1)) in
              if root 8 == 0 then some (base2, fs) else freed)
        | triple i3 i2 i1 ↦
            (let freed =
                (free_lv3 (root 9) i3 i2 i1 (i - base3) fs >>= λ (index, fs1).
                some (base3 + index, fs1)) in
              if root 9 == 0 then some (base3, fs) else freed)
        | too_far ↦ some (i, fs)
      ]

  -- The rounds with the indices below `n` and `next`, from the largest down.
  unfoldable pub free_blocks : ℕ → ℕ → ℕ → Fs D → Option (Fs D)
  unfolding free_at
  free_blocks zero next inode fs = some fs
  free_blocks (suc i) next inode fs =
      let freed = free_at i inode fs in
      (if ltb i next then freed else some (next, fs)) >>= λ (next1, fs1).
      free_blocks i next1 inode fs1

  -- The inode that was loaded is cleared on its sector, and its bit in the map.
  unfoldable pub clear_inode : ℕ → Fs D → Option (Fs D)
  clear_inode inode_idx fs = do
    fs1 ← store_inode sd b inode_idx (record fs { mem = bzero (inode_at sd b inode_idx) 64 fs.mem })
    fs2 ← read_sectors sd b.inode_map inode_map_size (inode_map_offset + fs_start_sector) fs1
    write_sectors sd b.inode_map inode_map_size (inode_map_offset + fs_start_sector)
        (record fs2 { mem = clear_map_bit b.inode_map inode_idx fs2.mem })

  unfoldable pub free_inode : ℕ → Fs D → Option (Fs D)
  unfolding free_blocks clear_inode
  free_inode inode_idx fs = do
    fs1 ← load_inode sd b inode_idx fs
    let inode = inode_at sd b inode_idx
    let nblocks = (word_at fs1.mem (inode + 8) + block_size - 1) / block_size
    fs2 ← free_blocks nblocks nblocks inode fs1
    clear_inode inode_idx fs2
