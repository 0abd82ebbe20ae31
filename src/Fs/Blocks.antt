-- ===== src/Fs/Blocks.antt =====
-- The blocks of a file, through the direct and the indirect ones: blockid2sector and
-- alloc_inode_block of kernel/fs/fs.c. An inode pointer is the address of the inode.
pub mod Path
use oslab_2024fall.Prelude.{
  ℕ, zero, suc, ◌+◌, ◌-◌, ◌*◌, ◌/◌, ◌%◌, ◌^◌, Bool, true, false, Option, none, some, ◌==◌, ltb,
  if◌then◌else◌,
}
use oslab_2024fall.Prelude.Maybe.{◌>>=◌}
use oslab_2024fall.Libs.Memory.{Memory}
use oslab_2024fall.Fs.Cache.{SdCard}
use oslab_2024fall.Fs.State.{
  Buffers, Fs, sectors_per_block, minus_one, word_at, set_word, read_sectors, write_sectors,
}
use oslab_2024fall.Fs.Maps.{find_free_block}

abbrev pub direct_block_num : ℕ
direct_block_num = 7

abbrev pub nblock_lv1 : ℕ
nblock_lv1 = 1024

abbrev pub nblock_lv2 : ℕ
nblock_lv2 = nblock_lv1 * nblock_lv1

abbrev pub nblock_lv3 : ℕ
nblock_lv3 = nblock_lv2 * nblock_lv1

-- &inode->blocks[k]
abbrev pub blocks_at : ℕ → ℕ → ℕ
blocks_at inode k = inode + 24 + 4 * k

-- Where a block of a file is found: its entry in the inode, and the indices in the indirect blocks,
-- from the inode down.
pub data BlockPath : Type 0 where
  direct : ℕ → BlockPath
  single : ℕ → BlockPath
  double : ℕ → ℕ → BlockPath
  triple : ℕ → ℕ → ℕ → BlockPath
  too_far : BlockPath

unfoldable pub path_of : ℕ → BlockPath
path_of block_id =
    let index1 = block_id - direct_block_num in
    let index2 = index1 - nblock_lv1 in
    let index3 = index2 - nblock_lv2 in
    if ltb block_id direct_block_num
    then direct block_id
    else if ltb block_id (direct_block_num + nblock_lv1)
    then single index1
    else if ltb block_id (direct_block_num + nblock_lv1 + nblock_lv2)
    then double (index2 / nblock_lv1) (index2 % nblock_lv1)
    else if ltb block_id (direct_block_num + nblock_lv1 + nblock_lv2 + nblock_lv3)
    then triple (index3 / nblock_lv2) ((index3 - index3 / nblock_lv2 * nblock_lv2) / nblock_lv1)
        (index3 % nblock_lv1)
    else too_far

module _ {D : Type 0} (sd : SdCard D) (b : Buffers) where
  -- bread of a block to rdata_buffer.
  abbrev pub read_block : ℕ → Fs D → Option (Fs D)
  read_block sector fs = read_sectors sd b.rdata_buffer sectors_per_block sector fs

  abbrev pub rdata_word : ℕ → Fs D → ℕ
  rdata_word idx fs = word_at fs.mem (b.rdata_buffer + 4 * idx)

  -- The entry `idx` of an indirect block, 0 when the block is missing.
  unfoldable pub entry_of : ℕ → ℕ → Fs D → Option (ℕ × Fs D)
  entry_of sector idx fs =
      let entry = (read_block sector fs >>= λ fs1. some (rdata_word idx fs1, fs1)) in
      if sector == 0 then some (0, fs) else entry

  unfoldable pub blockid2sector : ℕ → ℕ → Fs D → Option (ℕ × Fs D)
  unfolding path_of entry_of
  blockid2sector block_id inode fs =
      let root = (λ (k : ℕ). word_at fs.mem (blocks_at inode k)) in
      elim (path_of block_id) [
        | direct k ↦ some (root k, fs)
        | single i1 ↦ entry_of (root 7) i1 fs
        | double i2 i1 ↦ (entry_of (root 8) i2 fs >>= λ (lv1, fs1). entry_of lv1 i1 fs1)
        | triple i3 i2 i1 ↦ (do
          (lv2, fs1) ← entry_of (root 9) i3 fs
          (lv1, fs2) ← entry_of lv2 i2 fs1
          entry_of lv1 i1 fs2)
        | too_far ↦ some (minus_one, fs)
      ]

  -- find_free_block as a number, -1 when there is none.
  unfoldable pub new_block : Fs D → Option (ℕ × Fs D)
  new_block fs = do
    (found, fs1) ← find_free_block sd b fs
    some (elim found [ some sector ↦ sector | none ↦ minus_one ], fs1)

  -- The entry of the inode, filled when it is 0.
  unfoldable pub grow_root : ℕ → ℕ → Fs D → Option (Fs D)
  unfolding new_block
  grow_root inode k fs =
      let grown =
        (new_block fs >>= λ (sector, fs1). some (set_word sd (blocks_at inode k) sector fs1)) in
      if word_at fs.mem (blocks_at inode k) == 0 then grown else some fs

  -- The block is read, its entry `idx` set, and the block written back.
  unfoldable pub store_entry : ℕ → ℕ → ℕ → Fs D → Option (Fs D)
  store_entry sector idx value fs = do
    read ← read_block sector fs
    write_sectors sd b.rdata_buffer sectors_per_block sector
        (set_word sd (b.rdata_buffer + 4 * idx) value read)

  -- The entry `idx` of an indirect block, filled when it is 0.
  unfoldable pub grow_entry : ℕ → ℕ → Fs D → Option (ℕ × Fs D)
  unfolding new_block store_entry
  grow_entry sector idx fs = do
    read ← read_block sector fs
    let grown = (do (fresh, fs1) ← new_block read; store_entry sector idx fresh fs1)
    done ← (if rdata_word idx read == 0 then grown else some read)
    some (rdata_word idx done, done)

  -- A new block of data under the entry `idx`.
  unfoldable pub add_entry : ℕ → ℕ → Fs D → Option (Fs D)
  unfolding new_block store_entry
  add_entry sector idx fs = do (fresh, fs1) ← new_block fs; store_entry sector idx fresh fs1

  -- `false` is the result -1.
  unfoldable pub alloc_inode_block : ℕ → ℕ → Fs D → Option (Bool × Fs D)
  unfolding path_of grow_root grow_entry add_entry new_block
  alloc_inode_block block_idx inode fs =
      let root = (λ (k : ℕ) (fs1 : Fs D). word_at fs1.mem (blocks_at inode k)) in
      elim (path_of block_idx) [
        | direct k ↦ (do
          (fresh, fs1) ← new_block fs
          some (true, set_word sd (blocks_at inode k) fresh fs1))
        | single i1 ↦ (do
          fs1 ← grow_root inode 7 fs
          (fresh, fs2) ← new_block fs1
          fs3 ← store_entry (root 7 fs2) i1 fresh fs2
          some (true, fs3))
        | double i2 i1 ↦ (do
          fs1 ← grow_root inode 8 fs
          (lv1, fs2) ← grow_entry (root 8 fs1) i2 fs1
          fs3 ← add_entry lv1 i1 fs2
          some (true, fs3))
        | triple i3 i2 i1 ↦ (do
          fs1 ← grow_root inode 9 fs
          (lv2, fs2) ← grow_entry (root 9 fs1) i3 fs1
          (lv1, fs3) ← grow_entry lv2 i2 fs2
          fs4 ← add_entry lv1 i1 fs3
          some (true, fs4))
        | too_far ↦ some (false, fs)
      ]
