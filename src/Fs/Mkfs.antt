-- ===== src/Fs/Mkfs.antt =====
-- init_bcache, do_mkfs, init_bcache_policy, do_vmflush, init_fs and do_statfs of kernel/fs/fs.c.
-- get_timer is a function of the number of its calls so far.
pub mod Flush
pub mod Format
pub mod Freq
pub mod Lines
use oslab_2024fall.Prelude.{
  ℕ, zero, suc, ◌+◌, ◌-◌, ◌*◌, ◌/◌, ◌%◌, ◌^◌, Bool, Option, none, some, List, [], ◌∷◌, ◌==◌, ◌&&◌,
  not, ltb, if◌then◌else◌,
}
use oslab_2024fall.Prelude.Maybe.{◌>>=◌}
use oslab_2024fall.Prelude.Seq.{count_below}
use oslab_2024fall.Prelude.Table.{update}
use oslab_2024fall.Prelude.Text.{codes}
use oslab_2024fall.Libs.Memory.{Memory, bzero}
use oslab_2024fall.Fs.Cache.{SdCard, Bcache, Buf, bwrite_back, nbuf, sector_size}
use oslab_2024fall.Fs.State.{
  Buffers, Fs, block_size, sectors_per_block, fs_start_sector, fs_num_sectors, block_map_size,
  block_map_offset, inode_map_size, inode_map_offset, inode_offset, data_offset, minus_one, word_at,
  put_word, read_sectors, write_sectors,
}
use oslab_2024fall.Fs.Maps.{inodeidx2sector, find_free_inode, data_block_num}
use oslab_2024fall.Fs.Blocks.{new_block}
use oslab_2024fall.Fs.Files.{inode_at, do_write, do_close}
use oslab_2024fall.Fs.Inodes.{it_dir, o_rdwr, new_inode, store_inode, struct_at, put_struct}
use oslab_2024fall.Fs.Create.{do_mkdir, do_touch, first_dentries}
use oslab_2024fall.Fs.Open.{do_open, do_cd}

abbrev pub superblock_magic : ℕ
superblock_magic = 0xDF4C4459

-- The empty ring, and no buffer in use.
unfoldable pub init_bcache : {D : Type 0} → Bcache D → Bcache D
init_bcache c = record c {
  lru = [];
  buf = λ i. if ltb i nbuf then record (c.buf i) { valid = 0 } else c.buf i;
}

-- The words of the superblock, in the order of the structure.
abbrev pub superblock_words : List ℕ
superblock_words =
    superblock_magic
    ∷ fs_start_sector
    ∷ block_map_offset
    ∷ inode_map_offset
    ∷ inode_offset
    ∷ data_offset
    ∷ fs_num_sectors
    ∷ block_map_size
    ∷ inode_map_size
    ∷ 512
    ∷ (fs_num_sectors - data_offset)
    ∷ 64
    ∷ 32
    ∷ []

unfoldable pub put_words : ℕ → List ℕ → Memory → Memory
put_words a [] mem = mem
put_words a (w ∷ words) mem = put_words (a + 4) words (put_word a w mem)

-- `map_byte & (1 << bit)` of the bit of an index in a map.
abbrev pub has_bit : ℕ → Memory → ℕ → Bool
has_bit map mem idx = not (mem (map + idx / 8) / 2 ^ (idx % 8) % 2 == 0)

module _ {D : Type 0} (sd : SdCard D) (b : Buffers) (get_timer : ℕ → ℕ) where
  unfoldable pub write_superblock : Fs D → Option (Fs D)
  unfolding put_words
  write_superblock fs =
      write_sectors sd b.superblock_buffer 1 fs_start_sector
        (record fs { mem = put_words b.superblock_buffer superblock_words fs.mem })

  -- Both maps, all clear.
  unfoldable pub clear_maps : Fs D → Option (Fs D)
  clear_maps fs = do
    fs1 ←
        write_sectors sd b.block_map block_map_size (block_map_offset + fs_start_sector)
          (record fs { mem = bzero b.block_map (block_map_size * sector_size) fs.mem })
    write_sectors sd b.inode_map inode_map_size (inode_map_offset + fs_start_sector)
        (record fs1 { mem = bzero b.inode_map (inode_map_size * sector_size) fs1.mem })

  -- The inode of the root directory, which becomes the working directory, and its entries.
  unfoldable pub make_root : ℕ → Fs D → Option (Fs D)
  unfolding new_inode first_dentries
  make_root root_inode_idx fs = do
    let root_inode = inode_at sd b root_inode_idx
    let mem =
        new_inode root_inode root_inode_idx it_dir 64 (get_timer 0)
          (bzero b.inode_buffer sector_size fs.mem)
    (root_dentry_sector, fs1) ← new_block sd b (record fs { mem = mem; root_ino = root_inode_idx })
    fs2 ←
        store_inode sd b root_inode_idx
          (record fs1 { mem = put_word (root_inode + 24) root_dentry_sector fs1.mem })
    first_dentries sd b get_timer root_inode_idx root_inode_idx root_dentry_sector
        (record fs2 { mem = put_struct 64 b.wd_inode (struct_at root_inode fs2.mem) fs2.mem })

  -- init_bcache_policy; the two literals stand at the addresses given. Without a file descriptor the
  -- model has no result: do_write indexes the array with -1 then.
  unfoldable pub init_bcache_policy : ℕ → ℕ → Fs D → Option (Fs D)
  init_bcache_policy policy_line freq_line fs = do
    (_, fs1) ← do_mkdir sd b (λ i. get_timer (i + 1)) (codes "proc") fs
    (_, fs2) ← do_cd sd b (codes "proc") fs1
    (_, fs3) ← do_mkdir sd b (λ i. get_timer (i + 3)) (codes "sys") fs2
    (_, fs4) ← do_cd sd b (codes "sys") fs3
    (_, fs5) ← do_touch sd b (λ i. get_timer (i + 5)) (codes "vm") fs4
    (opened, fs6) ← do_open sd b (codes "vm") o_rdwr fs5
    fd ← opened
    (_, fs7) ← do_write sd b fd policy_line 31 (get_timer 7) fs6
    (_, fs8) ← do_write sd b fd freq_line 22 (get_timer 8) fs7
    (_, fs9) ← do_cd sd b (codes "../..") (do_close fd fs8)
    some (record fs9 { cache = record fs9.cache { policy = bwrite_back }; write_back_freq = 30 })

  -- do_mkfs up to the number of the root inode.
  unfoldable pub format_card : Fs D → Option (Option ℕ × Fs D)
  unfolding write_superblock clear_maps init_bcache
  format_card fs = do
    fs1 ← write_superblock (record fs { cache = init_bcache fs.cache })
    fs2 ← clear_maps fs1
    find_free_inode sd b fs2

  unfoldable pub do_mkfs : ℕ → ℕ → Fs D → Option (Fs D)
  unfolding format_card make_root init_bcache_policy
  do_mkfs policy_line freq_line fs = do
    (found, fs3) ← format_card fs
    fs4 ← make_root (elim found [ some root_inode_idx ↦ root_inode_idx | none ↦ minus_one ]) fs3
    init_bcache_policy policy_line freq_line fs4

  -- The used blocks and inodes that do_statfs prints, none on a card without a file system.
  unfoldable pub do_statfs : Fs D → Option (Option (ℕ × ℕ) × Fs D)
  unfolding count_below
  do_statfs fs = do
    fs1 ← read_sectors sd b.superblock_buffer 1 fs_start_sector fs
    let counted = (do
      fs2 ← read_sectors sd b.block_map block_map_size (block_map_offset + fs_start_sector) fs1
      fs3 ← read_sectors sd b.inode_map inode_map_size (inode_map_offset + fs_start_sector) fs2
      let used_blocks = count_below data_block_num (has_bit b.block_map fs2.mem)
      let used_inodes = count_below (inode_map_size * sector_size * 8) (has_bit b.inode_map fs3.mem)
      some (some (used_blocks, used_inodes), fs3))
    if word_at fs1.mem b.superblock_buffer == superblock_magic then counted else some (none, fs1)
