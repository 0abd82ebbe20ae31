-- ===== src/Fs/Maps.antt =====
-- The maps of inodes and blocks of kernel/fs/fs.c: find_free_inode, find_free_block and free_block.
pub mod Take
use oslab_2024fall.Prelude.{
  ℕ, zero, suc, ◌+◌, ◌-◌, ◌*◌, ◌/◌, ◌%◌, ◌^◌, Option, none, some, ◌==◌, leb, if◌then◌else◌,
}
use oslab_2024fall.Prelude.Maybe.{◌>>=◌, ◌>>◌, assert}
use oslab_2024fall.Prelude.Table.{update}
use oslab_2024fall.Libs.Memory.{Memory, bzero}
use oslab_2024fall.Mm.Bitmap.{scan_bytes, set_bit, clear_bit}
use oslab_2024fall.Fs.Cache.{SdCard, sector_size}
use oslab_2024fall.Fs.State.{
  Buffers, Fs, block_size, sectors_per_block, fs_start_sector, fs_num_sectors, block_map_size,
  block_map_offset, inode_map_size, inode_map_offset, inode_offset, data_offset, read_sectors,
  write_sectors,
}

-- Eight inodes of 64 bytes stand in a sector.
unfoldable pub inodeidx2sector : ℕ → ℕ
inodeidx2sector inode_idx =
    fs_start_sector
    + inode_offset
    + inode_idx * 64 % 2 ^ 64 / sector_size * sector_size / sector_size

unfoldable pub inodeidx2offset : ℕ → ℕ
inodeidx2offset inode_idx = inode_idx % 8

-- SECTOR2BLOCK(DATA_SIZE)
abbrev pub data_block_num : ℕ
data_block_num = (fs_num_sectors - data_offset) / sectors_per_block

-- The first sector of a block of data, and the block of a sector.
abbrev pub block2sector : ℕ → ℕ
block2sector block_idx = block_idx * sectors_per_block + data_offset + fs_start_sector

abbrev pub sector2block : ℕ → ℕ
sector2block block_sector = (block_sector - data_offset - fs_start_sector) / sectors_per_block

-- The bytes from an address on.
abbrev pub bytes_from : ℕ → Memory → ℕ → ℕ
bytes_from a mem i = mem (a + i)

-- A map with one bit changed, the byte at index `idx / 8`.
unfoldable pub set_map_bit : ℕ → ℕ → Memory → Memory
set_map_bit map idx mem = update mem (map + idx / 8) (set_bit (mem (map + idx / 8)) (idx % 8))

unfoldable pub clear_map_bit : ℕ → ℕ → Memory → Memory
clear_map_bit map idx mem = update mem (map + idx / 8) (clear_bit (mem (map + idx / 8)) (idx % 8))

module _ {D : Type 0} (sd : SdCard D) (b : Buffers) where
  -- The result `none` inside is the returned -1. No index of the inode map reaches the bound of the scan.
  unfoldable pub find_free_inode : Fs D → Option (Option ℕ × Fs D)
  find_free_inode fs = do
    read ← read_sectors sd b.inode_map inode_map_size (inode_map_offset + fs_start_sector) fs
    elim (scan_bytes (bytes_from b.inode_map read.mem) (inode_map_size * sector_size * 8) 0
        (inode_map_size * sector_size)) [
          | none ↦ some (none, read)
          | some inode_idx ↦ (do
            done ←
                write_sectors sd b.inode_map inode_map_size (inode_map_offset + fs_start_sector)
                  (record read { mem = set_map_bit b.inode_map inode_idx read.mem })
            some (some inode_idx, done))
        ]

  -- The rest of find_free_block once the block is found.
  unfoldable pub take_block : ℕ → Fs D → Option (Option ℕ × Fs D)
  unfolding set_map_bit
  take_block block_idx fs = do
    mapped ←
        write_sectors sd b.block_map block_map_size (block_map_offset + fs_start_sector)
          (record fs { mem = set_map_bit b.block_map block_idx fs.mem })
    cleared ←
        write_sectors sd b.rdata_buffer sectors_per_block (block2sector block_idx)
          (record mapped { mem = bzero b.rdata_buffer block_size mapped.mem })
    some (some (block2sector block_idx), cleared)

  -- The rest of find_free_block after the search.
  unfoldable pub take_found : Option ℕ → Fs D → Option (Option ℕ × Fs D)
  unfolding take_block
  take_found none fs = some (none, fs)
  take_found (some block_idx) fs = take_block block_idx fs

  unfoldable pub find_free_block : Fs D → Option (Option ℕ × Fs D)
  unfolding take_found
  find_free_block fs =
      read_sectors sd b.block_map block_map_size (block_map_offset + fs_start_sector) fs >>= λ read.
      take_found
        (scan_bytes (bytes_from b.block_map read.mem) data_block_num 0
          (block_map_size * sector_size))
        read

  unfoldable pub free_block : ℕ → Fs D → Option (Fs D)
  unfolding clear_map_bit
  free_block block_sector fs = do
    assert (leb (data_offset + fs_start_sector) block_sector)
    read ← read_sectors sd b.block_map block_map_size (block_map_offset + fs_start_sector) fs
    write_sectors sd b.block_map block_map_size (block_map_offset + fs_start_sector)
        (record read { mem = clear_map_bit b.block_map (sector2block block_sector) read.mem })
