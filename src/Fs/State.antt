-- ===== src/Fs/State.antt =====
-- What the operations of kernel/fs/fs.c share: memory with the static buffers, the cache and the
-- file descriptors.
use oslab_2024fall.Prelude.{
  ℕ, ◌+◌, ◌-◌, ◌*◌, ◌/◌, ◌%◌, ◌^◌, Option, some, ltb, leb, ◌&&◌, if◌then◌else◌,
}
use oslab_2024fall.Prelude.Maybe.{◌>>=◌}
use oslab_2024fall.Libs.Memory.{Memory}
use oslab_2024fall.Fs.Cache.{SdCard, Bcache, bread, bwrite}

abbrev pub block_size : ℕ
block_size = 4096

-- BLOCK_SIZE / SECTOR_SIZE
abbrev pub sectors_per_block : ℕ
sectors_per_block = 8

abbrev pub fs_start_sector : ℕ
fs_start_sector = 0x100

abbrev pub fs_num_sectors : ℕ
fs_num_sectors = 2 ^ 20

abbrev pub block_map_size : ℕ
block_map_size = 32

abbrev pub block_map_offset : ℕ
block_map_offset = 1

abbrev pub inode_map_size : ℕ
inode_map_size = 1

abbrev pub inode_map_offset : ℕ
inode_map_offset = 33

abbrev pub inode_offset : ℕ
inode_offset = 34

abbrev pub data_offset : ℕ
data_offset = 546

-- The value -1 of a uint32_t.
abbrev pub minus_one : ℕ
minus_one = 2 ^ 32 - 1

-- Where the linker puts the static buffers.
pub record Buffers : Type 0 where
  pub inode_map : ℕ
  pub block_map : ℕ
  pub inode_buffer : ℕ
  pub rdata_buffer : ℕ
  pub wdata_buffer : ℕ
  pub dentry_buffer : ℕ
  pub superblock_buffer : ℕ
  pub wd_inode : ℕ

pub record Fdesc : Type 0 where
  pub mode : ℕ
  pub valid : ℕ
  pub ino : ℕ
  pub read_pos : ℕ
  pub write_pos : ℕ

pub record Fs (D : Type 0) : Type 0 where
  pub mem : Memory
  pub cache : Bcache D
  pub fdesc_array : ℕ → Fdesc
  pub root_ino : ℕ
  pub write_back_freq : ℕ

-- A uint32_t in memory, the low byte first.
abbrev pub word_at : Memory → ℕ → ℕ
word_at mem a = mem a + mem (a + 1) * 2 ^ 8 + mem (a + 2) * 2 ^ 16 + mem (a + 3) * 2 ^ 24

abbrev pub put_word : ℕ → ℕ → Memory → Memory
put_word a w mem b = if leb a b && ltb b (a + 4) then w / 2 ^ (8 * (b - a)) % 2 ^ 8 else mem b

module _ {D : Type 0} (sd : SdCard D) where
  abbrev pub set_word : ℕ → ℕ → Fs D → Fs D
  set_word a w fs = record fs { mem = put_word a w fs.mem }

  -- bread and bwrite on the state; `none` is the write through a null pointer.
  unfoldable pub read_sectors : ℕ → ℕ → ℕ → Fs D → Option (Fs D)
  read_sectors mem_va nsectors sectorid fs =
      bread sd mem_va nsectors sectorid fs.mem fs.cache >>= λ (mem, cache).
      some (record fs { mem = mem; cache = cache })

  unfoldable pub write_sectors : ℕ → ℕ → ℕ → Fs D → Option (Fs D)
  write_sectors mem_va nsectors sectorid fs =
      bwrite sd mem_va nsectors sectorid fs.mem fs.cache >>= λ cache.
      some (record fs { cache = cache })
