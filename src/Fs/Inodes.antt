-- ===== src/Fs/Inodes.antt =====
-- Inodes as they are copied in kernel/fs/fs.c, and the working directory. The structure is a value of
-- 64 bytes by index: mode, type, nlink, ino, size, the three times and the blocks.
use oslab_2024fall.Prelude.{ℕ, ◌+◌, ◌-◌, ◌*◌, ◌/◌, ◌%◌, ◌^◌, Option, ◌&&◌, leb, ltb, if◌then◌else◌}
use oslab_2024fall.Prelude.Maybe.{◌>>=◌}
use oslab_2024fall.Prelude.Table.{update}
use oslab_2024fall.Libs.Memory.{Memory, bzero}
use oslab_2024fall.Fs.Cache.{SdCard}
use oslab_2024fall.Fs.State.{Buffers, Fs, word_at, put_word, write_sectors}
use oslab_2024fall.Fs.Maps.{inodeidx2sector}
use oslab_2024fall.Fs.Files.{inode_at, load_inode}

abbrev pub it_dir : ℕ
it_dir = 1

abbrev pub it_file : ℕ
it_file = 2

abbrev pub o_rdwr : ℕ
o_rdwr = 3

-- A structure in memory: its bytes by index, and memory with the `n` bytes of another one.
abbrev pub Bytes : Type 0
Bytes = ℕ → ℕ

abbrev pub struct_at : ℕ → Memory → Bytes
struct_at a mem i = mem (a + i)

abbrev pub put_struct : ℕ → ℕ → Bytes → Memory → Memory
put_struct n a v mem c = if leb a c && ltb c (a + n) then v (c - a) else mem c

-- A uint16_t, the low byte first.
abbrev pub half_at : Memory → ℕ → ℕ
half_at mem a = mem a + mem (a + 1) * 2 ^ 8

abbrev pub put_half : ℕ → ℕ → Memory → Memory
put_half a w mem c = if leb a c && ltb c (a + 2) then w / 2 ^ (8 * (c - a)) % 2 ^ 8 else mem c

-- The three times of an inode.
abbrev pub put_times : ℕ → ℕ → Memory → Memory
put_times inode time mem =
    put_word (inode + 12) time (put_word (inode + 16) time (put_word (inode + 20) time mem))

-- A new inode, cleared and filled in, without blocks.
unfoldable pub new_inode : ℕ → ℕ → ℕ → ℕ → ℕ → Memory → Memory
new_inode inode inode_idx type size time mem =
    update
      (put_half (inode + 2) 1 (
        put_word (inode + 4) inode_idx (
          put_times inode time
            (put_word (inode + 8) size (update (bzero inode 64 mem) inode o_rdwr)))))
      (inode + 1) type

module _ {D : Type 0} (sd : SdCard D) (b : Buffers) where
  -- inode_buffer, in which an inode was changed, goes back to its sector.
  abbrev pub store_inode : ℕ → Fs D → Option (Fs D)
  store_inode inode_idx fs = write_sectors sd b.inode_buffer 1 (inodeidx2sector inode_idx) fs

  -- A copy of an inode goes to its place: bread, the assignment, bwrite.
  unfoldable pub replace_inode : ℕ → Bytes → Fs D → Option (Fs D)
  replace_inode inode_idx inode fs = do
    read ← load_inode sd b inode_idx fs
    store_inode inode_idx
        (record read { mem = put_struct 64 (inode_at sd b inode_idx) inode read.mem })

  -- wd_inode with another size and count of links, modified at a time, and its copy on the card.
  unfoldable pub update_wd : ℕ → ℕ → ℕ → Fs D → Option (Fs D)
  unfolding replace_inode
  update_wd size nlink time fs =
      let mem =
        put_half (b.wd_inode + 2) nlink
          (put_word (b.wd_inode + 16) time (put_word (b.wd_inode + 8) size fs.mem)) in
      replace_inode (word_at mem (b.wd_inode + 4)) (struct_at b.wd_inode mem)
        (record fs { mem = mem })

  abbrev pub wd_block : Memory → ℕ
  wd_block mem = word_at mem (b.wd_inode + 24)

  abbrev pub wd_size : Memory → ℕ
  wd_size mem = word_at mem (b.wd_inode + 8)

  abbrev pub wd_nlink : Memory → ℕ
  wd_nlink mem = half_at mem (b.wd_inode + 2)
