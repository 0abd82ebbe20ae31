-- ===== src/Fs/Files.antt =====
-- Open files: do_read, do_write, do_close and do_lseek of kernel/fs/fs.c. Numbers of files, lengths and
-- positions are natural numbers, a negative offset is its word of 32 bits.
pub mod Seek
use oslab_2024fall.Prelude.{
  ℕ, zero, suc, ◌+◌, ◌-◌, ◌*◌, ◌/◌, ◌%◌, ◌^◌, Bool, true, false, Option, none, some, ◌==◌, ◌||◌,
  ltb, leb, if◌then◌else◌,
}
use oslab_2024fall.Prelude.Maybe.{◌>>=◌}
use oslab_2024fall.Prelude.Table.{update}
use oslab_2024fall.Libs.Memory.{memcpy}
use oslab_2024fall.Fs.Cache.{SdCard}
use oslab_2024fall.Fs.State.{
  Buffers, Fs, Fdesc, block_size, sectors_per_block, word_at, set_word, read_sectors, write_sectors,
}
use oslab_2024fall.Fs.Maps.{inodeidx2sector, inodeidx2offset}
use oslab_2024fall.Fs.Blocks.{read_block, blockid2sector, alloc_inode_block}

abbrev pub num_fdescs : ℕ
num_fdescs = 16

abbrev pub o_wronly : ℕ
o_wronly = 2

-- fd < 0 || fd >= NUM_FDESCS || fdesc_array[fd].valid == 0
abbrev pub is_bad_fd : ℕ → (ℕ → Fdesc) → Bool
is_bad_fd fd fdesc_array = leb num_fdescs fd || (fdesc_array fd).valid == 0

unfoldable pub do_close : {D : Type 0} → ℕ → Fs D → Fs D
do_close fd fs = record fs {
  fdesc_array = update fs.fdesc_array fd (record (fs.fdesc_array fd) { valid = 0 });
}

module _ {D : Type 0} (sd : SdCard D) (b : Buffers) where
  -- The inode of a file in inode_buffer, and the read that brings it there.
  abbrev pub inode_at : ℕ → ℕ
  inode_at inode_idx = b.inode_buffer + 64 * inodeidx2offset inode_idx

  abbrev pub load_inode : ℕ → Fs D → Option (Fs D)
  load_inode inode_idx fs = read_sectors sd b.inode_buffer 1 (inodeidx2sector inode_idx) fs

  -- Both positions of a file, moved by `whence`; `none` is an invalid one.
  unfoldable pub seek : ℕ → ℕ → ℕ → Fdesc → Option Fdesc
  seek size offset whence file =
      if whence == 0
      then some (record file { read_pos = offset; write_pos = offset })
      else if whence == 1
      then some (record file {
        read_pos = (file.read_pos + offset) % 2 ^ 32;
        write_pos = (file.write_pos + offset) % 2 ^ 32;
      })
      else if whence == 2
      then some (record file {
        read_pos = (size + offset) % 2 ^ 32;
        write_pos = (size + offset) % 2 ^ 32;
      })
      else none

  -- The file is moved, or the result is -1, which is `false`.
  unfoldable pub store_moved : ℕ → Option Fdesc → Fs D → Bool × Fs D
  store_moved fd none fs = (false, fs)
  store_moved fd (some file) fs = (true, record fs { fdesc_array = update fs.fdesc_array fd file })

  unfoldable pub do_lseek : ℕ → ℕ → ℕ → Fs D → Option (Bool × Fs D)
  unfolding seek store_moved
  do_lseek fd offset whence fs =
      let inode_idx = (fs.fdesc_array fd).ino in
      let moved =
        (load_inode inode_idx fs >>= λ read. some (
          store_moved fd
            (seek (word_at read.mem (inode_at inode_idx + 8)) offset whence (read.fdesc_array fd))
            read)) in
      if is_bad_fd fd fs.fdesc_array then some (false, fs) else moved

  -- The loop of do_read, `n` bytes from the index `i` on; `inode` is the copy on the stack.
  unfoldable pub read_bytes_from : ℕ → ℕ → ℕ → ℕ → ℕ → Fs D → Option (Fs D)
  read_bytes_from zero i fd buff inode fs = some fs
  read_bytes_from (suc n) i fd buff inode fs =
      let pos = (fs.fdesc_array fd).read_pos in
      let next_block =
        (blockid2sector sd b (pos / block_size) inode fs >>= λ (sector, fs1).
        read_block sd b sector fs1) in
      (if pos % block_size == 0 then next_block else some fs) >>= λ fs1.
      read_bytes_from n (i + 1) fd buff inode (record fs1 {
        mem = update fs1.mem (buff + i) (fs1.mem (b.rdata_buffer + pos % block_size));
        fdesc_array =
            update fs1.fdesc_array fd
              (record (fs1.fdesc_array fd) { read_pos = (pos + 1) % 2 ^ 32 });
      })

  -- `stack_inode` is the address of the local inode, and `timer` the result of get_timer. The result
  -- `none` inside is -1.
  unfoldable pub do_read : ℕ → ℕ → ℕ → ℕ → ℕ → Fs D → Option (Option ℕ × Fs D)
  unfolding read_bytes_from
  do_read fd buff length stack_inode timer fs =
      let inode_idx = (fs.fdesc_array fd).ino in
      let done = (do
        fs1 ← load_inode inode_idx fs
        let fs2 = record fs1 { mem = memcpy stack_inode (inode_at inode_idx) 64 fs1.mem }
        let start_block = (fs2.fdesc_array fd).read_pos / block_size
        (sector, fs3) ← blockid2sector sd b start_block stack_inode fs2
        fs4 ← read_sectors sd b.rdata_buffer 1 sector fs3
        fs5 ← read_bytes_from length 0 fd buff stack_inode fs4
        let fs6 = set_word sd (stack_inode + 12) timer fs5
        let fs7 = record fs6 { mem = memcpy (inode_at inode_idx) stack_inode 64 fs6.mem }
        fs8 ← write_sectors sd b.inode_buffer 1 (inodeidx2sector inode_idx) fs7
        some (some length, fs8)) in
      if is_bad_fd fd fs.fdesc_array
      then some (none, fs)
      else if (fs.fdesc_array fd).mode == o_wronly
      then some (none, fs)
      else done

  -- The sector of a block of a file, allocated when it has none.
  unfoldable pub sector_for : ℕ → ℕ → Fs D → Option (ℕ × Fs D)
  sector_for block_id inode fs = do
    (sector, fs1) ← blockid2sector sd b block_id inode fs
    let fresh = (do
      (_, fs2) ← alloc_inode_block sd b block_id inode fs1
      blockid2sector sd b block_id inode fs2)
    if sector == 0 then fresh else some (sector, fs1)

  -- The block of wdata_buffer is written to the block of a position.
  unfoldable pub flush_wdata : ℕ → ℕ → Fs D → Option (Fs D)
  flush_wdata pos inode fs = do
    (sector, fs1) ← blockid2sector sd b (pos / block_size) inode fs
    write_sectors sd b.wdata_buffer sectors_per_block sector fs1

  -- The loop of do_write.
  unfoldable pub write_bytes_from : ℕ → ℕ → ℕ → ℕ → ℕ → Fs D → Option (Fs D)
  unfolding sector_for flush_wdata
  write_bytes_from zero i fd buff inode fs = some fs
  write_bytes_from (suc n) i fd buff inode fs =
      let pos = (fs.fdesc_array fd).write_pos in
      let next_block = (do
        (sector, fs1) ← sector_for (pos / block_size) inode fs
        read_sectors sd b.wdata_buffer sectors_per_block sector fs1) in
      (if pos % block_size == 0 then next_block else some fs) >>= λ fs1.
      (let stored = record fs1 {
        mem = update fs1.mem (b.wdata_buffer + pos % block_size) (fs1.mem (buff + i));
      } in
        let flushed = flush_wdata pos inode stored in
        (if pos % block_size == block_size - 1 then flushed else some stored) >>= λ fs2.
        write_bytes_from n (i + 1) fd buff inode (record fs2 {
          fdesc_array =
              update fs2.fdesc_array fd
                (record (fs2.fdesc_array fd) { write_pos = (pos + 1) % 2 ^ 32 });
        }))

  unfoldable pub do_write : ℕ → ℕ → ℕ → ℕ → Fs D → Option (ℕ × Fs D)
  unfolding write_bytes_from
  do_write fd buff length timer fs =
      let inode_idx = (fs.fdesc_array fd).ino in
      let inode = inode_at inode_idx in
      do
        fs1 ← load_inode inode_idx fs
        (sector, fs2) ← sector_for ((fs1.fdesc_array fd).write_pos / block_size) inode fs1
        fs3 ← read_sectors sd b.wdata_buffer sectors_per_block sector fs2
        fs4 ← write_bytes_from length 0 fd buff inode fs3
        let pos = (fs4.fdesc_array fd).write_pos
        let last_block = flush_wdata pos inode fs4
        fs5 ← (if pos % block_size == 0 then some fs4 else last_block)
        let fs6 =
            (if ltb (word_at fs5.mem (inode + 8)) pos then set_word sd (inode + 8) pos fs5 else fs5)
        let fs7 = set_word sd (inode + 16) timer (set_word sd (inode + 12) timer fs6)
        fs8 ← write_sectors sd b.inode_buffer sectors_per_block (inodeidx2sector inode_idx) fs7
        some (length, fs8)
