-- ===== src/Fs/Open.antt =====
-- do_open, do_cd and do_cat of kernel/fs/fs.c. The result `none` inside is -1.
pub mod Opened
use oslab_2024fall.Prelude.{
  ℕ, zero, suc, ◌+◌, ◌*◌, ◌/◌, ◌%◌, ◌^◌, Bool, true, false, Option, none, some, List, [], ◌∷◌, ◌==◌,
  ltb, if◌then◌else◌,
}
use oslab_2024fall.Prelude.Maybe.{◌>>=◌}
use oslab_2024fall.Prelude.Table.{update}
use oslab_2024fall.Prelude.Seq.{first_from}
use oslab_2024fall.Fs.Cache.{SdCard}
use oslab_2024fall.Fs.State.{Buffers, Fs, Fdesc, block_size, word_at}
use oslab_2024fall.Fs.Blocks.{blockid2sector, read_block}
use oslab_2024fall.Fs.Files.{num_fdescs}
use oslab_2024fall.Fs.Inodes.{it_dir, struct_at, put_struct}
use oslab_2024fall.Fs.Dirs.{find_inode}

-- The first file descriptor that is not in use.
unfoldable pub find_fdesc : (ℕ → Fdesc) → Option ℕ
find_fdesc fdesc_array = first_from (λ i. (fdesc_array i).valid == 0) num_fdescs 0

abbrev pub new_fdesc : ℕ → ℕ → Fdesc
new_fdesc mode ino = record {
  mode = mode % 2 ^ 8;
  valid = 1;
  ino = ino;
  read_pos = 0;
  write_pos = 0;
}

-- do_open with the file descriptor and the number of the inode.
unfoldable pub open_fdesc : {D : Type 0} → Option ℕ → ℕ → ℕ → Fs D → Option ℕ × Fs D
open_fdesc none mode ino fs = (none, fs)
open_fdesc (some fd) mode ino fs =
    (some fd, record fs { fdesc_array = update fs.fdesc_array fd (new_fdesc mode ino) })

module _ {D : Type 0} (sd : SdCard D) (b : Buffers) where
  unfoldable pub open_found : Option ℕ → ℕ → Fs D → Option ℕ × Fs D
  unfolding find_fdesc open_fdesc
  open_found none mode fs = (none, fs)
  open_found (some inode_p) mode fs =
      if fs.mem (inode_p + 1) == it_dir
      then (none, fs)
      else open_fdesc (find_fdesc fs.fdesc_array) mode (word_at fs.mem (inode_p + 4)) fs

  unfoldable pub do_open : List ℕ → ℕ → Fs D → Option (Option ℕ × Fs D)
  unfolding open_found
  do_open path mode fs =
      find_inode sd b path b.wd_inode fs >>= λ (found, fs1). some (open_found found mode fs1)

  -- The working directory becomes the inode that was found, if it is a directory.
  unfoldable pub cd_found : Option ℕ → Fs D → Option ℕ × Fs D
  cd_found none fs = (none, fs)
  cd_found (some inode) fs =
      if fs.mem (inode + 1) == it_dir
      then (some 0, record fs { mem = put_struct 64 b.wd_inode (struct_at inode fs.mem) fs.mem })
      else (none, fs)

  unfoldable pub do_cd : List ℕ → Fs D → Option (Option ℕ × Fs D)
  unfolding cd_found
  do_cd path fs = find_inode sd b path b.wd_inode fs >>= λ (found, fs1). some (cd_found found fs1)

  -- The loop of do_cat, `n` bytes from the index `i` on; the result has the printed bytes.
  unfoldable pub cat_from : ℕ → ℕ → ℕ → Fs D → Option (List ℕ × Fs D)
  cat_from zero i inode_p fs = some ([], fs)
  cat_from (suc n) i inode_p fs = do
    let next_block = (do
      (sector, fs1) ← blockid2sector sd b (i / block_size) inode_p fs
      read_block sd b sector fs1)
    fs1 ← (if i % block_size == 0 then next_block else some fs)
    (printed, fs2) ← cat_from n (i + 1) inode_p fs1
    some (fs1.mem (b.rdata_buffer + i % block_size) ∷ printed, fs2)

  unfoldable pub cat_found : Option ℕ → Fs D → Option (Option (List ℕ) × Fs D)
  unfolding cat_from
  cat_found none fs = some (none, fs)
  cat_found (some inode_p) fs =
      let size = word_at fs.mem (inode_p + 8) in
      let printed =
        (cat_from (if ltb 200 size then 200 else size) 0 inode_p fs >>= λ (bytes, fs1).
        some (some bytes, fs1)) in
      if fs.mem (inode_p + 1) == it_dir then some (none, fs) else printed

  -- The result has the bytes of the file that are printed.
  unfoldable pub do_cat : List ℕ → Fs D → Option (Option (List ℕ) × Fs D)
  unfolding cat_found
  do_cat path fs = find_inode sd b path b.wd_inode fs >>= λ (found, fs1). cat_found found fs1
