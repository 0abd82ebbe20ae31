-- ===== src/Fs/Create.antt =====
-- do_touch, do_mkdir and do_ln of kernel/fs/fs.c. The result `none` inside is -1; get_timer is a
-- function of the number of its calls so far.
pub mod NewFile
pub mod Frame
pub mod FreeInode
pub mod Found
pub mod Touch
pub mod Dots
use oslab_2024fall.Prelude.{
  ℕ, ◌+◌, ◌*◌, ◌%◌, ◌^◌, Bool, true, false, Option, none, some, List, [], ◌∷◌, ◌==◌, leb, length,
  if◌then◌else◌,
}
use oslab_2024fall.Prelude.Maybe.{◌>>=◌}
use oslab_2024fall.Libs.Memory.{Memory, bzero}
use oslab_2024fall.Fs.Cache.{SdCard}
use oslab_2024fall.Fs.State.{Buffers, Fs, block_size, word_at, put_word, set_word}
use oslab_2024fall.Fs.Maps.{find_free_inode, find_free_block}
use oslab_2024fall.Fs.Files.{inode_at, load_inode}
use oslab_2024fall.Fs.Paths.{parse_path, max_pathname_len}
use oslab_2024fall.Fs.Inodes.{
  it_dir, it_file, new_inode, store_inode, update_wd, wd_block, wd_size, wd_nlink, half_at,
  put_half,
}
use oslab_2024fall.Fs.Dirs.{
  put_dentry, find_name, find_unnamed, find_unused, dentry_type, dentry_ino, read_dentries,
  write_dentries, find_inode,
}

module _ {D : Type 0} (sd : SdCard D) (b : Buffers) (get_timer : ℕ → ℕ) where
  -- The return of -1.
  abbrev failed : Fs D → Option (Option ℕ × Fs D)
  failed fs = some (none, fs)

  -- A new inode of a type and a size, with its first block unless that is 0, on its sector.
  unfoldable pub create_inode : ℕ → ℕ → ℕ → ℕ → Fs D → Option (Fs D)
  create_inode inode_idx type size first_block fs = do
    read ← load_inode sd b inode_idx fs
    let inode = inode_at sd b inode_idx
    let mem = new_inode inode inode_idx type size (get_timer 0) read.mem
    store_inode sd b inode_idx (record read {
      mem = if first_block == 0 then mem else put_word (inode + 24) first_block mem;
    })

  -- What do_touch does with the free entry it found in dentry_buffer.
  unfoldable pub touch_found : Option ℕ → List ℕ → ℕ → Fs D → Option (Option ℕ × Fs D)
  touch_found none path inode_idx fs = failed fs
  touch_found (some j) path inode_idx fs = do
    fs1 ←
        write_dentries sd b (wd_block sd b fs.mem)
          (record fs { mem = put_dentry sd b j path inode_idx it_file fs.mem })
    fs2 ← update_wd sd b (wd_size sd b fs1.mem + 32) (wd_nlink sd b fs1.mem + 1) (get_timer 1) fs1
    some (some 0, fs2)

  -- do_touch with the result of find_free_inode.
  unfoldable pub touch_inode : Option ℕ → List ℕ → Fs D → Option (Option ℕ × Fs D)
  unfolding create_inode touch_found
  touch_inode none path fs = failed fs
  touch_inode (some inode_idx) path fs = do
    fs1 ← create_inode inode_idx it_file 0 0 fs
    touch_found (find_unused sd b fs1.mem) path inode_idx fs1

  unfoldable pub touch_new : Option ℕ → List ℕ → Fs D → Option (Option ℕ × Fs D)
  unfolding touch_inode
  touch_new (some j) path fs = failed fs
  touch_new none path fs = find_free_inode sd b fs >>= λ (found, fs1). touch_inode found path fs1

  unfoldable pub do_touch : List ℕ → Fs D → Option (Option ℕ × Fs D)
  unfolding touch_new
  do_touch path fs =
      let touched = (do
        read ← read_dentries sd b (wd_block sd b fs.mem) fs
        touch_new (find_name sd b path read.mem) path read) in
      if leb max_pathname_len (length path) then failed fs else touched

  -- The entries . and .. of a new directory, on its block.
  unfoldable pub first_dentries : ℕ → ℕ → ℕ → Fs D → Option (Fs D)
  first_dentries inode_idx parent_idx sector fs =
      let mem = bzero b.dentry_buffer block_size fs.mem in
      let dot = put_dentry sd b 0 (b'.' ∷ []) inode_idx it_dir mem in
      write_dentries sd b sector
        (record fs { mem = put_dentry sd b 1 (b'.' ∷ b'.' ∷ []) parent_idx it_dir dot })

  unfoldable pub mkdir_found : Option ℕ → List ℕ → ℕ → ℕ → Fs D → Option (Option ℕ × Fs D)
  unfolding first_dentries
  mkdir_found none path inode_idx new_block fs = failed fs
  mkdir_found (some j) path inode_idx new_block fs = do
    fs1 ←
        write_dentries sd b (wd_block sd b fs.mem)
          (record fs { mem = put_dentry sd b j path inode_idx it_dir fs.mem })
    fs2 ← update_wd sd b (wd_size sd b fs1.mem + 32) (wd_nlink sd b fs1.mem + 1) (get_timer 1) fs1
    fs3 ← first_dentries inode_idx (word_at fs2.mem (b.wd_inode + 4)) new_block fs2
    some (some 0, fs3)

  -- do_mkdir with the results of find_free_inode and find_free_block.
  unfoldable pub mkdir_block : Option ℕ → List ℕ → ℕ → Fs D → Option (Option ℕ × Fs D)
  unfolding create_inode mkdir_found
  mkdir_block none path inode_idx fs = failed fs
  mkdir_block (some new_block) path inode_idx fs = do
    fs1 ← create_inode inode_idx it_dir 64 new_block fs
    fs2 ← read_dentries sd b (wd_block sd b fs1.mem) fs1
    mkdir_found (find_unnamed sd b fs2.mem) path inode_idx new_block fs2

  unfoldable pub mkdir_inode : Option ℕ → List ℕ → Fs D → Option (Option ℕ × Fs D)
  unfolding mkdir_block
  mkdir_inode none path fs = failed fs
  mkdir_inode (some inode_idx) path fs =
      find_free_block sd b fs >>= λ (found, fs1). mkdir_block found path inode_idx fs1

  unfoldable pub mkdir_new : Option ℕ → List ℕ → Fs D → Option (Option ℕ × Fs D)
  unfolding mkdir_inode
  mkdir_new (some j) path fs = failed fs
  mkdir_new none path fs = find_free_inode sd b fs >>= λ (found, fs1). mkdir_inode found path fs1

  unfoldable pub do_mkdir : List ℕ → Fs D → Option (Option ℕ × Fs D)
  unfolding mkdir_new
  do_mkdir path fs =
      let made = (do
        read ← read_dentries sd b (wd_block sd b fs.mem) fs
        mkdir_new (find_name sd b path read.mem) path read) in
      if leb max_pathname_len (length path) then failed fs else made

  -- add_file_dentry in one directory; without a free entry it does nothing.
  unfoldable pub add_last : List ℕ → ℕ → ℕ → Fs D → Option (Fs D)
  add_last name ino sector fs = do
    read ← read_dentries sd b sector fs
    elim (find_unused sd b read.mem) [
      | none ↦ some read
      | some j ↦
          write_dentries sd b sector
            (record read { mem = put_dentry sd b j name ino it_file read.mem })
    ]

  -- The directory of a name: the block of its entries, if it is one.
  unfoldable pub enter_dir : List ℕ → ℕ → Fs D → Option (Option ℕ × Fs D)
  enter_dir name sector fs = do
    read ← read_dentries sd b sector fs
    elim (find_name sd b name read.mem) [
      | none ↦ some (none, read)
      | some j ↦
          (let inode_idx = dentry_ino sd b read.mem j in
            let entered = (do
              fs1 ← load_inode sd b inode_idx read
              some (some (word_at fs1.mem (inode_at sd b inode_idx + 24)), fs1)) in
            if dentry_type sd b read.mem j == it_dir then entered else some (none, read))
    ]

  -- The levels of add_file_dentry, from the block of a directory on.
  unfoldable pub add_levels : List ℕ → List ℕ → List ℕ → ℕ → ℕ → Fs D → Option (Fs D)
  unfolding add_last enter_dir
  add_levels dir1 [] dir3 ino sector fs = add_last dir1 ino sector fs
  add_levels dir1 (c ∷ dir2) dir3 ino sector fs = enter_dir dir1 sector fs >>= λ (first, fs1).
      elim first [
        | none ↦ some fs1
        | some sector1 ↦ elim dir3 [
          | [] ↦ add_last (c ∷ dir2) ino sector1 fs1
          | d ∷ name ↦ enter_dir (c ∷ dir2) sector1 fs1 >>= λ (second, fs2). elim second [
            | none ↦ some fs2
            | some sector2 ↦ add_last (d ∷ name) ino sector2 fs2
          ]
        ]
      ]

  unfoldable pub add_file_dentry : ℕ → List ℕ → ℕ → Fs D → Option (Fs D)
  unfolding add_levels
  add_file_dentry parent_inode path ino fs = parse_path path >>= λ (dir1, dir2, dir3).
      add_levels dir1 dir2 dir3 ino (word_at fs.mem (parent_inode + 24)) fs

  -- do_ln with the inode of the source.
  unfoldable pub link_found : Option ℕ → List ℕ → Fs D → Option (Option ℕ × Fs D)
  unfolding add_file_dentry
  link_found none dst_path fs = failed fs
  link_found (some src_inode) dst_path fs =
      let ino = word_at fs.mem (src_inode + 4) in
      let linked = (do
        fs1 ← add_file_dentry b.wd_inode dst_path ino fs
        fs2 ← load_inode sd b ino fs1
        let nlink = inode_at sd b ino + 2
        fs3 ←
            store_inode sd b ino
              (record fs2 { mem = put_half nlink (half_at fs2.mem nlink + 1) fs2.mem })
        some (some 0, fs3)) in
      if fs.mem (src_inode + 1) == it_dir then failed fs else linked

  unfoldable pub do_ln : List ℕ → List ℕ → Fs D → Option (Option ℕ × Fs D)
  unfolding link_found
  do_ln src_path dst_path fs =
      find_inode sd b src_path b.wd_inode fs >>= λ (found, fs1). link_found found dst_path fs1
