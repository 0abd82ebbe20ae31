-- ===== src/Fs/Remove.antt =====
-- do_rm, nest_rmdir and do_rmdir of kernel/fs/fs.c. The result `none` inside is -1; get_timer is a
-- function of the number of its calls so far.
use oslab_2024fall.Prelude.{
  ℕ, zero, suc, ◌+◌, ◌-◌, ◌^◌, Bool, false, Option, none, some, List, [], ◌∷◌, ◌==◌, if◌then◌else◌,
}
use oslab_2024fall.Prelude.Maybe.{◌>>=◌}
use oslab_2024fall.Fs.Cache.{SdCard}
use oslab_2024fall.Fs.State.{Buffers, Fs, word_at}
use oslab_2024fall.Fs.Files.{inode_at, load_inode}
use oslab_2024fall.Fs.Inodes.{
  it_dir, Bytes, struct_at, half_at, put_half, replace_inode, update_wd, wd_block, wd_size,
  wd_nlink,
}
use oslab_2024fall.Fs.Dirs.{
  dentry_at, clear_dentry, find_ino, read_dentries, write_dentries, find_inode,
}
use oslab_2024fall.Fs.Free.{free_inode}

-- `strcmp(path, ".") == 0 || strcmp(path, "..") == 0`
unfoldable pub is_dots : List ℕ → Bool
is_dots [] = false
is_dots (c ∷ []) = c == b'.'
is_dots (c ∷ d ∷ []) = if c == b'.' then d == b'.' else false
is_dots (c ∷ d ∷ e ∷ rest) = false

-- A count of links less 1 as a uint16_t is written, and a size less that of an entry.
abbrev pub one_link_less : ℕ → ℕ
one_link_less nlink = nlink + 2 ^ 16 - 1

abbrev pub one_dentry_less : ℕ → ℕ
one_dentry_less size = size + 2 ^ 32 - 32

module _ {D : Type 0} (sd : SdCard D) (b : Buffers) (get_timer : ℕ → ℕ) where
  -- The first entry of an inode in the working directory is cleared and the directory written, if there is one.
  unfoldable pub remove_dentry : ℕ → Fs D → Option (Fs D)
  unfolding find_ino clear_dentry
  remove_dentry ino fs = elim (find_ino sd b ino fs.mem) [
    | none ↦ some fs
    | some j ↦
        write_dentries sd b (wd_block sd b fs.mem) (record fs { mem = clear_dentry sd b j fs.mem })
  ]

  -- A copied inode loses a link; without one left it is freed, else it goes back to its place.
  unfoldable pub drop_link : Bytes → Fs D → Option (Fs D)
  drop_link inode fs =
      let inode1 = put_half 2 (one_link_less (half_at inode 2)) inode in
      let freed = free_inode sd b (word_at inode1 4) fs in
      let stored = replace_inode sd b (word_at inode1 4) inode1 fs in
      if half_at inode1 2 == 0 then freed else stored

  unfoldable pub rm_found : Option ℕ → Fs D → Option (Option ℕ × Fs D)
  unfolding remove_dentry drop_link
  rm_found none fs = some (none, fs)
  rm_found (some inode_p) fs =
      let inode = struct_at inode_p fs.mem in
      let removed = (do
        fs1 ← read_dentries sd b (wd_block sd b fs.mem) fs
        fs2 ← remove_dentry (word_at inode 4) fs1
        fs3 ←
            update_wd sd b (one_dentry_less (wd_size sd b fs2.mem))
              (one_link_less (wd_nlink sd b fs2.mem)) (get_timer 0) fs2
        fs4 ← drop_link inode fs3
        some (some 0, fs4)) in
      if fs.mem (inode_p + 1) == it_dir then some (none, fs) else removed

  unfoldable pub do_rm : List ℕ → Fs D → Option (Option ℕ × Fs D)
  unfolding rm_found
  do_rm path fs = find_inode sd b path b.wd_inode fs >>= λ (found, fs1). rm_found found fs1

  -- What nest_rmdir does with a child; `nest` is the call for a directory.
  unfoldable pub remove_child : (Bytes → Fs D → Option (Fs D)) → ℕ → Fs D → Option (Fs D)
  unfolding drop_link
  remove_child nest inode_index fs = load_inode sd b inode_index fs >>= λ fs1.
      (let child_inode = struct_at (inode_at sd b inode_index) fs1.mem in
        let emptied =
          (nest child_inode fs1 >>= λ fs2. free_inode sd b (word_at child_inode 4) fs2) in
        let dropped = drop_link child_inode fs1 in
        if child_inode 1 == it_dir then emptied else dropped)

  -- The rounds of nest_rmdir, `n` of them from the entry `j` on.
  unfoldable pub remove_children : (Bytes → Fs D → Option (Fs D)) → ℕ → ℕ → ℕ → Fs D → Option (Fs D)
  unfolding remove_child
  remove_children nest zero j sector fs = some fs
  remove_children nest (suc n) j sector fs = do
    fs1 ← read_dentries sd b sector fs
    let removed = remove_child nest (word_at fs1.mem (dentry_at sd b j + 28)) fs1
    fs2 ← (if fs1.mem (dentry_at sd b j) == 0 then some fs1 else removed)
    remove_children nest n (j + 1) sector fs2

  -- nest_rmdir, as deep as the stack of the kernel lets it call itself.
  unfoldable pub nest_rmdir : ℕ → Bytes → Fs D → Option (Fs D)
  unfolding remove_children
  nest_rmdir zero dir_inode fs = none
  nest_rmdir (suc depth) dir_inode fs =
      remove_children (nest_rmdir depth) 126 2 (word_at dir_inode 24) fs

  -- do_rmdir with the pointer of find_inode, which stays in use when other inodes are loaded.
  unfoldable pub rmdir_checked : ℕ → ℕ → Fs D → Option (Option ℕ × Fs D)
  unfolding nest_rmdir remove_dentry
  rmdir_checked depth d_inode_p fs = do
    fs1 ← nest_rmdir depth (struct_at d_inode_p fs.mem) fs
    fs2 ←
        update_wd sd b (wd_size sd b fs1.mem) (one_link_less (wd_nlink sd b fs1.mem)) (get_timer 0)
          fs1
    fs3 ← read_dentries sd b (wd_block sd b fs2.mem) fs2
    fs4 ← remove_dentry (word_at fs3.mem (d_inode_p + 4)) fs3
    fs5 ←
        update_wd sd b (one_dentry_less (wd_size sd b fs4.mem))
          (one_link_less (wd_nlink sd b fs4.mem)) (get_timer 1) fs4
    fs6 ← free_inode sd b (word_at fs5.mem (d_inode_p + 4)) fs5
    some (some 0, fs6)

  unfoldable pub rmdir_found : ℕ → Option ℕ → Fs D → Option (Option ℕ × Fs D)
  unfolding rmdir_checked
  rmdir_found depth none fs = some (none, fs)
  rmdir_found depth (some d_inode_p) fs =
      let removed = rmdir_checked depth d_inode_p fs in
      if fs.mem (d_inode_p + 1) == it_dir
      then if half_at fs.mem (d_inode_p + 2) == 1 then removed else some (none, fs)
      else some (none, fs)

  unfoldable pub do_rmdir : ℕ → List ℕ → Fs D → Option (Option ℕ × Fs D)
  unfolding rmdir_found is_dots
  do_rmdir depth path fs = find_inode sd b path b.wd_inode fs >>= λ (found, fs1).
      (let removed = rmdir_found depth found fs1 in
        if is_dots path then some (none, fs1) else removed)
