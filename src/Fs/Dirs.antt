-- ===== src/Fs/Dirs.antt =====
-- Directories of kernel/fs/fs.c: their entries in dentry_buffer, and find_inode. A name in memory is
-- compared with and copied from the list of its bytes. The result `none` inside is NULL.
pub mod Entries
use oslab_2024fall.Prelude.{
  ℕ, zero, suc, ◌+◌, ◌*◌, ◌^◌, Bool, true, false, Option, none, some, List, [], ◌∷◌, ◌==◌, ◌&&◌,
  if◌then◌else◌,
}
use oslab_2024fall.Prelude.Maybe.{◌>>=◌}
use oslab_2024fall.Prelude.Table.{update}
use oslab_2024fall.Prelude.Seq.{first_from}
use oslab_2024fall.Libs.Memory.{Memory}
use oslab_2024fall.Fs.Cache.{SdCard}
use oslab_2024fall.Fs.State.{
  Buffers, Fs, sectors_per_block, word_at, put_word, read_sectors, write_sectors,
}
use oslab_2024fall.Fs.Files.{inode_at, load_inode}
use oslab_2024fall.Fs.Paths.{parse_path, levels}

-- BLOCK_SIZE / sizeof(dentry_t)
abbrev pub dentry_num : ℕ
dentry_num = 128

-- strcmp(mem + a, name) == 0
unfoldable pub is_named : Memory → ℕ → List ℕ → Bool
is_named mem a [] = mem a == 0
is_named mem a (c ∷ name) = mem a == c && is_named mem (a + 1) name

-- strcpy(mem + a, name)
unfoldable pub put_name : ℕ → List ℕ → Memory → Memory
put_name a [] mem = update mem a 0
put_name a (c ∷ name) mem = put_name (a + 1) name (update mem a c)

module _ {D : Type 0} (sd : SdCard D) (b : Buffers) where
  abbrev pub dentry_at : ℕ → ℕ
  dentry_at j = b.dentry_buffer + 32 * j

  abbrev pub dentry_type : Memory → ℕ → ℕ
  dentry_type mem j = mem (dentry_at j + 27)

  abbrev pub dentry_ino : Memory → ℕ → ℕ
  dentry_ino mem j = word_at mem (dentry_at j + 28)

  -- name, ino and type of an entry.
  unfoldable pub put_dentry : ℕ → List ℕ → ℕ → ℕ → Memory → Memory
  unfolding put_name
  put_dentry j name ino type mem =
      update (put_word (dentry_at j + 28) ino (put_name (dentry_at j) name mem)) (dentry_at j + 27)
        type

  unfoldable pub clear_dentry : ℕ → Memory → Memory
  clear_dentry j mem =
      update (put_word (dentry_at j + 28) 0 (update mem (dentry_at j) 0)) (dentry_at j + 27) 0

  -- The first entry of a name, of an inode, and that is free.
  unfoldable pub find_name : List ℕ → Memory → Option ℕ
  unfolding is_named
  find_name name mem = first_from (λ j. is_named mem (dentry_at j) name) dentry_num 0

  unfoldable pub find_ino : ℕ → Memory → Option ℕ
  find_ino ino mem = first_from (λ j. dentry_ino mem j == ino) dentry_num 0

  unfoldable pub find_unnamed : Memory → Option ℕ
  find_unnamed mem = first_from (λ j. mem (dentry_at j) == 0) dentry_num 0

  unfoldable pub find_unused : Memory → Option ℕ
  find_unused mem = first_from (λ j. dentry_ino mem j == 0 && mem (dentry_at j) == 0) dentry_num 0

  abbrev pub read_dentries : ℕ → Fs D → Option (Fs D)
  read_dentries sector fs = read_sectors sd b.dentry_buffer sectors_per_block sector fs

  abbrev pub write_dentries : ℕ → Fs D → Option (Fs D)
  write_dentries sector fs = write_sectors sd b.dentry_buffer sectors_per_block sector fs

  -- A level of find_inode: the entry of a name in a directory, and its inode in inode_buffer.
  unfoldable pub enter_found : Option ℕ → Fs D → Option (Option ℕ × Fs D)
  enter_found none fs = some (none, fs)
  enter_found (some j) fs = load_inode sd b (dentry_ino fs.mem j) fs >>= λ loaded.
      some (some (dentry_ino fs.mem j), loaded)

  unfoldable pub find_level : List ℕ → ℕ → Fs D → Option (Option ℕ × Fs D)
  unfolding enter_found find_name
  find_level name sector fs =
      read_dentries sector fs >>= λ read. enter_found (find_name name read.mem) read

  -- The levels of a path from the inode at an address on; the result is the address of an inode.
  unfoldable pub find_levels : List (List ℕ) → ℕ → Fs D → Option (Option ℕ × Fs D)
  unfolding find_level
  find_levels [] inode fs = some (some inode, fs)
  find_levels (name ∷ names) inode fs =
      find_level name (word_at fs.mem (inode + 24)) fs >>= λ (found, fs1). elim found [
        | none ↦ some (none, fs1)
        | some inode_idx ↦ find_levels names (inode_at sd b inode_idx) fs1
      ]

  unfoldable pub find_inode : List ℕ → ℕ → Fs D → Option (Option ℕ × Fs D)
  unfolding find_levels
  find_inode [] parent_inode fs = some (some parent_inode, fs)
  find_inode (c ∷ path) parent_inode fs =
      parse_path (c ∷ path) >>= λ names. find_levels (levels names) parent_inode fs
