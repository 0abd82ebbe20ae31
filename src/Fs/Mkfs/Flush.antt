-- ===== src/Fs/Mkfs/Flush.antt =====
-- do_vmflush and init_fs of kernel/fs/fs.c: the file proc/sys/vm sets the policy of the cache.
use oslab_2024fall.Prelude.{
  ℕ, zero, suc, ◌+◌, ◌-◌, ◌*◌, ◌%◌, ◌^◌, Bool, Option, none, some, List, [], ◌∷◌, ◌==◌, ◌||◌,
  length, if◌then◌else◌,
}
use oslab_2024fall.Prelude.Maybe.{◌>>=◌}
use oslab_2024fall.Prelude.Text.{codes, is_text, after_text}
use oslab_2024fall.Libs.Memory.{Memory}
use oslab_2024fall.Fs.Cache.{SdCard, Policy, bwrite_back, bwrite_through, bflush}
use oslab_2024fall.Fs.State.{Buffers, Fs, fs_start_sector, word_at, read_sectors}
use oslab_2024fall.Fs.Blocks.{read_block, blocks_at}
use oslab_2024fall.Fs.Files.{inode_at, load_inode}
use oslab_2024fall.Fs.Inodes.{struct_at, put_struct}
use oslab_2024fall.Fs.Dirs.{find_inode}
use oslab_2024fall.Fs.Mkfs.{superblock_magic, init_bcache, do_mkfs}

-- The size of line1 and line2. A longer line is written behind its array; the model has no result then.
abbrev pub line_size : ℕ
line_size = 64

-- The bytes from an address up to one that stops the line, in an array with room for `room` of them.
unfoldable pub take_line : (ℕ → Bool) → ℕ → ℕ → Memory → Option (List ℕ)
take_line stops zero a mem = none
take_line stops (suc room) a mem =
    let rest = (take_line stops room (a + 1) mem >>= λ line. some (mem a ∷ line)) in
    if stops (mem a) then some [] else rest

unfoldable pub policy_of : List ℕ → Option Policy
unfolding is_text
policy_of line1 =
    if is_text line1 (codes "page_cache_policy = write back")
    then some bwrite_back
    else if is_text line1 (codes "page_cache_policy = write through")
    then some bwrite_through
    else none

-- The loop over the digits, an int as its word of 32 bits.
unfoldable pub freq_from : ℕ → List ℕ → ℕ
freq_from write_back_freq [] = write_back_freq
freq_from write_back_freq (c ∷ line) =
    freq_from ((write_back_freq * 10 + c + 2 ^ 32 - b'0') % 2 ^ 32) line

unfoldable pub freq_of : List ℕ → Option ℕ
unfolding after_text freq_from
freq_of line2 =
    after_text (codes "write_back_freq = ") line2 >>= λ digits. some (freq_from 0 digits)

-- The rest of do_vmflush with the lines of the file.
unfoldable pub configure : {D : Type 0} → List ℕ → List ℕ → Fs D → Option ℕ × Fs D
unfolding policy_of freq_of
configure line1 line2 fs = elim (policy_of line1) [
  | none ↦ (none, fs)
  | some policy ↦
      (let fs1 = record fs { cache = record fs.cache { policy = policy } } in
        elim (freq_of line2) [
          | none ↦ (none, fs1)
          | some freq ↦ (some 0, record fs1 { write_back_freq = freq })
        ])
]

module _ {D : Type 0} (sd : SdCard D) (b : Buffers) where
  unfoldable pub vm_found : Option ℕ → Fs D → Option (Option ℕ × Fs D)
  unfolding take_line configure
  vm_found none fs = some (none, fs)
  vm_found (some inode) fs = do
    fs1 ← read_block sd b (word_at fs.mem (blocks_at inode 0)) fs
    line1 ← take_line (λ c. c == b'\n') line_size b.rdata_buffer fs1.mem
    line2 ←
        take_line (λ c. c == b'\n' || c == 0) line_size (b.rdata_buffer + length line1 + 1) fs1.mem
    some (configure line1 line2 fs1)

  -- The copy of the root inode on the stack stands at `stack_inode`. The result `none` inside is -1.
  unfoldable pub do_vmflush : ℕ → Fs D → Option (Option ℕ × Fs D)
  unfolding vm_found
  do_vmflush stack_inode fs = do
    fs1 ← load_inode sd b fs.root_ino (record fs { cache = bflush sd fs.cache })
    let root_inode = struct_at (inode_at sd b fs.root_ino) fs1.mem
    (found, fs2) ←
        find_inode sd b (codes "proc/sys/vm") stack_inode
          (record fs1 { mem = put_struct 64 stack_inode root_inode fs1.mem })
    vm_found found fs2

  unfoldable pub init_fs : (ℕ → ℕ) → ℕ → ℕ → ℕ → Fs D → Option (Fs D)
  init_fs get_timer policy_line freq_line stack_inode fs = do
    fs1 ←
        read_sectors sd b.superblock_buffer 1 fs_start_sector
          (record fs { cache = init_bcache fs.cache })
    let made = do_mkfs sd b get_timer policy_line freq_line fs1
    fs2 ← (if word_at fs1.mem b.superblock_buffer == superblock_magic then some fs1 else made)
    fs3 ← load_inode sd b 0 fs2
    (_, fs4) ←
        do_vmflush stack_inode
          (record fs3 { mem = put_struct 64 b.wd_inode (struct_at b.inode_buffer fs3.mem) fs3.mem })
    some fs4
