-- ===== src/Tests/Dirs.antt =====
-- Directories over a card of zeros in which inode 0 is in use and the working directory has block 802.
use oslab_2024fall.Prelude.{
  ℕ, zero, suc, ◌*◌, ◌≤◌, true, ◌+◌, ◌-◌, ◌%◌, ◌^◌, ◌<◌, ◌≢◌, ◌≡◌, refl, Option, some, none, List,
  [], ◌∷◌, ◌==◌, arith, inl, inr, if◌then◌else◌,
}
use oslab_2024fall.Prelude.Text.{codes}
use oslab_2024fall.Mm.Bitmap.{is_allocated, test_bit}
use oslab_2024fall.Fs.Cache.{Bcache, bwrite_through}
use oslab_2024fall.Fs.Cache.Caches.{Caches}
use oslab_2024fall.Fs.State.{Fs}
use oslab_2024fall.Fs.Paths.{parse_path}
use oslab_2024fall.Fs.Paths.Split.{parse_path-three}
use oslab_2024fall.Fs.Dirs.{find_inode}
use oslab_2024fall.Fs.Create.{do_touch, first_dentries}
use oslab_2024fall.Fs.Create.Frame.{Apart}
use oslab_2024fall.Fs.Create.NewFile.{IsNewFile}
use oslab_2024fall.Fs.Files.{inode_at}
use oslab_2024fall.Fs.Create.Touch.{Touched, TouchRefused, do_touch-Touched}
use oslab_2024fall.Fs.Create.Dots.{IsNewDir, first_dentries-IsNewDir}
use oslab_2024fall.Fs.State.{word_at}
use oslab_2024fall.Fs.Free.{free_inode}
use oslab_2024fall.Fs.Free.Direct.{IsBlock}
use oslab_2024fall.Fs.Free.Freed.{Freed, free_inode-Freed}
use oslab_2024fall.Fs.Maps.{inodeidx2sector, inodeidx2offset}
use oslab_2024fall.Fs.Open.{do_open}
use oslab_2024fall.Fs.Open.Opened.{OpenSays, FileOpened, do_open-says, do_open-touched}
use oslab_2024fall.Fs.Mkfs.{init_bcache, format_card}
use oslab_2024fall.Fs.Mkfs.Format.{Formatted, init_bcache-Caches, format_card-Formatted}
use oslab_2024fall.Fs.Mkfs.Flush.{vm_found}
use oslab_2024fall.Fs.Mkfs.Freq.{decimal}
use oslab_2024fall.Fs.Mkfs.Lines.{Holds, vm_text, vm_found-configures}
use oslab_2024fall.Fs.Cache.Rounds.{put_range}
use oslab_2024fall.Tests.Files.{card, cached}
use oslab_2024fall.Tests.Blocks.{buffers, opened}

abbrev zeros : ℕ → ℕ → ℕ
zeros s i = if s == 289 then (if i == 0 then 1 else 0) else 0

abbrev blank : Bcache (ℕ → ℕ → ℕ)
blank = init_bcache (record cached { disk = zeros })

-- 802 is 0x322.
abbrev here : Fs (ℕ → ℕ → ℕ)
here = record opened {
  mem = λ a. if a == 0xd018 then 0x22 else if a == 0xd019 then 3 else 0;
  cache = blank;
}

blank-Caches : Caches card zeros blank
blank-Caches = init_bcache-Caches card buffers (record cached { disk = zeros })

buffers-Apart : Apart buffers
buffers-Apart = record {
  map = λ a kept. ground arith;
  inode = λ a kept. ground arith;
  wd = inr (omega arith);
}

root_used : is_allocated (zeros 289) 0 ≡ true
unfolding is_allocated test_bit
root_used = refl

do_touch-Touched_example :
    Touched card buffers
      (TouchRefused card buffers zeros (codes "vm") here)
      (codes "vm")
      (do_touch card buffers (λ i. 7 + i) (codes "vm") here)
do_touch-Touched_example =
    do_touch-Touched card buffers (λ i. 7 + i) zeros b'v' (codes "m") here buffers-Apart refl
      (omega arith) (omega arith) (omega arith) root_used blank-Caches

do_open-touched_example :
    (result : Option ℕ) × (after : Fs (ℕ → ℕ → ℕ)) × (do_touch card buffers
        (λ i. 7 + i)
        (codes "vm")
        here
      ≡ some (result, after))
    × (result ≢ none
        → (idx : ℕ) × (fs' : Fs (ℕ → ℕ → ℕ)) × (opened : Option ℕ × Fs (ℕ → ℕ → ℕ)) × (idx < 4096)
          × (find_inode card buffers (codes "vm") 0xd000 after
              ≡ some (some (inode_at card buffers idx), fs'))
          × IsNewFile fs'.mem (inode_at card buffers idx) idx
          × (do_open card buffers (codes "vm") 3 after ≡ some opened)
          × FileOpened card buffers idx 3 fs' opened)
do_open-touched_example =
    do_open-touched card buffers (λ i. 7 + i) zeros b'v' (codes "m") 3 here buffers-Apart refl
      (omega arith) (omega arith) (omega arith) root_used blank-Caches

empty_path : find_inode card buffers [] 0xd000 here ≡ some (some 0xd000, here)
unfolding find_inode
empty_path = refl

-- The empty path is the working directory, which has no type here.
do_open-says_example :
    (result : Option ℕ × Fs (ℕ → ℕ → ℕ)) × (do_open card buffers [] 3 here ≡ some result)
    × OpenSays card buffers 0xd000 3 here result
do_open-says_example = do_open-says card buffers [] 3 0xd000 here here empty_path

format_card-Formatted_example : Formatted card buffers (format_card card buffers (λ i. 7 + i) here)
format_card-Formatted_example = format_card-Formatted card buffers (λ i. 7 + i) here buffers-Apart

first_dentries-IsNewDir_example :
    (after : Fs (ℕ → ℕ → ℕ)) × (first_dentries card buffers (λ i. 7 + i) 5 1 810 here ≡ some after)
    × IsNewDir card buffers after.mem 5 1
    × Caches card (put_range 810 8 buffers.dentry_buffer after.mem zeros) after.cache
first_dentries-IsNewDir_example =
    first_dentries-IsNewDir card buffers (λ i. 7 + i) zeros 5 1 810 here (omega arith) (omega arith)
      (omega arith) blank-Caches

parse_path-three_example :
    parse_path (codes "proc/sys/vm") ≡ some (codes "proc", codes "sys", codes "vm")
parse_path-three_example =
    parse_path-three (codes "proc") (codes "sys") (codes "vm") refl refl refl (omega arith)
      (omega arith) (omega arith)

-- Sector 809 is the last one of the block at 802 and holds the file proc/sys/vm.
abbrev text_byte : List ℕ → ℕ → ℕ
text_byte [] i = 0
text_byte (c ∷ text) i = if i == 0 then c else text_byte text (i - 1)

later_bytes-Holds :
    (c a : ℕ) (bytes : ℕ → ℕ) (text : List ℕ)
    → Holds bytes a text
    → Holds (λ i. if i == 0 then c else bytes (i - 1)) (a + 1) text
later_bytes-Holds c a bytes [] held = held
later_bytes-Holds c a bytes (x ∷ text) (first, rest) =
    (ground (arith, first), later_bytes-Holds c (a + 1) bytes text rest)

text_byte-Holds : (text : List ℕ) → Holds (text_byte text) 0 text
text_byte-Holds [] = tt
text_byte-Holds (c ∷ text) =
    (refl, later_bytes-Holds c 0 (text_byte text) text (text_byte-Holds text))

abbrev with_vm : ℕ → ℕ → ℕ
with_vm s i = if s == 809 then text_byte (vm_text bwrite_through (4 ∷ 5 ∷ []) b'\n') i else 0

abbrev vm_here : Fs (ℕ → ℕ → ℕ)
vm_here = record here { cache = init_bcache (record cached { disk = with_vm }) }

vm_found-configures_example :
    (after : Fs (ℕ → ℕ → ℕ)) × (vm_found card buffers (some 0xd000) vm_here ≡ some (some 0, after))
    × (after.cache.policy ≡ bwrite_through)
    × (after.write_back_freq ≡ decimal 0 (4 ∷ 5 ∷ []) % 2 ^ 32)
    × Caches card with_vm after.cache
vm_found-configures_example =
    vm_found-configures card buffers with_vm 0xd000 bwrite_through (4 ∷ 5 ∷ []) b'\n' vm_here
      (omega arith) (omega arith) (omega arith, (omega arith, tt)) refl
      (text_byte-Holds (vm_text bwrite_through (4 ∷ 5 ∷ []) b'\n'))
      (init_bcache-Caches card buffers (record cached { disk = with_vm }))

-- Inode 5 is in use, with 5000 bytes in the blocks 810 and 818.
abbrev inode_bytes : ℕ → ℕ
inode_bytes i =
    if i == 328
    then 0x88
    else if i == 329
    then 0x13
    else if i == 344
    then 0x2a
    else if i == 345
    then 3
    else if i == 348
    then 0x32
    else if i == 349
    then 3
    else 0

abbrev with_file : ℕ → ℕ → ℕ
with_file s i =
    if s == 290
    then inode_bytes i
    else if s == 289
    then (if i == 0 then 33 else 0)
    else if s == 288
    then (if i == 0 then 7 else 0)
    else 0

abbrev file_here : Fs (ℕ → ℕ → ℕ)
file_here = record here { cache = init_bcache (record cached { disk = with_file }) }

-- The map of blocks has the bits of the blocks 0, 1 and 2.
map_bytes : (i : ℕ) → i < 512 → with_file 288 i < 256
map_bytes i lt = ground arith

file_bytes : (i : ℕ) → with_file 289 i < 256
file_bytes i = ground arith

file_blocks :
    (k : ℕ)
    → k < 7
    → IsBlock (word_at (with_file (inodeidx2sector 5)) (64 * inodeidx2offset 5 + 24 + 4 * k))
unfolding inodeidx2sector inodeidx2offset
file_blocks zero lt = inr (omega arith, omega arith)
file_blocks (suc zero) lt = inr (omega arith, omega arith)
file_blocks (suc (suc k)) lt = inl (ground arith)

file_size : word_at (with_file (inodeidx2sector 5)) (64 * inodeidx2offset 5 + 8) ≤ 28672
unfolding inodeidx2sector inodeidx2offset
file_size = omega arith

free_inode-Freed_example : Freed card buffers with_file 5 (free_inode card buffers 5 file_here)
free_inode-Freed_example =
    free_inode-Freed card buffers with_file 5 file_here (inr (omega arith)) file_bytes map_bytes
      (omega arith) file_size file_blocks
      (init_bcache-Caches card buffers (record cached { disk = with_file }))
