-- ===== src/Tests/Blocks.antt =====
-- The maps, the blocks and the positions of files, over the cache of Tests/Files.
use oslab_2024fall.Prelude.{ℕ, refl, arith, ◌==◌, if◌then◌else◌}
use oslab_2024fall.Fs.State.{Buffers, Fs}
use oslab_2024fall.Fs.Maps.{find_free_block}
use oslab_2024fall.Fs.Maps.Take.{Took, find_free_block-Took}
use oslab_2024fall.Fs.Blocks.{path_of}
use oslab_2024fall.Fs.Blocks.Path.{PathSays, path_of-says}
use oslab_2024fall.Fs.Files.{do_lseek}
use oslab_2024fall.Fs.Files.Seek.{Sought, do_lseek-Sought}
use oslab_2024fall.Tests.Files.{card, sectors, cached, cached-Caches}

abbrev pub buffers : Buffers
buffers = record {
  inode_map = 0x1000;
  block_map = 0x2000;
  inode_buffer = 0x8000;
  rdata_buffer = 0x9000;
  wdata_buffer = 0xa000;
  dentry_buffer = 0xb000;
  superblock_buffer = 0xc000;
  wd_inode = 0xd000;
}

-- File 3 is open, at position 40.
abbrev pub opened : Fs (ℕ → ℕ → ℕ)
opened = record {
  mem = λ a. 0;
  cache = cached;
  fdesc_array = λ fd. record {
    mode = 3;
    valid = if fd == 3 then 1 else 0;
    ino = 5;
    read_pos = 40;
    write_pos = 40;
  };
  root_ino = 0;
  write_back_freq = 30;
}

find_free_block-Took_example :
    Took card buffers sectors opened (find_free_block card buffers opened)
find_free_block-Took_example = find_free_block-Took card buffers sectors opened cached-Caches

do_lseek-Sought_example :
    Sought card buffers sectors 3 10 2 opened (do_lseek card buffers 3 10 2 opened)
do_lseek-Sought_example =
    do_lseek-Sought card buffers sectors 3 10 2 opened refl (omega arith) cached-Caches

path_of-says_example : PathSays 5000 (path_of 5000)
path_of-says_example = path_of-says 5000
