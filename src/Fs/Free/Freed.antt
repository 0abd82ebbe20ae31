-- ===== src/Fs/Free/Freed.antt =====
-- The card after free_inode of an inode that has direct blocks only.
use oslab_2024fall.Prelude.{
  ℕ, ◌+◌, ◌-◌, ◌*◌, ◌/◌, ◌≤◌, ◌<◌, ◌≡◌, ◌≢◌, refl, true, false, Option, some, ◌==◌, ◌&&◌, not,
  Bool-cases, ltb, leb, arith, ◌⊎◌, inl, inr, ◌∙◌, sym,
}
use oslab_2024fall.Libs.Memory.{Memory, bzero, memset_lem}
use oslab_2024fall.Fs.Cache.{SdCard}
use oslab_2024fall.Fs.Cache.Caches.{Caches}
use oslab_2024fall.Fs.Cache.Rounds.{put_range, put_sector}
use oslab_2024fall.Fs.State.{Buffers, Fs, word_at}
use oslab_2024fall.Fs.Maps.{clear_map_bit, inodeidx2sector, inodeidx2offset}
use oslab_2024fall.Fs.Maps.Take.{read_sectors-state, write_sectors-state}
use oslab_2024fall.Fs.Files.{inode_at}
use oslab_2024fall.Fs.Create.NewFile.{Within}
use oslab_2024fall.Fs.Create.Frame.{
  offset-small, sector-low, sector-high, offsets-apart, inode_byte,
}
use oslab_2024fall.Mm.Bitmap.{is_allocated, unmark_page_free}
use oslab_2024fall.Mm.Bitmap.Search.{is_allocated-unmark}
use oslab_2024fall.Fs.Free.{clear_inode, free_inode}
use oslab_2024fall.Fs.Free.Bits.{has_block, Clears}
use oslab_2024fall.Fs.Free.Direct.{IsBlock, ApartMap, free_blocks-KeepsInode}

-- Words of two memories that agree in their four bytes.
word_at-move :
    (m mem : Memory) (a c : ℕ)
    → ((i : ℕ) → i < 4 → m (a + i) ≡ mem (c + i))
    → word_at m a ≡ word_at mem c
word_at-move m mem a c same =
    let ea : a + 0 ≡ a = omega arith in
    let ec : c + 0 ≡ c = omega arith in
    let first : m a ≡ mem c = rw (ea, ec) at (same 0 (omega arith)) in
    rw (first, same 1 (omega arith), same 2 (omega arith), same 3 (omega arith)) refl

module _ {D : Type 0} (sd : SdCard D) (b : Buffers) where
  -- A byte of the sector that was read.
  read_byte :
      (f : ℕ → ℕ → ℕ) (idx k : ℕ) (mem : Memory)
      → k < 512
      → put_sector b.inode_buffer (f (inodeidx2sector idx + 0)) mem (b.inode_buffer + k)
        ≡ f (inodeidx2sector idx) k
  read_byte f idx k mem less =
      let z : inodeidx2sector idx + 0 ≡ inodeidx2sector idx = omega arith in
      let at : b.inode_buffer + k - b.inode_buffer ≡ k = omega arith in
      let inside : (leb b.inode_buffer (b.inode_buffer + k)
            && ltb (b.inode_buffer + k) (b.inode_buffer + 512))
          ≡ true =
        ground arith in
      rw (z, at, inside) refl

  in_buffer : (o : ℕ) → o < 512 → Within (b.inode_buffer + o) b.inode_buffer 512
  in_buffer o less = (omega arith, omega arith)

  at_map : 289 ≤ 289
  at_map = omega arith

  -- A byte of the map of inodes that is read, with an inode written before.
  map_byte :
      (f2 : ℕ → ℕ → ℕ) (idx j : ℕ) (m3 mem : Memory)
      → j < 512
      → put_sector b.inode_map
          (put_range (inodeidx2sector idx) 1 b.inode_buffer m3 f2 (289 + 0))
          mem
          (b.inode_map + j)
        ≡ f2 289 j
  map_byte f2 idx j m3 mem less =
      let high = sector-high sd b idx in
      let e : b.inode_map + j - b.inode_map ≡ j = omega arith in ground (arith, e)

  -- The number of block `k` of an inode, and how many blocks it has, on the sectors of the card.
  abbrev pub block_on : (ℕ → ℕ → ℕ) → ℕ → ℕ → ℕ
  block_on f idx k = word_at (f (inodeidx2sector idx)) (64 * inodeidx2offset idx + 24 + 4 * k)

  abbrev pub blocks_on : (ℕ → ℕ → ℕ) → ℕ → ℕ
  blocks_on f idx =
      (word_at (f (inodeidx2sector idx)) (64 * inodeidx2offset idx + 8) + 4096 - 1) / 4096

  -- The card after free_inode: the inode is zeros, its bit and the bits of its blocks are clear;
  -- other inodes, other bits and all sectors outside the two maps and the inodes stay.
  pub record Freed (f : ℕ → ℕ → ℕ) (idx : ℕ) (r : Option (Fs D)) : Type 0 where
    pub after : Fs D
    pub sectors : ℕ → ℕ → ℕ
    pub is_some : r ≡ some after
    pub caches : Caches sd sectors after.cache
    pub cleared : (i : ℕ) → i < 64 → inode_byte sd b sectors idx i ≡ 0
    pub others :
        (other i : ℕ)
        → other < 4096
        → other ≢ idx
        → i < 64
        → inode_byte sd b sectors other i ≡ inode_byte sd b f other i
    pub bits :
        (q : ℕ)
        → q < 4096
        → is_allocated (sectors 289) q ≡ (not (idx == q) && is_allocated (f 289) q)
    pub block_bits :
        (q : ℕ)
        → q < 4096
        → is_allocated (sectors 288) q
          ≡ (not (has_block (blocks_on f idx) (block_on f idx) q) && is_allocated (f 288) q)
    pub outside : (t i : ℕ) → (t < 257) ⊎ (802 ≤ t) → sectors t i ≡ f t i

  -- The sectors after free_inode, from memory with the zeros of the inode and with the map.
  abbrev freed_sectors : (ℕ → ℕ → ℕ) → ℕ → Memory → Memory → ℕ → ℕ → ℕ
  freed_sectors f2 idx mem m5 =
      put_range 289 1 b.inode_map m5
        (put_range (inodeidx2sector idx) 1 b.inode_buffer (bzero (inode_at sd b idx) 64 mem) f2)

  freed_byte :
      (f2 : ℕ → ℕ → ℕ) (idx i : ℕ) (mem m5 : Memory)
      → idx < 4096
      → i < 64
      → inode_byte sd b (freed_sectors f2 idx mem m5) idx i ≡ 0
  unfolding bzero
  freed_byte f2 idx i mem m5 lt less =
      let high = sector-high sd b idx in
      let zero_here =
        memset_lem (inode_at sd b idx) 0 64 mem (b.inode_buffer + (64 * inodeidx2offset idx + i)) in
      ground (arith, zero_here)

  freed_others :
      (f f2 : ℕ → ℕ → ℕ) (idx other i : ℕ) (mem m5 : Memory)
      → idx < 4096
      → other < 4096
      → other ≢ idx
      → i < 64
      → ((o : ℕ) → o < 512 → mem (b.inode_buffer + o) ≡ f (inodeidx2sector idx) o)
      → ((t k : ℕ) → 289 ≤ t → f2 t k ≡ f t k)
      → inode_byte sd b (freed_sectors f2 idx mem m5) other i ≡ inode_byte sd b f other i
  unfolding bzero
  freed_others f f2 idx other i mem m5 lt lt' ne less held away =
      let high = sector-high sd b other in
      let out : (leb 289 (inodeidx2sector other) && ltb (inodeidx2sector other) (289 + 1)) ≡ false =
        ground arith in
      elim (Bool-cases (inodeidx2sector idx == inodeidx2sector other)) [
        | inl e ↦
            (let same : inodeidx2sector idx ≡ inodeidx2sector other = ground arith in
              let apart = offsets-apart sd b idx other lt lt' ne same in
              let small = offset-small sd b other in
              let o = 64 * inodeidx2offset other + i in
              let stays : bzero (inode_at sd b idx) 64 mem (b.inode_buffer + o)
                  ≡ mem (b.inode_buffer + o) =
                memset_lem (inode_at sd b idx) 0 64 mem (b.inode_buffer + o) ∙ ground arith in
              let inside : (leb (inodeidx2sector idx) (inodeidx2sector other)
                    && ltb (inodeidx2sector other) (inodeidx2sector idx + 1))
                  ≡ true =
                ground arith in
              rw (out, inside, stays, held o (omega arith), same) refl)
        | inr e ↦
            (let outside : (leb (inodeidx2sector idx) (inodeidx2sector other)
                    && ltb (inodeidx2sector other) (inodeidx2sector idx + 1))
                  ≡ false =
                ground arith in
              rw (out, outside)
                (away (inodeidx2sector other) (64 * inodeidx2offset other + i) (omega arith)))
      ]

  freed_bits :
      (f : ℕ → ℕ → ℕ) (idx q : ℕ) (m4 : Memory) (f3 : ℕ → ℕ → ℕ)
      → ((i : ℕ) → f 289 i < 256)
      → idx < 4096
      → q < 4096
      → ((j : ℕ) → j < 512 → m4 (b.inode_map + j) ≡ f 289 j)
      → is_allocated (put_range 289 1 b.inode_map (clear_map_bit b.inode_map idx m4) f3 289) q
        ≡ (not (idx == q) && is_allocated (f 289) q)
  unfolding is_allocated clear_map_bit unmark_page_free
  freed_bits f idx q m4 f3 bytes lt less map =
      let here = map (idx / 8) (omega arith) in
      let there = map (q / 8) (omega arith) in
      let byte : put_range 289 1 b.inode_map (clear_map_bit b.inode_map idx m4) f3 289 (q / 8)
          ≡ unmark_page_free idx (f 289) (q / 8) =
        ground (arith, here, there) in
      rw byte (is_allocated-unmark (f 289) idx q bytes)

  freed_outside :
      (f2 : ℕ → ℕ → ℕ) (idx t i : ℕ) (mem m5 : Memory)
      → idx < 4096
      → (t < 257) ⊎ (802 ≤ t)
      → freed_sectors f2 idx mem m5 t i ≡ f2 t i
  freed_outside f2 idx t i mem m5 lt out =
      let low = sector-low sd b idx lt in let high = sector-high sd b idx in ground arith

  freed_block_bits :
      (f f2 : ℕ → ℕ → ℕ) (idx q : ℕ) (mem m5 : Memory)
      → Clears (has_block (blocks_on f idx) (block_on f idx)) (f 288) (f2 288)
      → q < 4096
      → is_allocated (freed_sectors f2 idx mem m5 288) q
        ≡ (not (has_block (blocks_on f idx) (block_on f idx) q) && is_allocated (f 288) q)
  unfolding is_allocated
  freed_block_bits f f2 idx q mem m5 freed less =
      let high = sector-high sd b idx in
      let byte : freed_sectors f2 idx mem m5 288 (q / 8) ≡ f2 288 (q / 8) = ground arith in
      rw byte (freed.bits q less)

  clear_inode-Freed :
      (f f2 : ℕ → ℕ → ℕ) (idx : ℕ) (fs2 : Fs D)
      → ((i : ℕ) → f 289 i < 256)
      → idx < 4096
      → Caches sd f2 fs2.cache
      → ((o : ℕ) → o < 512 → fs2.mem (b.inode_buffer + o) ≡ f (inodeidx2sector idx) o)
      → ((t k : ℕ) → (t < 257) ⊎ (289 ≤ t) → f2 t k ≡ f t k)
      → Clears (has_block (blocks_on f idx) (block_on f idx)) (f 288) (f2 288)
      → Freed f idx (clear_inode sd b idx fs2)
  unfolding clear_inode
  clear_inode-Freed f f2 idx fs2 bytes lt r held kept freed =
      let away : (t k : ℕ) → 289 ≤ t → f2 t k ≡ f t k = λ t k le. kept t k (inr le) in
      let low = sector-low sd b idx lt in
      let m3 = bzero (inode_at sd b idx) 64 fs2.mem in
      let f3 = put_range (inodeidx2sector idx) 1 b.inode_buffer m3 f2 in
      let (c3, r3, e3) =
        write_sectors-state sd f2 1 b.inode_buffer (inodeidx2sector idx) (record fs2 { mem = m3 }) r
          (omega arith) in
      let fs3 : Fs D = record fs2 { mem = m3; cache = c3 } in
      let (c4, m4, r4, same4, e4) =
        read_sectors-state sd f3 0 b.inode_map 289 fs3 r3 (omega arith) in
      let m5 = clear_map_bit b.inode_map idx m4 in
      let (c5, r5, e5) =
        write_sectors-state sd f3 1 b.inode_map 289 (record fs3 { mem = m5; cache = c4 }) r4
          (omega arith) in
      let map : (j : ℕ) → j < 512 → m4 (b.inode_map + j) ≡ f 289 j =
        λ j less. same4 (b.inode_map + j) ∙ map_byte f2 idx j m3 fs3.mem less ∙ away 289 j at_map in
      record {
        after = record fs3 { mem = m5; cache = c5 };
        sectors = put_range 289 1 b.inode_map m5 f3;
        is_some = rw (clear_inode, e3, e4, e5) refl;
        caches = r5;
        cleared = λ i less. freed_byte f2 idx i fs2.mem m5 lt less;
        others = λ other i lt' ne less.
            freed_others f f2 idx other i fs2.mem m5 lt lt' ne less held away;
        bits = λ q less. freed_bits f idx q m4 f3 bytes lt less map;
        block_bits = λ q less. freed_block_bits f f2 idx q fs2.mem m5 freed less;
        outside = λ t i out.
            freed_outside f2 idx t i fs2.mem m5 lt out
            ∙ kept t i (elim out [ inl below ↦ inl below | inr above ↦ inr (omega arith) ]);
      }

  -- Over a cache that stands for the sectors f, when inode_buffer is apart from the map of
  -- blocks, the map of inodes and the last sector of the map of blocks hold bytes on the
  -- card, and the inode has a number below 4096, a size of at most 7 blocks and, as its first
  -- 7 blocks, only 0 or sectors from 802 to 1048825, which the 131003 blocks of data take,
  -- free_inode always succeeds. On the sectors that the cache stands for then, the 64 bytes
  -- of the inode are 0 and all other inodes are unchanged; the map of inodes has its bit
  -- clear and every other bit as before; of the 4096 bits in the last sector of the map of
  -- blocks, those of the blocks of the inode, as many as its size takes, are clear and all
  -- others as before; and the sectors before the map of blocks and from 802 on are unchanged.
  pub free_inode-Freed :
      (f : ℕ → ℕ → ℕ) (idx : ℕ) (fs : Fs D)
      → ApartMap sd b
      → ((i : ℕ) → f 289 i < 256)
      → ((i : ℕ) → i < 512 → f 288 i < 256)
      → idx < 4096
      → word_at (f (inodeidx2sector idx)) (64 * inodeidx2offset idx + 8) ≤ 28672
      → ((k : ℕ) → k < 7 → IsBlock (block_on f idx k))
      → Caches sd f fs.cache
      → Freed f idx (free_inode sd b idx fs)
  unfolding free_inode
  free_inode-Freed f idx fs apart bytes map_bytes lt size blocks r =
      let low = sector-low sd b idx lt in
      let high = sector-high sd b idx in
      let small = offset-small sd b idx in
      let inode = inode_at sd b idx in
      let (c1, m1, r1, same1, e1) =
        read_sectors-state sd f 0 b.inode_buffer (inodeidx2sector idx) fs r (omega arith) in
      let fs1 : Fs D = record fs { mem = m1; cache = c1 } in
      let at : (k : ℕ) → k < 512 → m1 (b.inode_buffer + k) ≡ f (inodeidx2sector idx) k =
        λ k less. same1 (b.inode_buffer + k) ∙ read_byte f idx k fs.mem less in
      let word : (k : ℕ)
          → k < 60
          → word_at m1 (inode + k)
            ≡ word_at (f (inodeidx2sector idx)) (64 * inodeidx2offset idx + k) =
        λ k less.
          word_at-move m1 (f (inodeidx2sector idx)) (inode + k) (64 * inodeidx2offset idx + k)
            (λ i lt4.
              let e : inode + k + i ≡ b.inode_buffer + (64 * inodeidx2offset idx + k + i) =
                omega arith in
              rw e (at (64 * inodeidx2offset idx + k + i) (omega arith))) in
      let count : (word_at m1 (inode + 8) + 4096 - 1) / 4096 ≡ blocks_on f idx =
        rw (word 8 (omega arith)) refl in
      let few : blocks_on f idx ≤ 7 = omega (arith, size) in
      let (fs2, f2, k2, freed, e2) =
        free_blocks-KeepsInode sd b f (block_on f idx) (blocks_on f idx) idx fs1 apart few
          (λ k less.
            let e : inode + 24 + 4 * k ≡ inode + (24 + 4 * k) = omega arith in
            let e' : 64 * inodeidx2offset idx + 24 + 4 * k
                ≡ 64 * inodeidx2offset idx + (24 + 4 * k) =
              omega arith in
            rw (e, word (24 + 4 * k) (omega arith), sym e') refl)
          (λ k less. blocks k (omega arith)) map_bytes r1 in
      let rest =
        clear_inode-Freed f f2 idx fs2 bytes lt k2.caches
          (λ o less. k2.memory (b.inode_buffer + o) (in_buffer o less) ∙ at o less) k2.sectors
          freed in
      rw (free_inode, e1, count, e2) rest
