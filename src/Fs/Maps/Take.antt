-- ===== src/Fs/Maps/Take.antt =====
-- What find_free_block does to the card that the cache stands for.
use oslab_2024fall.Prelude.{
  ℕ, suc, ◌+◌, ◌*◌, ◌/◌, ◌%◌, ◌⊎◌, ◌==◌, ◌^◌, ◌≤◌, ◌<◌, ◌≡◌, refl, Option, none, some, ◌&&◌, leb,
  ltb, arith, ◌∙◌, if◌then◌else◌,
}
use oslab_2024fall.Libs.Memory.{Memory, bzero, memset_lem}
use Prim.Native.Nat.{bit_or}
use oslab_2024fall.Mm.Bitmap.{set_bit}
use oslab_2024fall.Mm.Bitmap.Search.{Finds, scan_bytes-Finds}
use oslab_2024fall.Fs.Cache.{SdCard, Bcache}
use oslab_2024fall.Fs.Cache.Caches.{Caches}
use oslab_2024fall.Fs.Cache.Rounds.{put_range, put_sector, bwrite-Wrote, bread-ReadBack, Caches-ext}
use oslab_2024fall.Fs.State.{Buffers, Fs, block_size, read_sectors, write_sectors}
use oslab_2024fall.Fs.Maps.{
  find_free_block, take_block, take_found, set_map_bit, block2sector, data_block_num, bytes_from,
}

pub bzero-zeros : (a i : ℕ) (mem : Memory) → i < block_size → bzero a block_size mem (a + i) ≡ 0
unfolding bzero
bzero-zeros a i mem lt = memset_lem a 0 block_size mem (a + i) ∙ ground arith

module _ {D : Type 0} (sd : SdCard D) where
  -- A write of sectors on the state.
  pub write_sectors-state :
      (f : ℕ → ℕ → ℕ) (n mem_va first : ℕ) (fs : Fs D)
      → Caches sd f fs.cache
      → first + n ≤ 2 ^ 32
      → (c : Bcache D) × Caches sd (put_range first n mem_va fs.mem f) c
        × (write_sectors sd mem_va n first fs ≡ some (record fs { cache = c }))
  unfolding write_sectors
  write_sectors-state f n mem_va first fs r le =
      let w = bwrite-Wrote sd f n mem_va first fs.mem fs.cache r le in
      (w.after, w.caches, rw (write_sectors, w.is_some) refl)

  pub read_sectors-state :
      (f : ℕ → ℕ → ℕ) (n mem_va first : ℕ) (fs : Fs D)
      → Caches sd f fs.cache
      → first + suc n ≤ 2 ^ 32
      → (c : Bcache D) × (m : Memory) × Caches sd f c
        × ((a : ℕ) → m a ≡ put_sector mem_va (f (first + n)) fs.mem a)
        × (read_sectors sd mem_va (suc n) first fs ≡ some (record fs { mem = m; cache = c }))
  unfolding read_sectors
  read_sectors-state f n mem_va first fs r le =
      let w = bread-ReadBack sd f n mem_va first fs.mem fs.cache r le in
      (w.after, w.memory, w.caches, w.same, rw (read_sectors, w.is_some) refl)

  module _ (b : Buffers) (f : ℕ → ℕ → ℕ) where
    -- The card after block `idx` was taken by the map in memory `m`: every sector of the map holds the
    -- first 512 bytes of the map in memory, and the block holds zeros.
    abbrev pub taken : ℕ → Memory → ℕ → ℕ → ℕ
    taken idx m t i =
        if leb (block2sector idx) t && ltb t (block2sector idx + 8)
        then 0
        else put_range 257 32 b.block_map (set_map_bit b.block_map idx m) f t i

    take_block-taken :
        (idx : ℕ) (fs : Fs D)
        → idx < data_block_num
        → Caches sd f fs.cache
        → (after : Fs D) × Caches sd (taken idx fs.mem) after.cache
          × (take_block sd b idx fs ≡ some (some (block2sector idx), after))
    unfolding take_block
    take_block-taken idx fs lt r =
        let marked : Fs D = record fs { mem = set_map_bit b.block_map idx fs.mem } in
        let (c1, r1, e1) = write_sectors-state f 32 b.block_map 257 marked r (omega arith) in
        let zeroed : Fs D = record marked {
          cache = c1;
          mem = bzero b.rdata_buffer block_size marked.mem;
        } in
        let (c2, r2, e2) =
          write_sectors-state _ 8 b.rdata_buffer (block2sector idx) zeroed r1 (omega arith) in
        (
          record zeroed { cache = c2 },
          Caches-ext sd _ _ c2
              (λ t i small. ground (arith, bzero-zeros b.rdata_buffer i marked.mem (omega arith)))
              r2,
          rw (take_block, e1, e2) refl,
        )

  -- The sectors `g` after the search, from the sectors `f` and memory `m` with the map: block `found` is
  -- zeros, the bit of it is set in the bytes of every sector of the map, and nothing else changed.
  abbrev pub TookSays : Buffers → (ℕ → ℕ → ℕ) → Memory → (ℕ → ℕ → ℕ) → Option ℕ → Type 0
  TookSays b f m g none = (t i : ℕ) → g t i ≡ f t i
  TookSays b f m g (some idx) =
      ((t i : ℕ) → 802 + 8 * idx ≤ t → t < 802 + 8 * idx + 8 → g t i ≡ 0)
      × ((t i : ℕ)
          → 257 ≤ t
          → t < 289
          → g t i ≡ (
              if i == idx / 8
              then bit_or (m (b.block_map + i)) (2 ^ (idx % 8))
              else m (b.block_map + i)))
      × ((t i : ℕ)
          → (t < 257) ⊎ ((289 ≤ t) × (t < 802 + 8 * idx)) ⊎ (802 + 8 * idx + 8 ≤ t)
          → g t i ≡ f t i)

  taken-says :
      (b : Buffers) (f : ℕ → ℕ → ℕ) (idx : ℕ) (m : Memory)
      → TookSays b f m (taken b f idx m) (some idx)
  unfolding set_map_bit set_bit
  taken-says b f idx m =
      (λ t i lo hi. ground arith, λ t i lo hi. ground arith, λ t i out. ground arith)

  -- What find_free_block says, by its result: `m` is memory with the map as it was read.
  pub record Took (b : Buffers) (f : ℕ → ℕ → ℕ) (fs : Fs D) (r : Option (Option ℕ × Fs D))
      : Type 0 where
    pub m : Memory
    pub is_read : (a : ℕ) → m a ≡ put_sector b.block_map (f 288) fs.mem a
    pub found : Option ℕ
    pub least : Finds (bytes_from b.block_map m) data_block_num 0 found
    pub after : Fs D
    pub is_some : r ≡ some (elim found [ none ↦ none | some idx ↦ some (802 + 8 * idx) ], after)
    pub sectors : ℕ → ℕ → ℕ
    pub caches : Caches sd sectors after.cache
    pub says : TookSays b f m sectors found

  took :
      (b : Buffers) (f : ℕ → ℕ → ℕ) (fs : Fs D) (c : Bcache D) (m : Memory) (found : Option ℕ)
      → ((a : ℕ) → m a ≡ put_sector b.block_map (f 288) fs.mem a)
      → Caches sd f c
      → Finds (bytes_from b.block_map m) data_block_num 0 found
      → Took b f fs (take_found sd b found (record fs { mem = m; cache = c }))
  unfolding take_found
  took b f fs c m none same r least = record {
    m = m;
    is_read = same;
    found = none;
    least = least;
    after = record fs { mem = m; cache = c };
    is_some = refl;
    sectors = f;
    caches = r;
    says = λ t i. refl;
  }
  took b f fs c m (some idx) same r least =
      let (after, r', e) =
        take_block-taken b f idx (record fs { mem = m; cache = c }) (least.1) r in
      record {
        m = m;
        is_read = same;
        found = some idx;
        least = least;
        after = after;
        is_some =
            e
            ∙ (let same_sector : block2sector idx ≡ 802 + 8 * idx = omega arith in
                rw same_sector refl);
        sectors = taken b f idx m;
        caches = r';
        says = taken-says b f idx m;
      }

  -- Over a cache that stands for the sectors f, find_free_block never meets a null buffer.
  -- With the first 512 bytes of block_map read from the last sector of the map, it returns
  -- the first sector, 802 + 8 * idx, of the least block of data idx whose bit is clear, or -1
  -- when every block has its bit set. In the first case the cache stands for f with the 8
  -- sectors of that block all zeros and with each of the 32 sectors of the map equal to the
  -- first 512 bytes of block_map with bit idx % 8 set in byte idx / 8; in the second case it
  -- stands for f.
  pub find_free_block-Took :
      (b : Buffers) (f : ℕ → ℕ → ℕ) (fs : Fs D)
      → Caches sd f fs.cache
      → Took b f fs (find_free_block sd b fs)
  unfolding find_free_block
  find_free_block-Took b f fs r =
      let (c, m, r', same, e) = read_sectors-state f 31 b.block_map 257 fs r (omega arith) in
      rw (find_free_block, e)
        (took b f fs c m _ same r'
          (scan_bytes-Finds (bytes_from b.block_map m) data_block_num 0 16384 (omega arith)))
