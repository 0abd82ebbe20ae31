-- ===== src/Fs/Cache.antt =====
-- The sector cache of kernel/fs/fs.c: find_free_buf, search_buf, brefill, bwrite, bread, bflush.
pub mod Caches
pub mod Refill
pub mod Found
pub mod Rounds
pub mod Flush
use oslab_2024fall.Prelude.{
  ℕ, zero, suc, ◌+◌, ◌-◌, ◌%◌, ◌^◌, ◌<◌, ◌≡◌, ◌≢◌, Bool, true, false, Option, none, some, List, [],
  ◌∷◌, ◌==◌, ◌&&◌, not, ltb, leb, if◌then◌else◌, erase,
}
use oslab_2024fall.Prelude.Table.{update}
use oslab_2024fall.Prelude.Seq.{first_from}
use oslab_2024fall.Libs.Memory.{Memory}

abbrev pub sector_size : ℕ
sector_size = 512

abbrev pub nbuf : ℕ
nbuf = 0x5000

-- The SD card behind bios_sd_read and bios_sd_write: reading a sector gives what was written last.
pub record SdCard (D : Type 0) : Type 0 where
  pub read : D → ℕ → ℕ → ℕ
  pub write : D → ℕ → (ℕ → ℕ) → D
  pub read_same :
      (d : D) (sector : ℕ) (bytes : ℕ → ℕ) (i : ℕ)
      → i < sector_size
      → read (write d sector bytes) sector i ≡ bytes i
  pub read_other :
      (d : D) (sector t : ℕ) (bytes : ℕ → ℕ) (i : ℕ)
      → sector ≢ t
      → read (write d sector bytes) t i ≡ read d t i

pub record Buf : Type 0 where
  pub valid : ℕ
  pub dirty : ℕ
  pub sectorid : ℕ
  pub bytes : ℕ → ℕ

pub data Policy : Type 0 where
  bwrite_back : Policy
  bwrite_through : Policy

-- `lru` is the ring of `head`, `head.next` first.
pub record Bcache (D : Type 0) : Type 0 where
  pub buf : ℕ → Buf
  pub lru : List ℕ
  pub disk : D
  pub policy : Policy

abbrev pub is_dirty : Buf → Bool
is_dirty b = not (b.dirty == 0)

-- `head.prev`, the end of the ring.
unfoldable pub last : List ℕ → Option ℕ
last [] = none
last (b ∷ []) = some b
last (b ∷ c ∷ rest) = last (c ∷ rest)

-- The walk of search_buf over the ring.
unfoldable pub search_in : (ℕ → Buf) → List ℕ → ℕ → Option ℕ
search_in buf [] sectorid = none
search_in buf (b ∷ rest) sectorid =
    if (buf b).valid == 1 && (buf b).sectorid == sectorid
    then some b
    else search_in buf rest sectorid

module _ {D : Type 0} (sd : SdCard D) where
  abbrev pub set_buf : ℕ → Buf → Bcache D → Bcache D
  set_buf b p c = record c { buf = update c.buf b p }

  -- A dirty buffer is written to the card and is clean then.
  unfoldable pub flush_buf : ℕ → Bcache D → Bcache D
  flush_buf b c =
      if is_dirty (c.buf b)
      then set_buf b (record (c.buf b) { dirty = 0 })
          (record c { disk = sd.write c.disk (c.buf b).sectorid (c.buf b).bytes })
      else c

  -- The least recently filled buffer is written back and taken out of the ring.
  unfoldable pub evict : ℕ → Bcache D → Bcache D
  unfolding flush_buf
  evict b c =
      let c1 = flush_buf b c in
      record (set_buf b (record (c1.buf b) { valid = 0; sectorid = 0 }) c1) { lru = erase b c1.lru }

  unfoldable pub find_free_buf : Bcache D → Option ℕ × Bcache D
  unfolding evict last first_from
  find_free_buf c = elim (first_from (λ i. (c.buf i).valid == 0) nbuf 0) [
    | some b ↦ (some b, c)
    | none ↦ elim (last c.lru) [ some b ↦ (some b, evict b c) | none ↦ (none, c) ]
  ]

  unfoldable pub search_buf : ℕ → Bcache D → Option ℕ
  unfolding search_in
  search_buf sectorid c = search_in c.buf c.lru sectorid

  -- The buffer gets the sector from the card and is put at the head of the ring.
  unfoldable pub fill : ℕ → ℕ → Bcache D → Bcache D
  fill b sectorid c =
      record (set_buf b
        (record {
          valid = 1;
          dirty = 0;
          sectorid = sectorid;
          bytes = λ i. if ltb i sector_size then sd.read c.disk sectorid i else (c.buf b).bytes i;
        })
        c) { lru = b ∷ c.lru }

  unfoldable pub brefill : ℕ → Bcache D → Option ℕ × Bcache D
  unfolding find_free_buf fill
  brefill sectorid c =
      let (found, c1) = find_free_buf c in
      elim found [ some b ↦ (some b, fill b sectorid c1) | none ↦ (none, c1) ]

  -- `buf = search_buf(sectorid); if (buf == NULL) buf = brefill(sectorid);`
  unfoldable pub get_buf : ℕ → Bcache D → Option ℕ × Bcache D
  unfolding search_buf brefill
  get_buf sectorid c = elim (search_buf sectorid c) [
    | some b ↦ (some b, c)
    | none ↦ brefill sectorid c
  ]

  -- memcpy from memory into a buffer, and what the policy does next.
  unfoldable pub write_buf : ℕ → ℕ → ℕ → Memory → Bcache D → Bcache D
  write_buf b mem_va sectorid mem c =
      let bytes : ℕ → ℕ = λ i. if ltb i sector_size then mem (mem_va + i) else (c.buf b).bytes i in
      elim c.policy [
        | bwrite_through ↦ record (set_buf b (record (c.buf b) { bytes = bytes }) c) {
          disk = sd.write c.disk sectorid bytes;
        }
        | bwrite_back ↦ set_buf b (record (c.buf b) { bytes = bytes; dirty = 1 }) c
      ]

  -- memcpy from a buffer into memory.
  unfoldable pub read_buf : ℕ → ℕ → Memory → Bcache D → Memory
  read_buf b mem_va mem c a =
      if leb mem_va a && ltb a (mem_va + sector_size) then (c.buf b).bytes (a - mem_va) else mem a

  -- One round of bwrite; `none` is the write through a null pointer.
  unfoldable pub bwrite_round : ℕ → ℕ → Memory → Bcache D → Option (Bcache D)
  unfolding get_buf write_buf
  bwrite_round mem_va sectorid mem c =
      let (found, c1) = get_buf sectorid c in
      elim found [ some b ↦ some (write_buf b mem_va sectorid mem c1) | none ↦ none ]

  unfoldable pub bread_round : ℕ → ℕ → Memory → Bcache D → Option (Memory × Bcache D)
  unfolding get_buf read_buf
  bread_round mem_va sectorid mem c =
      let (found, c1) = get_buf sectorid c in
      elim found [ some b ↦ some (read_buf b mem_va mem c1, c1) | none ↦ none ]

  -- The loops of bwrite and bread, `n` rounds from `i`; `mem_va` stays the same in all of them.
  unfoldable pub bwrite_from : ℕ → ℕ → ℕ → ℕ → Memory → Bcache D → Option (Bcache D)
  bwrite_from zero i mem_va sectorid mem c = some c
  bwrite_from (suc n) i mem_va sectorid mem c =
      elim (bwrite_round mem_va ((sectorid + i) % 2 ^ 32) mem c) [
        | some c1 ↦ bwrite_from n (i + 1) mem_va sectorid mem c1
        | none ↦ none
      ]

  unfoldable pub bread_from : ℕ → ℕ → ℕ → ℕ → Memory → Bcache D → Option (Memory × Bcache D)
  bread_from zero i mem_va sectorid mem c = some (mem, c)
  bread_from (suc n) i mem_va sectorid mem c =
      elim (bread_round mem_va ((sectorid + i) % 2 ^ 32) mem c) [
        | some (mem1, c1) ↦ bread_from n (i + 1) mem_va sectorid mem1 c1
        | none ↦ none
      ]

  unfoldable pub bwrite : ℕ → ℕ → ℕ → Memory → Bcache D → Option (Bcache D)
  bwrite mem_va nsectors sectorid mem c = bwrite_from nsectors 0 mem_va sectorid mem c

  unfoldable pub bread : ℕ → ℕ → ℕ → Memory → Bcache D → Option (Memory × Bcache D)
  bread mem_va nsectors sectorid mem c = bread_from nsectors 0 mem_va sectorid mem c

  -- The walk of bflush over the ring.
  unfoldable pub flush_all : List ℕ → Bcache D → Bcache D
  flush_all [] c = c
  flush_all (b ∷ rest) c = flush_all rest (flush_buf b c)

  unfoldable pub bflush : Bcache D → Bcache D
  bflush c = flush_all c.lru c
