-- ===== src/Fs/Create/FreeInode.antt =====
-- find_free_inode keeps the directory, and finds by the map on the card.
use oslab_2024fall.Prelude.{ℕ, ◌+◌, ◌-◌, ◌/◌, ◌<◌, ◌≡◌, refl, Option, none, some, arith, ◌∙◌, sym}
use oslab_2024fall.Prelude.Maybe.{◌>>=◌}
use oslab_2024fall.Mm.Bitmap.{scan_bytes, is_allocated}
use oslab_2024fall.Mm.Bitmap.Search.{Finds, scan_bytes-Finds}
use oslab_2024fall.Fs.Cache.{SdCard}
use oslab_2024fall.Fs.Cache.Caches.{Caches}
use oslab_2024fall.Fs.Cache.Rounds.{put_range}
use oslab_2024fall.Fs.State.{Buffers, Fs, write_sectors}
use oslab_2024fall.Fs.Maps.{find_free_inode, set_map_bit, bytes_from}
use oslab_2024fall.Fs.Maps.Take.{read_sectors-state, write_sectors-state}
use oslab_2024fall.Fs.Create.Frame.{Apart, Keeps, Keeps-trans, put_sector-Outside, with_memory}

-- The scan of a map depends on its 512 bytes.
Finds-ext :
    (map map' : ℕ → ℕ) (found : Option ℕ)
    → ((i : ℕ) → i < 512 → map i ≡ map' i)
    → Finds map 4096 0 found
    → Finds map' 4096 0 found
unfolding is_allocated
Finds-ext map map' none same all = λ q lo lt. rw (sym (same (q / 8) (omega arith))) (all q lo lt)
Finds-ext map map' (some p) same (lo, lt, clear, least) = (
  lo,
  lt,
  rw (sym (same (p / 8) (omega arith))) clear,
  λ q l u. rw (sym (same (q / 8) (omega arith))) (least q l u),
)

module _ {D : Type 0} (sd : SdCard D) (b : Buffers) where
  -- find_free_inode after the scan.
  abbrev mark_found : Option ℕ → Fs D → Option (Option ℕ × Fs D)
  mark_found found read = elim found [
    | none ↦ some (none, read)
    | some inode_idx ↦ (do
      done ←
          write_sectors sd b.inode_map 1 289
            (record read { mem = set_map_bit b.inode_map inode_idx read.mem })
      some (some inode_idx, done))
  ]

  mark_found-Keeps :
      (f : ℕ → ℕ → ℕ) (found : Option ℕ) (read : Fs D)
      → Apart b
      → Finds (bytes_from b.inode_map read.mem) 4096 0 found
      → Caches sd f read.cache
      → (fs1 : Fs D) × (f1 : ℕ → ℕ → ℕ) × Keeps sd b f read f1 fs1
        × (mark_found found read ≡ some (found, fs1))
  unfolding set_map_bit
  mark_found-Keeps f none read apart least r =
      (read, f, with_memory sd b f read read.mem r (λ a kept. refl), refl)
  mark_found-Keeps f (some idx) read apart least r =
      let bound = least.1 in
      let m = set_map_bit b.inode_map idx read.mem in
      let (c, r', e) =
        write_sectors-state sd f 1 b.inode_map 289 (record read { mem = m }) r (omega arith) in
      let k1 = with_memory sd b f read m r (λ a kept. let out = apart.map a kept in ground arith) in
      (
        record read { mem = m; cache = c },
        put_range 289 1 b.inode_map m f,
        record { caches = r'; memory = k1.memory; sectors = λ t i high. ground arith },
        rw e refl,
      )

  pub find_free_inode-Keeps :
      (f : ℕ → ℕ → ℕ) (fs : Fs D)
      → Apart b
      → Caches sd f fs.cache
      → (found : Option ℕ) × (fs1 : Fs D) × (f1 : ℕ → ℕ → ℕ) × Keeps sd b f fs f1 fs1
        × Finds (f 289) 4096 0 found
        × (find_free_inode sd b fs ≡ some (found, fs1))
  unfolding find_free_inode
  find_free_inode-Keeps f fs apart r =
      let (c, m, r', same, e) = read_sectors-state sd f 0 b.inode_map 289 fs r (omega arith) in
      let read : Fs D = record fs { mem = m; cache = c } in
      let found = scan_bytes (bytes_from b.inode_map m) 4096 0 512 in
      let k1 : Keeps sd b f fs f read = record {
        caches = r';
        memory = λ a kept.
            same a ∙ put_sector-Outside b.inode_map (f (289 + 0)) fs.mem a (apart.map a kept);
        sectors = λ t i high. refl;
      } in
      let least = scan_bytes-Finds (bytes_from b.inode_map m) 4096 0 512 (omega arith) in
      let (fs1, f1, k2, e2) = mark_found-Keeps f found read apart least r' in
      let on_card : (i : ℕ) → i < 512 → bytes_from b.inode_map m i ≡ f 289 i = λ i lt.
        same (b.inode_map + i)
        ∙ (let e : b.inode_map + i - b.inode_map ≡ i = omega arith in ground (arith, e)) in
      (
        found,
        fs1,
        f1,
        Keeps-trans sd b f fs f read f1 fs1 k1 k2,
        Finds-ext (bytes_from b.inode_map m) (f 289) found on_card least,
        rw (find_free_inode, e) e2,
      )
