-- ===== src/Fs/Create/Frame.antt =====
-- What the steps of do_touch leave as it is: the entries in dentry_buffer, the number and the block of
-- the working directory, the sectors of data and those before the map of the inodes.
use oslab_2024fall.Prelude.{
  ℕ, ◌+◌, ◌-◌, ◌*◌, ◌≤◌, ◌<◌, ◌≡◌, ◌≢◌, refl, true, false, some, ◌==◌, ◌&&◌, Bool-cases, ltb, leb,
  arith, ◌⊎◌, inl, inr, ◌∙◌,
}
use oslab_2024fall.Libs.Memory.{Memory}
use oslab_2024fall.Fs.Cache.{SdCard}
use oslab_2024fall.Fs.Cache.Caches.{Caches}
use oslab_2024fall.Fs.Cache.Rounds.{put_range, put_sector}
use oslab_2024fall.Fs.State.{Buffers, Fs, word_at, put_word}
use oslab_2024fall.Fs.Maps.{inodeidx2sector, inodeidx2offset}
use oslab_2024fall.Fs.Maps.Take.{read_sectors-state, write_sectors-state}
use oslab_2024fall.Fs.Files.{inode_at, load_inode}
use oslab_2024fall.Fs.Inodes.{
  it_file, new_inode, put_half, put_struct, struct_at, store_inode, replace_inode, update_wd, Bytes,
}
use oslab_2024fall.Fs.Dirs.Entries.{word_at-ext}
use oslab_2024fall.Fs.Create.{create_inode}
use oslab_2024fall.Fs.Create.NewFile.{
  Within, Outside, IsNewFile, IsNewFile-ext, new_inode-Outside, new_inode-IsNewFile,
}

-- The addresses that the steps keep.
abbrev pub IsKept : Buffers → ℕ → Type 0
IsKept b a =
    Within a b.dentry_buffer 4096 ⊎ Within a (b.wd_inode + 4) 4 ⊎ Within a (b.wd_inode + 24) 4

-- The static buffers are apart from each other.
pub record Apart (b : Buffers) : Type 0 where
  pub map : (a : ℕ) → IsKept b a → Outside a b.inode_map 512
  pub inode : (a : ℕ) → IsKept b a → Outside a b.inode_buffer 512
  pub wd : (b.wd_inode + 64 ≤ b.dentry_buffer) ⊎ (b.dentry_buffer + 4096 ≤ b.wd_inode)

pub put_sector-Outside :
    (x : ℕ) (bytes : ℕ → ℕ) (mem : Memory) (a : ℕ)
    → Outside a x 512
    → put_sector x bytes mem a ≡ mem a
put_sector-Outside x bytes mem a out = ground arith

module _ {D : Type 0} (sd : SdCard D) (b : Buffers) where
  -- From a state over the sectors f to one over f1.
  pub record Keeps (f : ℕ → ℕ → ℕ) (fs : Fs D) (f1 : ℕ → ℕ → ℕ) (fs1 : Fs D) : Type 0 where
    pub caches : Caches sd f1 fs1.cache
    pub memory : (a : ℕ) → IsKept b a → fs1.mem a ≡ fs.mem a
    pub sectors : (t i : ℕ) → (802 ≤ t) ⊎ (t < 289) → f1 t i ≡ f t i

  pub Keeps-trans :
      (f : ℕ → ℕ → ℕ) (fs : Fs D) (f1 : ℕ → ℕ → ℕ) (fs1 : Fs D) (f2 : ℕ → ℕ → ℕ) (fs2 : Fs D)
      → Keeps f fs f1 fs1
      → Keeps f1 fs1 f2 fs2
      → Keeps f fs f2 fs2
  Keeps-trans f fs f1 fs1 f2 fs2 k1 k2 = record {
    caches = k2.caches;
    memory = λ a kept. k2.memory a kept ∙ k1.memory a kept;
    sectors = λ t i high. k2.sectors t i high ∙ k1.sectors t i high;
  }

  pub sector-low : (idx : ℕ) → idx < 4096 → inodeidx2sector idx < 802
  unfolding inodeidx2sector
  sector-low idx lt = omega arith

  pub sector-high : (idx : ℕ) → 290 ≤ inodeidx2sector idx
  unfolding inodeidx2sector
  sector-high idx = omega arith

  pub offset-small : (idx : ℕ) → inodeidx2offset idx < 8
  unfolding inodeidx2offset
  offset-small idx = omega arith

  pub load_inode-Keeps :
      (f : ℕ → ℕ → ℕ) (idx : ℕ) (fs : Fs D)
      → Apart b
      → idx < 4096
      → Caches sd f fs.cache
      → (fs1 : Fs D) × Keeps f fs f fs1
        × ((i : ℕ) → i < 512 → fs1.mem (b.inode_buffer + i) ≡ f (inodeidx2sector idx) i)
        × (load_inode sd b idx fs ≡ some fs1)
  load_inode-Keeps f idx fs apart lt r =
      let low = sector-low idx lt in
      let (c, m, r', same, e) =
        read_sectors-state sd f 0 b.inode_buffer (inodeidx2sector idx) fs r (omega arith) in
      (
        record fs { mem = m; cache = c },
        record {
          caches = r';
          memory = λ a kept.
              same a
              ∙ put_sector-Outside b.inode_buffer (f (inodeidx2sector idx + 0)) fs.mem a
                  (apart.inode a kept);
          sectors = λ t i high. refl;
        },
        λ i less.
            (let z : inodeidx2sector idx + 0 ≡ inodeidx2sector idx = omega arith in
              let at : b.inode_buffer + i - b.inode_buffer ≡ i = omega arith in
              let inside : (leb b.inode_buffer (b.inode_buffer + i)
                    && ltb (b.inode_buffer + i) (b.inode_buffer + 512))
                  ≡ true =
                ground arith in
              same (b.inode_buffer + i) ∙ rw (z, at, inside) refl),
        e,
      )

  store_inode-Keeps :
      (f : ℕ → ℕ → ℕ) (idx : ℕ) (fs : Fs D)
      → idx < 4096
      → Caches sd f fs.cache
      → (fs1 : Fs D) × (f1 : ℕ → ℕ → ℕ) × Keeps f fs f1 fs1
        × ((t i : ℕ) → f1 t i ≡ put_range (inodeidx2sector idx) 1 b.inode_buffer fs.mem f t i)
        × (store_inode sd b idx fs ≡ some fs1)
  store_inode-Keeps f idx fs lt r =
      let low = sector-low idx lt in
      let above = sector-high idx in
      let (c, r', e) =
        write_sectors-state sd f 1 b.inode_buffer (inodeidx2sector idx) fs r (omega arith) in
      (
        record fs { cache = c },
        put_range (inodeidx2sector idx) 1 b.inode_buffer fs.mem f,
        record { caches = r'; memory = λ a kept. refl; sectors = λ t i high. ground arith },
        λ t i. refl,
        e,
      )

  -- Other memory that agrees where it is kept.
  pub with_memory :
      (f : ℕ → ℕ → ℕ) (fs : Fs D) (m : Memory)
      → Caches sd f fs.cache
      → ((a : ℕ) → IsKept b a → m a ≡ fs.mem a)
      → Keeps f fs f (record fs { mem = m })
  with_memory f fs m r same = record { caches = r; memory = same; sectors = λ t i high. refl }

  -- A byte of an inode on the card.
  abbrev pub inode_byte : (ℕ → ℕ → ℕ) → ℕ → ℕ → ℕ
  inode_byte f idx i = f (inodeidx2sector idx) (64 * inodeidx2offset idx + i)

  -- Two inodes of one sector have other places in it.
  pub offsets-apart :
      (idx other : ℕ)
      → idx < 4096
      → other < 4096
      → other ≢ idx
      → inodeidx2sector idx ≡ inodeidx2sector other
      → inodeidx2offset idx ≢ inodeidx2offset other
  unfolding inodeidx2sector inodeidx2offset
  offsets-apart idx other lt lt' ne same = ground arith

  replace_others :
      (f : ℕ → ℕ → ℕ) (idx other i : ℕ) (inode : Bytes) (mem : Memory)
      → idx < 4096
      → other < 4096
      → other ≢ idx
      → i < 64
      → ((k : ℕ) → k < 512 → mem (b.inode_buffer + k) ≡ f (inodeidx2sector idx) k)
      → put_range
          (inodeidx2sector idx)
          1
          b.inode_buffer
          (put_struct 64 (inode_at sd b idx) inode mem)
          f
          (inodeidx2sector other)
          (64 * inodeidx2offset other + i)
        ≡ inode_byte f other i
  replace_others f idx other i inode mem lt lt' ne less at =
      elim (Bool-cases (inodeidx2sector idx == inodeidx2sector other)) [
        | inl e ↦
            (let same : inodeidx2sector idx ≡ inodeidx2sector other = ground arith in
              let apart = offsets-apart idx other lt lt' ne same in
              let small = offset-small other in
              let o = 64 * inodeidx2offset other + i in
              let out : (leb (inode_at sd b idx) (b.inode_buffer + o)
                    && ltb (b.inode_buffer + o) (inode_at sd b idx + 64))
                  ≡ false =
                ground arith in
              let inside : (leb (inodeidx2sector idx) (inodeidx2sector other)
                    && ltb (inodeidx2sector other) (inodeidx2sector idx + 1))
                  ≡ true =
                ground arith in
              rw (inside, out, at o (omega arith), same) refl)
        | inr e ↦
            (let out : (leb (inodeidx2sector idx) (inodeidx2sector other)
                    && ltb (inodeidx2sector other) (inodeidx2sector idx + 1))
                  ≡ false =
                ground arith in
              rw out refl)
      ]

  replace_inode-Keeps :
      (f : ℕ → ℕ → ℕ) (idx : ℕ) (inode : Bytes) (fs : Fs D)
      → Apart b
      → idx < 4096
      → Caches sd f fs.cache
      → (fs1 : Fs D) × (f1 : ℕ → ℕ → ℕ) × Keeps f fs f1 fs1
        × ((other i : ℕ)
            → other < 4096
            → other ≢ idx
            → i < 64
            → inode_byte f1 other i ≡ inode_byte f other i)
        × (replace_inode sd b idx inode fs ≡ some fs1)
  unfolding replace_inode
  replace_inode-Keeps f idx inode fs apart lt r =
      let (read, k1, read_at, e1) = load_inode-Keeps f idx fs apart lt r in
      let small = offset-small idx in
      let m = put_struct 64 (inode_at sd b idx) inode read.mem in
      let k2 =
        with_memory f read m k1.caches (λ a kept. let out = apart.inode a kept in ground arith) in
      let (fs1, f1, k3, put, e3) = store_inode-Keeps f idx (record read { mem = m }) lt k1.caches in
      (
        fs1,
        f1,
        Keeps-trans f fs f read f1 fs1 k1
            (Keeps-trans f read f (record read { mem = m }) f1 fs1 k2 k3),
        λ other i lt' ne less.
            put (inodeidx2sector other) (64 * inodeidx2offset other + i)
            ∙ replace_others f idx other i inode read.mem lt lt' ne less read_at,
        rw (replace_inode, e1, e3) refl,
      )

  -- A byte of the inode that is stored.
  stored_byte :
      (f : ℕ → ℕ → ℕ) (idx k : ℕ) (m : Memory)
      → k < 64
      → put_range
          (inodeidx2sector idx)
          1
          b.inode_buffer
          m
          f
          (inodeidx2sector idx)
          (64 * inodeidx2offset idx + k)
        ≡ m (inode_at sd b idx + k)
  stored_byte f idx k m less =
      let e : b.inode_buffer + (64 * inodeidx2offset idx + k) ≡ inode_at sd b idx + k =
        omega arith in
      let inside : (leb (inodeidx2sector idx) (inodeidx2sector idx)
            && ltb (inodeidx2sector idx) (inodeidx2sector idx + 1))
          ≡ true =
        ground arith in
      rw (inside, e) refl

  pub create_inode-Keeps :
      (get_timer : ℕ → ℕ) (f : ℕ → ℕ → ℕ) (idx : ℕ) (fs : Fs D)
      → Apart b
      → idx < 4096
      → Caches sd f fs.cache
      → (fs1 : Fs D) × (f1 : ℕ → ℕ → ℕ) × Keeps f fs f1 fs1
        × IsNewFile (f1 (inodeidx2sector idx)) (64 * inodeidx2offset idx) idx
        × (create_inode sd b get_timer idx it_file 0 0 fs ≡ some fs1)
  unfolding create_inode
  create_inode-Keeps get_timer f idx fs apart lt r =
      let (read, k1, read_at, e1) = load_inode-Keeps f idx fs apart lt r in
      let small = offset-small idx in
      let m = new_inode (inode_at sd b idx) idx it_file 0 (get_timer 0) read.mem in
      let k2 = with_memory f read m k1.caches (λ a kept.
        let out = apart.inode a kept in
        new_inode-Outside (inode_at sd b idx) idx it_file 0 (get_timer 0) read.mem a
          (ground arith)) in
      let (fs1, f1, k3, put, e3) = store_inode-Keeps f idx (record read { mem = m }) lt k1.caches in
      (
        fs1,
        f1,
        Keeps-trans f fs f read f1 fs1 k1
            (Keeps-trans f read f (record read { mem = m }) f1 fs1 k2 k3),
        IsNewFile-ext (f1 (inodeidx2sector idx)) m (64 * inodeidx2offset idx) (inode_at sd b idx)
            idx
            (λ k less.
              put (inodeidx2sector idx) (64 * inodeidx2offset idx + k) ∙ stored_byte f idx k m less)
            (new_inode-IsNewFile (inode_at sd b idx) idx (get_timer 0) read.mem (omega arith)),
        rw (create_inode, e1, e3) refl,
      )

  pub update_wd-Keeps :
      (f : ℕ → ℕ → ℕ) (size nlink time : ℕ) (fs : Fs D)
      → Apart b
      → word_at fs.mem (b.wd_inode + 4) < 4096
      → Caches sd f fs.cache
      → (fs1 : Fs D) × (f1 : ℕ → ℕ → ℕ) × Keeps f fs f1 fs1
        × ((other i : ℕ)
            → other < 4096
            → other ≢ word_at fs.mem (b.wd_inode + 4)
            → i < 64
            → inode_byte f1 other i ≡ inode_byte f other i)
        × (update_wd sd b size nlink time fs ≡ some fs1)
  unfolding update_wd
  update_wd-Keeps f size nlink time fs apart lt r =
      let w = b.wd_inode in
      let m = put_half (w + 2) nlink (put_word (w + 16) time (put_word (w + 8) size fs.mem)) in
      let k1 = with_memory f fs m r (λ a kept. let out = apart.wd in ground arith) in
      let same : word_at m (w + 4) ≡ word_at fs.mem (w + 4) =
        word_at-ext m fs.mem (w + 4) (λ i small. ground arith) in
      let (fs1, f1, k2, others, e) =
        replace_inode-Keeps f (word_at m (w + 4)) (struct_at w m) (record fs { mem = m }) apart
          (omega (arith, same, lt)) r in
      (
        fs1,
        f1,
        Keeps-trans f fs f (record fs { mem = m }) f1 fs1 k1 k2,
        (λ other i lt' ne less. others other i lt' (rw same ne) less),
        e,
      )
