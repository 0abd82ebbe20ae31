-- ===== src/Fs/Files/Seek.antt =====
-- The positions of a file after do_lseek.
use oslab_2024fall.Prelude.{
  ℕ, ◌+◌, ◌-◌, ◌*◌, ◌%◌, ◌^◌, ◌<◌, ◌≡◌, ◌≢◌, refl, Bool, true, false, Option, none, some, ◌==◌,
  ◌&&◌, leb, ltb, arith, Bool-cases, ◌⊎◌, inl, inr, ◌∙◌, ap,
}
use oslab_2024fall.Prelude.Table.{update, update_self, update_ne}
use oslab_2024fall.Libs.Memory.{Memory}
use oslab_2024fall.Fs.Cache.{SdCard}
use oslab_2024fall.Fs.Cache.Caches.{Caches}
use oslab_2024fall.Fs.Cache.Rounds.{put_sector}
use oslab_2024fall.Fs.State.{Buffers, Fs, Fdesc, word_at}
use oslab_2024fall.Fs.Maps.{inodeidx2sector, inodeidx2offset}
use oslab_2024fall.Fs.Maps.Take.{read_sectors-state}
use oslab_2024fall.Fs.Files.{is_bad_fd, inode_at, seek, store_moved, do_lseek}

-- The size of an inode on the card.
abbrev pub size_on_card : (ℕ → ℕ → ℕ) → ℕ → ℕ
size_on_card f inode_idx =
    word_at (f (inodeidx2sector inode_idx)) (64 * inodeidx2offset inode_idx + 8)

-- A file that is moved to both positions.
abbrev pub MovedTo : ℕ → ℕ → Fdesc → Fdesc → Type 0
MovedTo read_pos write_pos file file' =
    file' ≡ record file { read_pos = read_pos; write_pos = write_pos }

-- What do_lseek does to the file on each branch.
abbrev pub SeekSays : ℕ → ℕ → ℕ → Fdesc → Option Fdesc → Type 0
SeekSays size offset whence file none = 2 < whence
SeekSays size offset whence file (some file') =
    ((whence ≡ 0) × MovedTo offset offset file file')
    ⊎ ((whence ≡ 1)
        × MovedTo ((file.read_pos + offset) % 2 ^ 32) ((file.write_pos + offset) % 2 ^ 32) file
            file')
    ⊎ ((whence ≡ 2) × MovedTo ((size + offset) % 2 ^ 32) ((size + offset) % 2 ^ 32) file file')

module _ {D : Type 0} (sd : SdCard D) (b : Buffers) where
  pub record Sought (f : ℕ → ℕ → ℕ) (fd offset whence : ℕ) (fs : Fs D) (r : Option (Bool × Fs D))
      : Type 0 where
    pub moved : Option Fdesc
    pub says :
        SeekSays (size_on_card f (fs.fdesc_array fd).ino) offset whence (fs.fdesc_array fd) moved
    pub after : Fs D
    pub is_some : r ≡ some (elim moved [ none ↦ false | some file ↦ true ], after)
    pub file : after.fdesc_array fd ≡ elim moved [ none ↦ fs.fdesc_array fd | some file ↦ file ]
    pub others : (i : ℕ) → i ≢ fd → after.fdesc_array i ≡ fs.fdesc_array i
    pub caches : Caches sd f after.cache

  offset-small : (idx : ℕ) → inodeidx2offset idx < 8
  unfolding inodeidx2offset
  offset-small idx = omega arith

  sector-small : (idx : ℕ) → idx < 2 ^ 32 → inodeidx2sector idx + 1 < 2 ^ 32
  unfolding inodeidx2sector
  sector-small idx lt = omega arith

  in_sector :
      (bytes : ℕ → ℕ) (mem : Memory) (k : ℕ)
      → k < 512
      → put_sector b.inode_buffer bytes mem (b.inode_buffer + k) ≡ bytes k
  in_sector bytes mem k lt =
      let e : b.inode_buffer + k - b.inode_buffer ≡ k = omega arith in
      let h : (leb b.inode_buffer (b.inode_buffer + k)
            && ltb (b.inode_buffer + k) (b.inode_buffer + 512))
          ≡ true =
        ground arith in
      rw (h, e) refl

  -- The size of the inode that was read.
  size-read :
      (f : ℕ → ℕ → ℕ) (idx : ℕ) (m mem : Memory)
      → ((a : ℕ) → m a ≡ put_sector b.inode_buffer (f (inodeidx2sector idx)) mem a)
      → word_at m (inode_at sd b idx + 8) ≡ size_on_card f idx
  size-read f idx m mem same =
      let small = offset-small idx in
      let at : (k : ℕ) → k < 512 → m (b.inode_buffer + k) ≡ f (inodeidx2sector idx) k =
        λ k lt. same (b.inode_buffer + k) ∙ in_sector (f (inodeidx2sector idx)) mem k lt in
      let o = 64 * inodeidx2offset idx + 8 in
      let e0 : inode_at sd b idx + 8 ≡ b.inode_buffer + o = omega arith in
      let e1 : b.inode_buffer + o + 1 ≡ b.inode_buffer + (o + 1) = omega arith in
      let e2 : b.inode_buffer + o + 2 ≡ b.inode_buffer + (o + 2) = omega arith in
      let e3 : b.inode_buffer + o + 3 ≡ b.inode_buffer + (o + 3) = omega arith in
      rw
        (
          e0,
          e1,
          e2,
          e3,
          at o (omega arith),
          at (o + 1) (omega arith),
          at (o + 2) (omega arith),
          at (o + 3) (omega arith),
        )
        refl

  seek-says :
      (size offset whence : ℕ) (file : Fdesc)
      → SeekSays size offset whence file (seek sd b size offset whence file)
  unfolding seek
  seek-says size offset whence file = elim (Bool-cases (whence == 0)) [
    | inl e ↦ rw (seek, e) (inl (ground arith, refl))
    | inr n0 ↦ elim (Bool-cases (whence == 1)) [
      | inl e ↦ rw (seek, n0, e) (inr (inl (ground arith, refl)))
      | inr n1 ↦ elim (Bool-cases (whence == 2)) [
        | inl e ↦ rw (seek, n0, n1, e) (inr (inr (ground arith, refl)))
        | inr n2 ↦ rw (seek, n0, n1, n2) (ground arith)
      ]
    ]
  ]

  sought :
      (f : ℕ → ℕ → ℕ) (fd offset whence : ℕ) (fs read : Fs D) (moved : Option Fdesc)
      → SeekSays (size_on_card f (fs.fdesc_array fd).ino) offset whence (fs.fdesc_array fd) moved
      → read.fdesc_array ≡ fs.fdesc_array
      → Caches sd f read.cache
      → Sought f fd offset whence fs (some (store_moved sd b fd moved read))
  unfolding store_moved
  sought f fd offset whence fs read none says same r = record {
    moved = none;
    says = says;
    after = read;
    is_some = refl;
    file = ap (λ g. g fd) same;
    others = λ i ne. ap (λ g. g i) same;
    caches = r;
  }
  sought f fd offset whence fs read (some file) says same r = record {
    moved = some file;
    says = says;
    after = record read { fdesc_array = update read.fdesc_array fd file };
    is_some = refl;
    file = update_self read.fdesc_array fd file;
    others = λ i ne. update_ne read.fdesc_array fd i file (ground arith) ∙ ap (λ g. g i) same;
    caches = r;
  }

  -- For an open file, over a cache that stands for the sectors f, do_lseek sets both
  -- positions to the offset, moves both by it, or sets both to the size of the inode on the
  -- card plus the offset, for the three values of whence in their order, modulo 2 ^ 32 in the
  -- last two. For any other value it returns -1 and changes no file. Other files are
  -- unchanged and the cache stands for f.
  pub do_lseek-Sought :
      (f : ℕ → ℕ → ℕ) (fd offset whence : ℕ) (fs : Fs D)
      → is_bad_fd fd fs.fdesc_array ≡ false
      → (fs.fdesc_array fd).ino < 2 ^ 32
      → Caches sd f fs.cache
      → Sought f fd offset whence fs (do_lseek sd b fd offset whence fs)
  unfolding do_lseek
  do_lseek-Sought f fd offset whence fs good fits r =
      let idx = (fs.fdesc_array fd).ino in
      let z : inodeidx2sector idx + 0 ≡ inodeidx2sector idx = omega arith in
      let (c, m, r', same, e) = rw z at (
        read_sectors-state sd f 0 b.inode_buffer (inodeidx2sector idx) fs r
          (let k = sector-small idx fits in omega arith)) in
      rw (do_lseek, good, e, size-read f idx m fs.mem same)
        (sought f fd offset whence fs (record fs { mem = m; cache = c }) _
          (seek-says (size_on_card f idx) offset whence (fs.fdesc_array fd)) refl r')
