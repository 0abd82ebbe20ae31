-- ===== src/Fs/Create/Dots.antt =====
-- The entries . and .. of a directory that do_mkdir or do_mkfs made.
use oslab_2024fall.Prelude.{
  ℕ, ◌+◌, ◌^◌, ◌≤◌, ◌<◌, ◌≡◌, true, false, some, List, [], ◌∷◌, arith, inl, inr, ◌∙◌,
}
use oslab_2024fall.Prelude.Seq.{first_from-only}
use oslab_2024fall.Libs.Memory.{Memory, bzero}
use oslab_2024fall.Fs.Cache.{SdCard}
use oslab_2024fall.Fs.Cache.Caches.{Caches}
use oslab_2024fall.Fs.Cache.Rounds.{put_range}
use oslab_2024fall.Fs.State.{Buffers, Fs, block_size}
use oslab_2024fall.Fs.Maps.Take.{write_sectors-state, bzero-zeros}
use oslab_2024fall.Fs.Inodes.{it_dir}
use oslab_2024fall.Fs.Dirs.{is_named, put_dentry, dentry_at, dentry_ino, find_name}
use oslab_2024fall.Fs.Dirs.Entries.{
  word_at-ext, is_named-ext, is_named-put_dentry, dentry_ino-put_dentry, put_dentry_outside,
}
use oslab_2024fall.Fs.Create.{first_dentries}

abbrev pub dot : List ℕ
dot = b'.' ∷ []

abbrev pub dot_dot : List ℕ
dot_dot = b'.' ∷ b'.' ∷ []

-- An entry of the name . is not one of the name .. .
not_dot_dot : (mem : Memory) (a : ℕ) → is_named mem a dot ≡ true → is_named mem a dot_dot ≡ false
unfolding is_named
not_dot_dot mem a h = ground arith

module _ {D : Type 0} (sd : SdCard D) (b : Buffers) where
  -- A directory in dentry_buffer, with itself and its parent, and no other entry.
  pub record IsNewDir (mem : Memory) (ino parent : ℕ) : Type 0 where
    pub itself : find_name sd b dot mem ≡ some 0
    pub itself_ino : dentry_ino sd b mem 0 ≡ ino
    pub parent_entry : find_name sd b dot_dot mem ≡ some 1
    pub parent_ino : dentry_ino sd b mem 1 ≡ parent
    pub free : (i : ℕ) → 64 ≤ i → i < 4096 → mem (b.dentry_buffer + i) ≡ 0

  put_dots-IsNewDir :
      (ino parent : ℕ) (mem : Memory)
      → ino < 2 ^ 32
      → parent < 2 ^ 32
      → ((i : ℕ) → i < 4096 → mem (b.dentry_buffer + i) ≡ 0)
      → IsNewDir
          (put_dentry sd b 1 dot_dot parent it_dir (put_dentry sd b 0 dot ino it_dir mem))
          ino
          parent
  unfolding find_name
  put_dots-IsNewDir ino parent mem lt lt' zeros =
      let m1 = put_dentry sd b 0 dot ino it_dir mem in
      let m2 = put_dentry sd b 1 dot_dot parent it_dir m1 in
      let two : is_named m2 (dentry_at sd b 1) dot_dot ≡ true =
        is_named-put_dentry sd b 1 dot_dot parent it_dir m1 (omega arith) in
      let first : is_named m2 (dentry_at sd b 0) dot ≡ true =
        is_named-ext m2 m1 (dentry_at sd b 0) dot (λ i le.
          put_dentry_outside sd b 1 dot_dot parent it_dir m1 (dentry_at sd b 0 + i) (omega arith)
            (inl (ground arith)))
        ∙ is_named-put_dentry sd b 0 dot ino it_dir mem (omega arith) in
      record {
        itself =
            first_from-only (λ j. is_named m2 (dentry_at sd b j) dot) 128 0 0 (omega arith)
              (omega arith) first (λ k lo hi. absurd (omega arith));
        itself_ino =
            word_at-ext m2 m1 (dentry_at sd b 0 + 28) (λ i less.
              put_dentry_outside sd b 1 dot_dot parent it_dir m1 (dentry_at sd b 0 + 28 + i)
                (omega arith) (inl (omega arith)))
            ∙ dentry_ino-put_dentry sd b 0 dot ino it_dir mem lt;
        parent_entry =
            first_from-only (λ j. is_named m2 (dentry_at sd b j) dot_dot) 128 0 1 (omega arith)
              (omega arith) two
              (λ k lo hi.
                let e : k ≡ 0 = omega arith in rw e (not_dot_dot m2 (dentry_at sd b 0) first));
        parent_ino = dentry_ino-put_dentry sd b 1 dot_dot parent it_dir m1 lt';
        free = λ i lo hi.
            put_dentry_outside sd b 1 dot_dot parent it_dir m1 (b.dentry_buffer + i) (omega arith)
              (inr (omega arith))
            ∙ put_dentry_outside sd b 0 dot ino it_dir mem (b.dentry_buffer + i) (omega arith)
                (inr (omega arith))
            ∙ zeros i hi;
      }

  -- Over a cache that stands for the sectors f, writing the first entries of a directory
  -- always succeeds. In dentry_buffer the name . is then found at entry 0 with the number of
  -- the directory, the name .. at entry 1 with the number of its parent, and the rest is 0.
  -- The cache stands for f with the first 512 bytes of dentry_buffer on each sector of the
  -- block.
  pub first_dentries-IsNewDir :
      (get_timer : ℕ → ℕ) (f : ℕ → ℕ → ℕ) (ino parent sector : ℕ) (fs : Fs D)
      → ino < 2 ^ 32
      → parent < 2 ^ 32
      → sector + 8 ≤ 2 ^ 32
      → Caches sd f fs.cache
      → (after : Fs D) × (first_dentries sd b get_timer ino parent sector fs ≡ some after)
        × IsNewDir after.mem ino parent
        × Caches sd (put_range sector 8 b.dentry_buffer after.mem f) after.cache
  unfolding first_dentries
  first_dentries-IsNewDir get_timer f ino parent sector fs lt lt' fits r =
      let m0 = bzero b.dentry_buffer block_size fs.mem in
      let m2 = put_dentry sd b 1 dot_dot parent it_dir (put_dentry sd b 0 dot ino it_dir m0) in
      let (c, r', e) =
        write_sectors-state sd f 8 b.dentry_buffer sector (record fs { mem = m2 }) r fits in
      (
        record fs { mem = m2; cache = c },
        e,
        put_dots-IsNewDir ino parent m0 lt lt'
            (λ i less. bzero-zeros b.dentry_buffer i fs.mem less),
        r',
      )
