-- ===== src/Fs/Create/Found.antt =====
-- find_inode of one name, in a directory that has a new entry.
use oslab_2024fall.Prelude.{
  ℕ, ◌+◌, ◌-◌, ◌*◌, ◌^◌, ◌≤◌, ◌<◌, ◌≡◌, refl, false, none, some, List, [], ◌∷◌, has, length, arith,
  ◌∙◌,
}
use oslab_2024fall.Libs.Memory.{Memory}
use oslab_2024fall.Fs.Cache.{SdCard, Bcache}
use oslab_2024fall.Fs.Cache.Caches.{Caches}
use oslab_2024fall.Fs.Cache.Rounds.{put_sector}
use oslab_2024fall.Fs.State.{Buffers, Fs}
use oslab_2024fall.Fs.Maps.{inodeidx2sector, inodeidx2offset}
use oslab_2024fall.Fs.Maps.Take.{read_sectors-state}
use oslab_2024fall.Fs.Files.{inode_at}
use oslab_2024fall.Fs.Paths.{levels}
use oslab_2024fall.Fs.Paths.Split.{parse_path-one}
use oslab_2024fall.Fs.Inodes.{it_file, wd_block}
use oslab_2024fall.Fs.Dirs.{
  put_dentry, dentry_ino, find_name, enter_found, find_level, find_levels, find_inode,
  read_dentries,
}
use oslab_2024fall.Fs.Dirs.Entries.{
  SameDentries, find_name-put_dentry, dentry_ino-put_dentry, dentry_ino-same,
}
use oslab_2024fall.Fs.Create.NewFile.{IsNewFile, IsNewFile-ext}
use oslab_2024fall.Fs.Create.Frame.{Apart, offset-small, load_inode-Keeps}

module _ {D : Type 0} (sd : SdCard D) (b : Buffers) where
  -- A directory is read into dentry_buffer.
  pub read_dentries-state :
      (f : ℕ → ℕ → ℕ) (sector : ℕ) (fs : Fs D)
      → sector + 8 ≤ 2 ^ 32
      → Caches sd f fs.cache
      → (c : Bcache D) × (m : Memory) × Caches sd f c
        × ((a : ℕ) → m a ≡ put_sector b.dentry_buffer (f (sector + 7)) fs.mem a)
        × (read_dentries sd b sector fs ≡ some (record fs { mem = m; cache = c }))
  read_dentries-state f sector fs fits r =
      read_sectors-state sd f 7 b.dentry_buffer sector fs r fits

  -- One name of one level.
  find_inode-one :
      (c : ℕ) (path : List ℕ) (fs : Fs D)
      → has b'/' (c ∷ path) ≡ false
      → length (c ∷ path) < 27
      → find_inode sd b (c ∷ path) b.wd_inode fs ≡ find_levels sd b ((c ∷ path) ∷ []) b.wd_inode fs
  unfolding find_inode levels
  find_inode-one c path fs flat short = rw (parse_path-one (c ∷ path) flat short) refl

  -- The directory on the card and in dentry_buffer has a new entry: find_inode goes through it.
  pub finds_new :
      (f : ℕ → ℕ → ℕ) (c : ℕ) (path : List ℕ) (j idx : ℕ) (before mem : Memory) (fs : Fs D)
      → Apart b
      → has b'/' (c ∷ path) ≡ false
      → length (c ∷ path) < 27
      → j < 128
      → idx < 4096
      → wd_block sd b fs.mem + 8 ≤ 2 ^ 32
      → Caches sd f fs.cache
      → find_name sd b (c ∷ path) before ≡ none
      → SameDentries sd b mem before
      → ((i : ℕ)
          → i < 4096
          → fs.mem (b.dentry_buffer + i)
            ≡ put_dentry sd b j (c ∷ path) idx it_file mem (b.dentry_buffer + i))
      → ((i : ℕ)
          → i < 512
          → f (wd_block sd b fs.mem + 7) i
            ≡ put_dentry sd b j (c ∷ path) idx it_file mem (b.dentry_buffer + i))
      → IsNewFile (f (inodeidx2sector idx)) (64 * inodeidx2offset idx) idx
      → (fs' : Fs D) × (find_inode sd b (c ∷ path) b.wd_inode fs
          ≡ some (some (inode_at sd b idx), fs'))
        × IsNewFile fs'.mem (inode_at sd b idx) idx
  unfolding find_levels find_level enter_found
  finds_new f c path j idx before mem fs apart flat short lt lt' fits r missing same in_mem on_card
        new =
      let (c1, m, r1, read, e1) = read_dentries-state f (wd_block sd b fs.mem) fs fits r in
      let md = put_dentry sd b j (c ∷ path) idx it_file mem in
      let all : SameDentries sd b m md = λ i less.
        let card = on_card i in
        let buffer = in_mem i less in
        let e : b.dentry_buffer + i - b.dentry_buffer ≡ i = omega arith in
        let here = rw e at (read (b.dentry_buffer + i)) in ground (arith, here, card, buffer) in
      let named =
        find_name-put_dentry sd b j (c ∷ path) idx it_file before m mem lt short missing same all in
      let ino : dentry_ino sd b m j ≡ idx =
        dentry_ino-same sd b m md j all lt
        ∙ dentry_ino-put_dentry sd b j (c ∷ path) idx it_file mem (omega arith) in
      let (fs2, k2, loaded, e2) =
        load_inode-Keeps sd b f idx (record fs { mem = m; cache = c1 }) apart lt' r1 in
      (
        fs2,
        find_inode-one c path fs flat short
            ∙ rw (find_levels, find_level, e1, named, enter_found, ino, e2) refl,
        IsNewFile-ext fs2.mem (f (inodeidx2sector idx)) (inode_at sd b idx)
            (64 * inodeidx2offset idx) idx
            (λ k less.
              let small = offset-small sd b idx in
              let e : inode_at sd b idx + k ≡ b.inode_buffer + (64 * inodeidx2offset idx + k) =
                omega arith in
              rw e (loaded (64 * inodeidx2offset idx + k) (omega arith)))
            new,
      )
