-- ===== src/Fs/Open/Opened.antt =====
-- The file descriptors after do_open, and do_open of a file that do_touch created.
use oslab_2024fall.Prelude.{
  ℕ, ◌+◌, ◌^◌, ◌≤◌, ◌<◌, ◌≡◌, ◌≢◌, refl, true, false, Option, none, some, List, ◌∷◌, ◌==◌, has,
  Bool-cases, arith, ◌⊎◌, inl, inr, sym, ap, ◌∙◌, ◌%◌,
}
use oslab_2024fall.Prelude.Table.{update_self, update_ne}
use oslab_2024fall.Prelude.Seq.{first_from-some, first_from_least, first_from-none}
use oslab_2024fall.Mm.Bitmap.{is_allocated}
use oslab_2024fall.Fs.Cache.{SdCard}
use oslab_2024fall.Fs.Cache.Caches.{Caches}
use oslab_2024fall.Fs.State.{Buffers, Fs, word_at}
use oslab_2024fall.Fs.Inodes.{it_dir, wd_block}
use oslab_2024fall.Fs.Files.{inode_at}
use oslab_2024fall.Fs.Dirs.{find_inode}
use oslab_2024fall.Fs.Create.NewFile.{IsNewFile}
use oslab_2024fall.Fs.Create.{do_touch}
use oslab_2024fall.Fs.Create.Frame.{Apart}
use oslab_2024fall.Fs.Create.Touch.{do_touch-Touched}
use oslab_2024fall.Fs.Open.{find_fdesc, new_fdesc, open_fdesc, open_found, do_open}

module _ {D : Type 0} (sd : SdCard D) (b : Buffers) where
  -- What do_open says of the inode at `inode_p` in a state: the least free descriptor is opened, or
  -- no descriptor changes.
  abbrev pub OpenSays : ℕ → ℕ → Fs D → Option ℕ × Fs D → Type 0
  OpenSays inode_p mode fs (none, after) =
      (after ≡ fs)
      × ((fs.mem (inode_p + 1) ≡ it_dir)
          ⊎ ((i : ℕ) → i < 16 → ((fs.fdesc_array i).valid == 0) ≡ false))
  OpenSays inode_p mode fs (some fd, after) =
      (fs.mem (inode_p + 1) ≢ it_dir)
      × (fd < 16)
      × ((fs.fdesc_array fd).valid ≡ 0)
      × ((i : ℕ) → i < fd → ((fs.fdesc_array i).valid == 0) ≡ false)
      × ((after.fdesc_array fd).valid ≡ 1)
      × ((after.fdesc_array fd).mode ≡ mode % 2 ^ 8)
      × ((after.fdesc_array fd).ino ≡ word_at fs.mem (inode_p + 4))
      × ((after.fdesc_array fd).read_pos ≡ 0)
      × ((after.fdesc_array fd).write_pos ≡ 0)
      × ((i : ℕ) → i ≢ fd → after.fdesc_array i ≡ fs.fdesc_array i)

  open_fdesc-says :
      (found : Option ℕ) (inode_p mode : ℕ) (fs : Fs D)
      → found ≡ find_fdesc fs.fdesc_array
      → fs.mem (inode_p + 1) ≢ it_dir
      → OpenSays inode_p mode fs (open_fdesc found mode (word_at fs.mem (inode_p + 4)) fs)
  unfolding open_fdesc find_fdesc
  open_fdesc-says none inode_p mode fs by file = (
    refl,
    inr (λ i lt.
        first_from-none (λ k. (fs.fdesc_array k).valid == 0) 16 0 (sym by) i (omega arith) lt),
  )
  open_fdesc-says (some fd) inode_p mode fs by file =
      let (free, lo, hi) = first_from-some (λ k. (fs.fdesc_array k).valid == 0) 16 0 (sym by) in
      let opened = update_self fs.fdesc_array fd (new_fdesc mode (word_at fs.mem (inode_p + 4))) in
      (
        file,
        hi,
        ground (arith, free),
        λ i lt.
            first_from_least (λ k. (fs.fdesc_array k).valid == 0) 16 0 (sym by) i (omega arith) lt,
        ap (λ file. file.valid) opened,
        ap (λ file. file.mode) opened,
        ap (λ file. file.ino) opened,
        ap (λ file. file.read_pos) opened,
        ap (λ file. file.write_pos) opened,
        λ i ne.
            update_ne fs.fdesc_array fd i (new_fdesc mode (word_at fs.mem (inode_p + 4)))
              (ground arith),
      )

  -- When find_inode finds an inode, do_open opens the least descriptor that is not in use: it
  -- becomes valid, with the number of the inode, the mode as a byte and both positions at 0,
  -- and no other one changes. It returns -1 and leaves the state that find_inode gives only
  -- for a directory or when all 16 descriptors are in use.
  pub do_open-says :
      (path : List ℕ) (mode inode_p : ℕ) (fs fs1 : Fs D)
      → find_inode sd b path b.wd_inode fs ≡ some (some inode_p, fs1)
      → (result : Option ℕ × Fs D) × (do_open sd b path mode fs ≡ some result)
        × OpenSays inode_p mode fs1 result
  unfolding do_open open_found
  do_open-says path mode inode_p fs fs1 e = elim (Bool-cases (fs1.mem (inode_p + 1) == it_dir)) [
    | inl dir ↦ ((none, fs1), rw (do_open, e, open_found, dir) refl, (refl, inl (ground arith)))
    | inr file ↦ (
      open_fdesc (find_fdesc fs1.fdesc_array) mode (word_at fs1.mem (inode_p + 4)) fs1,
      rw (do_open, e, open_found, file) refl,
      open_fdesc-says (find_fdesc fs1.fdesc_array) inode_p mode fs1 refl (ground arith),
    )
  ]

  -- A file of number `idx` in the least descriptor that was free, or every descriptor in use.
  abbrev pub FileOpened : ℕ → ℕ → Fs D → Option ℕ × Fs D → Type 0
  FileOpened idx mode fs (none, after) =
      (after ≡ fs) × ((i : ℕ) → i < 16 → ((fs.fdesc_array i).valid == 0) ≡ false)
  FileOpened idx mode fs (some fd, after) =
      (fd < 16)
      × ((fs.fdesc_array fd).valid ≡ 0)
      × ((i : ℕ) → i < fd → ((fs.fdesc_array i).valid == 0) ≡ false)
      × ((after.fdesc_array fd).valid ≡ 1)
      × ((after.fdesc_array fd).mode ≡ mode % 2 ^ 8)
      × ((after.fdesc_array fd).ino ≡ idx)
      × ((after.fdesc_array fd).read_pos ≡ 0)
      × ((after.fdesc_array fd).write_pos ≡ 0)
      × ((i : ℕ) → i ≢ fd → after.fdesc_array i ≡ fs.fdesc_array i)

  file_opened :
      (idx mode : ℕ) (fs : Fs D) (opened : Option ℕ × Fs D)
      → IsNewFile fs.mem (inode_at sd b idx) idx
      → OpenSays (inode_at sd b idx) mode fs opened
      → FileOpened idx mode fs opened
  file_opened idx mode fs (none, after) (type, nlink, number, size) (same, inl dir) =
      absurd (let e = sym type ∙ dir in omega (arith, e))
  file_opened idx mode fs (none, after) new (same, inr full) = (same, full)
  file_opened idx mode fs (some fd, after) (type, nlink, number, size)
        (file, lt, free, least, valid, mode_set, ino, read, write, others) =
      (lt, free, least, valid, mode_set, ino ∙ number, read, write, others)

  -- Under the conditions of do_touch-Touched, do_touch returns, and if it does not return -1,
  -- find_inode then finds the name at an inode of a number idx below 4096, a new file, and
  -- do_open of the same name opens the least descriptor that is not in use, which becomes
  -- valid with the number idx, the mode as a byte and both positions at 0, while no other one
  -- changes; or it returns -1 when all 16 descriptors are in use.
  pub do_open-touched :
      (get_timer : ℕ → ℕ) (f : ℕ → ℕ → ℕ) (c : ℕ) (path : List ℕ) (mode : ℕ) (fs : Fs D)
      → Apart b
      → has b'/' (c ∷ path) ≡ false
      → 802 ≤ wd_block sd b fs.mem
      → wd_block sd b fs.mem + 8 ≤ 2 ^ 32
      → word_at fs.mem (b.wd_inode + 4) < 4096
      → is_allocated (f 289) (word_at fs.mem (b.wd_inode + 4)) ≡ true
      → Caches sd f fs.cache
      → (result : Option ℕ) × (after : Fs D) × (do_touch sd b get_timer (c ∷ path) fs
          ≡ some (result, after))
        × (result ≢ none
            → (idx : ℕ) × (fs' : Fs D) × (opened : Option ℕ × Fs D) × (idx < 4096)
              × (find_inode sd b (c ∷ path) b.wd_inode after ≡ some (some (inode_at sd b idx), fs'))
              × IsNewFile fs'.mem (inode_at sd b idx) idx
              × (do_open sd b (c ∷ path) mode after ≡ some opened)
              × FileOpened idx mode fs' opened)
  do_open-touched get_timer f c path mode fs apart flat lo hi wd used r =
      let t = do_touch-Touched sd b get_timer f c path fs apart flat lo hi wd used r in
      (
        t.result,
        t.after,
        t.is_some,
        λ found.
            let (idx, fs', lt, e, new) = t.finds found in
            let (opened, e', says) =
              do_open-says (c ∷ path) mode (inode_at sd b idx) t.after fs' e in
            (idx, fs', opened, lt, e, new, e', file_opened idx mode fs' opened new says),
      )
