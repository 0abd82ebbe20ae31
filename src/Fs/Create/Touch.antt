-- ===== src/Fs/Create/Touch.antt =====
-- A file that do_touch created is found by its name.
use oslab_2024fall.Prelude.{
  ℕ, ◌+◌, ◌*◌, ◌^◌, ◌≤◌, ◌<◌, ◌≡◌, ◌≢◌, refl, true, false, Option, none, some, List, ◌∷◌,
  Bool-cases, leb, has, length, arith, ◌⊎◌, inl, inr, ◌∙◌, sym,
}
use oslab_2024fall.Prelude.Seq.{first_from-some}
use oslab_2024fall.Libs.Memory.{Memory}
use oslab_2024fall.Mm.Bitmap.{is_allocated}
use oslab_2024fall.Mm.Bitmap.Search.{Finds}
use oslab_2024fall.Fs.Cache.{SdCard}
use oslab_2024fall.Fs.Cache.Caches.{Caches}
use oslab_2024fall.Fs.Cache.Rounds.{put_range, put_sector}
use oslab_2024fall.Fs.State.{Buffers, Fs, word_at}
use oslab_2024fall.Fs.Maps.{inodeidx2sector, inodeidx2offset}
use oslab_2024fall.Fs.Maps.Take.{write_sectors-state}
use oslab_2024fall.Fs.Files.{inode_at}
use oslab_2024fall.Fs.Inodes.{it_file, wd_block, wd_size, wd_nlink}
use oslab_2024fall.Fs.Dirs.{put_dentry, find_name, find_unused, find_inode}
use oslab_2024fall.Fs.Dirs.Entries.{
  word_at-ext, SameDentries, find_name-same, find_unused-same, put_dentry_outside,
}
use oslab_2024fall.Fs.Create.{touch_found, touch_inode, touch_new, do_touch}
use oslab_2024fall.Fs.Create.NewFile.{IsNewFile, IsNewFile-ext}
use oslab_2024fall.Fs.Create.FreeInode.{find_free_inode-Keeps}
use oslab_2024fall.Fs.Create.Frame.{
  Apart, sector-low, Keeps, put_sector-Outside, create_inode-Keeps, update_wd-Keeps,
}
use oslab_2024fall.Fs.Create.Found.{read_dentries-state, finds_new}

module _ {D : Type 0} (sd : SdCard D) (b : Buffers) where
  -- What do_touch says of a path, by its result: the file is found from the working directory.
  pub record Touched (Refused : Type 0) (path : List ℕ) (r : Option (Option ℕ × Fs D))
      : Type 0 where
    pub result : Option ℕ
    pub after : Fs D
    pub is_some : r ≡ some (result, after)
    pub refused : result ≡ none → Refused
    pub finds :
        result ≢ none
        → (idx : ℕ) × (fs' : Fs D) × (idx < 4096)
          × (find_inode sd b path b.wd_inode after ≡ some (some (inode_at sd b idx), fs'))
          × IsNewFile fs'.mem (inode_at sd b idx) idx

  Touched-none : {R : Type 0} (path : List ℕ) (fs : Fs D) → R → Touched R path (some (none, fs))
  Touched-none path fs why = record {
    result = none;
    after = fs;
    is_some = refl;
    refused = λ e. why;
    finds = λ ne. absurd (ne refl);
  }

  -- A word of the working directory that is kept.
  wd_kept :
      (f f1 : ℕ → ℕ → ℕ) (fs fs1 : Fs D)
      → Keeps sd b f fs f1 fs1
      → (wd_block sd b fs1.mem ≡ wd_block sd b fs.mem)
        × (word_at fs1.mem (b.wd_inode + 4) ≡ word_at fs.mem (b.wd_inode + 4))
  wd_kept f f1 fs fs1 k = (
    word_at-ext fs1.mem fs.mem (b.wd_inode + 24)
        (λ i less. k.memory (b.wd_inode + 24 + i) (inr (inr (omega arith, omega arith)))),
    word_at-ext fs1.mem fs.mem (b.wd_inode + 4)
        (λ i less. k.memory (b.wd_inode + 4 + i) (inr (inl (omega arith, omega arith)))),
  )

  wd_of_put_dentry :
      (j idx k : ℕ) (name : List ℕ) (mem : Memory)
      → Apart b
      → length name < 27
      → j < 128
      → k < 60
      → word_at (put_dentry sd b j name idx it_file mem) (b.wd_inode + k)
        ≡ word_at mem (b.wd_inode + k)
  wd_of_put_dentry j idx k name mem apart short lt small =
      word_at-ext (put_dentry sd b j name idx it_file mem) mem (b.wd_inode + k) (λ i less.
        let wd = apart.wd in
        put_dentry_outside sd b j name idx it_file mem (b.wd_inode + k + i) short (ground arith))

  touch_found-Touched :
      {R : Type 0} (get_timer : ℕ → ℕ) (f : ℕ → ℕ → ℕ) (c : ℕ) (path : List ℕ) (found : Option ℕ)
      (idx : ℕ) (before : Memory) (fs : Fs D)
      → Apart b
      → has b'/' (c ∷ path) ≡ false
      → length (c ∷ path) < 27
      → ((j : ℕ) → found ≡ some j → j < 128)
      → idx < 4096
      → 802 ≤ wd_block sd b fs.mem
      → wd_block sd b fs.mem + 8 ≤ 2 ^ 32
      → word_at fs.mem (b.wd_inode + 4) < 4096
      → Caches sd f fs.cache
      → find_name sd b (c ∷ path) before ≡ none
      → SameDentries sd b fs.mem before
      → (found ≡ none → R)
      → idx ≢ word_at fs.mem (b.wd_inode + 4)
      → IsNewFile (f (inodeidx2sector idx)) (64 * inodeidx2offset idx) idx
      → Touched R (c ∷ path) (touch_found sd b get_timer found (c ∷ path) idx fs)
  unfolding touch_found
  touch_found-Touched get_timer f c path none idx before fs apart flat short bound lt lo hi wd r
        missing same why ne new =
      Touched-none (c ∷ path) fs (why refl)
  touch_found-Touched get_timer f c path (some j) idx before fs apart flat short bound lt lo hi wd r
        missing same why ne new =
      let small = bound j refl in
      let md = put_dentry sd b j (c ∷ path) idx it_file fs.mem in
      let block = wd_block sd b fs.mem in
      let (c1, r1, e1) =
        write_sectors-state sd f 8 b.dentry_buffer block (record fs { mem = md }) r hi in
      let fs1 : Fs D = record fs { mem = md; cache = c1 } in
      let wd1 = wd_of_put_dentry j idx 4 (c ∷ path) fs.mem apart short small (omega arith) in
      let block1 = wd_of_put_dentry j idx 24 (c ∷ path) fs.mem apart short small (omega arith) in
      let f1 = put_range block 8 b.dentry_buffer md f in
      let (fs2, f2, k2, others, e2) =
        update_wd-Keeps sd b f1 (wd_size sd b md + 32) (wd_nlink sd b md + 1) (get_timer 1) fs1
          apart (omega (arith, wd1, wd)) r1 in
      let block2 : wd_block sd b fs2.mem ≡ block = (wd_kept f1 f2 fs1 fs2 k2).0 ∙ block1 in
      record {
        result = some 0;
        after = fs2;
        is_some = rw (touch_found, e1, e2) refl;
        refused = λ e. absurd cc;
        finds = λ done.
            let (fs', e, is_new) =
              finds_new sd b f2 c path j idx before fs.mem fs2 apart flat short small lt
                (rw block2 hi) k2.caches missing same
                (λ i less. k2.memory (b.dentry_buffer + i) (inl (omega arith, omega arith)))
                (λ i less. rw block2 (k2.sectors (block + 7) i (inl (omega arith)) ∙ ground arith))
                (IsNewFile-ext (f2 (inodeidx2sector idx)) (f (inodeidx2sector idx))
                  (64 * inodeidx2offset idx) (64 * inodeidx2offset idx) idx
                  (λ k less.
                    others idx k lt (rw wd1 ne) less
                    ∙ (let low = sector-low sd b idx lt in ground arith))
                  new) in
            (idx, fs', lt, e, is_new);
      }

  -- The entries stay in dentry_buffer.
  dentries_kept :
      (f f1 : ℕ → ℕ → ℕ) (fs fs1 : Fs D) → Keeps sd b f fs f1 fs1 → SameDentries sd b fs1.mem fs.mem
  dentries_kept f f1 fs fs1 k i less =
      k.memory (b.dentry_buffer + i) (inl (omega arith, omega arith))

  touch_inode-Touched :
      {R : Type 0} (get_timer : ℕ → ℕ) (f : ℕ → ℕ → ℕ) (c : ℕ) (path : List ℕ) (map : ℕ → ℕ)
      (found : Option ℕ) (before : Memory) (fs : Fs D)
      → Apart b
      → has b'/' (c ∷ path) ≡ false
      → length (c ∷ path) < 27
      → Finds map 4096 0 found
      → 802 ≤ wd_block sd b fs.mem
      → wd_block sd b fs.mem + 8 ≤ 2 ^ 32
      → word_at fs.mem (b.wd_inode + 4) < 4096
      → Caches sd f fs.cache
      → find_name sd b (c ∷ path) before ≡ none
      → SameDentries sd b fs.mem before
      → (Finds map 4096 0 none → R)
      → (find_unused sd b before ≡ none → R)
      → is_allocated map (word_at fs.mem (b.wd_inode + 4)) ≡ true
      → Touched R (c ∷ path) (touch_inode sd b get_timer found (c ∷ path) fs)
  unfolding touch_inode find_unused
  touch_inode-Touched get_timer f c path map none before fs apart flat short least lo hi wd r
        missing same full why used =
      Touched-none (c ∷ path) fs (full least)
  touch_inode-Touched get_timer f c path map (some idx) before fs apart flat short least lo hi wd r
        missing same full why used =
      let lt = least.1 in
      let (fs1, f1, k1, new, e1) = create_inode-Keeps sd b get_timer f idx fs apart lt r in
      let clear = least.2 in
      let fresh : idx ≢ word_at fs.mem (b.wd_inode + 4) =
        λ e. absurd (let h = rw e at clear in cc) in
      let (block1, wd1) = wd_kept f f1 fs fs1 k1 in
      let all : SameDentries sd b fs1.mem before =
        λ i less. dentries_kept f f1 fs fs1 k1 i less ∙ same i less in
      rw (touch_inode, e1)
        (touch_found-Touched get_timer f1 c path (find_unused sd b fs1.mem) idx before fs1 apart
          flat short (λ j e. (first_from-some _ 128 0 e).2) lt (rw block1 lo) (rw block1 hi)
          (rw wd1 wd) k1.caches missing all
          (λ e. why (sym (find_unused-same sd b fs1.mem before all) ∙ e)) (rw wd1 fresh) new)

  touch_new-Touched :
      {R : Type 0} (get_timer : ℕ → ℕ) (f : ℕ → ℕ → ℕ) (c : ℕ) (path : List ℕ) (found : Option ℕ)
      (fs : Fs D)
      → found ≡ find_name sd b (c ∷ path) fs.mem
      → Apart b
      → has b'/' (c ∷ path) ≡ false
      → length (c ∷ path) < 27
      → 802 ≤ wd_block sd b fs.mem
      → wd_block sd b fs.mem + 8 ≤ 2 ^ 32
      → word_at fs.mem (b.wd_inode + 4) < 4096
      → Caches sd f fs.cache
      → (find_name sd b (c ∷ path) fs.mem ≢ none → R)
      → (Finds (f 289) 4096 0 none → R)
      → (find_unused sd b fs.mem ≡ none → R)
      → is_allocated (f 289) (word_at fs.mem (b.wd_inode + 4)) ≡ true
      → Touched R (c ∷ path) (touch_new sd b get_timer found (c ∷ path) fs)
  unfolding touch_new
  touch_new-Touched get_timer f c path (some j) fs by apart flat short lo hi wd r exists full why
        used =
      Touched-none (c ∷ path) fs (exists (λ e. absurd (cc)))
  touch_new-Touched get_timer f c path none fs by apart flat short lo hi wd r exists full why used =
      let (found, fs1, f1, k1, least, e1) = find_free_inode-Keeps sd b f fs apart r in
      let (block1, wd1) = wd_kept f f1 fs fs1 k1 in
      rw (touch_new, e1)
        (touch_inode-Touched get_timer f1 c path (f 289) found fs.mem fs1 apart flat short least
          (rw block1 lo) (rw block1 hi) (rw wd1 wd) k1.caches (sym by)
          (dentries_kept f f1 fs fs1 k1) full why (rw wd1 used))

  -- The entries of the working directory once they are read.
  abbrev pub wd_dentries : (ℕ → ℕ → ℕ) → Fs D → Memory
  wd_dentries f fs = put_sector b.dentry_buffer (f (wd_block sd b fs.mem + 7)) fs.mem

  -- Why do_touch fails: the name is too long or exists, or no inode or no entry is free.
  abbrev pub TouchRefused : (ℕ → ℕ → ℕ) → List ℕ → Fs D → Type 0
  TouchRefused f path fs =
      (27 ≤ length path)
      ⊎ (find_name sd b path (wd_dentries f fs) ≢ none)
      ⊎ Finds (f 289) 4096 0 none
      ⊎ (find_unused sd b (wd_dentries f fs) ≡ none)

  -- For a non-empty name without a slash, when the static buffers are apart, the block of the
  -- working directory is at sector 802 or later and its number is below 4096 and in use on
  -- the card, and the cache stands for the sectors f: do_touch always returns. If it does not
  -- return -1, find_inode then finds the name from the working directory, and what it finds
  -- is an inode of type IT_FILE with its own number, one link and size 0. If it returns -1,
  -- the name has 27 bytes or more, an entry in dentry_buffer has the name once the directory
  -- is read, no inode is free on the card, or no entry in dentry_buffer is free.
  pub do_touch-Touched :
      (get_timer : ℕ → ℕ) (f : ℕ → ℕ → ℕ) (c : ℕ) (path : List ℕ) (fs : Fs D)
      → Apart b
      → has b'/' (c ∷ path) ≡ false
      → 802 ≤ wd_block sd b fs.mem
      → wd_block sd b fs.mem + 8 ≤ 2 ^ 32
      → word_at fs.mem (b.wd_inode + 4) < 4096
      → is_allocated (f 289) (word_at fs.mem (b.wd_inode + 4)) ≡ true
      → Caches sd f fs.cache
      → Touched (TouchRefused f (c ∷ path) fs) (c ∷ path) (do_touch sd b get_timer (c ∷ path) fs)
  unfolding do_touch
  do_touch-Touched get_timer f c path fs apart flat lo hi wd used r =
      elim (Bool-cases (leb 27 (length (c ∷ path)))) [
        | inl e ↦ rw (do_touch, e) (Touched-none (c ∷ path) fs (inl (ground arith)))
        | inr e ↦
            (let (c1, m, r1, same, e1) =
                read_dentries-state sd b f (wd_block sd b fs.mem) fs hi r in
              let read : Fs D = record fs { mem = m; cache = c1 } in
              let short : length (c ∷ path) < 27 = ground arith in
              let out : (k i : ℕ)
                  → k < 60
                  → i < 4
                  → m (b.wd_inode + k + i) ≡ fs.mem (b.wd_inode + k + i) =
                λ k i lt lt'.
                  same (b.wd_inode + k + i)
                  ∙ put_sector-Outside b.dentry_buffer (f (wd_block sd b fs.mem + 7)) fs.mem
                      (b.wd_inode + k + i) (let far = apart.wd in ground arith) in
              let block1 : wd_block sd b m ≡ wd_block sd b fs.mem =
                word_at-ext m fs.mem (b.wd_inode + 24) (λ i lt. out 24 i (omega arith) lt) in
              let wd1 : word_at m (b.wd_inode + 4) ≡ word_at fs.mem (b.wd_inode + 4) =
                word_at-ext m fs.mem (b.wd_inode + 4) (λ i lt. out 4 i (omega arith) lt) in
              rw (do_touch, e, e1)
                (touch_new-Touched get_timer f c path (find_name sd b (c ∷ path) m) read refl apart
                  flat short (rw block1 lo) (rw block1 hi) (rw wd1 wd) r1
                  (λ ne. inr (
                    inl (
                      rw
                        (find_name-same sd b m (wd_dentries f fs) (c ∷ path) (λ i lt. same _) short)
                        at ne)))
                  (λ full. inr (inr (inl full)))
                  (λ none_free. inr (
                    inr (
                      inr (
                        sym (find_unused-same sd b m (wd_dentries f fs) (λ i lt. same _))
                        ∙ none_free))))
                  (rw wd1 used)))
      ]
