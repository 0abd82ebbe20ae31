-- ===== src/Fs/Create/NewFile.antt =====
-- new_inode of Fs/Inodes: the fields of a new file, and the memory outside it.
use oslab_2024fall.Prelude.{ℕ, ◌+◌, ◌-◌, ◌^◌, ◌≤◌, ◌<◌, ◌≡◌, refl, arith, ◌⊎◌, ◌∙◌}
use oslab_2024fall.Prelude.Table.{update, update_self, update_ne}
use oslab_2024fall.Libs.Memory.{Memory, bzero, memset_lem}
use oslab_2024fall.Fs.State.{word_at, put_word}
use oslab_2024fall.Fs.Inodes.{it_file, o_rdwr, half_at, new_inode, put_half}
use oslab_2024fall.Fs.Dirs.Entries.{word_at-ext, word_at-put_word}

-- The addresses in a range, and outside it.
abbrev pub Within : ℕ → ℕ → ℕ → Type 0
Within a x n = (x ≤ a) × (a < x + n)

abbrev pub Outside : ℕ → ℕ → ℕ → Type 0
Outside a x n = (a < x) ⊎ (x + n ≤ a)

pub put_word-Outside : (x w a : ℕ) (mem : Memory) → Outside a x 4 → put_word x w mem a ≡ mem a
put_word-Outside x w a mem out = ground arith

pub put_half-Outside : (x w a : ℕ) (mem : Memory) → Outside a x 2 → put_half x w mem a ≡ mem a
put_half-Outside x w a mem out = ground arith

-- A count of links that is set to 1.
half_at-one :
    (a : ℕ) (mem m : Memory)
    → ((k : ℕ) → k < 2 → m (a + k) ≡ put_half a 1 mem (a + k))
    → half_at m a ≡ 1
half_at-one a mem m same =
    let z : a + 0 ≡ a = omega arith in
    let e0 : a - a ≡ 0 = omega arith in
    let e1 : a + 1 - a ≡ 1 = omega arith in
    let h0 = rw z at (same 0 (omega arith)) in
    let h1 = same 1 (omega arith) in ground (arith, e0, e1, h0, h1)

-- The fields of a new file at an address.
abbrev pub IsNewFile : Memory → ℕ → ℕ → Type 0
IsNewFile mem a idx =
    (mem (a + 1) ≡ it_file)
    × (half_at mem (a + 2) ≡ 1)
    × (word_at mem (a + 4) ≡ idx)
    × (word_at mem (a + 8) ≡ 0)

pub IsNewFile-ext :
    (m mem : Memory) (a c idx : ℕ)
    → ((k : ℕ) → k < 64 → m (a + k) ≡ mem (c + k))
    → IsNewFile mem c idx
    → IsNewFile m a idx
IsNewFile-ext m mem a c idx same (type, nlink, ino, size) =
    let word : (k : ℕ) → k < 60 → word_at m (a + k) ≡ word_at mem (c + k) = λ k lt.
      rw (same k (omega arith)) (
        let s1 = same (k + 1) (omega arith) in
        let s2 = same (k + 2) (omega arith) in
        let s3 = same (k + 3) (omega arith) in
        let a1 : a + k + 1 ≡ a + (k + 1) = omega arith in
        let a2 : a + k + 2 ≡ a + (k + 2) = omega arith in
        let a3 : a + k + 3 ≡ a + (k + 3) = omega arith in
        let c1 : c + k + 1 ≡ c + (k + 1) = omega arith in
        let c2 : c + k + 2 ≡ c + (k + 2) = omega arith in
        let c3 : c + k + 3 ≡ c + (k + 3) = omega arith in
        rw (a1, a2, a3, c1, c2, c3, s1, s2, s3) refl) in
    let a3 : a + 2 + 1 ≡ a + 3 = omega arith in
    let c3 : c + 2 + 1 ≡ c + 3 = omega arith in
    (
      same 1 (omega arith) ∙ type,
      rw (a3, same 2 (omega arith), same 3 (omega arith)) (rw c3 at nlink),
      word 4 (omega arith) ∙ ino,
      word 8 (omega arith) ∙ size,
    )

pub new_inode-Outside :
    (inode idx type size time : ℕ) (mem : Memory) (a : ℕ)
    → Outside a inode 64
    → new_inode inode idx type size time mem a ≡ mem a
unfolding new_inode bzero
new_inode-Outside inode idx type size time mem a out =
    let m0 = update (bzero inode 64 mem) inode o_rdwr in
    let m1 = put_word (inode + 8) size m0 in
    let m2 = put_word (inode + 20) time m1 in
    let m3 = put_word (inode + 16) time m2 in
    let m4 = put_word (inode + 12) time m3 in
    let m5 = put_word (inode + 4) idx m4 in
    update_ne (put_half (inode + 2) 1 m5) (inode + 1) a type (ground arith)
    ∙ put_half-Outside (inode + 2) 1 a m5 (ground arith)
    ∙ put_word-Outside (inode + 4) idx a m4 (ground arith)
    ∙ put_word-Outside (inode + 12) time a m3 (ground arith)
    ∙ put_word-Outside (inode + 16) time a m2 (ground arith)
    ∙ put_word-Outside (inode + 20) time a m1 (ground arith)
    ∙ put_word-Outside (inode + 8) size a m0 (ground arith)
    ∙ update_ne (bzero inode 64 mem) inode a o_rdwr (ground arith)
    ∙ memset_lem inode 0 64 mem a
    ∙ ground arith

pub new_inode-IsNewFile :
    (inode idx time : ℕ) (mem : Memory)
    → idx < 2 ^ 32
    → IsNewFile (new_inode inode idx it_file 0 time mem) inode idx
unfolding new_inode
new_inode-IsNewFile inode idx time mem fits =
    let m0 = update (bzero inode 64 mem) inode o_rdwr in
    let m1 = put_word (inode + 8) 0 m0 in
    let m2 = put_word (inode + 20) time m1 in
    let m3 = put_word (inode + 16) time m2 in
    let m4 = put_word (inode + 12) time m3 in
    let m5 = put_word (inode + 4) idx m4 in
    let m6 = put_half (inode + 2) 1 m5 in
    let m7 = update m6 (inode + 1) it_file in
    (
      update_self m6 (inode + 1) it_file,
      half_at-one (inode + 2) m5 m7
          (λ k lt. update_ne m6 (inode + 1) (inode + 2 + k) it_file (ground arith)),
      word_at-ext m7 m5 (inode + 4) (λ k lt.
            update_ne m6 (inode + 1) (inode + 4 + k) it_file (ground arith)
            ∙ put_half-Outside (inode + 2) 1 (inode + 4 + k) m5 (ground arith))
          ∙ word_at-put_word (inode + 4) idx m4 fits,
      word_at-ext m7 m1 (inode + 8) (λ k lt.
            update_ne m6 (inode + 1) (inode + 8 + k) it_file (ground arith)
            ∙ put_half-Outside (inode + 2) 1 (inode + 8 + k) m5 (ground arith)
            ∙ put_word-Outside (inode + 4) idx (inode + 8 + k) m4 (ground arith)
            ∙ put_word-Outside (inode + 12) time (inode + 8 + k) m3 (ground arith)
            ∙ put_word-Outside (inode + 16) time (inode + 8 + k) m2 (ground arith)
            ∙ put_word-Outside (inode + 20) time (inode + 8 + k) m1 (ground arith))
          ∙ word_at-put_word (inode + 8) 0 m0 (omega arith),
    )
