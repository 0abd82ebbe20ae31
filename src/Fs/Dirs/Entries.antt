-- ===== src/Fs/Dirs/Entries.antt =====
-- An entry of a directory that was written is read again, and the other entries stay.
use oslab_2024fall.Prelude.{
  ℕ, suc, ◌+◌, ◌-◌, ◌*◌, ◌^◌, ◌≤◌, ◌<◌, ◌≡◌, refl, true, none, some, List, [], ◌∷◌, ◌==◌, ◌&&◌,
  length, arith, ◌⊎◌, inl, ◌∙◌,
}
use oslab_2024fall.Prelude.Table.{update}
use oslab_2024fall.Prelude.Seq.{first_from-only, first_from-none, first_from-ext}
use oslab_2024fall.Libs.Memory.{Memory}
use oslab_2024fall.Fs.State.{Buffers, word_at, put_word}
use oslab_2024fall.Fs.Cache.{SdCard}
use oslab_2024fall.Fs.Dirs.{
  is_named, put_name, put_dentry, dentry_at, dentry_ino, find_name, find_unused,
}

pub word_at-put_word : (a w : ℕ) (mem : Memory) → w < 2 ^ 32 → word_at (put_word a w mem) a ≡ w
word_at-put_word a w mem lt =
    let e0 : a - a ≡ 0 = omega arith in
    let e1 : a + 1 - a ≡ 1 = omega arith in
    let e2 : a + 2 - a ≡ 2 = omega arith in
    let e3 : a + 3 - a ≡ 3 = omega arith in ground (arith, e0, e1, e2, e3)

-- Words that agree in their four bytes.
pub word_at-ext :
    (m mem : Memory) (a : ℕ)
    → ((i : ℕ) → i < 4 → m (a + i) ≡ mem (a + i))
    → word_at m a ≡ word_at mem a
word_at-ext m mem a same =
    let e0 : a + 0 ≡ a = omega arith in
    let h0 : m a ≡ mem a = rw e0 at (same 0 (omega arith)) in
    rw (h0, same 1 (omega arith), same 2 (omega arith), same 3 (omega arith)) refl

pub is_named-ext :
    (m mem : Memory) (a : ℕ) (name : List ℕ)
    → ((i : ℕ) → i ≤ length name → m (a + i) ≡ mem (a + i))
    → is_named m a name ≡ is_named mem a name
unfolding is_named
is_named-ext m mem a [] same =
    let e0 : a + 0 ≡ a = omega arith in
    let h0 : m a ≡ mem a = rw e0 at (same 0 (omega arith)) in rw h0 refl
is_named-ext m mem a (c ∷ name) same =
    let e0 : a + 0 ≡ a = omega arith in
    let h0 : m a ≡ mem a = rw e0 at (same 0 (omega arith)) in
    let later =
      is_named-ext m mem (a + 1) name (λ i le.
        let e : a + 1 + i ≡ a + suc i = omega arith in rw e (same (suc i) (ground arith))) in
    rw (h0, later) refl

pub put_name_outside :
    (a : ℕ) (name : List ℕ) (mem : Memory) (c : ℕ)
    → (c < a) ⊎ (a + length name < c)
    → put_name a name mem c ≡ mem c
unfolding put_name
put_name_outside a [] mem c out = ground arith
put_name_outside a (d ∷ name) mem c out =
    put_name_outside (a + 1) name (update mem a d) c (ground arith) ∙ ground arith

-- strcpy of a name, and strcmp with it.
pub is_named-put_name :
    (a : ℕ) (name : List ℕ) (mem : Memory) → is_named (put_name a name mem) a name ≡ true
unfolding is_named put_name
is_named-put_name a [] mem = ground arith
is_named-put_name a (c ∷ name) mem =
    let first : put_name (a + 1) name (update mem a c) a ≡ c =
      put_name_outside (a + 1) name (update mem a c) a (inl (omega arith)) ∙ ground arith in
    let later = is_named-put_name (a + 1) name (update mem a c) in ground (arith, first, later)

module _ {D : Type 0} (sd : SdCard D) (b : Buffers) where
  pub put_dentry_outside :
      (j : ℕ) (name : List ℕ) (ino type : ℕ) (mem : Memory) (c : ℕ)
      → length name < 27
      → (c < dentry_at sd b j) ⊎ (dentry_at sd b j + 32 ≤ c)
      → put_dentry sd b j name ino type mem c ≡ mem c
  unfolding put_dentry
  put_dentry_outside j name ino type mem c short out =
      let named = put_name_outside (dentry_at sd b j) name mem c (ground arith) in
      ground (arith, named)

  -- strcmp of an entry that was written, with its name.
  pub is_named-put_dentry :
      (j : ℕ) (name : List ℕ) (ino type : ℕ) (mem : Memory)
      → length name < 27
      → is_named (put_dentry sd b j name ino type mem) (dentry_at sd b j) name ≡ true
  unfolding put_dentry
  is_named-put_dentry j name ino type mem short =
      is_named-ext (put_dentry sd b j name ino type mem) (put_name (dentry_at sd b j) name mem)
        (dentry_at sd b j) name (λ i le. ground arith)
      ∙ is_named-put_name (dentry_at sd b j) name mem

  pub dentry_ino-put_dentry :
      (j : ℕ) (name : List ℕ) (ino type : ℕ) (mem : Memory)
      → ino < 2 ^ 32
      → dentry_ino sd b (put_dentry sd b j name ino type mem) j ≡ ino
  unfolding put_dentry
  dentry_ino-put_dentry j name ino type mem fits =
      let named = put_name (dentry_at sd b j) name mem in
      word_at-ext (put_dentry sd b j name ino type mem) (put_word (dentry_at sd b j + 28) ino named)
        (dentry_at sd b j + 28) (λ i lt. ground arith)
      ∙ word_at-put_word (dentry_at sd b j + 28) ino named fits

  -- Memory that agrees with another one in dentry_buffer.
  abbrev pub SameDentries : Memory → Memory → Type 0
  SameDentries m mem = (i : ℕ) → i < 4096 → m (b.dentry_buffer + i) ≡ mem (b.dentry_buffer + i)

  pub is_named-same :
      (m mem : Memory) (j : ℕ) (name : List ℕ)
      → SameDentries m mem
      → j < 128
      → length name < 27
      → is_named m (dentry_at sd b j) name ≡ is_named mem (dentry_at sd b j) name
  is_named-same m mem j name same lt short = is_named-ext m mem (dentry_at sd b j) name (λ i le.
      let e : b.dentry_buffer + 32 * j + i ≡ b.dentry_buffer + (32 * j + i) = omega arith in
      rw e (same (32 * j + i) (omega arith)))

  pub dentry_ino-same :
      (m mem : Memory) (j : ℕ)
      → SameDentries m mem
      → j < 128
      → dentry_ino sd b m j ≡ dentry_ino sd b mem j
  dentry_ino-same m mem j same lt = word_at-ext m mem (dentry_at sd b j + 28) (λ i le.
      let e : b.dentry_buffer + 32 * j + 28 + i ≡ b.dentry_buffer + (32 * j + 28 + i) =
        omega arith in
      rw e (same (32 * j + 28 + i) (omega arith)))

  -- In a directory without the name, the entry that was written is the one that the name finds.
  pub find_name-put_dentry :
      (j : ℕ) (name : List ℕ) (ino type : ℕ) (before m mem : Memory)
      → j < 128
      → length name < 27
      → find_name sd b name before ≡ none
      → SameDentries mem before
      → SameDentries m (put_dentry sd b j name ino type mem)
      → find_name sd b name m ≡ some j
  unfolding find_name
  find_name-put_dentry j name ino type before m mem lt short missing same same' =
      first_from-only (λ k. is_named m (dentry_at sd b k) name) 128 0 j (omega arith) lt
        (is_named-same m (put_dentry sd b j name ino type mem) j name same' lt short
          ∙ is_named-put_dentry j name ino type mem short)
        (λ k lo less.
          is_named-same m (put_dentry sd b j name ino type mem) k name same' (omega arith) short
          ∙ is_named-ext (put_dentry sd b j name ino type mem) mem (dentry_at sd b k) name (λ i le.
            put_dentry_outside j name ino type mem (dentry_at sd b k + i) short (inl (omega arith)))
          ∙ is_named-same mem before k name same (omega arith) short
          ∙ first_from-none (λ k. is_named before (dentry_at sd b k) name) 128 0 missing k lo
              (omega arith))

  pub find_name-same :
      (m mem : Memory) (name : List ℕ)
      → SameDentries m mem
      → length name < 27
      → find_name sd b name m ≡ find_name sd b name mem
  unfolding find_name
  find_name-same m mem name same short =
      first_from-ext (λ j. is_named m (dentry_at sd b j) name)
        (λ j. is_named mem (dentry_at sd b j) name) 128 0
        (λ k lo hi. is_named-same m mem k name same (omega arith) short)

  pub find_unused-same :
      (m mem : Memory) → SameDentries m mem → find_unused sd b m ≡ find_unused sd b mem
  unfolding find_unused
  find_unused-same m mem same =
      first_from-ext (λ j. dentry_ino sd b m j == 0 && m (dentry_at sd b j) == 0)
        (λ j. dentry_ino sd b mem j == 0 && mem (dentry_at sd b j) == 0) 128 0
        (λ k lo hi.
          let first : m (dentry_at sd b k) ≡ mem (dentry_at sd b k) = same (32 * k) (omega arith) in
          rw (dentry_ino-same m mem k same (omega arith), first) refl)
