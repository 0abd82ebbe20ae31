-- ===== src/Fs/Cache/Flush.antt =====
-- bflush, which the kernel runs when it writes the cache back.
use oslab_2024fall.Prelude.{
  ℕ, ◌<◌, ◌≡◌, refl, true, false, List, [], ◌∷◌, ◌==◌, arith, has, ◌⊎◌, inl, inr, Bool-cases, ◌∙◌,
}
use oslab_2024fall.Fs.Cache.{SdCard, Bcache, is_dirty, sector_size, flush_buf, flush_all, bflush}
use oslab_2024fall.Fs.Cache.Caches.{Caches}
use oslab_2024fall.Fs.Cache.Refill.{flush_buf-Caches, flush_buf-clean, flush_buf-lru}

module _ {D : Type 0} (sd : SdCard D) (f : ℕ → ℕ → ℕ) where
  flush_buf-still :
      (c : Bcache D) (b d : ℕ)
      → is_dirty (c.buf d) ≡ false
      → is_dirty ((flush_buf sd b c).buf d) ≡ false
  unfolding flush_buf
  flush_buf-still c b d e = ground arith

  -- The cache is sound, its ring is as before, and the buffers that were clean or were written back
  -- are clean.
  pub record Flushed (xs : List ℕ) (c c' : Bcache D) : Type 0 where
    pub caches : Caches sd f c'
    pub lru : c'.lru ≡ c.lru
    pub clean :
        (d : ℕ) → (has d xs ≡ true) ⊎ (is_dirty (c.buf d) ≡ false) → is_dirty (c'.buf d) ≡ false

  flush_all-Flushed :
      (xs : List ℕ) (c : Bcache D)
      → Caches sd f c
      → ((b : ℕ) → has b xs ≡ true → has b c.lru ≡ true)
      → Flushed xs c (flush_all sd xs c)
  unfolding flush_all
  flush_all-Flushed [] c r sub = record {
    caches = r;
    lru = refl;
    clean = λ d h. elim h [ inl m ↦ absurd (ground arith) | inr e ↦ e ];
  }
  flush_all-Flushed (x ∷ xs) c r sub =
      let here : has x c.lru ≡ true = sub x (ground arith) in
      let same = flush_buf-lru sd f c r x here in
      let h =
        flush_all-Flushed xs (flush_buf sd x c) (flush_buf-Caches sd f c r x here)
          (λ b m. rw same (sub b (ground arith))) in
      record {
        caches = h.caches;
        lru = h.lru ∙ same;
        clean = λ d e. elim e [
          | inl m ↦ elim (Bool-cases (x == d)) [
            | inl g ↦
                let p : x ≡ d = ground arith in
                h.clean d (inr (rw (← p) (flush_buf-clean sd f c r x here)))
            | inr g ↦ h.clean d (inl (ground arith))
          ]
          | inr n ↦ h.clean d (inr (flush_buf-still c x d n))
        ];
      }

  -- What the card and the cache are after bflush: every sector of the card is the cache's.
  pub record WrittenBack (c' : Bcache D) : Type 0 where
    pub caches : Caches sd f c'
    pub disk : (s i : ℕ) → i < sector_size → sd.read c'.disk s i ≡ f s i

  -- Over a cache that stands for the sectors f, bflush ends with a cache that stands for f
  -- and a card that holds f in every sector.
  pub bflush-WrittenBack : (c : Bcache D) → Caches sd f c → WrittenBack (bflush sd c)
  unfolding bflush
  bflush-WrittenBack c r =
      let h = flush_all-Flushed c.lru c r (λ b m. m) in
      record {
        caches = h.caches;
        disk = λ s i lt.
            h.caches.on_disk s i lt (λ b m n. ground (arith, n, h.clean b (inl (rw (← h.lru) m))));
      }
