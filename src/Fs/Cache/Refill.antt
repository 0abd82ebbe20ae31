-- ===== src/Fs/Cache/Refill.antt =====
-- The cache after a buffer is written back, evicted or filled.
use oslab_2024fall.Prelude.{
  ℕ, ◌<◌, ◌≡◌, ◌≢◌, true, false, ◌==◌, arith, has, inl, inr, Bool-cases, has-erase_le, has-erase_ne,
  has-erase_self, IsNodup-erase, erase, ◌∙◌,
}
use oslab_2024fall.Fs.Cache.{SdCard, Bcache, is_dirty, sector_size, flush_buf, fill, set_buf}
use oslab_2024fall.Fs.Cache.Caches.{Caches}

module _ {D : Type 0} (sd : SdCard D) (f : ℕ → ℕ → ℕ) (c : Bcache D) (r : Caches sd f c) where
  module _ (b : ℕ) (here : has b c.lru ≡ true) where
    abbrev written : Bcache D
    written =
        set_buf sd b (record (c.buf b) { dirty = 0 })
          (record c { disk = sd.write c.disk (c.buf b).sectorid (c.buf b).bytes })

    written-on_disk :
        (s i : ℕ)
        → i < sector_size
        → ((d : ℕ)
            → has d c.lru ≡ true
            → is_dirty (written.buf d) ≡ true
            → (written.buf d).sectorid ≢ s)
        → sd.read written.disk s i ≡ f s i
    written-on_disk s i lt clean = elim (Bool-cases ((c.buf b).sectorid == s)) [
      | inl g ↦
          let p : (c.buf b).sectorid ≡ s = ground arith in
          rw (← p)
            (sd.read_same c.disk (c.buf b).sectorid (c.buf b).bytes i lt ∙ r.held b i here lt)
      | inr g ↦
          sd.read_other c.disk (c.buf b).sectorid s (c.buf b).bytes i (ground arith)
          ∙ r.on_disk s i lt (λ d m n. ground (arith, clean d m))
    ]

    pub flush_buf-Caches : Caches sd f (flush_buf sd b c)
    unfolding flush_buf
    flush_buf-Caches = elim (Bool-cases (is_dirty (c.buf b))) [
      | inl e ↦ rw e (record {
        nodup = r.nodup;
        in_use = λ d m. ground (arith, r.in_use d m);
        free = λ d lt m. ground (arith, r.free d lt m);
        one_each = λ d g m n eq. r.one_each d g m n (ground arith);
        held = λ d i m lt. ground (arith, r.held d i m lt);
        on_disk = written-on_disk;
      })
      | inr e ↦ rw e r
    ]

    pub flush_buf-clean : is_dirty ((flush_buf sd b c).buf b) ≡ false
    unfolding flush_buf
    flush_buf-clean = ground arith

    pub flush_buf-lru : (flush_buf sd b c).lru ≡ c.lru
    unfolding flush_buf
    flush_buf-lru = ground arith

  -- A clean buffer leaves the ring.
  module _ (b : ℕ) (clean : is_dirty (c.buf b) ≡ false) where
    abbrev dropped : Bcache D
    dropped = record (set_buf sd b (record (c.buf b) { valid = 0; sectorid = 0 }) c) {
      lru = erase b c.lru;
    }

    dropped_ne : (d : ℕ) → has d (erase b c.lru) ≡ true → b ≢ d
    dropped_ne d m = ground (arith, has-erase_self b c.lru r.nodup)

    pub dropped-Caches : Caches sd f dropped
    dropped-Caches = record {
      nodup = IsNodup-erase b c.lru r.nodup;
      in_use = λ d m. ground (arith, dropped_ne d m, r.in_use d (has-erase_le d b c.lru m));
      free = λ d lt m. ground (arith, r.free d lt, has-erase_ne d b c.lru);
      one_each = λ d g m n eq.
          r.one_each d g (has-erase_le d b c.lru m) (has-erase_le g b c.lru n)
            (ground (arith, dropped_ne d m, dropped_ne g n));
      held = λ d i m lt. ground (arith, dropped_ne d m, r.held d i (has-erase_le d b c.lru m) lt);
      on_disk =
          λ s i lt cl. r.on_disk s i lt (λ d m n. ground (arith, cl d, has-erase_ne d b c.lru));
    }

  -- A free buffer gets a sector that no buffer holds.
  module _ (b sectorid : ℕ) (out : has b c.lru ≡ false)
      (new : (d : ℕ) → has d c.lru ≡ true → (c.buf d).sectorid ≢ sectorid) where
    pub fill-Caches : Caches sd f (fill sd b sectorid c)
    unfolding fill
    fill-Caches = record {
      nodup = (out, r.nodup);
      in_use = λ d m. ground (arith, r.in_use d);
      free = λ d lt m. ground (arith, r.free d lt);
      one_each = λ d g m n eq. ground (arith, new d, new g, r.one_each d g);
      held = λ d i m lt. ground (arith, r.held d i, r.on_disk sectorid i lt (λ g k _. new g k));
      on_disk = λ s i lt cl. r.on_disk s i lt (λ d m n. ground (arith, cl d));
    }
