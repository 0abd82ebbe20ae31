-- ===== src/Fs/Cache/Caches.antt =====
-- What the cache stands for: the contents of the card once everything is written back.
use oslab_2024fall.Prelude.{ℕ, ◌<◌, ◌≡◌, ◌≢◌, true, false, has, IsNodup}
use oslab_2024fall.Fs.Cache.{SdCard, Bcache, is_dirty, sector_size, nbuf}

module _ {D : Type 0} (sd : SdCard D) where
  -- The cache over the card holds the sectors `f`.
  pub record Caches (f : ℕ → ℕ → ℕ) (c : Bcache D) : Type 0 where
    pub nodup : IsNodup c.lru
    pub in_use : (b : ℕ) → has b c.lru ≡ true → (c.buf b).valid ≡ 1
    pub free : (b : ℕ) → b < nbuf → has b c.lru ≡ false → (c.buf b).valid ≡ 0
    pub one_each :
        (b d : ℕ)
        → has b c.lru ≡ true
        → has d c.lru ≡ true
        → (c.buf b).sectorid ≡ (c.buf d).sectorid
        → b ≡ d
    pub held :
        (b i : ℕ)
        → has b c.lru ≡ true
        → i < sector_size
        → (c.buf b).bytes i ≡ f (c.buf b).sectorid i
    pub on_disk :
        (s i : ℕ)
        → i < sector_size
        → ((b : ℕ) → has b c.lru ≡ true → is_dirty (c.buf b) ≡ true → (c.buf b).sectorid ≢ s)
        → sd.read c.disk s i ≡ f s i
