-- ===== src/Fs/Cache/Found.antt =====
-- The buffer that a round of bwrite or bread works on.
use oslab_2024fall.Prelude.{
  ℕ, ◌≡◌, ◌≢◌, refl, true, false, List, [], ◌∷◌, ◌==◌, arith, has, Option, none, some, inl, inr,
  Option-cases, has-erase_le, has-erase_self,
}
use oslab_2024fall.Prelude.Seq.{first_from, first_from-some, first_from-none}
use oslab_2024fall.Fs.Cache.{
  SdCard, Bcache, Buf, nbuf, flush_buf, evict, fill, find_free_buf, last, brefill, get_buf,
  search_buf, search_in,
}
use oslab_2024fall.Fs.Cache.Caches.{Caches}
use oslab_2024fall.Fs.Cache.Refill.{flush_buf-Caches, flush_buf-clean, dropped-Caches, fill-Caches}

last-has : (xs : List ℕ) (b : ℕ) → last xs ≡ some b → has b xs ≡ true
unfolding last
last-has [] b h = absurd (ground arith)
last-has (x ∷ []) b h = ground arith
last-has (x ∷ y ∷ xs) b h = ground (arith, last-has (y ∷ xs) b h)

last-none : (xs : List ℕ) → last xs ≡ none → (b : ℕ) → has b xs ≡ false
unfolding last
last-none [] h b = refl
last-none (x ∷ []) h b = absurd (ground arith)
last-none (x ∷ y ∷ xs) h b = absurd (ground (arith, last-none (y ∷ xs) h y))

search_in-some :
    (buf : ℕ → Buf) (xs : List ℕ) (s b : ℕ)
    → search_in buf xs s ≡ some b
    → (has b xs ≡ true) × ((buf b).sectorid ≡ s)
unfolding search_in
search_in-some buf [] s b h = absurd (ground arith)
search_in-some buf (x ∷ xs) s b h = ground (arith, search_in-some buf xs s b)

search_in-none :
    (buf : ℕ → Buf) (xs : List ℕ) (s : ℕ)
    → search_in buf xs s ≡ none
    → (b : ℕ) → has b xs ≡ true
    → (buf b).valid ≡ 1
    → (buf b).sectorid ≢ s
unfolding search_in
search_in-none buf [] s h b m v = absurd (ground arith)
search_in-none buf (x ∷ xs) s h b m v = ground (
  arith,
  λ (e : search_in buf xs s ≡ none) (n : has b xs ≡ true). search_in-none buf xs s e b n v,
)

module _ {D : Type 0} (sd : SdCard D) (f : ℕ → ℕ → ℕ) where
  fill-has : (b s : ℕ) (c : Bcache D) → has b (fill sd b s c).lru ≡ true
  unfolding fill
  fill-has b s c = ground arith

  fill-sector : (b s : ℕ) (c : Bcache D) → ((fill sd b s c).buf b).sectorid ≡ s
  unfolding fill
  fill-sector b s c = ground arith

  -- A buffer outside the ring, and a ring that holds no new sector.
  pub record Freed (c : Bcache D) (r : Option ℕ × Bcache D) : Type 0 where
    pub buf : ℕ
    pub is_some : r.0 ≡ some buf
    pub caches : Caches sd f (r.1)
    pub out : has buf (r.1).lru ≡ false
    pub older :
        (d : ℕ)
        → has d (r.1).lru ≡ true
        → (has d c.lru ≡ true) × (((r.1).buf d).sectorid ≡ (c.buf d).sectorid)
    pub same_policy : (r.1).policy ≡ c.policy

  -- A buffer of the ring with the sector.
  pub record Got (sectorid : ℕ) (c : Bcache D) (r : Option ℕ × Bcache D) : Type 0 where
    pub buf : ℕ
    pub is_some : r.0 ≡ some buf
    pub caches : Caches sd f (r.1)
    pub here : has buf (r.1).lru ≡ true
    pub sector : ((r.1).buf buf).sectorid ≡ sectorid
    pub same_policy : (r.1).policy ≡ c.policy

  module _ (c : Bcache D) (r : Caches sd f c) where
    evict-out : (b : ℕ) → has b c.lru ≡ true → has b (evict sd b c).lru ≡ false
    unfolding evict flush_buf
    evict-out b here = ground (arith, has-erase_self b c.lru r.nodup)

    evict-older :
        (b : ℕ)
        → has b c.lru ≡ true
        → (d : ℕ) → has d (evict sd b c).lru ≡ true
        → (has d c.lru ≡ true) × (((evict sd b c).buf d).sectorid ≡ (c.buf d).sectorid)
    unfolding evict flush_buf
    evict-older b here d m = ground (arith, has-erase_le d b c.lru, has-erase_self b c.lru r.nodup)

    evict-policy : (b : ℕ) → (evict sd b c).policy ≡ c.policy
    unfolding evict flush_buf
    evict-policy b = ground arith

    evict-Freed : (b : ℕ) → has b c.lru ≡ true → Freed c (some b, evict sd b c)
    unfolding evict
    evict-Freed b here =
        let c1 = flush_buf sd b c in
        let clean = flush_buf-clean sd f c r b here in
        record {
          buf = b;
          is_some = refl;
          caches = dropped-Caches sd f c1 (flush_buf-Caches sd f c r b here) b clean;
          out = evict-out b here;
          older = λ d m. evict-older b here d m;
          same_policy = evict-policy b;
        }

    -- A buffer outside the ring is free, or the ring has an end to evict.
    pub find_free_buf-Freed : Freed c (find_free_buf sd c)
    unfolding find_free_buf
    find_free_buf-Freed = elim (Option-cases (first_from (λ i. (c.buf i).valid == 0) nbuf 0)) [
      | inr (b, e) ↦
          let p = first_from-some (λ i. (c.buf i).valid == 0) nbuf 0 {j = b} e in
          rw (find_free_buf, e)
            (record {
              buf = b;
              is_some = refl;
              caches = r;
              out = ground (arith, r.in_use b);
              older = λ d m. (m, refl);
              same_policy = refl;
            })
      | inl e ↦ elim (Option-cases (last c.lru)) [
        | inr (b, g) ↦ rw (find_free_buf, e, g) (evict-Freed b (last-has c.lru b g))
        | inl g ↦ absurd (
            ground (
              arith,
              last-none c.lru g 0,
              r.free 0,
              first_from-none (λ i. (c.buf i).valid == 0) nbuf 0 e 0,
            ))
      ]
    ]

    -- brefill puts a sector that no buffer holds into a buffer.
    brefill-Got :
        (s : ℕ) → ((d : ℕ) → has d c.lru ≡ true → (c.buf d).sectorid ≢ s) → Got s c (brefill sd s c)
    unfolding brefill fill
    brefill-Got s new =
        let p = find_free_buf-Freed in
        rw (brefill, p.is_some)
          (record {
            buf = p.buf;
            is_some = refl;
            caches =
                fill-Caches sd f _ p.caches p.buf s p.out
                  (λ d m. ground (arith, p.older d m, new d));
            here = fill-has p.buf s ((find_free_buf sd c).1);
            sector = fill-sector p.buf s ((find_free_buf sd c).1);
            same_policy = p.same_policy;
          })

    pub get_buf-Got : (s : ℕ) → Got s c (get_buf sd s c)
    unfolding get_buf search_buf
    get_buf-Got s = elim (Option-cases (search_in c.buf c.lru s)) [
      | inr (b, e) ↦
          let p = search_in-some c.buf c.lru s b e in
          rw (get_buf, search_buf, e)
            (record {
              buf = b;
              is_some = refl;
              caches = r;
              here = p.0;
              sector = p.1;
              same_policy = refl;
            })
      | inl e ↦
          rw (get_buf, search_buf, e)
            (brefill-Got s (λ d m. search_in-none c.buf c.lru s e d m (r.in_use d m)))
    ]
