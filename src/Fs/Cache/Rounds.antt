-- ===== src/Fs/Cache/Rounds.antt =====
-- What bwrite and bread do to the sectors that the cache stands for.
use oslab_2024fall.Prelude.{
  ℕ, zero, suc, ◌+◌, ◌-◌, ◌%◌, ◌^◌, ◌≤◌, ◌<◌, ◌≡◌, ◌≢◌, refl, true, false, ◌==◌, ◌&&◌, leb, ltb,
  arith, has, Option, some, ◌⊎◌, inl, inr, Bool-cases, ◌∙◌, if◌then◌else◌,
}
use oslab_2024fall.Prelude.Table.{update}
use oslab_2024fall.Libs.Memory.{Memory}
use oslab_2024fall.Fs.Cache.{
  SdCard, Bcache, Buf, Policy, bwrite_back, bwrite_through, is_dirty, sector_size, get_buf,
  write_buf, read_buf, bwrite_round, bread_round, bwrite_from, bread_from, bwrite, bread,
}
use oslab_2024fall.Fs.Cache.Caches.{Caches}
use oslab_2024fall.Fs.Cache.Found.{get_buf-Got}

-- The sectors of a range hold the bytes at `mem_va`, each the same ones.
abbrev pub put_range : ℕ → ℕ → ℕ → Memory → (ℕ → ℕ → ℕ) → ℕ → ℕ → ℕ
put_range first n mem_va mem f t i =
    if leb first t && ltb t (first + n) then mem (mem_va + i) else f t i

-- Memory with a sector at `mem_va`.
abbrev pub put_sector : ℕ → (ℕ → ℕ) → Memory → Memory
put_sector mem_va bytes mem a =
    if leb mem_va a && ltb a (mem_va + sector_size) then bytes (a - mem_va) else mem a

put_sector_twice :
    (mem_va : ℕ) (x y : ℕ → ℕ) (m mem : Memory)
    → ((a : ℕ) → m a ≡ put_sector mem_va y mem a)
    → (a : ℕ) → put_sector mem_va x m a ≡ put_sector mem_va x mem a
put_sector_twice mem_va x y m mem same a =
    elim (Bool-cases (leb mem_va a && ltb a (mem_va + sector_size))) [
      | inl e ↦ rw e refl
      | inr e ↦ let h = same a in rw e (ground (arith, h, e))
    ]

Policy-cases : (p : Policy) → (p ≡ bwrite_back) ⊎ (p ≡ bwrite_through)
Policy-cases bwrite_back = inl refl
Policy-cases bwrite_through = inr refl

module _ {D : Type 0} (sd : SdCard D) where
  pub Caches-ext :
      (f g : ℕ → ℕ → ℕ) (c : Bcache D)
      → ((s i : ℕ) → i < sector_size → f s i ≡ g s i)
      → Caches sd f c
      → Caches sd g c
  Caches-ext f g c same r = record {
    nodup = r.nodup;
    in_use = r.in_use;
    free = r.free;
    one_each = r.one_each;
    held = λ b i m lt. r.held b i m lt ∙ same _ i lt;
    on_disk = λ s i lt cl. r.on_disk s i lt cl ∙ same s i lt;
  }

  module _ (f : ℕ → ℕ → ℕ) (mem_va : ℕ) (mem : Memory) where
    -- A round stores the bytes at `mem_va` as its sector.
    abbrev put_one : ℕ → ℕ → ℕ → ℕ
    put_one s t i = if s == t then mem (mem_va + i) else f t i

    module _ (c : Bcache D) (r : Caches sd f c) (b s : ℕ) (here : has b c.lru ≡ true)
        (sector : (c.buf b).sectorid ≡ s) where
      abbrev copied : ℕ → ℕ
      copied i = if ltb i sector_size then mem (mem_va + i) else (c.buf b).bytes i

      copied-held :
          (p : Buf)
          → p.sectorid ≡ s
          → p.bytes ≡ copied
          → (d i : ℕ) → has d c.lru ≡ true
          → i < sector_size
          → (update c.buf b p d).bytes i ≡ put_one s (update c.buf b p d).sectorid i
      copied-held p e q d i m lt = elim (Bool-cases (b == d)) [
        | inl g ↦ rw (g, e, q) (ground arith)
        | inr g ↦ rw g (ground (arith, r.one_each b d here m, r.held d i m lt))
      ]

      back-on_disk :
          (t i : ℕ)
          → i < sector_size
          → ((d : ℕ)
              → has d c.lru ≡ true
              → is_dirty (update c.buf b (record (c.buf b) { bytes = copied; dirty = 1 }) d) ≡ true
              → (update c.buf b (record (c.buf b) { bytes = copied; dirty = 1 }) d).sectorid ≢ t)
          → sd.read c.disk t i ≡ put_one s t i
      back-on_disk t i lt cl =
          let away : s ≢ t = ground (arith, cl b here) in
          let e : (s == t) ≡ false = ground arith in
          rw e (r.on_disk t i lt (λ d m n. ground (arith, cl d m)))

      through-on_disk :
          (t i : ℕ)
          → i < sector_size
          → ((d : ℕ)
              → has d c.lru ≡ true
              → is_dirty (update c.buf b (record (c.buf b) { bytes = copied }) d) ≡ true
              → (update c.buf b (record (c.buf b) { bytes = copied }) d).sectorid ≢ t)
          → sd.read (sd.write c.disk s copied) t i ≡ put_one s t i
      through-on_disk t i lt cl = elim (Bool-cases (s == t)) [
        | inl e ↦
            let p : s ≡ t = ground arith in
            rw (e, ← p) (sd.read_same c.disk s copied i lt ∙ (ground arith))
        | inr e ↦ rw e (
            sd.read_other c.disk s t copied i (ground arith)
            ∙ r.on_disk t i lt (λ d m n. ground (arith, cl d m)))
      ]

      write_buf-Caches : Caches sd (put_one s) (write_buf sd b mem_va s mem c)
      unfolding write_buf
      write_buf-Caches = elim (Policy-cases c.policy) [
        | inl e ↦
            rw (write_buf, e)
              (record {
                nodup = r.nodup;
                in_use = λ d m. ground (arith, r.in_use d m);
                free = λ d lt m. ground (arith, r.free d lt m);
                one_each = λ d g m n eq. r.one_each d g m n (ground arith);
                held = copied-held (record (c.buf b) { bytes = copied; dirty = 1 }) sector refl;
                on_disk = back-on_disk;
              })
        | inr e ↦
            rw (write_buf, e)
              (record {
                nodup = r.nodup;
                in_use = λ d m. ground (arith, r.in_use d m);
                free = λ d lt m. ground (arith, r.free d lt m);
                one_each = λ d g m n eq. r.one_each d g m n (ground arith);
                held = copied-held (record (c.buf b) { bytes = copied }) sector refl;
                on_disk = through-on_disk;
              })
      ]

  -- A write succeeds and leaves the sectors `f`.
  pub record Wrote (f : ℕ → ℕ → ℕ) (r : Option (Bcache D)) : Type 0 where
    pub after : Bcache D
    pub is_some : r ≡ some after
    pub caches : Caches sd f after

  -- A read succeeds, leaves the sectors `f` as they are, and memory as given.
  pub record ReadBack (f : ℕ → ℕ → ℕ) (mem' : Memory) (r : Option (Memory × Bcache D))
      : Type 0 where
    pub after : Bcache D
    pub memory : Memory
    pub is_some : r ≡ some (memory, after)
    pub caches : Caches sd f after
    pub same : (a : ℕ) → memory a ≡ mem' a

  bwrite_round-Wrote :
      (f : ℕ → ℕ → ℕ) (mem_va s : ℕ) (mem : Memory) (c : Bcache D)
      → Caches sd f c
      → Wrote (put_one f mem_va mem s) (bwrite_round sd mem_va s mem c)
  unfolding bwrite_round
  bwrite_round-Wrote f mem_va s mem c r =
      let g = get_buf-Got sd f c r s in
      rw (bwrite_round, g.is_some)
        (record {
          after = write_buf sd g.buf mem_va s mem ((get_buf sd s c).1);
          is_some = refl;
          caches = write_buf-Caches f mem_va mem _ g.caches g.buf s g.here g.sector;
        })

  read_buf-put :
      (f : ℕ → ℕ → ℕ) (c : Bcache D)
      → Caches sd f c
      → (b s mem_va : ℕ) (mem : Memory) → has b c.lru ≡ true
      → (c.buf b).sectorid ≡ s
      → (a : ℕ) → read_buf sd b mem_va mem c a ≡ put_sector mem_va (f s) mem a
  unfolding read_buf
  read_buf-put f c r b s mem_va mem here sector a =
      elim (Bool-cases (leb mem_va a && ltb a (mem_va + sector_size))) [
        | inl e ↦ rw (read_buf, e, ← sector) (r.held b (a - mem_va) here (ground arith))
        | inr e ↦ rw (read_buf, e) refl
      ]

  bread_round-ReadBack :
      (f : ℕ → ℕ → ℕ) (mem_va s : ℕ) (mem : Memory) (c : Bcache D)
      → Caches sd f c
      → ReadBack f (put_sector mem_va (f s) mem) (bread_round sd mem_va s mem c)
  unfolding bread_round
  bread_round-ReadBack f mem_va s mem c r =
      let g = get_buf-Got sd f c r s in
      rw (bread_round, g.is_some)
        (record {
          after = (get_buf sd s c).1;
          memory = read_buf sd g.buf mem_va mem ((get_buf sd s c).1);
          is_some = refl;
          caches = g.caches;
          same = read_buf-put f _ g.caches g.buf s mem_va mem g.here g.sector;
        })

  bwrite_from-Wrote :
      (f : ℕ → ℕ → ℕ) (n i mem_va s : ℕ) (mem : Memory) (c : Bcache D)
      → Caches sd f c
      → s + i + n ≤ 2 ^ 32
      → Wrote (put_range (s + i) n mem_va mem f) (bwrite_from sd n i mem_va s mem c)
  unfolding bwrite_from
  bwrite_from-Wrote f zero i mem_va s mem c r le = record {
    after = c;
    is_some = refl;
    caches = Caches-ext f _ c (λ t j lt. ground arith) r;
  }
  bwrite_from-Wrote f (suc n) i mem_va s mem c r le =
      let e : (s + i) % 2 ^ 32 ≡ s + i = omega arith in
      let g = bwrite_round-Wrote f mem_va (s + i) mem c r in
      let h =
        bwrite_from-Wrote (put_one f mem_va mem (s + i)) n (i + 1) mem_va s mem g.after g.caches
          (omega arith) in
      rw (bwrite_from, e, g.is_some)
        (record {
          after = h.after;
          is_some = h.is_some;
          caches = Caches-ext _ _ h.after (λ t j lt. ground arith) h.caches;
        })

  -- The sectors of the range end with the last of them at `mem_va`.
  bread_from-ReadBack :
      (f : ℕ → ℕ → ℕ) (n i mem_va s : ℕ) (mem : Memory) (c : Bcache D)
      → Caches sd f c
      → s + i + suc n ≤ 2 ^ 32
      → ReadBack f (put_sector mem_va (f (s + i + n)) mem) (bread_from sd (suc n) i mem_va s mem c)
  unfolding bread_from
  bread_from-ReadBack f zero i mem_va s mem c r le =
      let e : (s + i) % 2 ^ 32 ≡ s + i = omega arith in
      let g = bread_round-ReadBack f mem_va (s + i) mem c r in
      let z : s + i + 0 ≡ s + i = omega arith in
      rw (bread_from, e, g.is_some, z)
        (record {
          after = g.after;
          memory = g.memory;
          is_some = refl;
          caches = g.caches;
          same = g.same;
        })
  bread_from-ReadBack f (suc n) i mem_va s mem c r le =
      let e : (s + i) % 2 ^ 32 ≡ s + i = omega arith in
      let g = bread_round-ReadBack f mem_va (s + i) mem c r in
      let h = bread_from-ReadBack f n (i + 1) mem_va s g.memory g.after g.caches (omega arith) in
      let z : s + i + suc n ≡ s + (i + 1) + n = omega arith in
      rw (bread_from, e, g.is_some, z)
        (record {
          after = h.after;
          memory = h.memory;
          is_some = h.is_some;
          caches = h.caches;
          same = λ a.
              h.same a
              ∙ put_sector_twice mem_va (f (s + (i + 1) + n)) (f (s + i)) g.memory mem g.same a;
        })

  -- Over a cache that stands for the sectors f, bwrite of n sectors from first, with first +
  -- n at most 2 ^ 32, never meets a null buffer. It ends with a cache that stands for f
  -- changed on the sectors first .. first + n - 1 only, where each of them holds the 512
  -- bytes at mem_va.
  pub bwrite-Wrote :
      (f : ℕ → ℕ → ℕ) (n mem_va first : ℕ) (mem : Memory) (c : Bcache D)
      → Caches sd f c
      → first + n ≤ 2 ^ 32
      → Wrote (put_range first n mem_va mem f) (bwrite sd mem_va n first mem c)
  unfolding bwrite
  bwrite-Wrote f n mem_va first mem c r le =
      let h = bwrite_from-Wrote f n 0 mem_va first mem c r (omega arith) in
      record {
        after = h.after;
        is_some = h.is_some;
        caches = Caches-ext _ _ h.after (λ t j lt. ground arith) h.caches;
      }

  -- Over a cache that stands for the sectors f, bread of n + 1 sectors from first, with first
  -- + n + 1 at most 2 ^ 32, never meets a null buffer. The cache stands for f afterwards, the
  -- 512 bytes at mem_va are the last sector of the range, and the rest of memory is
  -- unchanged.
  pub bread-ReadBack :
      (f : ℕ → ℕ → ℕ) (n mem_va first : ℕ) (mem : Memory) (c : Bcache D)
      → Caches sd f c
      → first + suc n ≤ 2 ^ 32
      → ReadBack f (put_sector mem_va (f (first + n)) mem) (bread sd mem_va (suc n) first mem c)
  unfolding bread
  bread-ReadBack f n mem_va first mem c r le =
      let z : first + 0 + n ≡ first + n = omega arith in
      rw (bread, ← z) (bread_from-ReadBack f n 0 mem_va first mem c r (omega arith))
