-- ===== src/Libs/Memory.antt =====
-- memcpy, memset and bzero of libs/string.c. Memory is a function from addresses to bytes.
use oslab_2024fall.Prelude.{
  ℕ, zero, suc, ◌+◌, ◌≤◌, ◌<◌, ◌≡◌, refl, ltb, leb, ◌&&◌, arith, inl, ◌⊎◌, ◌∙◌, if◌then◌else◌,
}
use oslab_2024fall.Prelude.Table.{update}

abbrev pub Memory : Type 0
Memory = ℕ → ℕ

-- The loop of memcpy, `len` bytes upwards.
unfoldable pub memcpy : ℕ → ℕ → ℕ → Memory → Memory
memcpy dest src zero mem = mem
memcpy dest src (suc len) mem = memcpy (dest + 1) (src + 1) len (update mem dest (mem src))

unfoldable pub memset : ℕ → ℕ → ℕ → Memory → Memory
memset dest val zero mem = mem
memset dest val (suc len) mem = memset (dest + 1) val len (update mem dest val)

unfoldable pub bzero : ℕ → ℕ → Memory → Memory
unfolding memset
bzero dest len mem = memset dest 0 len mem

-- memcpy writes its destination only.
pub memcpy_outside :
    (dest src len : ℕ) (mem : Memory) (a : ℕ)
    → (a < dest) ⊎ (dest + len ≤ a)
    → memcpy dest src len mem a ≡ mem a
unfolding memcpy
memcpy_outside dest src zero mem a out = refl
memcpy_outside dest src (suc len) mem a out =
    memcpy_outside (dest + 1) (src + 1) len (update mem dest (mem src)) a (ground arith)
    ∙ ground arith

-- When the destination is not above the source, or begins at or behind the end of the source,
-- memcpy moves to each place of the destination the byte that the source held before, also
-- where the regions overlap.
pub memcpy_inside :
    (dest src len : ℕ) (mem : Memory) (i : ℕ)
    → i < len
    → (dest ≤ src) ⊎ (src + len ≤ dest)
    → memcpy dest src len mem (dest + i) ≡ mem (src + i)
unfolding memcpy
memcpy_inside dest src zero mem i h apart = absurd (omega arith)
memcpy_inside dest src (suc len) mem zero h apart =
    let e : dest + 0 ≡ dest = omega arith in
    let f : src + 0 ≡ src = omega arith in
    rw (e, f)
      (memcpy_outside (dest + 1) (src + 1) len (update mem dest (mem src)) dest (inl (omega arith))
        ∙ ground arith)
memcpy_inside dest src (suc len) mem (suc i) h apart =
    let e : dest + suc i ≡ dest + 1 + i = omega arith in
    let f : src + suc i ≡ src + 1 + i = omega arith in
    rw (e, f)
      (memcpy_inside (dest + 1) (src + 1) len (update mem dest (mem src)) i (omega arith)
          (ground arith)
        ∙ ground arith)

-- memset fills exactly its region.
pub memset_lem :
    (dest val len : ℕ) (mem : Memory) (a : ℕ)
    → memset dest val len mem a ≡ (if leb dest a && ltb a (dest + len) then val else mem a)
unfolding memset
memset_lem dest val zero mem a = ground arith
memset_lem dest val (suc len) mem a =
    ground (arith, memset_lem (dest + 1) val len (update mem dest val) a)
