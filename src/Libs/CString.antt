-- ===== src/Libs/CString.antt =====
-- strlen, strcpy and strcat of libs/string.c, on memory. The loops go on to a NUL, on fuel.
use oslab_2024fall.Prelude.{
  ℕ, zero, suc, ◌+◌, ◌≤◌, ◌<◌, ◌≡◌, ◌≢◌, refl, Option, none, some, List, [], ◌∷◌, ◌++◌, ◌==◌, arith,
  length, ◌⊎◌, inl, ◌∙◌, if◌then◌else◌, false, ap,
}
use oslab_2024fall.Prelude.Maybe.{◌>>=◌}
use oslab_2024fall.Prelude.Table.{update}
use oslab_2024fall.Libs.Memory.{Memory}

-- The index of the NUL from `i` on.
unfoldable pub strlen_from : ℕ → ℕ → ℕ → Memory → Option ℕ
strlen_from zero i src mem = none
strlen_from (suc fuel) i src mem =
    let rest = strlen_from fuel (i + 1) src mem in if mem (src + i) == 0 then some i else rest

unfoldable pub strlen : ℕ → ℕ → Memory → Option ℕ
unfolding strlen_from
strlen fuel src mem = strlen_from fuel 0 src mem

-- The loop of strcpy and the NUL behind it.
unfoldable pub strcpy : ℕ → ℕ → ℕ → Memory → Option Memory
strcpy zero dest src mem = none
strcpy (suc fuel) dest src mem =
    let rest = strcpy fuel (dest + 1) (src + 1) (update mem dest (mem src)) in
    if mem src == 0 then some (update mem dest 0) else rest

unfoldable pub strcat : ℕ → ℕ → ℕ → Memory → Option Memory
unfolding strlen strcpy
strcat fuel dest src mem = strlen fuel dest mem >>= λ n. strcpy fuel (dest + n) src mem

-- Memory holds a C string at an address.
abbrev pub IsString : Memory → ℕ → List ℕ → Type 0
IsString mem a [] = mem a ≡ 0
IsString mem a (x ∷ xs) = (mem a ≡ x) × (x ≢ 0) × IsString mem (a + 1) xs

IsString-same :
    (mem mem' : Memory) (a : ℕ) (xs : List ℕ)
    → ((i : ℕ) → i ≤ length xs → mem' (a + i) ≡ mem (a + i))
    → IsString mem a xs
    → IsString mem' a xs
IsString-same mem mem' a [] same h =
    let z : a + 0 ≡ a = omega arith in (rw z at (same 0 (omega arith))) ∙ h
IsString-same mem mem' a (x ∷ xs) same (e, n, h) =
    let z : a + 0 ≡ a = omega arith in
    (
      (rw z at (same 0 (omega arith))) ∙ e,
      n,
      IsString-same mem mem' (a + 1) xs
          (λ i le.
            let s : a + suc i ≡ a + 1 + i = omega arith in rw s at (same (suc i) (omega arith)))
          h,
    )

strlen_from-IsString :
    (fuel i src : ℕ) (mem : Memory) (xs : List ℕ)
    → IsString mem (src + i) xs
    → length xs < fuel
    → strlen_from fuel i src mem ≡ some (i + length xs)
unfolding strlen_from
strlen_from-IsString zero i src mem xs h lt = absurd (omega arith)
strlen_from-IsString (suc fuel) i src mem [] h lt =
    let z : i + 0 ≡ i = omega arith in rw (h, z) refl
strlen_from-IsString (suc fuel) i src mem (x ∷ xs) (e, n, h) lt =
    let b : (mem (src + i) == 0) ≡ false = ground arith in
    let s : src + i + 1 ≡ src + (i + 1) = omega arith in
    let l : i + suc (length xs) ≡ i + 1 + length xs = omega arith in
    rw (strlen_from, b, l) (strlen_from-IsString fuel (i + 1) src mem xs (rw s at h) (omega arith))

pub strlen-IsString :
    (fuel src : ℕ) (mem : Memory) (xs : List ℕ)
    → IsString mem src xs
    → length xs < fuel
    → strlen fuel src mem ≡ some (length xs)
unfolding strlen
strlen-IsString fuel src mem xs h lt =
    let z : src + 0 ≡ src = omega arith in
    strlen_from-IsString fuel 0 src mem xs (rw z h) lt ∙ ap some (omega arith)

-- A copy of a string at an address, with the rest of memory as it was.
pub record Copied (dest : ℕ) (xs : List ℕ) (mem : Memory) (r : Option Memory) : Type 0 where
  pub after : Memory
  pub is_some : r ≡ some after
  pub string : IsString after dest xs
  pub outside : (a : ℕ) → (a < dest) ⊎ (dest + length xs < a) → after a ≡ mem a

pub strcpy-Copied :
    (fuel dest src : ℕ) (mem : Memory) (xs : List ℕ)
    → IsString mem src xs
    → length xs < fuel
    → (dest + length xs < src) ⊎ (src + length xs < dest)
    → Copied dest xs mem (strcpy fuel dest src mem)
unfolding strcpy
strcpy-Copied zero dest src mem xs h lt apart = absurd (omega arith)
strcpy-Copied (suc fuel) dest src mem [] h lt apart =
    rw (strcpy, h)
      (record {
        after = update mem dest 0;
        is_some = refl;
        string = ground arith;
        outside = λ a out. ground arith;
      })
strcpy-Copied (suc fuel) dest src mem (x ∷ xs) (e, n, h) lt apart =
    let b : (mem src == 0) ≡ false = ground arith in
    let m1 : Memory = update mem dest (mem src) in
    let kept : IsString m1 (src + 1) xs =
      IsString-same mem m1 (src + 1) xs (λ i le. ground arith) h in
    let c = strcpy-Copied fuel (dest + 1) (src + 1) m1 xs kept (omega arith) (ground arith) in
    rw (strcpy, b)
      (record {
        after = c.after;
        is_some = c.is_some;
        string = (c.outside dest (inl (omega arith)) ∙ ground arith, n, c.string);
        outside = λ a out. c.outside a (ground arith) ∙ ground arith;
      })

IsString-append :
    (mem : Memory) (a : ℕ) (xs ys : List ℕ) (whole : Memory)
    → IsString mem a xs
    → ((i : ℕ) → i < length xs → whole (a + i) ≡ mem (a + i))
    → IsString whole (a + length xs) ys
    → IsString whole a (xs ++ ys)
IsString-append mem a [] ys whole h same later = let z : a + 0 ≡ a = omega arith in rw z at later
IsString-append mem a (x ∷ xs) ys whole (e, n, h) same later =
    let z : a + 0 ≡ a = omega arith in
    let l : a + suc (length xs) ≡ a + 1 + length xs = omega arith in
    (
      (rw z at (same 0 (omega arith))) ∙ e,
      n,
      IsString-append mem (a + 1) xs ys whole h
          (λ i le.
            let s : a + suc i ≡ a + 1 + i = omega arith in rw s at (same (suc i) (omega arith)))
          (rw l at later),
    )

-- When memory holds a string at the destination and one at the source, the fuel is more than
-- the length of each, and the source with its end stands apart from the place of the result,
-- strcat ends and memory holds both strings at the destination, one after the other.
pub strcat-IsString :
    (fuel dest src : ℕ) (mem : Memory) (xs ys : List ℕ)
    → IsString mem dest xs
    → IsString mem src ys
    → length xs < fuel
    → length ys < fuel
    → (dest + length xs + length ys < src) ⊎ (src + length ys < dest)
    → (after : Memory) × (strcat fuel dest src mem ≡ some after) × IsString after dest (xs ++ ys)
unfolding strcat
strcat-IsString fuel dest src mem xs ys hx hy lx ly apart =
    let c = strcpy-Copied fuel (dest + length xs) src mem ys hy ly (ground arith) in
    (
      c.after,
      rw (strcat, strlen-IsString fuel dest mem xs hx lx) c.is_some,
      IsString-append mem dest xs ys c.after hx (λ i lt. c.outside (dest + i) (inl (omega arith)))
          c.string,
    )
