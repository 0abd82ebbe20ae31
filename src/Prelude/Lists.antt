-- ===== src/Prelude/Lists.antt =====
-- Lists measured by native numbers, membership and removal by Boolean tests.
use Prim.Native.Nat.{ℕ, suc, ◌+◌}
use mathlib.Core.Path.{◌≡◌, refl}
use mathlib.Core.Logic.{◌≢◌}
use mathlib.Core.Bool.{Bool, true, false, ◌||◌, ◌&&◌}
use mathlib.Core.List.{List, [], ◌∷◌, ◌++◌}
use native.Mathlib.Omega.{arith}
use oslab_2024fall.Prelude.Tests.{◌==◌, if◌then◌else◌}

module _ {ℓ} {A : Type ℓ} where
  abbrev pub length : List A → ℕ
  length [] = 0
  length (x ∷ xs) = suc (length xs)

  pub length-append : (xs ys : List A) → length (xs ++ ys) ≡ length xs + length ys
  length-append [] ys = omega arith
  length-append (x ∷ xs) ys = omega (arith, length-append xs ys)

abbrev pub has : ℕ → List ℕ → Bool
has a [] = false
has a (x ∷ xs) = (x == a) || has a xs

abbrev pub erase : ℕ → List ℕ → List ℕ
erase a [] = []
erase a (x ∷ xs) = if x == a then xs else x ∷ erase a xs

-- Every element once.
abbrev pub IsNodup : List ℕ → Type 0
IsNodup [] = Unit {0}
IsNodup (x ∷ xs) = (has x xs ≡ false) × IsNodup xs

pub has-append : (a : ℕ) (xs ys : List ℕ) → has a (xs ++ ys) ≡ (has a xs || has a ys)
has-append a [] ys = refl
has-append a (x ∷ xs) ys = ground (arith, has-append a xs ys)

pub has-append_ne : (a b : ℕ) (xs : List ℕ) → a ≢ b → has a (xs ++ b ∷ []) ≡ has a xs
has-append_ne a b xs h = ground (arith, has-append a xs (b ∷ []))

pub has-erase_le : (a b : ℕ) (xs : List ℕ) → has a (erase b xs) ≡ true → has a xs ≡ true
has-erase_le a b [] h = h
has-erase_le a b (x ∷ xs) h = ground (arith, has-erase_le a b xs)

pub has-erase_ne : (a b : ℕ) (xs : List ℕ) → a ≢ b → has a (erase b xs) ≡ has a xs
has-erase_ne a b [] h = refl
has-erase_ne a b (x ∷ xs) h = ground (arith, has-erase_ne a b xs)

pub has-erase_self : (a : ℕ) (xs : List ℕ) → IsNodup xs → has a (erase a xs) ≡ false
has-erase_self a [] h = refl
has-erase_self a (x ∷ xs) h = ground (arith, has-erase_self a xs h.1)

pub erase_of_not_has : (a : ℕ) (xs : List ℕ) → has a xs ≡ false → erase a xs ≡ xs
erase_of_not_has a [] h = refl
erase_of_not_has a (x ∷ xs) h = ground (arith, erase_of_not_has a xs)

pub IsNodup-erase : (a : ℕ) (xs : List ℕ) → IsNodup xs → IsNodup (erase a xs)
IsNodup-erase a [] h = h
IsNodup-erase a (x ∷ xs) h = ground (arith, IsNodup-erase a xs h.1, has-erase_le x a xs)

pub IsNodup-append_one :
    (xs : List ℕ) (a : ℕ) → IsNodup xs → has a xs ≡ false → IsNodup (xs ++ a ∷ [])
IsNodup-append_one [] a h out = (refl, tt)
IsNodup-append_one (x ∷ xs) a h out =
    ground (arith, IsNodup-append_one xs a h.1, has-append x xs (a ∷ []))

pub erase-middle : (a : ℕ) (xs ys : List ℕ) → has a xs ≡ false → erase a (xs ++ a ∷ ys) ≡ xs ++ ys
erase-middle a [] ys h = ground arith
erase-middle a (x ∷ xs) ys h = ground (arith, erase-middle a xs ys)

pub not_has-before : (a : ℕ) (xs ys : List ℕ) → IsNodup (xs ++ a ∷ ys) → has a xs ≡ false
not_has-before a [] ys h = refl
not_has-before a (x ∷ xs) ys h =
    ground (arith, not_has-before a xs ys h.1, has-append x xs (a ∷ ys))

-- The elements that pass a test, in order.
abbrev pub select : (ℕ → Bool) → List ℕ → List ℕ
select p [] = []
select p (x ∷ xs) = if p x then x ∷ select p xs else select p xs

pub select_ext : (p q : ℕ → Bool) (xs : List ℕ) → ((x : ℕ) → p x ≡ q x) → select p xs ≡ select q xs
select_ext p q [] h = refl
select_ext p q (x ∷ xs) h = ground (arith, h x, select_ext p q xs h)

pub has-select : (p : ℕ → Bool) (a : ℕ) (xs : List ℕ) → has a (select p xs) ≡ (has a xs && p a)
has-select p a [] = refl
has-select p a (x ∷ xs) = ground (arith, has-select p a xs)
