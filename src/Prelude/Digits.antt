-- ===== src/Prelude/Digits.antt =====
-- `&` and `|` on words, cut in two at a power of two.
pub mod Xor
use Prim.Native.Nat.{
  digits, bit_and, bit_or, bit_xor, min, max, differ, bit_and-bitwise, bit_or-bitwise,
  bit_xor-bitwise,
}
use Prim.Native.Nat.{ℕ, zero, suc, ◌+◌, ◌-◌, ◌*◌, ◌/◌, ◌%◌, ◌≤◌, ◌<◌, ◌^◌}
use mathlib.Core.Path.{◌≡◌, refl, sym, ap, ◌∙◌}
use mathlib.Core.Logic.{inl, inr}
use native.Mathlib.Omega.{arith}
use native.Mathlib.Nat.{pow-suc}
use oslab_2024fall.Prelude.Tests.{◌==◌, Bool-cases}

-- One more digit to go changes nothing once every digit is counted.
module _ (z : ℕ → ℕ) (f : ℕ → ℕ → ℕ) where
  grow : (n a b : ℕ) → a ≤ n → digits z f (suc n) a b ≡ digits z f n a b
  grow zero zero b h = refl
  grow zero (suc a) b h = absurd (omega arith)
  grow (suc n) zero b h = refl
  grow (suc n) (suc a) b h = rw (grow n (suc a / 2) (b / 2) (omega arith)) refl

  settle : (k n a b : ℕ) → a ≤ n → n ≤ k → digits z f k a b ≡ digits z f n a b
  settle zero zero a b h le = refl
  settle zero (suc n) a b h le = absurd (omega arith)
  settle (suc k) n a b h le = elim (Bool-cases (n == suc k)) [
    | inl e ↦ let p : n ≡ suc k = ground arith in rw p refl
    | inr e ↦ grow k a b (ground arith) ∙ settle k n a b h (ground arith)
  ]

-- An operation acts on the parts above and below `m` by themselves.
abbrev pub SplitsAt : (ℕ → ℕ → ℕ) → ℕ → Type 0
SplitsAt op m = (a b : ℕ) → op a b ≡ op (a / m) (b / m) * m + op (a % m) (b % m)

pub zero-bit_or : (b : ℕ) → bit_or 0 b ≡ b
zero-bit_or b = bit_or-bitwise 0 b

pub zero-bit_and : (b : ℕ) → bit_and 0 b ≡ 0
zero-bit_and b = bit_and-bitwise 0 b

digit_or : (x y : ℕ) → x < 2 → y < 2 → bit_or x y ≡ max x y
digit_or zero y h k = omega (arith, zero-bit_or y)
digit_or (suc zero) zero h k = refl
digit_or (suc zero) (suc zero) h k = refl
digit_or (suc zero) (suc (suc y)) h k = absurd (omega arith)
digit_or (suc (suc x)) y h k = absurd (omega arith)

digit_and : (x y : ℕ) → x < 2 → y < 2 → bit_and x y ≡ min x y
digit_and zero y h k = omega (arith, zero-bit_and y)
digit_and (suc zero) zero h k = refl
digit_and (suc zero) (suc zero) h k = refl
digit_and (suc zero) (suc (suc y)) h k = absurd (omega arith)
digit_and (suc (suc x)) y h k = absurd (omega arith)

or_halves : SplitsAt bit_or 2
or_halves zero b = omega (arith, zero-bit_or b, zero-bit_or (b / 2), zero-bit_or (b % 2))
or_halves (suc a) b = omega (
  arith,
  bit_or-bitwise (suc a) b,
  bit_or-bitwise (suc a / 2) (b / 2),
  settle (λ y. y) max a (suc a / 2) (suc a / 2) (b / 2) (omega arith) (omega arith),
  digit_or (suc a % 2) (b % 2) (omega arith) (omega arith),
)

and_halves : SplitsAt bit_and 2
and_halves zero b = omega (arith, zero-bit_and b, zero-bit_and (b / 2), zero-bit_and (b % 2))
and_halves (suc a) b = omega (
  arith,
  bit_and-bitwise (suc a) b,
  bit_and-bitwise (suc a / 2) (b / 2),
  settle (λ y. 0) min a (suc a / 2) (suc a / 2) (b / 2) (omega arith) (omega arith),
  digit_and (suc a % 2) (b % 2) (omega arith) (omega arith),
)

regroup : (x y z k m n : ℕ) → m * k ≡ n → (x * m + y) * k + z ≡ x * n + (y * k + z)
regroup x y z k m n g = rw (← g) (grind arith)

module _ (op : ℕ → ℕ → ℕ) where
  compose :
      (k m n : ℕ)
      → SplitsAt op k
      → SplitsAt op m
      → ((a : ℕ) → a / k / m ≡ a / n)
      → ((a : ℕ) → a % n / k ≡ a / k % m)
      → ((a : ℕ) → a % n % k ≡ a % k)
      → m * k ≡ n
      → SplitsAt op n
  compose k m n sk sm d e f g a b =
      let p = rw (d a, d b) at (sm (a / k) (b / k)) in
      let r = rw (e a, e b, f a, f b) at (sk (a % n) (b % n)) in
      sk a b
      ∙ ap (λ t. t * k + op (a % k) (b % k)) p
      ∙ regroup (op (a / n) (b / n)) (op (a / k % m) (b / k % m)) (op (a % k) (b % k)) k m n g
      ∙ ap (λ t. op (a / n) (b / n) * n + t) (sym r)

  -- From one digit to 10 and to 44 of them.
  module _ (s : SplitsAt op 2) where
    split_4 : SplitsAt op 4
    split_4 =
        compose 2 2 4 s s (λ a. omega arith) (λ a. omega arith) (λ a. omega arith) (omega arith)

    split_5 : SplitsAt op 32
    split_5 =
        compose 2 16 32 s
          (compose 4 4 16 split_4 split_4 (λ a. omega arith) (λ a. omega arith) (λ a. omega arith)
            (omega arith))
          (λ a. omega arith) (λ a. omega arith) (λ a. omega arith) (omega arith)

    split_10 : SplitsAt op 1024
    split_10 =
        compose 32 32 1024 split_5 split_5 (λ a. omega arith) (λ a. omega arith) (λ a. omega arith)
          (omega arith)

    split_22 : SplitsAt op 0x400000
    split_22 =
        compose 4 0x100000 0x400000 split_4
          (compose 1024 1024 0x100000 split_10 split_10 (λ a. omega arith) (λ a. omega arith)
            (λ a. omega arith) (omega arith))
          (λ a. omega arith) (λ a. omega arith) (λ a. omega arith) (omega arith)

    split_44 : SplitsAt op 0x100000000000
    split_44 =
        compose 0x400000 0x400000 0x100000000000 split_22 split_22 (λ a. omega arith)
          (λ a. omega arith) (λ a. omega arith) (omega arith)

pub or_at_10 : SplitsAt bit_or 1024
or_at_10 = split_10 bit_or or_halves

pub or_at_44 : SplitsAt bit_or 0x100000000000
or_at_44 = split_44 bit_or or_halves

pub and_at_10 : SplitsAt bit_and 1024
and_at_10 = split_10 bit_and and_halves

pub and_at_44 : SplitsAt bit_and 0x100000000000
and_at_44 = split_44 bit_and and_halves

bit_or-zero_below : (n a : ℕ) → a ≤ n → bit_or a 0 ≡ a
bit_or-zero_below n zero h = refl
bit_or-zero_below zero (suc a) h = absurd (omega arith)
bit_or-zero_below (suc n) (suc a) h = omega (
  arith,
  or_halves (suc a) 0,
  bit_or-zero_below n (suc a / 2) (omega arith),
  digit_or (suc a % 2) 0 (omega arith) (omega arith),
)

pub bit_or-zero : (a : ℕ) → bit_or a 0 ≡ a
bit_or-zero a = bit_or-zero_below a a (omega arith)

bit_and-zero_below : (n a : ℕ) → a ≤ n → bit_and a 0 ≡ 0
bit_and-zero_below n zero h = refl
bit_and-zero_below zero (suc a) h = absurd (omega arith)
bit_and-zero_below (suc n) (suc a) h = omega (
  arith,
  and_halves (suc a) 0,
  bit_and-zero_below n (suc a / 2) (omega arith),
  digit_and (suc a % 2) 0 (omega arith) (omega arith),
)

pub bit_and-zero : (a : ℕ) → bit_and a 0 ≡ 0
bit_and-zero a = bit_and-zero_below a a (omega arith)

bit_or_below : (k x y : ℕ) → x < 2 ^ k → y < 2 ^ k → bit_or x y < 2 ^ k
bit_or_below zero x y hx hy =
    let e : x ≡ 0 = omega arith in let g : y ≡ 0 = omega arith in rw (e, g) (omega arith)
bit_or_below (suc k) x y hx hy = omega (
  arith,
  pow-suc 2 k,
  or_halves x y,
  bit_or_below k (x / 2) (y / 2) (omega (arith, pow-suc 2 k)) (omega (arith, pow-suc 2 k)),
  digit_or (x % 2) (y % 2) (omega arith) (omega arith),
)

pub bit_or-lt_1024 : (x y : ℕ) → x < 1024 → y < 1024 → bit_or x y < 1024
bit_or-lt_1024 x y hx hy = bit_or_below 10 x y hx hy

pub bit_and-le_left : (n x y : ℕ) → x ≤ n → bit_and x y ≤ x
bit_and-le_left n zero y h = omega (arith, zero-bit_and y)
bit_and-le_left zero (suc x) y h = absurd (omega arith)
bit_and-le_left (suc n) (suc x) y h = omega (
  arith,
  and_halves (suc x) y,
  bit_and-le_left n (suc x / 2) (y / 2) (omega arith),
  digit_and (suc x % 2) (y % 2) (omega arith) (omega arith),
)

halves-bit_and :
    (x y : ℕ)
    → (bit_and x y / 2 ≡ bit_and (x / 2) (y / 2)) × (bit_and x y % 2 ≡ min (x % 2) (y % 2))
halves-bit_and x y =
    omega (arith, and_halves x y, digit_and (x % 2) (y % 2) (omega arith) (omega arith))

halves-bit_or :
    (x y : ℕ) → (bit_or x y / 2 ≡ bit_or (x / 2) (y / 2)) × (bit_or x y % 2 ≡ max (x % 2) (y % 2))
halves-bit_or x y =
    omega (arith, or_halves x y, digit_or (x % 2) (y % 2) (omega arith) (omega arith))

pub bit_and_ones : (k x : ℕ) → x < 2 ^ k → bit_and x (2 ^ k - 1) ≡ x
bit_and_ones zero x h = let e : x ≡ 0 = omega arith in rw e refl
bit_and_ones (suc k) x h =
    let e : (2 ^ suc k - 1) / 2 ≡ 2 ^ k - 1 = omega (arith, pow-suc 2 k) in
    let p =
      rw (e, bit_and_ones k (x / 2) (omega (arith, pow-suc 2 k))) at
        (halves-bit_and x (2 ^ suc k - 1)) in
    omega (arith, pow-suc 2 k, p)

-- Bits that are set are there, and bits that are cleared are not.
pub bit_and-bit_or : (k x b : ℕ) → b < 2 ^ k → bit_and (bit_or x b) b ≡ b
bit_and-bit_or zero x b h = let e : b ≡ 0 = omega arith in rw e (bit_and-zero (bit_or x 0))
bit_and-bit_or (suc k) x b h =
    let (p, q) = halves-bit_or x b in
    let (r, t) = halves-bit_and (bit_or x b) b in
    let ih = bit_and-bit_or k (x / 2) (b / 2) (omega (arith, pow-suc 2 k)) in
    omega (arith, rw (p, ih) at r, q, t)

pub bit_and-not : (k x b : ℕ) → b < 2 ^ k → bit_and (bit_and x (2 ^ k - 1 - b)) b ≡ 0
bit_and-not zero x b h = let e : b ≡ 0 = omega arith in rw e (bit_and-zero (bit_and x 0))
bit_and-not (suc k) x b h =
    let e : (2 ^ suc k - 1 - b) / 2 ≡ 2 ^ k - 1 - b / 2 = omega (arith, pow-suc 2 k) in
    let (p, q) = halves-bit_and x (2 ^ suc k - 1 - b) in
    let (r, t) = halves-bit_and (bit_and x (2 ^ suc k - 1 - b)) b in
    let ih = bit_and-not k (x / 2) (b / 2) (omega (arith, pow-suc 2 k)) in
    omega (arith, pow-suc 2 k, rw (p, e, ih) at r, q, t)

pub bit_and_twice : (n x m : ℕ) → x ≤ n → bit_and (bit_and x m) m ≡ bit_and x m
bit_and_twice n zero m h = rw (zero-bit_and m) (zero-bit_and m)
bit_and_twice zero (suc x) m h = absurd (omega arith)
bit_and_twice (suc n) (suc x) m h =
    let (p, q) = halves-bit_and (suc x) m in
    let (r, t) = halves-bit_and (bit_and (suc x) m) m in
    omega (arith, rw (p, bit_and_twice n (suc x / 2) (m / 2) (omega arith)) at r, p, q, t)
