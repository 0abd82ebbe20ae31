-- ===== src/Prelude/Digits/Xor.antt =====
-- `^` on words, cut in two at a power of two.
use Prim.Native.Nat.{bit_xor, differ, bit_xor-bitwise}
use Prim.Native.Nat.{ℕ, zero, suc, ◌+◌, ◌*◌, ◌/◌, ◌%◌, ◌≤◌, ◌<◌}
use mathlib.Core.Path.{◌≡◌, refl}
use native.Mathlib.Omega.{arith}
use oslab_2024fall.Prelude.Digits.{settle, SplitsAt, compose, split_4, split_5}

zero-bit_xor : (b : ℕ) → bit_xor 0 b ≡ b
zero-bit_xor b = bit_xor-bitwise 0 b

digit_xor : (x y : ℕ) → x < 2 → y < 2 → bit_xor x y ≡ differ x y
digit_xor zero y h k = omega (arith, zero-bit_xor y)
digit_xor (suc zero) zero h k = refl
digit_xor (suc zero) (suc zero) h k = refl
digit_xor (suc zero) (suc (suc y)) h k = absurd (omega arith)
digit_xor (suc (suc x)) y h k = absurd (omega arith)

xor_halves : SplitsAt bit_xor 2
xor_halves zero b = omega (arith, zero-bit_xor b, zero-bit_xor (b / 2), zero-bit_xor (b % 2))
xor_halves (suc a) b = omega (
  arith,
  bit_xor-bitwise (suc a) b,
  bit_xor-bitwise (suc a / 2) (b / 2),
  settle (λ y. y) differ a (suc a / 2) (suc a / 2) (b / 2) (omega arith) (omega arith),
  digit_xor (suc a % 2) (b % 2) (omega arith) (omega arith),
)

xor_at_9 : SplitsAt bit_xor 512
xor_at_9 =
    compose bit_xor 16 32 512
      (compose bit_xor 4 4 16 (split_4 bit_xor xor_halves) (split_4 bit_xor xor_halves)
        (λ a. omega arith) (λ a. omega arith) (λ a. omega arith) (omega arith))
      (split_5 bit_xor xor_halves) (λ a. omega arith) (λ a. omega arith) (λ a. omega arith)
      (omega arith)

xor_at_18 : SplitsAt bit_xor 0x40000
xor_at_18 =
    compose bit_xor 512 512 0x40000 xor_at_9 xor_at_9 (λ a. omega arith) (λ a. omega arith)
      (λ a. omega arith) (omega arith)

xor_self_digit : (x : ℕ) → x < 2 → bit_xor x x ≡ 0
xor_self_digit zero h = refl
xor_self_digit (suc zero) h = refl
xor_self_digit (suc (suc x)) h = absurd (omega arith)

bit_xor-self_below : (n x : ℕ) → x ≤ n → bit_xor x x ≡ 0
bit_xor-self_below n zero h = refl
bit_xor-self_below zero (suc x) h = absurd (omega arith)
bit_xor-self_below (suc n) (suc x) h = omega (
  arith,
  xor_halves (suc x) (suc x),
  bit_xor-self_below n (suc x / 2) (omega arith),
  xor_self_digit (suc x % 2) (omega arith),
)

xor_zero_digit : (x : ℕ) → x < 2 → bit_xor x 0 ≡ x
xor_zero_digit zero h = refl
xor_zero_digit (suc zero) h = refl
xor_zero_digit (suc (suc x)) h = absurd (omega arith)

bit_xor-zero_below : (n a : ℕ) → a ≤ n → bit_xor a 0 ≡ a
bit_xor-zero_below n zero h = refl
bit_xor-zero_below zero (suc a) h = absurd (omega arith)
bit_xor-zero_below (suc n) (suc a) h = omega (
  arith,
  xor_halves (suc a) 0,
  bit_xor-zero_below n (suc a / 2) (omega arith),
  xor_zero_digit (suc a % 2) (omega arith),
)

-- The common top of two words goes away.
pub xor_top_9 :
    (h l : ℕ)
    → l < 512
    → (bit_xor (h * 512) (h * 512 + l) ≡ l) × (bit_xor (h * 512 + l) (h * 512) ≡ l)
xor_top_9 h l k =
    let a : h * 512 / 512 ≡ h = omega arith in
    let b : (h * 512 + l) / 512 ≡ h = omega arith in
    let c : h * 512 % 512 ≡ 0 = omega arith in
    let d : (h * 512 + l) % 512 ≡ l = omega arith in
    let z = bit_xor-self_below h h (omega arith) in
    (
      omega (arith, rw (a, b, c, d, z, zero-bit_xor l) at (xor_at_9 (h * 512) (h * 512 + l))),
      omega (
        arith,
        rw (a, b, c, d, z, bit_xor-zero_below l l (omega arith)) at
            (xor_at_9 (h * 512 + l) (h * 512)),
      ),
    )

pub xor_top_18 : (h l : ℕ) → l < 0x40000 → bit_xor (h * 0x40000 + l) (h * 0x40000) ≡ l
xor_top_18 h l k =
    let a : h * 0x40000 / 0x40000 ≡ h = omega arith in
    let b : (h * 0x40000 + l) / 0x40000 ≡ h = omega arith in
    let c : h * 0x40000 % 0x40000 ≡ 0 = omega arith in
    let d : (h * 0x40000 + l) % 0x40000 ≡ l = omega arith in
    let z = bit_xor-self_below h h (omega arith) in
    omega (
      arith,
      rw (a, b, c, d, z, bit_xor-zero_below l l (omega arith)) at
          (xor_at_18 (h * 0x40000 + l) (h * 0x40000)),
    )
