-- ===== src/Prelude/Seq.antt =====
-- Checking every value below a bound, and the loop `for (i = lo; i < lo + n; i++)` that looks for
-- the first index that passes a test.
use Prim.Native.Nat.{ℕ, zero, suc, ◌+◌, ◌≤◌, ◌<◌}
use mathlib.Core.Path.{◌≡◌, refl}
use mathlib.Core.Bool.{Bool, true, false, ◌&&◌}
use mathlib.Core.Option.{Option, none, some}
use native.Mathlib.Omega.{arith}
use oslab_2024fall.Prelude.Tests.{if◌then◌else◌, Bool-cases, ltb, ◌==◌}
use mathlib.Core.Logic.{inl, inr, ◌≢◌}

-- Whether every index below a limit passes a test.
unfoldable pub passes : (ℕ → Bool) → ℕ → Bool
passes test zero = true
passes test (suc limit) = if test limit then passes test limit else false

pub passes-true :
    (test : ℕ → Bool) (limit : ℕ) → passes test limit ≡ true → (i : ℕ) → i < limit → test i ≡ true
unfolding passes
passes-true test zero all i below = absurd (omega arith)
passes-true test (suc limit) all i below =
    ground (arith, λ (rest : passes test limit ≡ true). passes-true test limit rest i)

-- `n` rounds from `i`: the first index with the property.
unfoldable pub first_from : (ℕ → Bool) → ℕ → ℕ → Option ℕ
first_from p zero i = none
first_from p (suc n) i = let rest = first_from p n (i + 1) in if p i then some i else rest

pub first_from-some :
    (p : ℕ → Bool) (n i : ℕ) {j : ℕ}
    → first_from p n i ≡ some j
    → (p j ≡ true) × (i ≤ j) × (j < i + n)
unfolding first_from
first_from-some p zero i h = absurd (ground arith)
first_from-some p (suc n) i {j} h = ground (arith, first_from-some p n (i + 1) {j = j})

pub first_from_least :
    (p : ℕ → Bool) (n i : ℕ) {j : ℕ}
    → first_from p n i ≡ some j
    → (k : ℕ) → i ≤ k
    → k < j
    → p k ≡ false
unfolding first_from
first_from_least p zero i h k lo hi = absurd (ground arith)
first_from_least p (suc n) i {j} h k lo hi = elim (Bool-cases (p i)) [
  | inl e ↦ absurd (ground arith)
  | inr e ↦ ground (arith, first_from_least p n (i + 1) {j = j} (ground arith) k)
]

pub first_from-none :
    (p : ℕ → Bool) (n i : ℕ) → first_from p n i ≡ none → (k : ℕ) → i ≤ k → k < i + n → p k ≡ false
unfolding first_from
first_from-none p zero i h k lo hi = absurd (omega arith)
first_from-none p (suc n) i h k lo hi = ground (arith, first_from-none p n (i + 1) (ground arith) k)

-- How many indices below a bound pass a test.
unfoldable pub count_below : ℕ → (ℕ → Bool) → ℕ
count_below zero p = 0
count_below (suc n) p = count_below n p + (if p n then 1 else 0)

pub count_below-drop :
    (n : ℕ) (p q : ℕ → Bool) (i : ℕ)
    → q i ≡ false
    → ((j : ℕ) → j ≢ i → q j ≡ p j)
    → count_below n q + (if ltb i n && p i then 1 else 0) ≡ count_below n p
unfolding count_below
count_below-drop zero p q i gone same = ground arith
count_below-drop (suc n) p q i gone same =
    ground (arith, count_below-drop n p q i gone same, same n)

pub count_below_le : (n : ℕ) (p : ℕ → Bool) → count_below n p ≤ n
unfolding count_below
count_below_le zero p = omega arith
count_below_le (suc n) p = ground (arith, count_below_le n p)

-- The first index with the property is found when the ones before it lack it.
pub first_from-only :
    (p : ℕ → Bool) (n i j : ℕ)
    → i ≤ j
    → j < i + n
    → p j ≡ true
    → ((k : ℕ) → i ≤ k → k < j → p k ≡ false)
    → first_from p n i ≡ some j
unfolding first_from
first_from-only p zero i j lo hi at below = absurd (omega arith)
first_from-only p (suc n) i j lo hi at below = elim (Bool-cases (i == j)) [
  | inl e ↦ let same : i ≡ j = ground arith in rw same (ground (arith, at))
  | inr e ↦
      (let less : i < j = ground arith in
        let later =
          first_from-only p n (i + 1) j (omega arith) (omega arith) at
            (λ k l h. below k (omega arith) h) in
        rw (below i (omega arith) less) later)
]

pub first_from-ext :
    (p q : ℕ → Bool) (n i : ℕ)
    → ((k : ℕ) → i ≤ k → k < i + n → p k ≡ q k)
    → first_from p n i ≡ first_from q n i
unfolding first_from
first_from-ext p q zero i same = refl
first_from-ext p q (suc n) i same =
    let later = first_from-ext p q n (i + 1) (λ k lo hi. same k (omega arith) (omega arith)) in
    rw (same i (omega arith) (omega arith), later) refl
