-- ===== src/Smp/Exclusion.antt =====
-- At most one hart is in the kernel.
use oslab_2024fall.Prelude.{ℕ, ◌≡◌, ◌≢◌, refl, ◌==◌, arith, Bool-cases, inl, inr}
use oslab_2024fall.Smp.{
  inside, Harts, lock_round, unlock_kernel, Step, enters, tries, leaves, Reach, start, later,
}

-- The lock is 1 exactly while a hart is in the kernel, and then only one is.
pub record IsExclusive (s : Harts) : Type 0 where
  pub one : (i j : ℕ) → s.phase i ≡ inside → s.phase j ≡ inside → i ≡ j
  pub held : (i : ℕ) → s.phase i ≡ inside → s.whole_kernel_lock ≡ 1
  pub taken : s.whole_kernel_lock ≢ 0 → (i : ℕ) × (s.phase i ≡ inside)

Step-IsExclusive : {s t : Harts} → Step s t → IsExclusive s → IsExclusive t
unfolding lock_round unlock_kernel
Step-IsExclusive {s} (enters hart e) x = record {
  one = λ i j p q. ground (arith, x.one i j);
  held = λ i p. ground (arith, x.held i);
  taken = λ n. let (i, p) = x.taken n in (i, ground arith);
}
Step-IsExclusive {s} (tries hart e) x = elim (Bool-cases (s.whole_kernel_lock == 0)) [
  | inl z ↦ rw z (record {
    one = λ i j p q. ground (arith, x.held i, x.held j);
    held = λ i p. refl;
    taken = λ n. (hart, ground arith);
  })
  | inr z ↦ rw z (record {
    one = λ i j p q. ground (arith, x.one i j);
    held = λ i p. refl;
    taken = λ n. let (i, p) = x.taken (ground arith) in (i, ground arith);
  })
]
Step-IsExclusive {s} (leaves hart e) x = record {
  one = λ i j p q. ground (arith, x.one i j);
  held = λ i p. ground (arith, x.one i hart);
  taken = λ n. absurd (n refl);
}

-- In every state that the harts reach from a free kernel, by entering lock_kernel, swapping in
-- its loop and leaving by unlock_kernel in any order, at most one hart is in the kernel, and
-- the lock is not 0 exactly when one is, and is 1 then.
pub Reach-IsExclusive : {s : Harts} → Reach s → IsExclusive s
Reach-IsExclusive start = record {
  one = λ i j p q. cc;
  held = λ i p. cc;
  taken = λ n. absurd (n refl);
}
Reach-IsExclusive (later r step) = Step-IsExclusive step (Reach-IsExclusive r)
