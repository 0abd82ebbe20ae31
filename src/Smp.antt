-- ===== src/Smp.antt =====
-- The kernel lock of kernel/smp/smp.c between the harts. atomic_swap is one step; the calls stand in
-- the trap entry and exit, so a hart unlocks the kernel only after it locked it.
pub mod Exclusion
use oslab_2024fall.Prelude.{ℕ, ◌≡◌, Bool, true, false, ◌==◌, if◌then◌else◌}
use oslab_2024fall.Prelude.Table.{update}

-- Where a hart is: outside the kernel, in the loop of lock_kernel, or in the kernel.
pub data Phase : Type 0 where
  outside : Phase
  locking : Phase
  inside : Phase

pub record Harts : Type 0 where
  pub whole_kernel_lock : ℕ
  pub phase : ℕ → Phase

-- The old value, and the lock after the swap.
unfoldable pub atomic_swap : ℕ → ℕ → ℕ × ℕ
atomic_swap val word = (word, val)

-- A round of the loop of lock_kernel.
unfoldable pub lock_round : ℕ → Harts → Harts
unfolding atomic_swap
lock_round hart s =
    let (old, word) = atomic_swap 1 s.whole_kernel_lock in
    record {
      whole_kernel_lock = word;
      phase = update s.phase hart (if old == 0 then inside else locking);
    }

unfoldable pub unlock_kernel : ℕ → Harts → Harts
unfolding atomic_swap
unlock_kernel hart s = record {
  whole_kernel_lock = (atomic_swap 0 s.whole_kernel_lock).1;
  phase = update s.phase hart outside;
}

-- A step of one hart, in any order with those of the others.
pub data Step (s : Harts) : Harts → Type 0 where
  enters :
      (hart : ℕ)
      → s.phase hart ≡ outside
      → Step s (record s { phase = update s.phase hart locking })
  tries : (hart : ℕ) → s.phase hart ≡ locking → Step s (lock_round hart s)
  leaves : (hart : ℕ) → s.phase hart ≡ inside → Step s (unlock_kernel hart s)

-- The states that the harts reach, with the kernel free at the start.
pub data Reach : Harts → Type 0 where
  start : Reach (record { whole_kernel_lock = 0; phase = λ hart. outside })
  later : {s t : Harts} → Reach s → Step s t → Reach t
