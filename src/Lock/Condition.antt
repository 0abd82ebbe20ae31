-- ===== src/Lock/Condition.antt =====
-- The condition variables of kernel/locking/lock.c.
pub mod Wakeup
use oslab_2024fall.Prelude.{ℕ, zero, suc, Bool, true, false, Option, none, some, [], ◌∷◌}
use oslab_2024fall.Prelude.Table.{update}
use oslab_2024fall.Prelude.Seq.{first_from}
use oslab_2024fall.Kernel.{
  Kernel, Condition, active, inactive, is_inactive, condition_num, condition_queue, current_running,
}
use oslab_2024fall.Sched.{do_block, do_unblock, do_scheduler, wake_all}
use oslab_2024fall.Lock.Mutex.{do_mutex_lock_release}
use oslab_2024fall.Lock.Barrier.{clear_queue}

abbrev pub set_condition : ℕ → Condition → Kernel → Kernel
set_condition i c k = record k { condition = update k.condition i c }

-- The first `n` rounds of init_conditions.
unfoldable pub init_conditions_upto : ℕ → Kernel → Kernel
init_conditions_upto zero k = k
init_conditions_upto (suc n) k =
    let k' = init_conditions_upto n k in
    set_condition n (record (k'.condition n) { status = inactive })
      (clear_queue (condition_queue n) k')

unfoldable pub init_conditions : Kernel → Kernel
init_conditions = init_conditions_upto condition_num

unfoldable pub do_condition_init : ℕ → Kernel → Kernel × Option ℕ
do_condition_init key k =
    elim (first_from (λ i. is_inactive (k.condition i).status) condition_num 0) [
      | none ↦ (k, none)
      | some cond_idx ↦ (
        clear_queue (condition_queue cond_idx)
            (set_condition cond_idx (record { key = key; status = active }) k),
        some cond_idx,
      )
    ]

-- do_condition_wait up to its do_scheduler. When the caller is resumed it takes the mutex again, by
-- rounds of do_mutex_lock_acquire.
unfoldable pub do_condition_wait : ℕ → ℕ → Kernel → Kernel
do_condition_wait cond_idx mutex_idx k =
    do_scheduler
      (do_mutex_lock_release mutex_idx (do_block (current_running k) (condition_queue cond_idx) k))

unfoldable pub do_condition_signal : ℕ → Kernel → Kernel
do_condition_signal cond_idx k = elim (k.queues (condition_queue cond_idx)) [
  | [] ↦ k
  | node ∷ _ ↦ do_unblock node k
]

unfoldable pub do_condition_broadcast : ℕ → Kernel → Kernel
do_condition_broadcast cond_idx k = wake_all (condition_queue cond_idx) k

unfoldable pub do_condition_destroy : ℕ → Kernel → Kernel
do_condition_destroy cond_idx k =
    let k1 = do_condition_broadcast cond_idx k in
    set_condition cond_idx (record (k1.condition cond_idx) { status = inactive }) k1
