-- ===== src/Lock/Barrier.antt =====
-- The barriers of kernel/locking/lock.c.
pub mod Rounds
use oslab_2024fall.Prelude.{
  ℕ, zero, suc, ◌+◌, Bool, true, false, Option, none, some, leb, if◌then◌else◌, [],
}
use oslab_2024fall.Prelude.Table.{update}
use oslab_2024fall.Prelude.Seq.{first_from}
use oslab_2024fall.Kernel.{
  Kernel, Barrier, active, inactive, is_inactive, barrier_num, barrier_queue, current_running,
}
use oslab_2024fall.Sched.{do_block, do_scheduler, wake_all}

abbrev pub set_barrier : ℕ → Barrier → Kernel → Kernel
set_barrier i b k = record k { barrier = update k.barrier i b }

-- An empty block_queue.
abbrev pub clear_queue : ℕ → Kernel → Kernel
clear_queue q k = record k { queues = update k.queues q [] }

-- The first `n` rounds of init_barriers.
unfoldable pub init_barriers_upto : ℕ → Kernel → Kernel
init_barriers_upto zero k = k
init_barriers_upto (suc n) k =
    let k' = init_barriers_upto n k in
    clear_queue (barrier_queue n) (set_barrier n (record (k'.barrier n) { status = inactive }) k')

unfoldable pub init_barriers : Kernel → Kernel
init_barriers = init_barriers_upto barrier_num

unfoldable pub do_barrier_init : ℕ → ℕ → Kernel → Kernel × Option ℕ
do_barrier_init key goal k =
    elim (first_from (λ i. is_inactive (k.barrier i).status) barrier_num 0) [
      | none ↦ (k, none)
      | some bar_idx ↦ (
        clear_queue (barrier_queue bar_idx) (
            set_barrier bar_idx (record { key = key; goal = goal; counter = 0; status = active })
              k),
        some bar_idx,
      )
    ]

-- The result says whether the call returned at once; if not, the caller was blocked.
unfoldable pub do_barrier_wait : ℕ → Kernel → Kernel × Bool
do_barrier_wait bar_idx k =
    let b = k.barrier bar_idx in
    let k1 = set_barrier bar_idx (record b { counter = b.counter + 1 }) k in
    if leb b.goal (b.counter + 1)
    then (
      let k2 = wake_all (barrier_queue bar_idx) k1 in
          set_barrier bar_idx (record (k2.barrier bar_idx) { counter = 0 }) k2,
      true,
    )
    else (do_scheduler (do_block (current_running k1) (barrier_queue bar_idx) k1), false)

unfoldable pub do_barrier_destroy : ℕ → Kernel → Kernel
do_barrier_destroy bar_idx k =
    let k1 = wake_all (barrier_queue bar_idx) k in
    set_barrier bar_idx (record (k1.barrier bar_idx) { status = inactive }) k1
