-- ===== src/Sched.antt =====
-- kernel/sched/sched.c: the queues, blocking and waking, and the choice of the next task.
-- kernel/sched/time.c: check_sleeping.
pub mod Queues
pub mod Wake
pub mod Pick
pub mod Sleep
pub mod Keeps
pub mod Frame
use Prim.Native.Nat.{bit_and}
use oslab_2024fall.Prelude.{
  ℕ, zero, suc, ◌+◌, ◌%◌, ◌^◌, Bool, true, false, Option, none, some, List, [], ◌∷◌, ◌++◌, ◌==◌,
  leb, not, if◌then◌else◌, erase, length,
}
use oslab_2024fall.Prelude.Table.{update}
use oslab_2024fall.Kernel.{
  Kernel, Pcb, TaskStatus, task_blocked, task_ready, task_running, is_running, current_running,
  ready_queue, sleep_queue, master_pid0_pcb, slave_pid0_pcb, set_pcb, set_status,
}

-- A node is put behind the last one of a queue.
unfoldable pub insert_tail : ℕ → ℕ → Kernel → Kernel
insert_tail node head k = record k { queues = update k.queues head (k.queues head ++ node ∷ []) }

-- A node is taken out of the queue that it is in.
unfoldable pub unlink : ℕ → Kernel → Kernel
unlink node k = record k { queues = λ q. erase node (k.queues q) }

unfoldable pub add_readyqueue : ℕ → Kernel → Kernel
unfolding insert_tail
add_readyqueue i k = insert_tail i ready_queue (set_status i task_ready k)

unfoldable pub remove_readyqueue : ℕ → Kernel → Kernel
unfolding unlink
remove_readyqueue i k = unlink i k

-- A PCB in no queue has null links and is left alone, which `unlink` does too.
unfoldable pub remove_pcb_queue : ℕ → Kernel → Kernel
unfolding unlink
remove_pcb_queue i k = unlink i k

unfoldable pub do_block : ℕ → ℕ → Kernel → Kernel
unfolding insert_tail
do_block node queue k = set_status node task_blocked (insert_tail node queue k)

unfoldable pub do_unblock : ℕ → Kernel → Kernel
unfolding unlink add_readyqueue
do_unblock node k = add_readyqueue node (unlink node k)

-- `while (head.next != &head) do_unblock(head.next)`, on fuel.
unfoldable pub wake_loop : ℕ → ℕ → Kernel → Kernel
wake_loop zero head k = k
wake_loop (suc fuel) head k = elim (k.queues head) [
  | [] ↦ k
  | node ∷ _ ↦ wake_loop fuel head (do_unblock node k)
]

unfoldable pub wake_all : ℕ → Kernel → Kernel
unfolding wake_loop
wake_all head k = wake_loop (length (k.queues head)) head k

unfoldable pub set_sche_workload : ℕ → Kernel → Kernel
set_sche_workload remain_length k =
    let i = current_running k in set_pcb i (record (k.pcb i) { remain_length = remain_length }) k

-- cpu_mask & 1UL << hartid
unfoldable pub allowed : Pcb → ℕ → Bool
allowed p hart = not (bit_and p.cpu_mask (2 ^ hart) == 0)

-- The walk of get_next_running over the ready queue.
unfoldable pub first_allowed : (ℕ → Pcb) → ℕ → List ℕ → Option ℕ
first_allowed pcb hart [] = none
first_allowed pcb hart (i ∷ rest) =
    if allowed (pcb i) hart then some i else first_allowed pcb hart rest

-- current_running = next_running and what follows.
unfoldable pub run_next : ℕ → Kernel → Kernel
unfolding remove_readyqueue
run_next i k =
    let k1 = remove_readyqueue i (record k { tp = update k.tp k.hart i }) in
    set_pcb i (record (k1.pcb i) { status = task_running; current_cpu_id = k1.hart }) k1

-- A running task goes to the tail of the ready queue first.
unfoldable pub requeue_running : Kernel → Kernel
requeue_running k =
    if is_running (k.pcb (current_running k)).status
    then add_readyqueue (current_running k) k
    else k

unfoldable pub get_next_running : Kernel → Kernel × Bool
get_next_running k =
    let k1 = requeue_running k in
    elim (first_allowed k1.pcb k1.hart (k1.queues ready_queue)) [
      | some i ↦ (run_next i k1, true)
      | none ↦ (k1, false)
    ]

-- The walk over the sleep queue, `p->next` read before `p` is woken.
unfoldable pub wake_sleepers : List ℕ → Kernel → Kernel
wake_sleepers [] k = k
wake_sleepers (p ∷ rest) k =
    wake_sleepers rest (if leb (k.pcb p).wakeup_time k.timer then do_unblock p k else k)

unfoldable pub check_sleeping : Kernel → Kernel
unfolding wake_sleepers
check_sleeping k = wake_sleepers (k.queues sleep_queue) k

-- The pid 0 task of a hart.
abbrev pub idle_of : ℕ → ℕ
idle_of hart = if hart == 0 then master_pid0_pcb else slave_pid0_pcb

-- switch_to saves and loads registers, and the cursor moves on the screen; neither is in the state.
unfoldable pub do_scheduler : Kernel → Kernel
do_scheduler k =
    let k1 = check_sleeping k in
    let (k2, found) = get_next_running k1 in
    if found then k2 else record k2 { tp = update k2.tp k2.hart (idle_of k2.hart) }

unfoldable pub do_sleep : ℕ → Kernel → Kernel
do_sleep sleep_time k =
    let i = current_running k in
    let k1 = set_pcb i (record (k.pcb i) { wakeup_time = (sleep_time + k.timer) % 2 ^ 64 }) k in
    do_scheduler (do_block i sleep_queue k1)
