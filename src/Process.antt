-- ===== src/Process.antt =====
-- kernel/sched/sched.c: the searches of the PCB table, exit, kill, waitpid and join.
pub mod Kill
use oslab_2024fall.Prelude.{
  ℕ, zero, suc, ◌+◌, Bool, true, false, not, Option, none, some, ◌==◌, ◌&&◌, if◌then◌else◌,
}
use oslab_2024fall.Prelude.Seq.{first_from}
use oslab_2024fall.Kernel.{
  Kernel, Pcb, task_exited, is_exited, num_max_task, current_running, wait_queue, set_pcb,
  set_status,
}
use oslab_2024fall.Mm.PageNode.{release_process_page}
use oslab_2024fall.Sched.{do_block, do_scheduler, wake_all, remove_pcb_queue}
use oslab_2024fall.Lock.Mutex.{release_process_mutex}

-- pcb.pid == pid && pcb.status != TASK_EXITED
abbrev pub is_live : ℕ → Pcb → Bool
is_live pid p = p.pid == pid && not (is_exited p.status)

-- The searches return `none` for -1.
unfoldable pub pid_to_pcb_id : ℕ → Kernel → Option ℕ
pid_to_pcb_id pid k = first_from (λ i. is_live pid (k.pcb i)) num_max_task 0

unfoldable pub get_free_pcb : Kernel → Option ℕ
get_free_pcb k = first_from (λ i. is_exited (k.pcb i).status) num_max_task 0

unfoldable pub search_pthread_pcb : ℕ → ℕ → Kernel → Option ℕ
search_pthread_pcb pid thread k =
    first_from (λ i. is_live pid (k.pcb i) && (k.pcb i).pthread_id == thread) num_max_task 0

-- The pages go when the main thread ends.
unfoldable pub recycle_mem : ℕ → Kernel → Kernel
recycle_mem i k =
    if (k.pcb i).pthread_id == 0
    then record k { mem = release_process_page (k.pcb i).pid k.mem }
    else k

-- What do_exit and do_kill do first for the PCB that ends.
unfoldable pub end_task : ℕ → Kernel → Kernel
unfolding recycle_mem
end_task i k = recycle_mem i (release_process_mutex (k.pcb i).pid (wake_all (wait_queue i) k))

unfoldable pub do_exit : Kernel → Kernel
do_exit k = let i = current_running k in do_scheduler (set_status i task_exited (end_task i k))

-- The rounds of do_kill for a PCB that is not the current one.
unfoldable pub kill_other : ℕ → Kernel → Kernel
unfolding remove_pcb_queue
kill_other i k = remove_pcb_queue i (set_status i task_exited (end_task i k))

-- do_kill returns 1, or its caller has exited and another task runs.
pub data KillResult : Type 0 where
  returned : Kernel → KillResult
  caller_exited : Kernel → KillResult
  out_of_fuel : KillResult

unfoldable pub do_kill : ℕ → ℕ → Kernel → KillResult
do_kill zero pid k = out_of_fuel
do_kill (suc fuel) pid k = elim (pid_to_pcb_id pid k) [
  | none ↦ returned k
  | some i ↦ elim (i == current_running k) [
    | true ↦ caller_exited (do_exit k)
    | false ↦ do_kill fuel pid (kill_other i k)
  ]
]

-- The result is 0 at once for an unknown pid; else the caller blocks, and gets the slot when it
-- is woken.
unfoldable pub do_waitpid : ℕ → Kernel → Kernel × ℕ
do_waitpid pid k = elim (first_from (λ i. is_live pid (k.pcb i)) num_max_task 0) [
  | none ↦ (k, 0)
  | some i ↦ (do_scheduler (do_block (current_running k) (wait_queue i) k), i)
]

unfoldable pub do_pthread_join : ℕ → Kernel → Kernel
do_pthread_join thread k = elim (search_pthread_pcb (k.pcb (current_running k)).pid thread k) [
  | none ↦ k
  | some i ↦ do_scheduler (do_block (current_running k) (wait_queue i) k)
]

-- do_taskset with mod = 1, `taskset -p mask pid`.
unfoldable pub do_taskset_pid : ℕ → ℕ → Kernel → Kernel × Bool
do_taskset_pid pid mask k = elim (first_from (λ i. is_live pid (k.pcb i)) num_max_task 0) [
  | none ↦ (k, false)
  | some i ↦ (set_pcb i (record (k.pcb i) { cpu_mask = mask }) k, true)
]
