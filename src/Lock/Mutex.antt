-- ===== src/Lock/Mutex.antt =====
-- The mutex locks of kernel/locking/lock.c.
pub mod Keys
pub mod Sound
pub mod Cleanup
use oslab_2024fall.Prelude.{
  ℕ, zero, suc, ◌+◌, Bool, true, false, Option, none, some, ◌==◌, ltb, leb, ◌&&◌, if◌then◌else◌, [],
}
use oslab_2024fall.Prelude.Table.{update}
use oslab_2024fall.Prelude.Seq.{first_from}
use oslab_2024fall.Kernel.{
  Kernel, MutexLock, unlocked, locked, is_locked, lock_num, mutex_queue, current_running,
}
use oslab_2024fall.Sched.{do_block, do_scheduler, wake_all}

abbrev pub set_mlock : ℕ → MutexLock → Kernel → Kernel
set_mlock i m k = record k { mlocks = update k.mlocks i m }

-- One round of the loop of init_locks: an empty block_queue, pid 0, UNLOCKED.
unfoldable pub init_lock : ℕ → Kernel → Kernel
init_lock i k =
    set_mlock i (record (k.mlocks i) { pid = 0; status = unlocked })
      (record k { queues = update k.queues (mutex_queue i) [] })

-- The first `n` rounds.
unfoldable pub init_locks_upto : ℕ → Kernel → Kernel
unfolding init_lock
init_locks_upto zero k = k
init_locks_upto (suc n) k = init_lock n (init_locks_upto n k)

unfoldable pub init_locks : Kernel → Kernel
init_locks = init_locks_upto lock_num

-- `none` is the returned -1.
unfoldable pub do_mutex_lock_init : ℕ → Kernel → Kernel × Option ℕ
do_mutex_lock_init key k = elim (first_from (λ i. (k.mlocks i).key == key) k.last_lockid 0) [
  | some i ↦ (k, some i)
  | none ↦ if leb lock_num k.last_lockid then (k, none) else (
    record k {
      mlocks = update k.mlocks k.last_lockid (record (k.mlocks k.last_lockid) { key = key });
      last_lockid = k.last_lockid + 1;
    },
    some k.last_lockid,
  )
]

-- do_getpid
unfoldable pub do_getpid : Kernel → ℕ
do_getpid k = (k.pcb (current_running k)).pid

-- One round of the loop of do_mutex_lock_acquire. `true`: it returns with the lock. `false`: the
-- task was blocked and another one runs; when this one is resumed it makes the next round.
unfoldable pub mutex_acquire_round : ℕ → Kernel → Kernel × Bool
unfolding do_getpid
mutex_acquire_round idx k =
    if is_locked (k.mlocks idx).status
    then (do_scheduler (do_block (current_running k) (mutex_queue idx) k), false)
    else (set_mlock idx (record (k.mlocks idx) { status = locked; pid = do_getpid k }) k, true)

unfoldable pub do_mutex_lock_release : ℕ → Kernel → Kernel
do_mutex_lock_release idx k =
    wake_all (mutex_queue idx)
      (set_mlock idx (record (k.mlocks idx) { status = unlocked; pid = 0 }) k)

-- One round of release_process_mutex.
unfoldable pub release_if_held : ℕ → ℕ → Kernel → Kernel
release_if_held pid i k =
    if is_locked (k.mlocks i).status && (k.mlocks i).pid == pid
    then do_mutex_lock_release i k
    else k

-- `n` rounds from lock `i` on.
unfoldable pub release_from : ℕ → ℕ → ℕ → Kernel → Kernel
release_from pid zero i k = k
release_from pid (suc n) i k = release_from pid n (i + 1) (release_if_held pid i k)

unfoldable pub release_process_mutex : ℕ → Kernel → Kernel
release_process_mutex pid k = release_from pid k.last_lockid 0 k
