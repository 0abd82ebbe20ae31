-- ===== src/Kernel.antt =====
-- The state that the scheduler, the process calls and the synchronisation objects share:
-- include/os/sched.h, include/os/lock.h and the global variables of kernel/sched/sched.c,
-- kernel/sched/time.c and kernel/locking/lock.c.
--
-- A pointer to a PCB is the index of the PCB: 0 .. 15 for pcb[i], and one more for each of
-- master_pid0_pcb and slave_pid0_pcb. A queue is named by the index of its head; the nodes of a
-- circular queue are the list of the PCBs in it, `head->next` first.
use oslab_2024fall.Prelude.{ℕ, ◌+◌, Bool, true, false, List}
use oslab_2024fall.Prelude.Table.{update}
use oslab_2024fall.Mm.PageNode.{Mem}

pub data TaskStatus : Type 0 where
  task_blocked : TaskStatus
  task_running : TaskStatus
  task_ready : TaskStatus
  task_exited : TaskStatus

abbrev pub is_running : TaskStatus → Bool
is_running task_running = true
is_running _ = false

abbrev pub is_exited : TaskStatus → Bool
is_exited task_exited = true
is_exited _ = false

pub record Pcb : Type 0 where
  pub pid : ℕ
  pub status : TaskStatus
  pub remain_length : ℕ
  pub wakeup_time : ℕ
  pub current_cpu_id : ℕ
  pub cpu_mask : ℕ
  pub pthread_id : ℕ

pub data LockStatus : Type 0 where
  unlocked : LockStatus
  locked : LockStatus

abbrev pub is_locked : LockStatus → Bool
is_locked unlocked = false
is_locked locked = true

pub record MutexLock : Type 0 where
  pub status : LockStatus
  pub pid : ℕ
  pub key : ℕ

-- Whether a slot of a table of synchronisation objects is in use.
pub data SlotStatus : Type 0 where
  active : SlotStatus
  inactive : SlotStatus

abbrev pub is_inactive : SlotStatus → Bool
is_inactive active = false
is_inactive inactive = true

pub record Barrier : Type 0 where
  pub key : ℕ
  pub goal : ℕ
  pub counter : ℕ
  pub status : SlotStatus

pub record Condition : Type 0 where
  pub key : ℕ
  pub status : SlotStatus

pub data MailboxOpen : Type 0 where
  mbox_open : MailboxOpen
  mbox_close : MailboxOpen

-- `cite_num` is an int: a close without an open would make it negative, here it stops at 0.
pub record Mailbox : Type 0 where
  pub status : SlotStatus
  pub opened : MailboxOpen
  pub name : List ℕ
  pub buffer : ℕ → ℕ
  pub buffer_idx : ℕ
  pub cite_num : ℕ

-- `tp h` is the register current_running of hart `h`, `hart` the hart that runs kernel code, and
-- `timer` what get_timer() reads.
pub record Kernel : Type 0 where
  pub pcb : ℕ → Pcb
  pub queues : ℕ → List ℕ
  pub tp : ℕ → ℕ
  pub hart : ℕ
  pub timer : ℕ
  pub mlocks : ℕ → MutexLock
  pub last_lockid : ℕ
  pub barrier : ℕ → Barrier
  pub condition : ℕ → Condition
  pub mailbox : ℕ → Mailbox
  pub mem : Mem

abbrev pub num_max_task : ℕ
num_max_task = 16

abbrev pub master_pid0_pcb : ℕ
master_pid0_pcb = 16

abbrev pub slave_pid0_pcb : ℕ
slave_pid0_pcb = 17

abbrev pub current_running : Kernel → ℕ
current_running k = k.tp k.hart

-- The table sizes LOCK_NUM, BARRIER_NUM, CONDITION_NUM and MBOX_NUM.
abbrev pub lock_num : ℕ
lock_num = 16

abbrev pub barrier_num : ℕ
barrier_num = 16

abbrev pub condition_num : ℕ
condition_num = 16

abbrev pub mbox_num : ℕ
mbox_num = 16

-- Queue heads.
abbrev pub ready_queue : ℕ
ready_queue = 0

abbrev pub sleep_queue : ℕ
sleep_queue = 1

abbrev pub wait_queue : ℕ → ℕ
wait_queue i = 2 + i

abbrev pub mutex_queue : ℕ → ℕ
mutex_queue i = 20 + i

abbrev pub barrier_queue : ℕ → ℕ
barrier_queue i = 36 + i

abbrev pub condition_queue : ℕ → ℕ
condition_queue i = 52 + i

abbrev pub full_queue : ℕ → ℕ
full_queue i = 68 + i

abbrev pub empty_queue : ℕ → ℕ
empty_queue i = 84 + i

-- `pcb[i] = p` for a changed PCB, and `pcb[i].status = s`.
abbrev pub set_pcb : ℕ → Pcb → Kernel → Kernel
set_pcb i p k = record k { pcb = update k.pcb i p }

abbrev pub set_status : ℕ → TaskStatus → Kernel → Kernel
set_status i s k = set_pcb i (record (k.pcb i) { status = s }) k
