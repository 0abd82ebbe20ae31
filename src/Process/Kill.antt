-- ===== src/Process/Kill.antt =====
-- do_exit and do_kill: what ends with a process, and that do_kill ends.
use oslab_2024fall.Prelude.{
  ℕ, zero, suc, ◌+◌, ◌<◌, ◌≡◌, ◌≢◌, true, false, none, some, ◌==◌, arith, has, Bool-cases,
  Option-cases, inl, inr, ap, sym,
}
use oslab_2024fall.Prelude.Seq.{
  first_from-some, first_from-none, count_below, count_below-drop, count_below_le,
}
use oslab_2024fall.Kernel.{
  Kernel, task_exited, task_ready, task_running, is_exited, num_max_task, current_running,
  wait_queue, ready_queue, set_status,
}
use oslab_2024fall.Sched.{wake_all}
use oslab_2024fall.Sched.Queues.{
  IsSound, IsDetached, unlink-IsLinked, unlink-IsDetached, set_pcb-IsLinked, unlink-IsCompleteBut,
}
use oslab_2024fall.Sched.Wake.{wake_all-Moved, wake_all-IsSound}
use oslab_2024fall.Sched.Pick.{running-IsDetached}
use oslab_2024fall.Sched.Sleep.{do_scheduler-IsSound, do_scheduler-exited}
use oslab_2024fall.Sched.Frame.{Objects, objects-wake_all, objects-do_scheduler}
use oslab_2024fall.Lock.Mutex.Sound.{held_by}
use oslab_2024fall.Sched.Keeps.{Keeps, Keeps-trans, wake_all-Keeps}
use oslab_2024fall.Lock.Mutex.{release_process_mutex}
use oslab_2024fall.Lock.Mutex.Cleanup.{Freed, release_process_mutex-Freed}
use oslab_2024fall.Process.{
  is_live, pid_to_pcb_id, recycle_mem, end_task, do_exit, kill_other, KillResult, returned,
  caller_exited, out_of_fuel, do_kill,
}

not_ready : (i : ℕ) → wait_queue i ≢ ready_queue
not_ready i = omega arith

recycle_mem-IsSound : (i : ℕ) (k : Kernel) → IsSound k → IsSound (recycle_mem i k)
unfolding recycle_mem
recycle_mem-IsSound i k s = record {
  linked = record {
    nodup = ground (arith, s.linked.nodup);
    apart = ground (arith, s.linked.apart);
    ready = ground (arith, s.linked.ready);
    blocked = ground (arith, s.linked.blocked);
  };
  complete = ground (arith, s.complete);
}

recycle_mem-Keeps : (i : ℕ) (k : Kernel) → Keeps k (recycle_mem i k)
unfolding recycle_mem
recycle_mem-Keeps i k = record {
  same_tp = ground arith;
  same_hart = ground arith;
  same_pid = λ j. ground arith;
  same_thread = λ j. ground arith;
  running = λ j h. ground arith;
  ready = λ j h. ground arith;
  exited = λ j. ground arith;
}

recycle_mem-mlocks :
    (i : ℕ) (k : Kernel)
    → ((recycle_mem i k).mlocks ≡ k.mlocks) × ((recycle_mem i k).last_lockid ≡ k.last_lockid)
unfolding recycle_mem
recycle_mem-mlocks i k = ground arith

module _ (i : ℕ) {k : Kernel} (s : IsSound k) where
  woken : Kernel
  woken = wake_all (wait_queue i) k

  woken-IsSound : IsSound woken
  unfolding woken
  woken-IsSound = wake_all-IsSound (wait_queue i) s (not_ready i)

  freed : Freed (k.pcb i).pid 0 woken.last_lockid woken (release_process_mutex (k.pcb i).pid woken)
  freed = release_process_mutex-Freed (k.pcb i).pid woken woken-IsSound

  pub end_task-IsSound : IsSound (end_task i k)
  unfolding end_task woken
  end_task-IsSound = recycle_mem-IsSound i _ freed.sound

  pub end_task-Keeps : Keeps k (end_task i k)
  unfolding end_task woken
  end_task-Keeps =
      Keeps-trans (wake_all-Keeps (wait_queue i) s (not_ready i))
        (Keeps-trans freed.keeps (recycle_mem-Keeps i _))

  -- A task that waits for `i` is READY after it.
  pub end_task-woken :
      (x : ℕ) → has x (k.queues (wait_queue i)) ≡ true → ((end_task i k).pcb x).status ≡ task_ready
  unfolding end_task woken
  end_task-woken x h =
      let m = wake_all-Moved (wait_queue i) s (not_ready i) in
      (recycle_mem-Keeps i (release_process_mutex (k.pcb i).pid woken)).ready x
        (freed.keeps.ready x (ground (arith, m.woken x)))

-- The PCB has exited and is in no queue, no other task ended, and its waiters are READY.
pub record Killed (i : ℕ) (k k' : Kernel) : Type 0 where
  pub sound : IsSound k'
  pub gone : (k'.pcb i).status ≡ task_exited
  pub detached : IsDetached i k'
  pub others : (j : ℕ) → j ≢ i → is_exited (k'.pcb j).status ≡ is_exited (k.pcb j).status
  pub running : (j : ℕ) → j ≢ i → (k.pcb j).status ≡ task_running → (k'.pcb j).status ≡ task_running
  pub same_pid : (j : ℕ) → (k'.pcb j).pid ≡ (k.pcb j).pid
  pub same_tp : k'.tp ≡ k.tp
  pub same_hart : k'.hart ≡ k.hart
  pub waiters :
      (x : ℕ) → has x (k.queues (wait_queue i)) ≡ true → x ≢ i → (k'.pcb x).status ≡ task_ready

kill_other-IsSound : (i : ℕ) (k : Kernel) → IsSound k → IsSound (kill_other i k)
unfolding kill_other
kill_other-IsSound i k s =
    let e = end_task-IsSound i s in
    let l = unlink-IsLinked e.linked i in
    let c = unlink-IsCompleteBut (end_task i k) i e.complete in
    record {
      linked =
          set_pcb-IsLinked l i (record ((end_task i k).pcb i) { status = task_exited })
            (unlink-IsDetached e.linked i);
      complete = λ y h. c y (ground arith) (ground arith);
    }

-- From a sound state, the round of do_kill for a PCB that is not the current one ends in a
-- sound state where that PCB has exited and is in no queue, no other PCB exits or comes back,
-- RUNNING tasks stay RUNNING, pids do not change, and every other task that waited for it is
-- READY.
pub kill_other-Killed : (i : ℕ) (k : Kernel) → IsSound k → Killed i k (kill_other i k)
unfolding kill_other
kill_other-Killed i k s =
    let e = end_task-Keeps i s in
    record {
      sound = kill_other-IsSound i k s;
      gone = ground arith;
      detached = unlink-IsDetached (end_task-IsSound i s).linked i;
      others = λ j ne. ground (arith, e.exited j);
      running = λ j ne h. ground (arith, e.running j h);
      same_pid = λ j. ground (arith, e.same_pid j);
      same_tp = e.same_tp;
      same_hart = e.same_hart;
      waiters = λ x h ne. ground (arith, end_task-woken i s x h);
    }

-- The live tasks of a process in the PCB table.
live_count : ℕ → Kernel → ℕ
live_count pid k = count_below num_max_task (λ i. is_live pid (k.pcb i))

live_count-kill :
    (pid i : ℕ) (k k' : Kernel)
    → Killed i k k'
    → i < num_max_task
    → is_live pid (k.pcb i) ≡ true
    → live_count pid k' + 1 ≡ live_count pid k
unfolding live_count
live_count-kill pid i k k' d lt live =
    let gone : is_live pid (k'.pcb i) ≡ false = ground (arith, d.gone) in
    let same : (j : ℕ) → j ≢ i → is_live pid (k'.pcb j) ≡ is_live pid (k.pcb j) =
      λ j ne. ground (arith, d.others j ne, d.same_pid j) in
    ground (
      arith,
      count_below-drop num_max_task (λ j. is_live pid (k.pcb j)) (λ j. is_live pid (k'.pcb j)) i
          gone same,
    )

-- By its result: no live task of the pid is left, or the caller had the pid and exited.
abbrev pub KillSays : ℕ → Kernel → KillResult → Type 0
KillSays pid k (returned k') =
    IsSound k' × ((i : ℕ) → i < num_max_task → is_live pid (k'.pcb i) ≡ false)
KillSays pid k (caller_exited k') =
    IsSound k'
    × ((k.pcb (current_running k)).pid ≡ pid)
    × ((k'.pcb (current_running k)).status ≡ task_exited)
KillSays pid k out_of_fuel = ⊥

KillSays-Killed :
    (pid i : ℕ) (k k1 : Kernel) (r : KillResult)
    → Killed i k k1
    → KillSays pid k1 r
    → KillSays pid k r
KillSays-Killed pid i k k1 (returned k') d says = says
KillSays-Killed pid i k k1 (caller_exited k') d (s, p, e) =
    let z : current_running k1 ≡ current_running k = ground (arith, d.same_tp, d.same_hart) in
    (s, ground (arith, d.same_pid (current_running k)), rw z at e)
KillSays-Killed pid i k k1 out_of_fuel d says = says

set_exited-IsSound :
    (i : ℕ) (k : Kernel) → IsSound k → IsDetached i k → IsSound (set_status i task_exited k)
set_exited-IsSound i k s out = record {
  linked = set_pcb-IsLinked s.linked i (record (k.pcb i) { status = task_exited }) out;
  complete = λ y h. s.complete y (ground arith);
}

end_task-unheld :
    (i : ℕ) (k : Kernel)
    → IsSound k
    → (j : ℕ) → j < k.last_lockid
    → held_by (k.pcb i).pid ((end_task i k).mlocks j) ≡ false
unfolding end_task woken
end_task-unheld i k s j lt =
    let k1 = release_process_mutex (k.pcb i).pid (woken i s) in
    let count = ap (λ (o : Objects). o.last_lockid) (objects-wake_all (wait_queue i) k) in
    rw ((recycle_mem-mlocks i k1).0) ((freed i s).none_held j (omega arith) (omega (arith, count)))

-- A state in which the task has exited and its process holds no mutex.
pub record Ended (i pid : ℕ) (k k' : Kernel) : Type 0 where
  pub sound : IsSound k'
  pub gone : (k'.pcb i).status ≡ task_exited
  pub unheld : (j : ℕ) → j < k.last_lockid → held_by pid (k'.mlocks j) ≡ false

-- From a sound state, when the current task is RUNNING, do_exit ends in a sound state where
-- that task has exited and no lock that was handed out is held by its process.
pub do_exit-Ended :
    (k : Kernel)
    → IsSound k
    → (k.pcb (current_running k)).status ≡ task_running
    → Ended (current_running k) (k.pcb (current_running k)).pid k (do_exit k)
unfolding do_exit
do_exit-Ended k s run =
    let i = current_running k in
    let e = end_task-IsSound i s in
    let out = running-IsDetached i e.linked ((end_task-Keeps i s).running i run) in
    let k1 = set_status i task_exited (end_task i k) in
    let s' : IsSound k1 = set_exited-IsSound i (end_task i k) e out in
    record {
      sound = do_scheduler-IsSound k1 s';
      gone = do_scheduler-exited k1 s' i (ground arith);
      unheld = λ j lt.
          rw (ap (λ (o : Objects). o.mlocks) (objects-do_scheduler k1))
            (end_task-unheld i k s j lt);
    }

none_left :
    (pid : ℕ) (k : Kernel)
    → pid_to_pcb_id pid k ≡ none
    → (i : ℕ) → i < num_max_task
    → is_live pid (k.pcb i) ≡ false
unfolding pid_to_pcb_id
none_left pid k e i lt =
    first_from-none (λ j. is_live pid (k.pcb j)) num_max_task 0 e i (omega arith) lt

found_live :
    (pid : ℕ) (k : Kernel) (i : ℕ)
    → pid_to_pcb_id pid k ≡ some i
    → (is_live pid (k.pcb i) ≡ true) × (i < num_max_task)
unfolding pid_to_pcb_id
found_live pid k i e =
    let (live, _, lt) = first_from-some (λ j. is_live pid (k.pcb j)) num_max_task 0 e in (live, lt)

still_running :
    (i : ℕ) (k k' : Kernel)
    → Killed i k k'
    → i ≢ current_running k
    → (k.pcb (current_running k)).status ≡ task_running
    → (k'.pcb (current_running k')).status ≡ task_running
still_running i k k' d ne run =
    let z : current_running k' ≡ current_running k = ground (arith, d.same_tp, d.same_hart) in
    rw z (d.running (current_running k) (λ e. ne (sym e)) run)

do_kill-says :
    (fuel pid : ℕ) (k : Kernel)
    → IsSound k
    → (k.pcb (current_running k)).status ≡ task_running
    → live_count pid k < fuel
    → KillSays pid k (do_kill fuel pid k)
unfolding do_kill
do_kill-says zero pid k s run h = absurd (omega arith)
do_kill-says (suc fuel) pid k s run h = elim (Option-cases (pid_to_pcb_id pid k)) [
  | inl e ↦ rw (e, do_kill) (s, λ i lt. none_left pid k e i lt)
  | inr (i, e) ↦
      let (live, lt) = found_live pid k i e in
      elim (Bool-cases (i == current_running k)) [
        | inl self ↦
            rw (e, do_kill, self)
              ((do_exit-Ended k s run).sound, ground arith, (do_exit-Ended k s run).gone)
        | inr other ↦
            let d = kill_other-Killed i k s in
            let n = live_count-kill pid i k (kill_other i k) d lt live in
            rw (e, do_kill, other)
              (KillSays-Killed pid i k (kill_other i k) _ d (
                do_kill-says fuel pid (kill_other i k) d.sound
                  (still_running i k (kill_other i k) d (ground arith) run) (omega arith)))
      ]
]

-- From a state that satisfies the scheduler invariant, called by a RUNNING task and given more
-- fuel than there are PCB slots, do_kill does not run out of fuel: it returns in a sound state
-- with no live task of the pid in the table, or the caller had the pid and has exited, in a
-- sound state.
pub do_kill-ends :
    (fuel pid : ℕ) (k : Kernel)
    → IsSound k
    → (k.pcb (current_running k)).status ≡ task_running
    → num_max_task < fuel
    → KillSays pid k (do_kill fuel pid k)
unfolding live_count
do_kill-ends fuel pid k s run h =
    do_kill-says fuel pid k s run
      (omega (arith, count_below_le num_max_task (λ i. is_live pid (k.pcb i))))
