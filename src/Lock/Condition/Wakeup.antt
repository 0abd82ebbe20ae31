-- ===== src/Lock/Condition/Wakeup.antt =====
-- Waiting on a condition loses no signal, and a signal wakes the task that has waited longest.
use oslab_2024fall.Prelude.{ℕ, ◌<◌, ◌≡◌, ◌≢◌, refl, List, [], ◌∷◌, ◌++◌, arith, ◌∙◌, ap}
use oslab_2024fall.Kernel.{
  Kernel, MutexLock, task_ready, unlocked, lock_num, condition_queue, mutex_queue, ready_queue,
  current_running,
}
use oslab_2024fall.Sched.{do_block}
use oslab_2024fall.Sched.Queues.{IsSound, IsDetached, do_block-IsSound, do_unblock-IsSound}
use oslab_2024fall.Sched.Wake.{
  Moved, wake_all-Moved, do_unblock-head, do_unblock-ready, do_unblock-pcb,
}
use oslab_2024fall.Sched.Sleep.{do_scheduler-IsSound, do_scheduler-queue}
use oslab_2024fall.Sched.Frame.{Objects, objects-do_scheduler, objects-do_block}
use oslab_2024fall.Lock.Mutex.{do_mutex_lock_release}
use oslab_2024fall.Lock.Mutex.Sound.{
  do_mutex_lock_release-Released, do_mutex_lock_release-IsSound, release-queue,
}
use oslab_2024fall.Lock.Condition.{do_condition_wait, do_condition_signal, do_condition_broadcast}

-- The caller is in the condition's queue, behind the others, and the mutex is free.
pub record Waits (cond_idx mutex_idx : ℕ) (k k' : Kernel) : Type 0 where
  pub sound : IsSound k'
  pub queued :
      k'.queues (condition_queue cond_idx)
      ≡ k.queues (condition_queue cond_idx) ++ current_running k ∷ []
  pub released : (k'.mlocks mutex_idx).status ≡ unlocked
  pub others : (i : ℕ) → i ≢ mutex_idx → k'.mlocks i ≡ k.mlocks i
  pub no_waiter : k'.queues (mutex_queue mutex_idx) ≡ []

-- From a sound state in which the caller is in no queue, and for a mutex of the table,
-- do_condition_wait up to its switch ends in a sound state with the caller behind the earlier
-- waiters of the condition, the mutex unlocked with no waiter left, and the other mutexes
-- unchanged.
pub do_condition_wait-Waits :
    (cond_idx mutex_idx : ℕ) (k : Kernel)
    → mutex_idx < lock_num
    → IsSound k
    → IsDetached (current_running k) k
    → Waits cond_idx mutex_idx k (do_condition_wait cond_idx mutex_idx k)
unfolding do_condition_wait
do_condition_wait-Waits cond_idx mutex_idx k lt s out =
    let cq = condition_queue cond_idx in
    let k1 = do_block (current_running k) cq k in
    let s1 = do_block-IsSound (current_running k) cq s out (omega arith) in
    let k2 = do_mutex_lock_release mutex_idx k1 in
    let s2 = do_mutex_lock_release-IsSound mutex_idx s1 in
    let r = do_mutex_lock_release-Released mutex_idx k1 s1 in
    let o = ap (λ (o : Objects). o.mlocks) (objects-do_scheduler k2) in
    let b = ap (λ (o : Objects). o.mlocks) (objects-do_block (current_running k) cq k) in
    record {
      sound = do_scheduler-IsSound k2 s2;
      queued =
          do_scheduler-queue k2 s2 cq (omega arith) (omega arith)
          ∙ release-queue mutex_idx k1 s1 cq (omega arith) (omega arith)
          ∙ unfold do_block in ground arith;
      released = rw o r.free;
      others = λ i ne. rw o (r.others i ne ∙ ap (λ (f : ℕ → MutexLock). f i) b);
      no_waiter =
          do_scheduler-queue k2 s2 (mutex_queue mutex_idx) (omega arith) (omega arith)
          ∙ r.no_waiter;
    }

-- The first task of the queue is READY, and nothing changed when there is none.
abbrev pub SignalSays : ℕ → Kernel → Kernel → List ℕ → Type 0
SignalSays cond_idx k k' [] = k' ≡ k
SignalSays cond_idx k k' (x ∷ rest) =
    IsSound k'
    × (k'.queues (condition_queue cond_idx) ≡ rest)
    × (k'.queues ready_queue ≡ k.queues ready_queue ++ x ∷ [])
    × ((k'.pcb x).status ≡ task_ready)
    × ((i : ℕ) → i ≢ x → k'.pcb i ≡ k.pcb i)

signal-says :
    (cond_idx : ℕ) (k : Kernel) (xs : List ℕ)
    → IsSound k
    → k.queues (condition_queue cond_idx) ≡ xs
    → SignalSays cond_idx k (do_condition_signal cond_idx k) xs
unfolding do_condition_signal
signal-says cond_idx k [] s e = rw (e, do_condition_signal) refl
signal-says cond_idx k (x ∷ rest) s e =
    let cq = condition_queue cond_idx in
    let ne : cq ≢ ready_queue = omega arith in
    rw (e, do_condition_signal)
      (
        do_unblock-IsSound x s,
        do_unblock-head s.linked x cq rest ne e,
        do_unblock-ready s.linked x cq rest ne e,
        ground (arith, do_unblock-pcb s.linked x cq rest ne e x),
        λ i d. ground (arith, do_unblock-pcb s.linked x cq rest ne e i),
      )

-- From a sound state, do_condition_signal changes nothing when no task waits; else it moves the
-- first waiter to the tail of the ready queue, makes it READY, changes no other PCB and keeps
-- soundness.
pub do_condition_signal-says :
    (cond_idx : ℕ) (k : Kernel)
    → IsSound k
    → SignalSays cond_idx k (do_condition_signal cond_idx k) (k.queues (condition_queue cond_idx))
do_condition_signal-says cond_idx k s = signal-says cond_idx k _ s refl

-- do_condition_broadcast makes every waiting task READY, in the order in which they came.
pub do_condition_broadcast-Moved :
    (cond_idx : ℕ) (k : Kernel)
    → IsSound k
    → Moved
        (condition_queue cond_idx)
        (k.queues (condition_queue cond_idx))
        k
        (do_condition_broadcast cond_idx k)
unfolding do_condition_broadcast
do_condition_broadcast-Moved cond_idx k s =
    wake_all-Moved (condition_queue cond_idx) s (omega arith)
