-- ===== src/Lock/Mutex/Sound.antt =====
-- The mutex operations keep the scheduler's invariant, and what a release does to the locks.
use oslab_2024fall.Prelude.{
  ℕ, ◌≡◌, ◌≢◌, refl, Bool, false, ◌==◌, ◌&&◌, arith, Bool-cases, inl, inr, [], ◌++◌, ap,
}
use oslab_2024fall.Prelude.Table.{update}
use oslab_2024fall.Sched.Frame.{Objects, objects-wake_all}
use oslab_2024fall.Kernel.{
  Kernel, MutexLock, unlocked, is_locked, mutex_queue, ready_queue, current_running,
}
use oslab_2024fall.Sched.Queues.{IsSound, IsDetached, do_block-IsSound}
use oslab_2024fall.Sched.Sleep.{do_scheduler-IsSound}
use oslab_2024fall.Sched.Wake.{Moved, wake_all-Moved, wake_all-IsSound}
use oslab_2024fall.Sched.Keeps.{Keeps, Keeps-refl, wake_all-Keeps}
use oslab_2024fall.Lock.Mutex.{
  set_mlock, mutex_acquire_round, do_mutex_lock_release, release_if_held,
}

set_mlock-IsSound : (i : ℕ) (m : MutexLock) (k : Kernel) → IsSound k → IsSound (set_mlock i m k)
set_mlock-IsSound i m k s = record {
  linked = record {
    nodup = s.linked.nodup;
    apart = s.linked.apart;
    ready = s.linked.ready;
    blocked = s.linked.blocked;
  };
  complete = s.complete;
}

module _ (idx : ℕ) {k : Kernel} (s : IsSound k) where
  not_ready : mutex_queue idx ≢ ready_queue
  not_ready = omega arith

  pub do_mutex_lock_release-IsSound : IsSound (do_mutex_lock_release idx k)
  unfolding do_mutex_lock_release
  do_mutex_lock_release-IsSound =
      wake_all-IsSound (mutex_queue idx) (set_mlock-IsSound idx _ k s) not_ready

  pub do_mutex_lock_release-Keeps : Keeps k (do_mutex_lock_release idx k)
  unfolding do_mutex_lock_release
  do_mutex_lock_release-Keeps =
      let w = wake_all-Keeps (mutex_queue idx) (set_mlock-IsSound idx _ k s) not_ready in
      record {
        same_tp = w.same_tp;
        same_hart = w.same_hart;
        same_pid = w.same_pid;
        same_thread = w.same_thread;
        running = w.running;
        ready = w.ready;
        exited = w.exited;
      }

  pub mutex_acquire_round-IsSound :
      IsDetached (current_running k) k → IsSound (mutex_acquire_round idx k).0
  unfolding mutex_acquire_round
  mutex_acquire_round-IsSound out = elim (Bool-cases (is_locked (k.mlocks idx).status)) [
    | inl e ↦ rw e (
        do_scheduler-IsSound _
          (do_block-IsSound (current_running k) (mutex_queue idx) s out not_ready))
    | inr e ↦ rw e (set_mlock-IsSound idx _ k s)
  ]

-- The lock is free, the others are as before, and its waiters are at the tail of the ready queue.
pub record Released (idx : ℕ) (k k' : Kernel) : Type 0 where
  pub free : (k'.mlocks idx).status ≡ unlocked
  pub no_owner : (k'.mlocks idx).pid ≡ 0
  pub others : (i : ℕ) → i ≢ idx → k'.mlocks i ≡ k.mlocks i
  pub same_key : (k'.mlocks idx).key ≡ (k.mlocks idx).key
  pub same_count : k'.last_lockid ≡ k.last_lockid
  pub no_waiter : k'.queues (mutex_queue idx) ≡ []
  pub readied : k'.queues ready_queue ≡ k.queues ready_queue ++ k.queues (mutex_queue idx)

release-mlocks :
    (idx : ℕ) (k : Kernel)
    → (do_mutex_lock_release idx k).mlocks
      ≡ update k.mlocks idx (record (k.mlocks idx) { status = unlocked; pid = 0 })
unfolding do_mutex_lock_release
release-mlocks idx k =
    ap (λ (o : Objects). o.mlocks)
      (objects-wake_all (mutex_queue idx)
        (set_mlock idx (record (k.mlocks idx) { status = unlocked; pid = 0 }) k))

release-count : (idx : ℕ) (k : Kernel) → (do_mutex_lock_release idx k).last_lockid ≡ k.last_lockid
unfolding do_mutex_lock_release
release-count idx k =
    ap (λ (o : Objects). o.last_lockid)
      (objects-wake_all (mutex_queue idx)
        (set_mlock idx (record (k.mlocks idx) { status = unlocked; pid = 0 }) k))

release-Moved :
    (idx : ℕ) (k : Kernel)
    → IsSound k
    → Moved
        (mutex_queue idx)
        (k.queues (mutex_queue idx))
        (set_mlock idx (record (k.mlocks idx) { status = unlocked; pid = 0 }) k)
        (do_mutex_lock_release idx k)
unfolding do_mutex_lock_release
release-Moved idx k s =
    wake_all-Moved (mutex_queue idx) (set_mlock-IsSound idx _ k s) (not_ready idx s)

-- From a sound state, do_mutex_lock_release leaves its lock free and without an owner, with its
-- key, leaves every other lock and the count of locks unchanged, and moves its waiters, in
-- order, to the tail of the ready queue.
pub do_mutex_lock_release-Released :
    (idx : ℕ) (k : Kernel) → IsSound k → Released idx k (do_mutex_lock_release idx k)
do_mutex_lock_release-Released idx k s =
    let e = release-mlocks idx k in
    let m = release-Moved idx k s in
    record {
      free = rw e (ground arith);
      no_owner = rw e (ground arith);
      others = λ i ne. rw e (ground arith);
      same_key = rw e (ground arith);
      same_count = release-count idx k;
      no_waiter = m.emptied;
      readied = m.appended;
    }

-- Whether a lock is held by a process.
abbrev pub held_by : ℕ → MutexLock → Bool
held_by pid m = is_locked m.status && m.pid == pid

-- One round of release_process_mutex.
pub release_if_held-says :
    (pid i : ℕ) (k : Kernel)
    → IsSound k
    → (held_by pid ((release_if_held pid i k).mlocks i) ≡ false)
      × ((j : ℕ) → j ≢ i → (release_if_held pid i k).mlocks j ≡ k.mlocks j)
      × (held_by pid (k.mlocks i) ≡ false → (release_if_held pid i k).mlocks i ≡ k.mlocks i)
      × ((release_if_held pid i k).last_lockid ≡ k.last_lockid)
      × IsSound (release_if_held pid i k)
      × Keeps k (release_if_held pid i k)
unfolding release_if_held
release_if_held-says pid i k s = elim (Bool-cases (held_by pid (k.mlocks i))) [
  | inl e ↦
      let r = do_mutex_lock_release-Released i k s in
      rw e (
        ground (arith, r.free),
        r.others,
        λ no. absurd (ground arith),
        r.same_count,
        do_mutex_lock_release-IsSound i s,
        do_mutex_lock_release-Keeps i s,
      )
  | inr e ↦ rw e (e, λ j ne. refl, λ no. refl, refl, s, Keeps-refl k)
]

-- A release changes no queue but its own and the ready queue.
pub release-queue :
    (idx : ℕ) (k : Kernel)
    → IsSound k
    → (q : ℕ) → q ≢ mutex_queue idx
    → q ≢ ready_queue
    → (do_mutex_lock_release idx k).queues q ≡ k.queues q
release-queue idx k s q ne nr = (release-Moved idx k s).others q ne nr
