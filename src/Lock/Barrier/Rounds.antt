-- ===== src/Lock/Barrier/Rounds.antt =====
-- A barrier lets nobody pass before `goal` tasks have come, and then lets all of them pass.
use oslab_2024fall.Prelude.{
  ℕ, ◌+◌, ◌≤◌, ◌<◌, ◌≡◌, ◌≢◌, refl, Bool, true, false, [], ◌∷◌, ◌++◌, leb, arith, length,
  length-append, Bool-cases, inl, inr, ◌⊎◌, ◌∙◌, ap, sym,
}
use oslab_2024fall.Kernel.{Kernel, Barrier, barrier_queue, ready_queue, current_running}
use oslab_2024fall.Sched.{do_block, do_scheduler, wake_all}
use oslab_2024fall.Sched.Queues.{IsSound, IsDetached, do_block-IsSound}
use oslab_2024fall.Sched.Wake.{Moved, wake_all-Moved, wake_all-IsSound}
use oslab_2024fall.Sched.Sleep.{do_scheduler-IsSound, do_scheduler-queue}
use oslab_2024fall.Sched.Frame.{Objects, objects-wake_all, objects-do_scheduler, objects-do_block}
use oslab_2024fall.Lock.Barrier.{set_barrier, do_barrier_wait}

set_barrier-IsSound : (i : ℕ) (b : Barrier) (k : Kernel) → IsSound k → IsSound (set_barrier i b k)
set_barrier-IsSound i b k s = record {
  linked = record {
    nodup = s.linked.nodup;
    apart = s.linked.apart;
    ready = s.linked.ready;
    blocked = s.linked.blocked;
  };
  complete = s.complete;
}

-- The counter is the number of the tasks that wait, and they are too few.
pub record IsWaiting (idx : ℕ) (k : Kernel) : Type 0 where
  pub counted : (k.barrier idx).counter ≡ length (k.queues (barrier_queue idx))
  pub few : (k.barrier idx).counter < (k.barrier idx).goal

-- The caller came too early: it waits behind the others.
pub record Joined (idx : ℕ) (k k' : Kernel) : Type 0 where
  pub early : length (k.queues (barrier_queue idx)) + 1 < (k.barrier idx).goal
  pub queued :
      k'.queues (barrier_queue idx) ≡ k.queues (barrier_queue idx) ++ current_running k ∷ []

-- The caller was the last of `goal`: the others are READY in the order in which they came.
pub record Passed (idx : ℕ) (k k' : Kernel) : Type 0 where
  pub last : length (k.queues (barrier_queue idx)) + 1 ≡ (k.barrier idx).goal
  pub emptied : k'.queues (barrier_queue idx) ≡ []
  pub readied : k'.queues ready_queue ≡ k.queues ready_queue ++ k.queues (barrier_queue idx)
  pub same_current : current_running k' ≡ current_running k

abbrev pub WaitSays : ℕ → Kernel → Kernel × Bool → Type 0
WaitSays idx k (k', passed) =
    IsSound k'
    × IsWaiting idx k'
    × ((k'.barrier idx).goal ≡ (k.barrier idx).goal)
    × (((passed ≡ true) × Passed idx k k') ⊎ ((passed ≡ false) × Joined idx k k'))

module _ (idx : ℕ) (k : Kernel) (s : IsSound k) (w : IsWaiting idx k) where
  k1 : Kernel
  k1 = set_barrier idx (record (k.barrier idx) { counter = (k.barrier idx).counter + 1 }) k

  s1 : IsSound k1
  unfolding k1
  s1 = set_barrier-IsSound idx _ k s

  not_ready : barrier_queue idx ≢ ready_queue
  not_ready = omega arith

  pass : Kernel
  pass =
      let k2 = wake_all (barrier_queue idx) k1 in
      set_barrier idx (record (k2.barrier idx) { counter = 0 }) k2

  -- The barrier after the tasks that wait are woken.
  same_barrier : (wake_all (barrier_queue idx) k1).barrier idx ≡ k1.barrier idx
  same_barrier = ap (λ (o : Objects). o.barrier idx) (objects-wake_all (barrier_queue idx) k1)

  same_goal : (pass.barrier idx).goal ≡ (k.barrier idx).goal
  unfolding pass k1
  same_goal = ground (arith, same_barrier)

  reset : (pass.barrier idx).counter ≡ 0
  unfolding pass
  reset = ground arith

  moved :
      Moved (barrier_queue idx) (k1.queues (barrier_queue idx)) k1 (wake_all (barrier_queue idx) k1)
  moved = wake_all-Moved (barrier_queue idx) s1 not_ready

  pass-queue : pass.queues (barrier_queue idx) ≡ []
  unfolding pass
  pass-queue = moved.emptied

  pass-IsSound : IsSound pass
  unfolding pass
  pass-IsSound = set_barrier-IsSound idx _ _ (wake_all-IsSound (barrier_queue idx) s1 not_ready)

  pass-Passed : (k.barrier idx).goal ≤ (k.barrier idx).counter + 1 → Passed idx k pass
  unfolding pass k1
  pass-Passed h = record {
    last = omega (arith, w.counted, w.few);
    emptied = moved.emptied;
    readied = moved.appended;
    same_current = rw (moved.same_tp, moved.same_hart) refl;
  }

  pass-says : (k.barrier idx).goal ≤ (k.barrier idx).counter + 1 → WaitSays idx k (pass, true)
  pass-says h = (
    pass-IsSound,
    record {
      counted = reset ∙ ap length (sym pass-queue);
      few = omega (arith, reset, same_goal, w.few);
    },
    same_goal,
    inl (refl, pass-Passed h),
  )

  wait : Kernel
  wait = do_scheduler (do_block (current_running k1) (barrier_queue idx) k1)

  module _ (out : IsDetached (current_running k) k) where
    blocked-IsSound : IsSound (do_block (current_running k1) (barrier_queue idx) k1)
    unfolding k1
    blocked-IsSound = do_block-IsSound (current_running k) (barrier_queue idx) s1 out not_ready

    wait-queue :
        wait.queues (barrier_queue idx) ≡ k.queues (barrier_queue idx) ++ current_running k ∷ []
    unfolding wait k1 do_block
    wait-queue =
        do_scheduler-queue (do_block (current_running k1) (barrier_queue idx) k1) blocked-IsSound
          (barrier_queue idx) not_ready (omega arith)
        ∙ ground arith

    wait-barrier : wait.barrier idx ≡ k1.barrier idx
    unfolding wait
    wait-barrier =
        ap (λ (o : Objects). o.barrier idx)
          (objects-do_scheduler (do_block (current_running k1) (barrier_queue idx) k1)
            ∙ objects-do_block (current_running k1) (barrier_queue idx) k1)

    wait-counter : (wait.barrier idx).counter ≡ (k.barrier idx).counter + 1
    unfolding k1
    wait-counter = ground (arith, wait-barrier)

    wait-goal : (wait.barrier idx).goal ≡ (k.barrier idx).goal
    unfolding k1
    wait-goal = ground (arith, wait-barrier)

    wait-says : (k.barrier idx).counter + 1 < (k.barrier idx).goal → WaitSays idx k (wait, false)
    unfolding wait
    wait-says h =
        let n = length-append (k.queues (barrier_queue idx)) (current_running k ∷ []) in
        let q : length (wait.queues (barrier_queue idx))
            ≡ length (k.queues (barrier_queue idx)) + 1 =
          ap length wait-queue ∙ n in
        (
          do_scheduler-IsSound _ blocked-IsSound,
          record {
            counted = omega (arith, wait-counter, q, w.counted);
            few = omega (arith, wait-counter, wait-goal);
          },
          wait-goal,
          inr (refl, record { early = omega (arith, w.counted); queued = wait-queue }),
        )

    -- From a sound state in which the caller is in no queue and the barrier counts its
    -- waiters, fewer than goal, do_barrier_wait keeps soundness, the count and the goal.
    -- The call returns at once exactly when the caller is the last of goal tasks, and then
    -- the barrier is empty and its waiters are at the tail of the ready queue, in order,
    -- with the same task running; in the other case the caller is queued behind the earlier
    -- waiters.
    pub do_barrier_wait-says : WaitSays idx k (do_barrier_wait idx k)
    unfolding do_barrier_wait
    do_barrier_wait-says =
        elim (Bool-cases (leb (k.barrier idx).goal ((k.barrier idx).counter + 1))) [
          | inl e ↦ rw e (unfold pass k1 in pass-says (ground arith))
          | inr e ↦ rw e (unfold wait k1 in wait-says (ground arith))
        ]
