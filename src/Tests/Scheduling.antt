-- ===== src/Tests/Scheduling.antt =====
-- The scheduler and the process calls.
use oslab_2024fall.Prelude.{◌≡◌, refl, [], ◌∷◌, arith}
use oslab_2024fall.Kernel.{Kernel, current_running, sleep_queue, wait_queue, mutex_queue}
use oslab_2024fall.Sched.{
  do_block, do_unblock, do_scheduler, check_sleeping, get_next_running, allowed, first_allowed,
  run_next, requeue_running, do_sleep,
}
use oslab_2024fall.Sched.Queues.{IsSound, do_block-IsSound, do_unblock-IsSound}
use oslab_2024fall.Sched.Pick.{PickSays, get_next_running-says}
use oslab_2024fall.Sched.Sleep.{
  Dispatched, Woken, due, do_scheduler-Dispatched, do_scheduler-IsSound, check_sleeping-Woken,
  do_sleep-IsSound,
}
use oslab_2024fall.Process.{do_kill, do_exit, kill_other}
use oslab_2024fall.Process.Kill.{
  KillSays, Killed, Ended, do_kill-ends, do_exit-Ended, kill_other-Killed,
}
use oslab_2024fall.Tests.Demo.{demo, demo-IsSound, demo-IsDetached}

abbrev asleep : Kernel
asleep = demo sleep_queue

asleep-IsSound : IsSound asleep
asleep-IsSound = demo-IsSound sleep_queue (omega arith)

-- The sleeper is due: it is woken, task 0 goes behind it, and the sleeper runs.
do_scheduler_runs : current_running (do_scheduler asleep) ≡ 1
unfolding do_scheduler check_sleeping get_next_running requeue_running first_allowed run_next
    allowed do_unblock
do_scheduler_runs = refl

do_scheduler-Dispatched_example : Dispatched (do_scheduler asleep)
do_scheduler-Dispatched_example = do_scheduler-Dispatched asleep asleep-IsSound

get_next_running-says_example : PickSays asleep (get_next_running asleep)
get_next_running-says_example = get_next_running-says asleep asleep-IsSound

check_sleeping-Woken_example : Woken (due asleep) [] (1 ∷ []) asleep (check_sleeping asleep)
check_sleeping-Woken_example = check_sleeping-Woken asleep asleep-IsSound

do_scheduler-IsSound_example : IsSound (do_scheduler asleep)
do_scheduler-IsSound_example = do_scheduler-IsSound asleep asleep-IsSound

do_sleep-IsSound_example : IsSound (do_sleep 3 asleep)
do_sleep-IsSound_example =
    do_sleep-IsSound 3 asleep asleep-IsSound (demo-IsDetached sleep_queue (omega arith))

do_block-IsSound_example : IsSound (do_block 0 (mutex_queue 2) asleep)
do_block-IsSound_example =
    do_block-IsSound 0 (mutex_queue 2) asleep-IsSound (demo-IsDetached sleep_queue (omega arith))
      (omega arith)

do_unblock-IsSound_example : IsSound (do_unblock 1 asleep)
do_unblock-IsSound_example = do_unblock-IsSound 1 asleep-IsSound

-- Task 1 waits for the end of task 0.
abbrev joined : Kernel
joined = demo (wait_queue 0)

joined-IsSound : IsSound joined
joined-IsSound = demo-IsSound (wait_queue 0) (omega arith)

do_kill-ends_example : KillSays 1 joined (do_kill 17 1 joined)
do_kill-ends_example = do_kill-ends 17 1 joined joined-IsSound refl (omega arith)

do_exit-Ended_example : Ended 0 1 joined (do_exit joined)
do_exit-Ended_example = do_exit-Ended joined joined-IsSound refl

kill_other-Killed_example : Killed 1 joined (kill_other 1 joined)
kill_other-Killed_example = kill_other-Killed 1 joined joined-IsSound
