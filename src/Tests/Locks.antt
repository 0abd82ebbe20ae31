-- ===== src/Tests/Locks.antt =====
-- The mutex locks, barriers, condition variables and mailboxes.
use oslab_2024fall.Prelude.{refl, [], ◌∷◌, arith}
use oslab_2024fall.Kernel.{Kernel, barrier_queue, mutex_queue, condition_queue, empty_queue}
use oslab_2024fall.Sched.Queues.{IsSound}
use oslab_2024fall.Sched.Wake.{Moved}
use oslab_2024fall.Lock.Mutex.{do_mutex_lock_release, mutex_acquire_round}
use oslab_2024fall.Lock.Mutex.Keys.{IsKeyed}
use oslab_2024fall.Lock.Mutex.Sound.{
  Released, do_mutex_lock_release-Released, mutex_acquire_round-IsSound,
}
use oslab_2024fall.Lock.Barrier.{do_barrier_wait}
use oslab_2024fall.Lock.Barrier.Rounds.{WaitSays, do_barrier_wait-says}
use oslab_2024fall.Lock.Condition.{do_condition_wait, do_condition_signal, do_condition_broadcast}
use oslab_2024fall.Lock.Condition.Wakeup.{
  Waits, SignalSays, do_condition_wait-Waits, do_condition_signal-says,
  do_condition_broadcast-Moved,
}
use oslab_2024fall.Lock.Mailbox.{mbox_send_round, mbox_recv_round}
use oslab_2024fall.Lock.Mailbox.Rounds.{
  SendSays, RecvSays, mbox_send_round-says, mbox_recv_round-says,
}
use oslab_2024fall.Tests.Demo.{demo, demo-IsSound, demo-IsDetached}

abbrev contended : Kernel
contended = demo (mutex_queue 0)

contended-IsSound : IsSound contended
contended-IsSound = demo-IsSound (mutex_queue 0) (omega arith)

contended-IsKeyed : IsKeyed contended
contended-IsKeyed = record { fits = omega arith; distinct = λ i j hi hj e. e }

mutex_acquire_round-IsSound_example : IsSound (mutex_acquire_round 0 contended).0
mutex_acquire_round-IsSound_example =
    mutex_acquire_round-IsSound 0 contended-IsSound (demo-IsDetached (mutex_queue 0) (omega arith))

do_mutex_lock_release-Released_example : Released 0 contended (do_mutex_lock_release 0 contended)
do_mutex_lock_release-Released_example =
    do_mutex_lock_release-Released 0 contended contended-IsSound

-- One of two tasks waits at the barrier, and the second comes.
abbrev at_barrier : Kernel
at_barrier = demo (barrier_queue 0)

do_barrier_wait-says_example : WaitSays 0 at_barrier (do_barrier_wait 0 at_barrier)
do_barrier_wait-says_example =
    do_barrier_wait-says 0 at_barrier (demo-IsSound (barrier_queue 0) (omega arith))
      (record { counted = refl; few = omega arith })
      (demo-IsDetached (barrier_queue 0) (omega arith))

do_condition_wait-Waits_example : Waits 3 0 contended (do_condition_wait 3 0 contended)
do_condition_wait-Waits_example =
    do_condition_wait-Waits 3 0 contended (omega arith) contended-IsSound
      (demo-IsDetached (mutex_queue 0) (omega arith))

abbrev at_condition : Kernel
at_condition = demo (condition_queue 3)

at_condition-IsSound : IsSound at_condition
at_condition-IsSound = demo-IsSound (condition_queue 3) (omega arith)

do_condition_signal-says_example :
    SignalSays 3 at_condition (do_condition_signal 3 at_condition) (1 ∷ [])
do_condition_signal-says_example = do_condition_signal-says 3 at_condition at_condition-IsSound

do_condition_broadcast-Moved_example :
    Moved (condition_queue 3) (1 ∷ []) at_condition (do_condition_broadcast 3 at_condition)
do_condition_broadcast-Moved_example =
    do_condition_broadcast-Moved 3 at_condition at_condition-IsSound

abbrev receiving : Kernel
receiving = demo (empty_queue 0)

receiving-IsSound : IsSound receiving
receiving-IsSound = demo-IsSound (empty_queue 0) (omega arith)

mbox_send_round-says_example : SendSays 0 (5 ∷ []) receiving (mbox_send_round 0 (5 ∷ []) receiving)
mbox_send_round-says_example =
    mbox_send_round-says 0 receiving receiving-IsSound
      (demo-IsDetached (empty_queue 0) (omega arith)) (5 ∷ []) (omega arith) (omega arith)

mbox_recv_round-says_example : RecvSays 0 1 receiving (mbox_recv_round 0 1 receiving)
mbox_recv_round-says_example =
    mbox_recv_round-says 0 receiving receiving-IsSound
      (demo-IsDetached (empty_queue 0) (omega arith)) 1
