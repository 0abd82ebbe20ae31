-- ===== src/Sched/Sleep.antt =====
-- check_sleeping, do_scheduler and do_sleep of kernel/sched.
use oslab_2024fall.Prelude.{
  ℕ, ◌≡◌, ◌≢◌, refl, Bool, true, false, not, List, [], ◌∷◌, ◌++◌, arith, has, leb, select, IsNodup,
  erase-middle, not_has-before, erase_of_not_has, has-append, Bool-cases, inl, inr, ◌⊎◌, ◌∙◌, sym,
  ap,
}
use mathlib.Core.List.{append_assoc, append-nil}
use oslab_2024fall.Prelude.Table.{update}
use oslab_2024fall.Kernel.{
  Kernel, task_exited, task_running, current_running, ready_queue, sleep_queue,
}
use oslab_2024fall.Sched.{
  allowed, get_next_running, wake_sleepers, check_sleeping, do_scheduler, do_unblock, idle_of,
  do_sleep,
}
use oslab_2024fall.Sched.Queues.{
  IsSound, IsDetached, set_pcb-IsLinked_same, do_unblock-IsSound, do_block-IsSound,
}
use oslab_2024fall.Sched.Pick.{
  get_next_running-says, get_next_running-IsSound, get_next_running-hart, get_next_running-exited,
  get_next_running-queue,
}

-- The tasks whose wake-up time has come.
abbrev pub due : Kernel → ℕ → Bool
due k x = leb (k.pcb x).wakeup_time k.timer

-- From `k` to `k'` the tasks of `xs` that pass the test went from the sleep queue, behind `kept`, to the ready
-- queue, in order; every other queue is the same.
pub record Woken (test : ℕ → Bool) (kept xs : List ℕ) (k k' : Kernel) : Type 0 where
  pub asleep : k'.queues sleep_queue ≡ kept ++ select (λ x. not (test x)) xs
  pub ready : k'.queues ready_queue ≡ k.queues ready_queue ++ select test xs
  pub others : (q : ℕ) → q ≢ sleep_queue → q ≢ ready_queue → k'.queues q ≡ k.queues q
  pub exited : (i : ℕ) → (k.pcb i).status ≡ task_exited → (k'.pcb i).status ≡ task_exited
  pub same_tp : k'.tp ≡ k.tp
  pub same_hart : k'.hart ≡ k.hart

do_unblock-due : (x y : ℕ) (k : Kernel) → due (do_unblock x k) y ≡ due k y
unfolding do_unblock
do_unblock-due x y k = ground arith

module _ {k : Kernel} (x : ℕ) (kept rest : List ℕ) (s : IsSound k)
    (e : k.queues sleep_queue ≡ kept ++ x ∷ rest) where
  in_sleep : has x (k.queues sleep_queue) ≡ true
  in_sleep = ground (arith, has-append x kept (x ∷ rest))

  not_in : (q : ℕ) → q ≢ sleep_queue → has x (k.queues q) ≡ false
  not_in q d = ground (arith, s.linked.apart x q sleep_queue, in_sleep)

  nodup : IsNodup (kept ++ x ∷ rest)
  nodup = rw e at (s.linked.nodup sleep_queue)

  do_unblock-sleep : (do_unblock x k).queues sleep_queue ≡ kept ++ rest
  unfolding do_unblock
  do_unblock-sleep = rw e (erase-middle x kept rest (not_has-before x kept rest nodup))

  do_unblock-ready : (do_unblock x k).queues ready_queue ≡ k.queues ready_queue ++ x ∷ []
  unfolding do_unblock
  do_unblock-ready =
      rw (erase_of_not_has x (k.queues ready_queue) (not_in ready_queue (omega arith)))

  do_unblock-others :
      (q : ℕ) → q ≢ sleep_queue → q ≢ ready_queue → (do_unblock x k).queues q ≡ k.queues q
  unfolding do_unblock
  do_unblock-others q d d' = ground (arith, erase_of_not_has x (k.queues q), not_in q)

  do_unblock-harts : ((do_unblock x k).tp ≡ k.tp) × ((do_unblock x k).hart ≡ k.hart)
  unfolding do_unblock
  do_unblock-harts = (refl, refl)

  do_unblock-exited :
      (i : ℕ) → (k.pcb i).status ≡ task_exited → ((do_unblock x k).pcb i).status ≡ task_exited
  unfolding do_unblock
  do_unblock-exited i h = ground (arith, s.linked.blocked x sleep_queue in_sleep)

  Woken-due :
      {k' : Kernel} (test : ℕ → Bool)
      → test x ≡ true
      → Woken test kept rest (do_unblock x k) k'
      → Woken test kept (x ∷ rest) k k'
  Woken-due {k'} test d w = record {
    asleep = rw d w.asleep;
    ready = rw d (
        w.ready
        ∙ ap (λ (ys : List ℕ). ys ++ select test rest) do_unblock-ready
        ∙ append_assoc (k.queues ready_queue) (x ∷ []) (select test rest));
    others = λ q a b. w.others q a b ∙ do_unblock-others q a b;
    exited = λ i h. w.exited i (do_unblock-exited i h);
    same_tp = w.same_tp ∙ do_unblock-harts.0;
    same_hart = w.same_hart ∙ do_unblock-harts.1;
  }

Woken-skip :
    {k k' : Kernel} (test : ℕ → Bool) (x : ℕ) (kept rest : List ℕ)
    → test x ≡ false
    → Woken test (kept ++ x ∷ []) rest k k'
    → Woken test kept (x ∷ rest) k k'
Woken-skip {k} {k'} test x kept rest d w = record {
  asleep = rw d (w.asleep ∙ append_assoc kept (x ∷ []) (select (λ y. not (test y)) rest));
  ready = rw d w.ready;
  others = w.others;
  exited = w.exited;
  same_tp = w.same_tp;
  same_hart = w.same_hart;
}

wake_sleepers-Woken :
    (test : ℕ → Bool) (kept xs : List ℕ) (k : Kernel)
    → IsSound k
    → k.queues sleep_queue ≡ kept ++ xs
    → ((y : ℕ) → due k y ≡ test y)
    → Woken test kept xs k (wake_sleepers xs k) × IsSound (wake_sleepers xs k)
unfolding wake_sleepers
wake_sleepers-Woken test kept [] k s e same = (
  record {
    asleep = e;
    ready = sym (append-nil (k.queues ready_queue));
    others = λ q a b. refl;
    exited = λ i h. h;
    same_tp = refl;
    same_hart = refl;
  },
  s,
)
wake_sleepers-Woken test kept (x ∷ rest) k s e same = elim (Bool-cases (due k x)) [
  | inl d ↦
      let (w, t) =
        wake_sleepers-Woken test kept rest (do_unblock x k) (do_unblock-IsSound x s)
          (do_unblock-sleep x kept rest s e) (λ y. do_unblock-due x y k ∙ same y) in
      rw d (Woken-due x kept rest s e test (sym (same x) ∙ d) w, t)
  | inr d ↦
      let (w, t) =
        wake_sleepers-Woken test (kept ++ x ∷ []) rest k s
          (e ∙ sym (append_assoc kept (x ∷ []) rest)) same in
      rw d (Woken-skip test x kept rest (sym (same x) ∙ d) w, t)
]

-- From a sound state, check_sleeping moves exactly the tasks of the sleep queue whose wake-up
-- time has come to the tail of the ready queue, in their order, keeps the others asleep in
-- their order, and leaves every other queue alone.
pub check_sleeping-Woken :
    (k : Kernel) → IsSound k → Woken (due k) [] (k.queues sleep_queue) k (check_sleeping k)
unfolding check_sleeping
check_sleeping-Woken k s =
    (wake_sleepers-Woken (due k) [] (k.queues sleep_queue) k s refl (λ y. refl)).0

pub check_sleeping-IsSound : (k : Kernel) → IsSound k → IsSound (check_sleeping k)
unfolding check_sleeping
check_sleeping-IsSound k s =
    (wake_sleepers-Woken (due k) [] (k.queues sleep_queue) k s refl (λ y. refl)).1

idle-IsSound : (k : Kernel) (h i : ℕ) → IsSound k → IsSound (record k { tp = update k.tp h i })
idle-IsSound k h i s = record {
  linked = record {
    nodup = s.linked.nodup;
    apart = s.linked.apart;
    ready = s.linked.ready;
    blocked = s.linked.blocked;
  };
  complete = s.complete;
}

-- do_scheduler keeps the scheduler invariant: a task is in at most one queue, once, in the
-- ready queue only when READY and in another queue only when BLOCKED, and every READY task is
-- in the ready queue.
pub do_scheduler-IsSound : (k : Kernel) → IsSound k → IsSound (do_scheduler k)
unfolding do_scheduler
do_scheduler-IsSound k s =
    let t = get_next_running-IsSound (check_sleeping k) (check_sleeping-IsSound k s) in
    elim (Bool-cases (get_next_running (check_sleeping k)).1) [
      | inl e ↦ rw e t
      | inr e ↦ rw e (idle-IsSound _ _ _ t)
    ]

-- The hart runs a RUNNING task that its cpu_mask allows on this hart, or its
-- own idle task when the ready queue holds no task that this hart may run.
abbrev pub Dispatched : Kernel → Type 0
Dispatched k =
    (((k.pcb (current_running k)).status ≡ task_running)
      × (allowed (k.pcb (current_running k)) k.hart ≡ true)
      × ((k.pcb (current_running k)).current_cpu_id ≡ k.hart))
    ⊎ ((current_running k ≡ idle_of k.hart)
        × ((x : ℕ) → has x (k.queues ready_queue) ≡ true → allowed (k.pcb x) k.hart ≡ false))

-- From a state that satisfies the scheduler invariant (IsSound), do_scheduler ends with the
-- hart running a RUNNING task whose cpu_mask allows the hart and whose current_cpu_id is the
-- hart, or running its pid 0 task with no task in the ready queue that may run on the hart.
pub do_scheduler-Dispatched : (k : Kernel) → IsSound k → Dispatched (do_scheduler k)
unfolding do_scheduler
do_scheduler-Dispatched k s =
    let k1 = check_sleeping k in
    let h = get_next_running-hart k1 in
    elim (get_next_running-says k1 (check_sleeping-IsSound k s)) [
      | inl (e, p) ↦ rw e (
          inl (rw p.current p.runs, rw p.current (rw h p.may_run), rw p.current (p.placed ∙ sym h)))
      | inr (e, p) ↦ rw e (inr (ground arith, λ x m. ground (arith, p.barred x, p.ready, h)))
    ]

-- A task that has exited stays so across do_scheduler.
pub do_scheduler-exited :
    (k : Kernel)
    → IsSound k
    → (i : ℕ) → (k.pcb i).status ≡ task_exited
    → ((do_scheduler k).pcb i).status ≡ task_exited
unfolding do_scheduler
do_scheduler-exited k s i h =
    let t =
      get_next_running-exited (check_sleeping k) (check_sleeping-IsSound k s) i
        ((check_sleeping-Woken k s).exited i h) in
    elim (Bool-cases (get_next_running (check_sleeping k)).1) [ inl e ↦ rw e t | inr e ↦ rw e t ]

-- do_scheduler changes no queue but the ready queue and the sleep queue.
pub do_scheduler-queue :
    (k : Kernel)
    → IsSound k
    → (q : ℕ) → q ≢ ready_queue
    → q ≢ sleep_queue
    → (do_scheduler k).queues q ≡ k.queues q
unfolding do_scheduler
do_scheduler-queue k s q nr ns =
    let t =
      get_next_running-queue (check_sleeping k) (check_sleeping-IsSound k s) q nr
      ∙ (check_sleeping-Woken k s).others q ns nr in
    elim (Bool-cases (get_next_running (check_sleeping k)).1) [ inl e ↦ rw e t | inr e ↦ rw e t ]

pub do_sleep-IsSound :
    (sleep_time : ℕ) (k : Kernel)
    → IsSound k
    → IsDetached (current_running k) k
    → IsSound (do_sleep sleep_time k)
unfolding do_sleep
do_sleep-IsSound sleep_time k s out = do_scheduler-IsSound _ (
    do_block-IsSound (current_running k) sleep_queue
      (record {
        linked = set_pcb-IsLinked_same s.linked (current_running k) _ refl;
        complete = λ y h. s.complete y (ground arith);
      })
      out (omega arith))
