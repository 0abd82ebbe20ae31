-- ===== src/Sched/Pick.antt =====
-- The choice of the next task: get_next_running, check_sleeping and do_scheduler of
-- kernel/sched/sched.c and kernel/sched/time.c.
use oslab_2024fall.Prelude.{
  ℕ, ◌≡◌, ◌≢◌, refl, Bool, true, false, Option, none, some, List, [], ◌∷◌, ◌++◌, arith, has, erase,
  erase-middle, not_has-before, has-append, erase_of_not_has, Bool-cases, inl, inr, ◌⊎◌, ◌∙◌,
  if◌then◌else◌,
}
use oslab_2024fall.Prelude.Table.{update}
use oslab_2024fall.Kernel.{
  Kernel, Pcb, task_running, task_exited, is_running, current_running, ready_queue,
}
use oslab_2024fall.Sched.{
  allowed, first_allowed, run_next, requeue_running, get_next_running, add_readyqueue, unlink,
}
use oslab_2024fall.Sched.Queues.{
  IsLinked, IsSound, IsCompleteBut, IsDetached, unlink-IsLinked, unlink-IsDetached,
  set_pcb-IsLinked, add_readyqueue-IsSound, unlink-IsCompleteBut,
}

-- The first of a list that may run on a hart, or none.
abbrev pub FirstAllowed : (ℕ → Pcb) → ℕ → List ℕ → Option ℕ → Type 0
FirstAllowed pcb hart xs none = (x : ℕ) → has x xs ≡ true → allowed (pcb x) hart ≡ false
FirstAllowed pcb hart xs (some i) =
    (before : List ℕ) × (after : List ℕ) × (xs ≡ before ++ i ∷ after)
    × (allowed (pcb i) hart ≡ true)
    × ((x : ℕ) → has x before ≡ true → allowed (pcb x) hart ≡ false)

FirstAllowed-skip :
    (pcb : ℕ → Pcb) (hart i : ℕ) (xs : List ℕ) (o : Option ℕ)
    → allowed (pcb i) hart ≡ false
    → FirstAllowed pcb hart xs o
    → FirstAllowed pcb hart (i ∷ xs) o
FirstAllowed-skip pcb hart i xs none no_i f = λ x h. ground (arith, f x)
FirstAllowed-skip pcb hart i xs (some j) no_i (before, after, e, yes_j, f) =
    (i ∷ before, after, rw e, yes_j, λ x h. ground (arith, f x))

pub first_allowed-FirstAllowed :
    (pcb : ℕ → Pcb) (hart : ℕ) (xs : List ℕ) → FirstAllowed pcb hart xs (first_allowed pcb hart xs)
unfolding first_allowed
first_allowed-FirstAllowed pcb hart [] = λ x h. absurd (ground arith)
first_allowed-FirstAllowed pcb hart (i ∷ rest) = elim (Bool-cases (allowed (pcb i) hart)) [
  | inl e ↦ rw e ([], rest, refl, e, λ x h. absurd (ground arith))
  | inr e ↦ rw e (FirstAllowed-skip pcb hart i rest _ e (first_allowed-FirstAllowed pcb hart rest))
]

-- Running tasks are in no queue.
pub running-IsDetached :
    {k : Kernel} (x : ℕ) → IsLinked k → (k.pcb x).status ≡ task_running → IsDetached x k
running-IsDetached {k} x l e q = ground (arith, l.ready x, l.blocked x q)

pub requeue_running-IsSound : {k : Kernel} → IsSound k → IsSound (requeue_running k)
unfolding requeue_running
requeue_running-IsSound {k} s = elim (Bool-cases (is_running (k.pcb (current_running k)).status)) [
  | inl e ↦ rw e (
      add_readyqueue-IsSound (current_running k) s.linked
        (running-IsDetached (current_running k) s.linked (ground arith)) (λ y ne h. s.complete y h))
  | inr e ↦ rw e s
]

pub run_next-IsSound : {k : Kernel} (i : ℕ) → IsSound k → IsSound (run_next i k)
unfolding run_next
run_next-IsSound {k} i s = record {
  linked = set_pcb-IsLinked l' i _ (unlink-IsDetached s.linked i);
  complete = λ y h. ground (arith, c' y);
}
  where
    k1 : Kernel
    k1 = unlink i (record k { tp = update k.tp k.hart i })

    l' : IsLinked k1
    l' =
        unlink-IsLinked
          (record {
            nodup = s.linked.nodup;
            apart = s.linked.apart;
            ready = s.linked.ready;
            blocked = s.linked.blocked;
          })
          i

    c' : IsCompleteBut i k1
    c' = unlink-IsCompleteBut k i s.complete

-- The ready queue that the walk of get_next_running sees.
abbrev pub candidates : Kernel → List ℕ
candidates k =
    if is_running (k.pcb (current_running k)).status
    then k.queues ready_queue ++ current_running k ∷ []
    else k.queues ready_queue

requeue_running-candidates : (k : Kernel) → (requeue_running k).queues ready_queue ≡ candidates k
unfolding requeue_running add_readyqueue
requeue_running-candidates k = ground arith

-- get_next_running took `i` out of the ready queue, from behind tasks that this hart may not run.
pub record Picked (k k' : Kernel) : Type 0 where
  pub task : ℕ
  pub before : List ℕ
  pub after : List ℕ
  pub split : candidates k ≡ before ++ task ∷ after
  pub remains : k'.queues ready_queue ≡ before ++ after
  pub skipped : (x : ℕ) → has x before ≡ true → allowed (k'.pcb x) k.hart ≡ false
  pub may_run : allowed (k'.pcb task) k.hart ≡ true
  pub current : current_running k' ≡ task
  pub runs : (k'.pcb task).status ≡ task_running
  pub placed : (k'.pcb task).current_cpu_id ≡ k.hart

-- No task in the ready queue may run on this hart.
pub record NonePicked (k k' : Kernel) : Type 0 where
  pub ready : k'.queues ready_queue ≡ candidates k
  pub barred : (x : ℕ) → has x (candidates k) ≡ true → allowed (k'.pcb x) k.hart ≡ false
  pub same_tp : k'.tp ≡ k.tp

requeue_running-hart :
    (k : Kernel) → ((requeue_running k).hart ≡ k.hart) × ((requeue_running k).tp ≡ k.tp)
unfolding requeue_running add_readyqueue
requeue_running-hart k = ground arith

run_next-allowed :
    (i x hart : ℕ) (k : Kernel) → allowed ((run_next i k).pcb x) hart ≡ allowed (k.pcb x) hart
unfolding run_next allowed
run_next-allowed i x hart k = ground arith

run_next-facts :
    (i : ℕ) (k : Kernel)
    → (current_running (run_next i k) ≡ i)
      × (((run_next i k).pcb i).status ≡ task_running)
      × (((run_next i k).pcb i).current_cpu_id ≡ k.hart)
      × ((run_next i k).queues ready_queue ≡ erase i (k.queues ready_queue))
unfolding run_next
run_next-facts i k = ground arith

run_next-Picked :
    (k : Kernel) (i : ℕ)
    → IsSound k
    → FirstAllowed (requeue_running k).pcb (requeue_running k).hart (candidates k) (some i)
    → Picked k (run_next i (requeue_running k))
run_next-Picked k i s (before, after, e, yes_i, f) =
    let r = requeue_running-candidates k in
    let (eh, et) = requeue_running-hart k in
    let s' = requeue_running-IsSound s in
    let (current, runs, placed, left) = run_next-facts i (requeue_running k) in
    let n = rw (r, e) at (s'.linked.nodup ready_queue) in
    record {
      task = i;
      before = before;
      after = after;
      split = e;
      remains = left ∙ rw (r, e) (erase-middle i before after (not_has-before i before after n));
      skipped = λ x h. run_next-allowed i x k.hart (requeue_running k) ∙ rw eh at (f x h);
      may_run = run_next-allowed i i k.hart (requeue_running k) ∙ rw eh at yes_i;
      current = current;
      runs = runs;
      placed = placed ∙ eh;
    }

-- A task was picked (1), or none of the ready queue may run here (0).
abbrev pub PickSays : Kernel → Kernel × Bool → Type 0
PickSays k (k', found) = ((found ≡ true) × Picked k k') ⊎ ((found ≡ false) × NonePicked k k')

choose : Kernel → Option ℕ → Kernel × Bool
choose k1 (some i) = (run_next i k1, true)
choose k1 none = (k1, false)

choose-says :
    (k : Kernel) (o : Option ℕ)
    → IsSound k
    → FirstAllowed (requeue_running k).pcb (requeue_running k).hart (candidates k) o
    → PickSays k (choose (requeue_running k) o)
unfolding choose
choose-says k (some i) s f = inl (refl, run_next-Picked k i s f)
choose-says k none s f =
    let (eh, et) = requeue_running-hart k in
    inr (
      refl,
      record {
        ready = requeue_running-candidates k;
        barred = λ x h. rw eh at (f x h);
        same_tp = et;
      },
    )

get_next_running-choose :
    (k : Kernel)
    → get_next_running k
      ≡ choose (requeue_running k) (
          first_allowed
            (requeue_running k).pcb
            (requeue_running k).hart
            ((requeue_running k).queues ready_queue))
unfolding get_next_running choose
get_next_running-choose k = ground arith

-- From a sound state, get_next_running either returns 1, having taken from the ready queue,
-- with a running current task requeued at its tail, the first task that may run on the hart, or
-- returns 0 when no task of that queue may run on the hart.
pub get_next_running-says : (k : Kernel) → IsSound k → PickSays k (get_next_running k)
get_next_running-says k s =
    let f = rw (requeue_running-candidates k) at (
      first_allowed-FirstAllowed (requeue_running k).pcb (requeue_running k).hart
        ((requeue_running k).queues ready_queue)) in
    rw (get_next_running-choose k, requeue_running-candidates k) (choose-says k _ s f)

choose-IsSound : (k1 : Kernel) (o : Option ℕ) → IsSound k1 → IsSound (choose k1 o).0
unfolding choose
choose-IsSound k1 (some i) s = run_next-IsSound i s
choose-IsSound k1 none s = s

pub get_next_running-IsSound : (k : Kernel) → IsSound k → IsSound (get_next_running k).0
get_next_running-IsSound k s =
    rw (get_next_running-choose k) (choose-IsSound _ _ (requeue_running-IsSound s))

pub get_next_running-hart : (k : Kernel) → (get_next_running k).0.hart ≡ k.hart
unfolding get_next_running requeue_running add_readyqueue run_next
get_next_running-hart k = ground arith

choose-exited :
    (k1 : Kernel) (o : Option ℕ)
    → IsSound k1
    → FirstAllowed k1.pcb k1.hart (k1.queues ready_queue) o
    → (j : ℕ) → (k1.pcb j).status ≡ task_exited
    → ((choose k1 o).0.pcb j).status ≡ task_exited
unfolding choose run_next
choose-exited k1 none s f j h = h
choose-exited k1 (some i) s (before, after, e, yes_i, f) j h =
    let in_ready : has i (k1.queues ready_queue) ≡ true =
      rw e (has-append i before (i ∷ after) ∙ ground arith) in
    ground (arith, s.linked.ready i in_ready)

requeue_running-exited :
    (k : Kernel) (j : ℕ)
    → (k.pcb j).status ≡ task_exited
    → ((requeue_running k).pcb j).status ≡ task_exited
unfolding requeue_running add_readyqueue
requeue_running-exited k j h = ground arith

-- A task that has exited stays so when another is picked.
pub get_next_running-exited :
    (k : Kernel)
    → IsSound k
    → (j : ℕ) → (k.pcb j).status ≡ task_exited
    → ((get_next_running k).0.pcb j).status ≡ task_exited
get_next_running-exited k s j h = rw (get_next_running-choose k) (
    choose-exited (requeue_running k) _ (requeue_running-IsSound s)
      (first_allowed-FirstAllowed (requeue_running k).pcb (requeue_running k).hart
        ((requeue_running k).queues ready_queue))
      j (requeue_running-exited k j h))

choose-queue :
    (k1 : Kernel) (o : Option ℕ)
    → IsSound k1
    → FirstAllowed k1.pcb k1.hart (k1.queues ready_queue) o
    → (q : ℕ) → q ≢ ready_queue
    → (choose k1 o).0.queues q ≡ k1.queues q
unfolding choose run_next
choose-queue k1 none s f q ne = refl
choose-queue k1 (some i) s (before, after, e, yes_i, f) q ne =
    let in_ready : has i (k1.queues ready_queue) ≡ true =
      rw e (has-append i before (i ∷ after) ∙ ground arith) in
    erase_of_not_has i (k1.queues q) (ground (arith, s.linked.apart i q ready_queue))

requeue_running-queue :
    (k : Kernel) (q : ℕ) → q ≢ ready_queue → (requeue_running k).queues q ≡ k.queues q
unfolding requeue_running add_readyqueue
requeue_running-queue k q ne = ground arith

-- Picking a task changes no queue but the ready queue.
pub get_next_running-queue :
    (k : Kernel)
    → IsSound k
    → (q : ℕ) → q ≢ ready_queue
    → (get_next_running k).0.queues q ≡ k.queues q
get_next_running-queue k s q ne = rw (get_next_running-choose k) (
    choose-queue (requeue_running k) _ (requeue_running-IsSound s)
      (first_allowed-FirstAllowed (requeue_running k).pcb (requeue_running k).hart
        ((requeue_running k).queues ready_queue))
      q ne
    ∙ requeue_running-queue k q ne)
