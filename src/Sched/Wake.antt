-- ===== src/Sched/Wake.antt =====
-- Waking the whole of a queue: the loop `while (head.next != &head) do_unblock(head.next)`.
use oslab_2024fall.Prelude.{
  ℕ, ◌≡◌, ◌≢◌, refl, true, false, List, [], ◌∷◌, ◌++◌, ◌==◌, arith, has, length, erase_of_not_has,
  ◌∙◌, sym, if◌then◌else◌, ap,
}
use mathlib.Core.List.{append_assoc, append-nil}
use oslab_2024fall.Kernel.{Kernel, task_ready, ready_queue}
use oslab_2024fall.Sched.{do_unblock, wake_loop, wake_all}
use oslab_2024fall.Sched.Queues.{IsLinked, IsSound, do_unblock-IsSound}

-- The state after the tasks of `xs` were moved, in order, from queue `head` to the ready queue.
pub record Moved (head : ℕ) (xs : List ℕ) (k k' : Kernel) : Type 0 where
  pub emptied : k'.queues head ≡ []
  pub appended : k'.queues ready_queue ≡ k.queues ready_queue ++ xs
  pub others : (r : ℕ) → r ≢ head → r ≢ ready_queue → k'.queues r ≡ k.queues r
  pub woken :
      (i : ℕ) → k'.pcb i ≡ (if has i xs then record (k.pcb i) { status = task_ready } else k.pcb i)
  pub same_tp : k'.tp ≡ k.tp
  pub same_hart : k'.hart ≡ k.hart

module _ {k : Kernel} (l : IsLinked k) (x head : ℕ) (xs : List ℕ) (ne : head ≢ ready_queue)
    (e : k.queues head ≡ x ∷ xs) where
  in_head : has x (k.queues head) ≡ true
  in_head = ground arith

  not_in : (r : ℕ) → r ≢ head → has x (k.queues r) ≡ false
  not_in r d = ground (arith, l.apart x r head, in_head)

  pub do_unblock-head : (do_unblock x k).queues head ≡ xs
  unfolding do_unblock
  do_unblock-head = ground arith

  pub do_unblock-ready : (do_unblock x k).queues ready_queue ≡ k.queues ready_queue ++ x ∷ []
  unfolding do_unblock
  do_unblock-ready =
      rw (erase_of_not_has x (k.queues ready_queue) (not_in ready_queue (λ h. ne (sym h))))

  pub do_unblock-others :
      (r : ℕ) → r ≢ head → r ≢ ready_queue → (do_unblock x k).queues r ≡ k.queues r
  unfolding do_unblock
  do_unblock-others r d d' = ground (arith, erase_of_not_has x (k.queues r), not_in r)

  pub do_unblock-pcb :
      (i : ℕ)
      → (do_unblock x k).pcb i
        ≡ (if x == i then record (k.pcb i) { status = task_ready } else k.pcb i)
  unfolding do_unblock
  do_unblock-pcb i = ground arith

  Moved-cons : {k' : Kernel} → Moved head xs (do_unblock x k) k' → Moved head (x ∷ xs) k k'
  Moved-cons {k'} m = record {
    emptied = m.emptied;
    appended =
        m.appended
        ∙ ap (λ (ys : List ℕ). ys ++ xs) do_unblock-ready
        ∙ append_assoc (k.queues ready_queue) (x ∷ []) xs;
    others = λ r d d'. m.others r d d' ∙ do_unblock-others r d d';
    woken = λ i. ground (arith, m.woken i, do_unblock-pcb i);
    same_tp = m.same_tp ∙ tp_kept;
    same_hart = m.same_hart ∙ hart_kept;
  }
    where
      tp_kept : (do_unblock x k).tp ≡ k.tp
      tp_kept = unfold do_unblock in refl

      hart_kept : (do_unblock x k).hart ≡ k.hart
      hart_kept = unfold do_unblock in refl

-- With fuel for each node the loop ends with the queue empty, its tasks READY and in order at the
-- tail of the ready queue.
pub wake_loop-Moved :
    (xs : List ℕ) (k : Kernel) (head : ℕ)
    → IsSound k
    → head ≢ ready_queue
    → k.queues head ≡ xs
    → Moved head xs k (wake_loop (length xs) head k) × IsSound (wake_loop (length xs) head k)
unfolding wake_loop
wake_loop-Moved [] k head s ne e = (
  record {
    emptied = e;
    appended = sym (append-nil (k.queues ready_queue));
    others = λ r d d'. refl;
    woken = λ i. refl;
    same_tp = refl;
    same_hart = refl;
  },
  s,
)
wake_loop-Moved (x ∷ xs) k head s ne e =
    let s' = do_unblock-IsSound x s in
    let (m, t) =
      wake_loop-Moved xs (do_unblock x k) head s' ne (do_unblock-head s.linked x head xs ne e) in
    rw e (Moved-cons s.linked x head xs ne e m, t)

module _ {k : Kernel} (head : ℕ) (s : IsSound k) (ne : head ≢ ready_queue) where
  -- From a sound state, for a queue that is not the ready queue, the waking loop empties the
  -- queue, appends its tasks in order to the ready queue, makes exactly them READY, and
  -- leaves the other queues and the running tasks alone.
  pub wake_all-Moved : Moved head (k.queues head) k (wake_all head k)
  unfolding wake_all
  wake_all-Moved = (wake_loop-Moved (k.queues head) k head s ne refl).0

  pub wake_all-IsSound : IsSound (wake_all head k)
  unfolding wake_all
  wake_all-IsSound = (wake_loop-Moved (k.queues head) k head s ne refl).1
