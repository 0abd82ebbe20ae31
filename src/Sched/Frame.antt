-- ===== src/Sched/Frame.antt =====
-- The scheduler touches neither the synchronisation objects nor the memory manager.
use oslab_2024fall.Prelude.{
  ℕ, zero, suc, ◌≡◌, refl, List, [], ◌∷◌, arith, leb, Bool-cases, inl, inr, ◌⊎◌, ◌∙◌,
}
use oslab_2024fall.Kernel.{Kernel, MutexLock, Barrier, Condition, Mailbox, sleep_queue}
use oslab_2024fall.Mm.PageNode.{Mem}
use oslab_2024fall.Sched.{
  do_unblock, wake_loop, wake_all, wake_sleepers, check_sleeping, requeue_running, add_readyqueue,
  run_next, get_next_running, do_scheduler, do_block,
}

pub record Objects : Type 0 where
  pub timer : ℕ
  pub mlocks : ℕ → MutexLock
  pub last_lockid : ℕ
  pub barrier : ℕ → Barrier
  pub condition : ℕ → Condition
  pub mailbox : ℕ → Mailbox
  pub mem : Mem

-- What a kernel state holds besides PCBs, queues and the harts' registers.
abbrev pub objects : Kernel → Objects
objects k = record {
  timer = k.timer;
  mlocks = k.mlocks;
  last_lockid = k.last_lockid;
  barrier = k.barrier;
  condition = k.condition;
  mailbox = k.mailbox;
  mem = k.mem;
}

objects-do_unblock : (x : ℕ) (k : Kernel) → objects (do_unblock x k) ≡ objects k
unfolding do_unblock
objects-do_unblock x k = refl

pub objects-do_block : (x q : ℕ) (k : Kernel) → objects (do_block x q k) ≡ objects k
unfolding do_block
objects-do_block x q k = refl

List-cases : (xs : List ℕ) → (xs ≡ []) ⊎ ((x : ℕ) × (rest : List ℕ) × (xs ≡ x ∷ rest))
List-cases [] = inl refl
List-cases (x ∷ rest) = inr (x, rest, refl)

objects-wake_loop : (n head : ℕ) (k : Kernel) → objects (wake_loop n head k) ≡ objects k
unfolding wake_loop
objects-wake_loop zero head k = refl
objects-wake_loop (suc n) head k = elim (List-cases (k.queues head)) [
  | inl e ↦ rw (e, wake_loop) refl
  | inr (x, rest, e) ↦
      rw (e, wake_loop) (objects-wake_loop n head (do_unblock x k) ∙ objects-do_unblock x k)
]

pub objects-wake_all : (head : ℕ) (k : Kernel) → objects (wake_all head k) ≡ objects k
unfolding wake_all
objects-wake_all head k = objects-wake_loop _ head k

objects-wake_sleepers : (xs : List ℕ) (k : Kernel) → objects (wake_sleepers xs k) ≡ objects k
unfolding wake_sleepers
objects-wake_sleepers [] k = refl
objects-wake_sleepers (x ∷ xs) k = elim (Bool-cases (leb (k.pcb x).wakeup_time k.timer)) [
  | inl e ↦
      rw (e, wake_sleepers) (objects-wake_sleepers xs (do_unblock x k) ∙ objects-do_unblock x k)
  | inr e ↦ rw (e, wake_sleepers) (objects-wake_sleepers xs k)
]

objects-get_next_running : (k : Kernel) → objects (get_next_running k).0 ≡ objects k
unfolding get_next_running requeue_running add_readyqueue run_next
objects-get_next_running k = ground arith

pub objects-do_scheduler : (k : Kernel) → objects (do_scheduler k) ≡ objects k
unfolding do_scheduler check_sleeping
objects-do_scheduler k =
    let e =
      objects-get_next_running (check_sleeping k)
      ∙ objects-wake_sleepers (k.queues sleep_queue) k in
    elim (Bool-cases (get_next_running (check_sleeping k)).1) [ inl t ↦ rw t e | inr t ↦ rw t e ]
