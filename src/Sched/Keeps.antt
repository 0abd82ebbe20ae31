-- ===== src/Sched/Keeps.antt =====
-- What waking tasks leaves alone: who runs on each hart, which tasks run, and which have exited.
use oslab_2024fall.Prelude.{ℕ, ◌≡◌, ◌≢◌, refl, arith, ◌∙◌}
use oslab_2024fall.Kernel.{Kernel, task_ready, task_running, is_exited, ready_queue}
use oslab_2024fall.Sched.{wake_all}
use oslab_2024fall.Sched.Queues.{IsSound}
use oslab_2024fall.Sched.Wake.{Moved, wake_all-Moved}

pub record Keeps (k k' : Kernel) : Type 0 where
  pub same_tp : k'.tp ≡ k.tp
  pub same_hart : k'.hart ≡ k.hart
  pub same_pid : (i : ℕ) → (k'.pcb i).pid ≡ (k.pcb i).pid
  pub same_thread : (i : ℕ) → (k'.pcb i).pthread_id ≡ (k.pcb i).pthread_id
  pub running : (i : ℕ) → (k.pcb i).status ≡ task_running → (k'.pcb i).status ≡ task_running
  pub ready : (i : ℕ) → (k.pcb i).status ≡ task_ready → (k'.pcb i).status ≡ task_ready
  pub exited : (i : ℕ) → is_exited (k'.pcb i).status ≡ is_exited (k.pcb i).status

pub Keeps-refl : (k : Kernel) → Keeps k k
Keeps-refl k = record {
  same_tp = refl;
  same_hart = refl;
  same_pid = λ i. refl;
  same_thread = λ i. refl;
  running = λ i h. h;
  ready = λ i h. h;
  exited = λ i. refl;
}

pub Keeps-trans : {a b c : Kernel} → Keeps a b → Keeps b c → Keeps a c
Keeps-trans p q = record {
  same_tp = q.same_tp ∙ p.same_tp;
  same_hart = q.same_hart ∙ p.same_hart;
  same_pid = λ i. q.same_pid i ∙ p.same_pid i;
  same_thread = λ i. q.same_thread i ∙ p.same_thread i;
  running = λ i h. q.running i (p.running i h);
  ready = λ i h. q.ready i (p.ready i h);
  exited = λ i. q.exited i ∙ p.exited i;
}

module _ {k : Kernel} (head : ℕ) (s : IsSound k) (ne : head ≢ ready_queue) where
  pub wake_all-Keeps : Keeps k (wake_all head k)
  wake_all-Keeps = record {
    same_tp = m.same_tp;
    same_hart = m.same_hart;
    same_pid = λ i. ground (arith, m.woken i);
    same_thread = λ i. ground (arith, m.woken i);
    running = λ i h. ground (arith, m.woken i, s.linked.blocked i head);
    ready = λ i h. ground (arith, m.woken i);
    exited = λ i. ground (arith, m.woken i, s.linked.blocked i head);
  }
    where
      m : Moved head (k.queues head) k (wake_all head k)
      m = wake_all-Moved head s ne
