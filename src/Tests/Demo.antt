-- ===== src/Tests/Demo.antt =====
-- Task 0 runs on hart 0, task 1 waits on one queue, and the other slots are free.
use oslab_2024fall.Prelude.{
  ℕ, ◌+◌, ◌≢◌, refl, [], ◌∷◌, ◌==◌, arith, IsNodup, if◌then◌else◌, Bool-cases, inl, inr,
}
use oslab_2024fall.Kernel.{
  Kernel, Pcb, task_running, task_blocked, task_exited, locked, active, mbox_open, ready_queue,
}
use oslab_2024fall.Mm.PageNode.{Mem, pn_inactive}
use oslab_2024fall.Sched.Queues.{IsSound, IsDetached}

abbrev pub no_mem : Mem
no_mem = record {
  kernel_bitmap = λ i. 0;
  user_bitmap = λ i. 0;
  pn_list = λ i. record { status = pn_inactive; pte_entry = 0; pid = 0; addr = 0; uva = 0 };
  kernel_page = [];
  user_page_mem = [];
  user_page_sd = [];
}

abbrev pub demo_pcb : ℕ → Pcb
demo_pcb i = record {
  pid = i + 1;
  status = if i == 0 then task_running else if i == 1 then task_blocked else task_exited;
  remain_length = 0;
  wakeup_time = 4;
  current_cpu_id = 0;
  cpu_mask = 3;
  pthread_id = 0;
}

-- Lock 0 is held by the process of task 0; barrier 0 waits for two tasks; mailbox 0 holds 7, 8.
abbrev pub demo : ℕ → Kernel
demo queue = record {
  pcb = demo_pcb;
  queues = λ q. if q == queue then 1 ∷ [] else [];
  tp = λ h. if h == 0 then 0 else 17;
  hart = 0;
  timer = 5;
  mlocks = λ i. record { status = locked; pid = 1; key = i };
  last_lockid = 1;
  barrier = λ i. record { key = 0; goal = 2; counter = 1; status = active };
  condition = λ i. record { key = 0; status = active };
  mailbox = λ i. record {
    status = active;
    opened = mbox_open;
    name = b'm' ∷ [];
    buffer = λ a. a + 7;
    buffer_idx = 2;
    cite_num = 1;
  };
  mem = no_mem;
}

module _ (queue : ℕ) (ne : queue ≢ ready_queue) where
  demo-IsNodup : (q : ℕ) → IsNodup ((demo queue).queues q)
  demo-IsNodup q = elim (Bool-cases (q == queue)) [ inl e ↦ rw e (refl, tt) | inr e ↦ rw e tt ]

  pub demo-IsSound : IsSound (demo queue)
  demo-IsSound = record {
    linked = record {
      nodup = demo-IsNodup;
      apart = λ x q r hq hr. ground arith;
      ready = λ x h. ground arith;
      blocked = λ x q h d. ground arith;
    };
    complete = λ x h. ground arith;
  }

  pub demo-IsDetached : IsDetached 0 (demo queue)
  demo-IsDetached q = ground arith
