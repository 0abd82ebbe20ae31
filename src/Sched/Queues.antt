-- ===== src/Sched/Queues.antt =====
-- The invariant of the scheduler's queues, and its preservation by the queue operations of
-- kernel/sched/sched.c.
use oslab_2024fall.Prelude.{
  ℕ, ◌≡◌, ◌≢◌, refl, true, false, [], ◌∷◌, ◌==◌, arith, has, IsNodup, has-append, has-erase_le,
  has-erase_ne, has-erase_self, IsNodup-erase, IsNodup-append_one, Bool-cases, inl, inr, ◌&&◌, ◌||◌,
  ◌∙◌,
}
use oslab_2024fall.Kernel.{
  Kernel, Pcb, TaskStatus, task_blocked, task_ready, ready_queue, set_pcb, set_status,
}
use oslab_2024fall.Sched.{insert_tail, unlink, add_readyqueue, do_block, do_unblock}

-- What the links of a task say: a task is in one queue at most and once at most, in the ready
-- queue only when READY, and in another queue only when BLOCKED.
pub record IsLinked (k : Kernel) : Type 0 where
  pub nodup : (q : ℕ) → IsNodup (k.queues q)
  pub apart : (x q r : ℕ) → has x (k.queues q) ≡ true → has x (k.queues r) ≡ true → q ≡ r
  pub ready : (x : ℕ) → has x (k.queues ready_queue) ≡ true → (k.pcb x).status ≡ task_ready
  pub blocked :
      (x q : ℕ) → has x (k.queues q) ≡ true → q ≢ ready_queue → (k.pcb x).status ≡ task_blocked

-- No READY task is lost: each is in the ready queue, `except` one that is being moved.
abbrev pub IsCompleteBut : ℕ → Kernel → Type 0
IsCompleteBut except k =
    (x : ℕ) → x ≢ except → (k.pcb x).status ≡ task_ready → has x (k.queues ready_queue) ≡ true

abbrev pub IsComplete : Kernel → Type 0
IsComplete k = (x : ℕ) → (k.pcb x).status ≡ task_ready → has x (k.queues ready_queue) ≡ true

pub record IsSound (k : Kernel) : Type 0 where
  pub linked : IsLinked k
  pub complete : IsComplete k

-- A task in no queue.
abbrev pub IsDetached : ℕ → Kernel → Type 0
IsDetached x k = (q : ℕ) → has x (k.queues q) ≡ false

-- The members after a node is put at the tail of a queue.
pub has-insert_tail :
    (x head y q : ℕ) (k : Kernel)
    → has y ((insert_tail x head k).queues q) ≡ ((head == q && x == y) || has y (k.queues q))
unfolding insert_tail
has-insert_tail x head y q k = ground (arith, has-append y (k.queues head) (x ∷ []))

module _ {k : Kernel} (l : IsLinked k) (x : ℕ) where
  pub unlink-IsLinked : IsLinked (unlink x k)
  unfolding unlink
  unlink-IsLinked = record {
    nodup = λ q. IsNodup-erase x (k.queues q) (l.nodup q);
    apart = λ y q r hq hr.
        l.apart y q r (has-erase_le y x (k.queues q) hq) (has-erase_le y x (k.queues r) hr);
    ready = λ y h. l.ready y (has-erase_le y x (k.queues ready_queue) h);
    blocked = λ y q h ne. l.blocked y q (has-erase_le y x (k.queues q) h) ne;
  }

  pub unlink-IsDetached : IsDetached x (unlink x k)
  unfolding unlink
  unlink-IsDetached q = has-erase_self x (k.queues q) (l.nodup q)

  pub set_pcb-IsLinked : (p : Pcb) → IsDetached x k → IsLinked (set_pcb x p k)
  set_pcb-IsLinked p out = record {
    nodup = l.nodup;
    apart = l.apart;
    ready = λ y h. ground (arith, l.ready y h, out ready_queue);
    blocked = λ y q h ne. ground (arith, l.blocked y q h ne, out q);
  }

  pub set_pcb-IsLinked_same : (p : Pcb) → p.status ≡ (k.pcb x).status → IsLinked (set_pcb x p k)
  set_pcb-IsLinked_same p e = record {
    nodup = l.nodup;
    apart = l.apart;
    ready = λ y h. ground (arith, l.ready y h);
    blocked = λ y q h ne. ground (arith, l.blocked y q h ne);
  }

  module _ (head : ℕ) (out : IsDetached x k)
      (r : head ≡ ready_queue → (k.pcb x).status ≡ task_ready)
      (b : head ≢ ready_queue → (k.pcb x).status ≡ task_blocked) where
    insert_tail-IsNodup : (q : ℕ) → IsNodup ((insert_tail x head k).queues q)
    unfolding insert_tail
    insert_tail-IsNodup q = elim (Bool-cases (head == q)) [
      | inl e ↦ rw e (IsNodup-append_one (k.queues head) x (l.nodup head) (out head))
      | inr e ↦ rw e (l.nodup q)
    ]

    insert_tail-status : (y : ℕ) → (insert_tail x head k).pcb y ≡ k.pcb y
    unfolding insert_tail
    insert_tail-status y = refl

    pub insert_tail-IsLinked : IsLinked (insert_tail x head k)
    insert_tail-IsLinked = record {
      nodup = insert_tail-IsNodup;
      apart = λ y q s hq hs. ground (
        arith,
        has-insert_tail x head y q k,
        has-insert_tail x head y s k,
        l.apart y q s,
        out q,
        out s,
      );
      ready = λ y h.
          ground (arith, has-insert_tail x head y ready_queue k, l.ready y, insert_tail-status y);
      blocked = λ y q h ne.
          ground (arith, has-insert_tail x head y q k, l.blocked y q, insert_tail-status y);
    }

pub set_status-IsDetached :
    (x y : ℕ) (s : TaskStatus) (k : Kernel) → IsDetached x k → IsDetached x (set_status y s k)
set_status-IsDetached x y s k out q = out q

-- Putting a task that is in no queue on the ready queue.
pub add_readyqueue-IsLinked :
    {k : Kernel} (x : ℕ) → IsLinked k → IsDetached x k → IsLinked (add_readyqueue x k)
unfolding add_readyqueue
add_readyqueue-IsLinked {k} x l out =
    insert_tail-IsLinked (set_pcb-IsLinked l x (record (k.pcb x) { status = task_ready }) out) x
      ready_queue out (λ e. ground arith) (λ ne. absurd (ne refl))

pub add_readyqueue-IsComplete :
    (k : Kernel) (x : ℕ) → IsCompleteBut x k → IsComplete (add_readyqueue x k)
unfolding add_readyqueue insert_tail
add_readyqueue-IsComplete k x c y h =
    ground (arith, has-append y (k.queues ready_queue) (x ∷ []), c y)

pub add_readyqueue-IsSound :
    {k : Kernel} (x : ℕ)
    → IsLinked k
    → IsDetached x k
    → IsCompleteBut x k
    → IsSound (add_readyqueue x k)
add_readyqueue-IsSound {k} x l out c = record {
  linked = add_readyqueue-IsLinked x l out;
  complete = add_readyqueue-IsComplete k x c;
}

pub unlink-IsCompleteBut : (k : Kernel) (x : ℕ) → IsComplete k → IsCompleteBut x (unlink x k)
unfolding unlink
unlink-IsCompleteBut k x c y ne h = has-erase_ne y x (k.queues ready_queue) ne ∙ c y h

-- do_unblock keeps the invariant, whatever queue the task was in.
pub do_unblock-IsSound : {k : Kernel} (x : ℕ) → IsSound k → IsSound (do_unblock x k)
unfolding do_unblock
do_unblock-IsSound {k} x s =
    add_readyqueue-IsSound x (unlink-IsLinked s.linked x) (unlink-IsDetached s.linked x)
      (unlink-IsCompleteBut k x s.complete)

-- do_block puts a task of no queue on any queue but the ready queue.
pub do_block-IsSound :
    {k : Kernel} (x head : ℕ)
    → IsSound k
    → IsDetached x k
    → head ≢ ready_queue
    → IsSound (do_block x head k)
unfolding do_block insert_tail
do_block-IsSound {k} x head s out ne = record {
  linked =
      insert_tail-IsLinked
        (set_pcb-IsLinked s.linked x (record (k.pcb x) { status = task_blocked }) out) x head out
        (λ e. absurd (ne e)) (λ e. ground arith);
  complete = λ y h. ground (arith, s.complete y);
}
