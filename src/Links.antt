-- ===== src/Links.antt =====
-- The doubly linked circular lists of include/os/list.h as the scheduler writes them, pointer by
-- pointer: do_block, add_readyqueue, do_unblock, remove_readyqueue and remove_pcb_queue of
-- kernel/sched/sched.c.
pub mod Chain
pub mod Refine
pub mod Tasks
use oslab_2024fall.Prelude.{ℕ, Bool, true, false, ◌==◌, ◌||◌, if◌then◌else◌}
use oslab_2024fall.Prelude.Table.{update}

-- The `next` and `prev` fields of the nodes by address; 0 is NULL.
pub record Links : Type 0 where
  pub next : ℕ → ℕ
  pub prev : ℕ → ℕ

abbrev pub set_next : ℕ → ℕ → Links → Links
set_next node target l = record l { next = update l.next node target }

abbrev pub set_prev : ℕ → ℕ → Links → Links
set_prev node target l = record l { prev = update l.prev node target }

-- The four writes of do_block and add_readyqueue, in their order.
unfoldable pub link_tail : ℕ → ℕ → Links → Links
link_tail node head l =
    let tail = l.prev head in
    set_next node head (set_prev head node (set_prev node tail (set_next tail node l)))

-- The writes of do_unblock, remove_readyqueue and remove_pcb_queue, in their order.
unfoldable pub unlink_node : ℕ → Links → Links
unlink_node node l =
    let next_node = l.next node in
    let prev_node = l.prev node in
    set_next prev_node next_node
      (set_prev next_node prev_node (set_prev node 0 (set_next node 0 l)))

-- remove_pcb_queue leaves a node with null links alone.
unfoldable pub unlink_if_linked : ℕ → Links → Links
unlink_if_linked node l = if l.next node == 0 || l.next node == 0 then l else unlink_node node l
