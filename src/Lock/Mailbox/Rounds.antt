-- ===== src/Lock/Mailbox/Rounds.antt =====
-- One round of do_mbox_send and of do_mbox_recv, on both branches.
use oslab_2024fall.Prelude.{
  ℕ, ◌+◌, ◌≤◌, ◌<◌, ◌≡◌, ◌≢◌, Bool, true, false, Option, none, some, List, [], ◌∷◌, ◌++◌, leb,
  arith, length, ◌%◌, ◌^◌, Bool-cases, inl, inr, ◌∙◌, ap,
}
use oslab_2024fall.Kernel.{
  Kernel, Mailbox, full_queue, empty_queue, ready_queue, sleep_queue, current_running,
}
use oslab_2024fall.Sched.{do_block, do_scheduler, wake_all}
use oslab_2024fall.Sched.Queues.{IsSound, IsDetached, do_block-IsSound}
use oslab_2024fall.Sched.Wake.{wake_all-Moved, wake_all-IsSound}
use oslab_2024fall.Sched.Sleep.{do_scheduler-IsSound, do_scheduler-queue}
use oslab_2024fall.Sched.Frame.{Objects, objects-wake_all, objects-do_scheduler, objects-do_block}
use oslab_2024fall.Lock.Mailbox.{
  max_mbox_length, set_mailbox, put_message, drop_message, mbox_send_round, mbox_recv_round,
}
use oslab_2024fall.Lock.Mailbox.Bytes.{
  contents, contents-put_message, contents-drop_message, length-read_bytes,
}

set_mailbox-IsSound : (i : ℕ) (m : Mailbox) (k : Kernel) → IsSound k → IsSound (set_mailbox i m k)
set_mailbox-IsSound i m k s = record {
  linked = record {
    nodup = s.linked.nodup;
    apart = s.linked.apart;
    ready = s.linked.ready;
    blocked = s.linked.blocked;
  };
  complete = s.complete;
}

-- The caller waits at the tail of a queue, and no mailbox changed.
pub record Stalled (queue : ℕ) (k k' : Kernel) : Type 0 where
  pub queued : k'.queues queue ≡ k.queues queue ++ current_running k ∷ []
  pub same : k'.mailbox ≡ k.mailbox

stall-says :
    (queue : ℕ) (k : Kernel)
    → IsSound k
    → IsDetached (current_running k) k
    → queue ≢ ready_queue
    → queue ≢ sleep_queue
    → Stalled queue k (do_scheduler (do_block (current_running k) queue k))
      × IsSound (do_scheduler (do_block (current_running k) queue k))
stall-says queue k s out nr ns =
    let k1 = do_block (current_running k) queue k in
    let s1 = do_block-IsSound (current_running k) queue s out nr in
    (
      record {
        queued = do_scheduler-queue k1 s1 queue nr ns ∙ unfold do_block in ground arith;
        same =
            ap (λ (o : Objects). o.mailbox)
              (objects-do_scheduler k1 ∙ objects-do_block (current_running k) queue k);
      },
      do_scheduler-IsSound k1 s1,
    )

-- A mailbox changed, and every task that waited on the queue is READY.
pub record Served (i queue : ℕ) (m' : Mailbox) (k k' : Kernel) : Type 0 where
  pub changed : k'.mailbox i ≡ m'
  pub others : (j : ℕ) → j ≢ i → k'.mailbox j ≡ k.mailbox j
  pub emptied : k'.queues queue ≡ []
  pub readied : k'.queues ready_queue ≡ k.queues ready_queue ++ k.queues queue

serve-says :
    (i queue : ℕ) (m' : Mailbox) (k : Kernel)
    → IsSound k
    → queue ≢ ready_queue
    → Served i queue m' k (wake_all queue (set_mailbox i m' k))
      × IsSound (wake_all queue (set_mailbox i m' k))
serve-says i queue m' k s nr =
    let k1 = set_mailbox i m' k in
    let s1 = set_mailbox-IsSound i m' k s in
    let w = wake_all-Moved queue s1 nr in
    let o = ap (λ (o : Objects). o.mailbox) (objects-wake_all queue k1) in
    (
      record {
        changed = rw o (ground arith);
        others = λ j ne. rw o (ground arith);
        emptied = w.emptied;
        readied = w.appended;
      },
      wake_all-IsSound queue s1 nr,
    )

-- What a round of do_mbox_send does, by its result; `none` is the overflow of the int sum.
abbrev pub SendSays : ℕ → List ℕ → Kernel → Option (Kernel × Bool) → Type 0
SendSays i msg k none = 2 ^ 31 ≤ (k.mailbox i).buffer_idx + length msg
SendSays i msg k (some (k', true)) =
    IsSound k'
    × ((k'.mailbox i).buffer_idx ≤ max_mbox_length)
    × (contents (k'.mailbox i) ≡ contents (k.mailbox i) ++ msg)
    × Served i (empty_queue i) (put_message msg (k.mailbox i)) k k'
SendSays i msg k (some (k', false)) =
    IsSound k'
    × (max_mbox_length < (k.mailbox i).buffer_idx + length msg)
    × ((k.mailbox i).buffer_idx + length msg < 2 ^ 31)
    × Stalled (full_queue i) k k'

-- What a round of do_mbox_recv does, by its result.
abbrev pub RecvSays : ℕ → ℕ → Kernel → Kernel × Option (List ℕ) → Type 0
RecvSays i n k (k', some msg) =
    IsSound k'
    × (length msg ≡ n)
    × (contents (k.mailbox i) ≡ msg ++ contents (k'.mailbox i))
    × Served i (full_queue i) (drop_message n (k.mailbox i)) k k'
RecvSays i n k (k', none) =
    IsSound k' × ((k.mailbox i).buffer_idx < n) × Stalled (empty_queue i) k k'

module _ (i : ℕ) (k : Kernel) (s : IsSound k) (out : IsDetached (current_running k) k) where
  -- From a sound state in which the caller is in no queue, with buffer_idx and the length of
  -- the message below 2 ^ 31, a round of do_mbox_send has one of three results. It appends
  -- the message to the bytes of the mailbox, within the capacity, and makes every waiting
  -- receiver READY; or the message does not fit, no mailbox changes and the caller is queued
  -- behind the waiting senders; or the sum of buffer_idx and the length is at least 2 ^ 31, a
  -- negative int that passes the test, and the round has no result, since the source then
  -- copies behind the buffer. Soundness is kept in the first two cases, and in the second one
  -- the sum is below 2 ^ 31.
  pub mbox_send_round-says :
      (msg : List ℕ)
      → (k.mailbox i).buffer_idx < 2 ^ 31
      → length msg < 2 ^ 31
      → SendSays i msg k (mbox_send_round i msg k)
  unfolding mbox_send_round
  mbox_send_round-says msg idx_int len_int =
      let end = (k.mailbox i).buffer_idx + length msg in
      elim (Bool-cases (leb end max_mbox_length)) [
        | inl e ↦
            let (v, s') =
              serve-says i (empty_queue i) (put_message msg (k.mailbox i)) k s (omega arith) in
            rw e (
              s',
              rw v.changed (unfold put_message in ground arith),
              rw v.changed (contents-put_message msg (k.mailbox i)),
              v,
            )
        | inr e ↦ elim (Bool-cases (leb (2 ^ 31) (end % 2 ^ 32))) [
          | inl w ↦ rw (e, w) (ground arith)
          | inr w ↦
              let (v, s') = stall-says (full_queue i) k s out (omega arith) (omega arith) in
              rw (e, w) (s', ground arith, ground arith, v)
        ]
      ]

  -- From a sound state in which the caller is in no queue, a round of do_mbox_recv for n
  -- bytes either takes the n oldest bytes of the mailbox, leaves the others in order and
  -- makes every waiting sender READY, or the mailbox holds fewer than n bytes, no mailbox
  -- changes and the caller is queued behind the waiting receivers. Soundness is kept in both
  -- cases.
  pub mbox_recv_round-says : (n : ℕ) → RecvSays i n k (mbox_recv_round i n k)
  unfolding mbox_recv_round
  mbox_recv_round-says n = elim (Bool-cases (leb n (k.mailbox i).buffer_idx)) [
    | inl e ↦
        let (v, s') =
          serve-says i (full_queue i) (drop_message n (k.mailbox i)) k s (omega arith) in
        rw e (
          s',
          length-read_bytes (k.mailbox i).buffer 0 n,
          rw v.changed (contents-drop_message n (k.mailbox i) (ground arith)),
          v,
        )
    | inr e ↦
        let (v, s') = stall-says (empty_queue i) k s out (omega arith) (omega arith) in
        rw e (s', ground arith, v)
  ]
