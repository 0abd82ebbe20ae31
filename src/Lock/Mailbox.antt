-- ===== src/Lock/Mailbox.antt =====
-- The mailboxes of kernel/locking/lock.c. The message of a caller is the list of its bytes; its
-- pages are taken to be in memory, where check_uva_mem would bring them in.
pub mod Bytes
pub mod Rounds
use oslab_2024fall.Prelude.{
  ℕ, zero, suc, ◌+◌, ◌-◌, ◌%◌, ◌^◌, ◌||◌, Bool, true, false, Option, none, some, List, [], ◌∷◌, leb,
  ◌&&◌, if◌then◌else◌, length, ◌==◌,
}
use oslab_2024fall.Prelude.Maybe.{◌>>=◌, ◌>>◌, assert}
use oslab_2024fall.Prelude.Table.{update}
use oslab_2024fall.Prelude.Seq.{first_from}
use oslab_2024fall.Libs.Memory.{Memory, memcpy}
use oslab_2024fall.Libs.Strings.{strcmp_is_zero}
use oslab_2024fall.Kernel.{
  Kernel, Mailbox, MailboxOpen, mbox_open, mbox_close, SlotStatus, active, inactive, is_inactive,
  mbox_num, full_queue, empty_queue, current_running,
}
use oslab_2024fall.Sched.{do_block, do_scheduler, wake_all}
use oslab_2024fall.Lock.Barrier.{clear_queue}

abbrev pub max_mbox_length : ℕ
max_mbox_length = 64

abbrev pub set_mailbox : ℕ → Mailbox → Kernel → Kernel
set_mailbox i m k = record k { mailbox = update k.mailbox i m }

-- The first `n` rounds of init_mbox.
unfoldable pub init_mbox_upto : ℕ → Kernel → Kernel
init_mbox_upto zero k = k
init_mbox_upto (suc n) k =
    let k' = init_mbox_upto n k in
    clear_queue (full_queue n) (
      clear_queue (empty_queue n) (
        set_mailbox n
          (record (k'.mailbox n) { status = inactive; opened = mbox_close; cite_num = 0 }) k'))

unfoldable pub init_mbox : Kernel → Kernel
init_mbox = init_mbox_upto mbox_num

abbrev pub has_name : List ℕ → Mailbox → Bool
has_name name m = (if is_inactive m.status then false else true) && strcmp_is_zero m.name name

-- cite_num++ and open = MBOX_OPEN, at the end of do_mbox_open.
unfoldable pub cite : ℕ → Kernel → Kernel
cite i k =
    set_mailbox i
      (record (k.mailbox i) { cite_num = (k.mailbox i).cite_num + 1; opened = mbox_open }) k

-- The initialisation of a mailbox that was free.
unfoldable pub setup_mailbox : ℕ → List ℕ → Kernel → Kernel
setup_mailbox i name k = clear_queue (full_queue i) (
    clear_queue (empty_queue i) (
      set_mailbox i
        (record (k.mailbox i) { name = name; status = active; buffer_idx = 0; cite_num = 0 }) k))

unfoldable pub do_mbox_open : List ℕ → Kernel → Kernel × Option ℕ
do_mbox_open name k = elim (first_from (λ i. has_name name (k.mailbox i)) mbox_num 0) [
  | some i ↦ (cite i k, some i)
  | none ↦ elim (first_from (λ i. is_inactive (k.mailbox i).status) mbox_num 0) [
    | none ↦ (k, none)
    | some i ↦ (cite i (setup_mailbox i name k), some i)
  ]
]

-- `cite_num <= 0` after the decrement.
unfoldable pub do_mbox_close : ℕ → Kernel → Kernel
do_mbox_close i k =
    let m = k.mailbox i in
    let m' = record m { cite_num = m.cite_num - 1; opened = mbox_close } in
    set_mailbox i (if m'.cite_num == 0 then record m' { status = inactive } else m') k

-- memcpy of a message to the buffer.
unfoldable pub copy_in : ℕ → List ℕ → Memory → Memory
copy_in start [] buffer = buffer
copy_in start (b ∷ msg) buffer = copy_in (start + 1) msg (update buffer start b)

-- The first `n` bytes from an index on.
unfoldable pub read_bytes : Memory → ℕ → ℕ → List ℕ
read_bytes buffer start zero = []
read_bytes buffer start (suc n) = buffer start ∷ read_bytes buffer (start + 1) n

-- The change of a mailbox by a send that fits.
unfoldable pub put_message : List ℕ → Mailbox → Mailbox
unfolding copy_in
put_message msg m = record m {
  buffer = copy_in m.buffer_idx msg m.buffer;
  buffer_idx = m.buffer_idx + length msg;
}

-- The change of a mailbox by a receive: the bytes that remain move to the front.
unfoldable pub drop_message : ℕ → Mailbox → Mailbox
drop_message msg_length m =
    let remain_length = m.buffer_idx - msg_length in
    record m { buffer = memcpy 0 msg_length remain_length m.buffer; buffer_idx = remain_length }

-- `a <= b` of a sum `a` of two ints that are not negative, and b below 2 ^ 31: a sum from 2 ^ 31 on is
-- a negative int.
abbrev pub int_leb : ℕ → ℕ → Bool
int_leb a b = leb a b || leb (2 ^ 31) (a % 2 ^ 32)

-- One round of do_mbox_send. `true`: the message is sent. `false`: the caller was blocked, and makes
-- the next round when it is resumed. `none` is the message that is copied behind the buffer.
unfoldable pub mbox_send_round : ℕ → List ℕ → Kernel → Option (Kernel × Bool)
mbox_send_round i msg k =
    let end = (k.mailbox i).buffer_idx + length msg in
    if int_leb end max_mbox_length
    then (do
      assert (leb end max_mbox_length)
      some (wake_all (empty_queue i) (set_mailbox i (put_message msg (k.mailbox i)) k), true))
    else some (do_scheduler (do_block (current_running k) (full_queue i) k), false)

-- One round of do_mbox_recv: `some` bytes received, or the caller was blocked.
unfoldable pub mbox_recv_round : ℕ → ℕ → Kernel → Kernel × Option (List ℕ)
mbox_recv_round i msg_length k =
    let m = k.mailbox i in
    if leb msg_length m.buffer_idx
    then (
      wake_all (full_queue i) (set_mailbox i (drop_message msg_length m) k),
      some (read_bytes m.buffer 0 msg_length),
    )
    else (do_scheduler (do_block (current_running k) (empty_queue i) k), none)
