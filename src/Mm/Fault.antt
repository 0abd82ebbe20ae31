-- ===== src/Mm/Fault.antt =====
-- Page faults, mprotect, brk and sbrk of kernel/mm/mm.c.
pub mod Says
pub mod Break
use oslab_2024fall.Prelude.{
  ℕ, zero, suc, ◌+◌, ◌-◌, ◌*◌, ◌/◌, ◌%◌, ◌^◌, Bool, true, false, Option, none, some, ◌==◌, ◌&&◌,
  ◌||◌, leb, ltb, not, if◌then◌else◌,
}
use oslab_2024fall.Prelude.Maybe.{◌>>=◌, ◌>>◌, assert}
use oslab_2024fall.Prelude.Table.{update}
use oslab_2024fall.Mm.PageNode.{Mem, PageNode, page_size, search_list_node}
use oslab_2024fall.Mm.Pte.{
  Words, get_attribute, set_attribute, clear_attribute, page_read, page_write, page_exec,
}
use oslab_2024fall.Mm.Walk.{uva2pte}
use oslab_2024fall.Mm.Swap.{SwapCard, Vm, swap_page_in, used_bits}
use oslab_2024fall.Mm.Paging.{Task, alloc_page_helper, round, rounddown}

abbrev pub user_stack_end : ℕ
user_stack_end = 0xf00010000 - 5 * page_size

abbrev pub excc_inst_page_fault : ℕ
excc_inst_page_fault = 12

abbrev pub excc_load_page_fault : ℕ
excc_load_page_fault = 13

abbrev pub excc_store_page_fault : ℕ
excc_store_page_fault = 15

-- addr & ~(PAGE_SIZE - 1)
abbrev pub page_of : ℕ → ℕ
page_of addr = addr / page_size * page_size

-- Whether a fault is one of a missing permission of the entry.
unfoldable pub is_refused : ℕ → ℕ → Bool
is_refused entry code =
    (code == excc_inst_page_fault && get_attribute entry page_exec == 0)
    || (code == excc_load_page_fault && get_attribute entry page_read == 0)
    || (code == excc_store_page_fault && get_attribute entry page_write == 0)

-- `true` stands for the call of do_exit and the result 1.
unfoldable pub check_mprotect : Words → Task → ℕ → ℕ → Bool
check_mprotect words task stval scause = elim (uva2pte words stval task.pgdir) [
  | none ↦ false
  | some pte ↦ is_refused (words pte) (scause % 2 ^ 63)
]

-- `true` stands for the call of do_exit and the result 1.
unfoldable pub check_brk : Task → ℕ → Bool
check_brk task vpn = ltb task.brk vpn && ltb vpn user_stack_end

unfoldable pub do_getbrk : ℕ → Task → Task
do_getbrk bss_end task = record task { brk = rounddown ((bss_end + page_size) % 2 ^ 64) }

-- `false` is the result -1.
unfoldable pub do_brk : ℕ → Task → Bool × Task
do_brk addr task =
    if ltb task.brk (page_of addr) && ltb (page_of addr) user_stack_end
    then (true, record task { brk = addr })
    else (false, task)

-- `none` is the result -1; a negative increment is its word of 64 bits.
unfoldable pub do_sbrk : ℕ → Task → Option ℕ × Task
do_sbrk increment task =
    let new_brk = (task.brk + round increment) % 2 ^ 64 in
    if ltb new_brk user_stack_end
    then (some task.brk, record task { brk = new_brk })
    else (none, task)

-- enum prot, PROT_NONE = 0 and so on.
unfoldable pub protected : ℕ → ℕ → Option ℕ
protected prot entry =
    let bare = clear_attribute entry 0xe in
    if prot == 0
    then some bare
    else if prot == 1
    then some (set_attribute bare page_read)
    else if prot == 2
    then some (set_attribute bare page_write)
    else if prot == 3
    then some (set_attribute bare page_exec)
    else none

-- How do_mprotect ends: with 0, with -1, or by a write through a null entry.
pub data Protect : Type 0 where
  changed : Words → Protect
  refused : Words → Protect
  null_entry : Protect

-- The loop of do_mprotect, `n` pages from `uva` on.
unfoldable pub mprotect_pages : ℕ → ℕ → ℕ → Task → Words → Protect
mprotect_pages zero uva prot task words = changed words
mprotect_pages (suc n) uva prot task words = elim (uva2pte words uva task.pgdir) [
  | none ↦ if leb prot 3 then null_entry else refused words
  | some pte ↦ elim (protected prot (words pte)) [
    | none ↦ refused words
    | some entry ↦ mprotect_pages n (uva + page_size) prot task (update words pte entry)
  ]
]

unfoldable pub do_mprotect : ℕ → ℕ → ℕ → Task → Words → Protect
do_mprotect addr len prot task words =
    let n_page = len / page_size + (if len % page_size == 0 then 0 else 1) in
    if not (addr % 2 ^ 12 == 0) then refused words else mprotect_pages n_page addr prot task words

-- A fault ends with the instruction run again, or with the task gone.
pub data Handled (D : Type 0) : Type 0 where
  resumed : Vm D → Handled D
  exited : Handled D

module _ {D : Type 0} (sd : SwapCard D) where
  -- The page of a node in memory was touched again.
  unfoldable pub touch : ℕ → Vm D → Vm D
  touch p vm =
      let pte = (vm.mem.pn_list p).pte_entry in
      record vm { words = update vm.words pte (set_attribute (vm.words pte) used_bits) }

  unfoldable pub handle_page_fault : Task → ℕ → ℕ → Vm D → Option (Handled D)
  handle_page_fault task stval scause vm =
      let vpn = page_of stval in
      if stval == 0
      then none
      else if check_mprotect vm.words task stval scause
      then some exited
      else elim (search_list_node vm.mem.pn_list vm.mem.user_page_mem vpn task.pid) [
        | some p ↦ some (resumed (touch p vm))
        | none ↦ elim (search_list_node vm.mem.pn_list vm.mem.user_page_sd vpn task.pid) [
          | some p ↦ (swap_page_in sd p vm >>= λ vm1. some (resumed vm1))
          | none ↦
              if check_brk task vpn
              then some exited
              else (alloc_page_helper sd task vpn task.pgdir task vm >>= λ (_, vm1).
                  some (resumed vm1))
        ]
      ]

  -- The loop of check_uva_mem over the pages of a buffer, `n` of them from `vpn` on.
  unfoldable pub load_pages : ℕ → ℕ → Task → Vm D → Option (Vm D)
  load_pages zero vpn task vm = some vm
  load_pages (suc n) vpn task vm =
      elim (search_list_node vm.mem.pn_list vm.mem.user_page_sd vpn task.pid) [
        | none ↦ some vm
        | some p ↦ swap_page_in sd p vm
      ]
      >>= λ vm1. load_pages n (vpn + page_size) task vm1

  -- while (vpn <= uva_begin + len)
  unfoldable pub check_uva_mem : ℕ → ℕ → Task → Vm D → Option (Vm D)
  unfolding load_pages
  check_uva_mem uva_begin len task vm =
      load_pages ((uva_begin + len - page_of uva_begin) / page_size + 1) (page_of uva_begin) task vm
