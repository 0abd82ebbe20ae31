-- ===== src/Tests/Paging.antt =====
-- Page tables, the swap and page faults.
use oslab_2024fall.Prelude.{
  ℕ, zero, suc, ◌+◌, ◌-◌, ◌*◌, ◌/◌, ◌^◌, ◌≤◌, ◌<◌, ◌≡◌, ◌≢◌, ◌⊎◌, refl, true, false, some, none, [],
  ◌∷◌, ◌==◌, ◌&&◌, arith, has, erase, inl, inr, if◌then◌else◌, leb, ltb,
}
use oslab_2024fall.Mm.Bitmap.{find_free_pages, mark_page_allocated}
use oslab_2024fall.Mm.PageNode.{
  Mem, pn_active, search_list_node, user_mem_base, page_size, page_idx_of,
}
use oslab_2024fall.Mm.Alloc.{alloc_user_page, free_user_page_num}
use oslab_2024fall.Mm.Pte.{Words, get_pa, pa2kva, get_attribute}
use oslab_2024fall.Mm.Walk.{uva2pte, vpn2_of, vpn1_of, vpn0_of}
use oslab_2024fall.Mm.Swap.{SwapCard, Vm, swap_page_out, swap_page_in}
use oslab_2024fall.Mm.Swap.Moves.{PageOut, PageIn, swap_page_out-PageOut}
use oslab_2024fall.Mm.Swap.RoundTrip.{swap_page_in-swap_page_out}
use oslab_2024fall.Mm.Paging.{Task, iomap_page}
use oslab_2024fall.Mm.Paging.Leaf.{Mapped, iomap_page-Mapped}
use oslab_2024fall.Prelude.Seq.{first_from}
use oslab_2024fall.Mm.Shm.{Shm, shm_using, shm_page_dt}
use oslab_2024fall.Mm.Shm.Detach.{FreedInUse, shm_page_dt-FreedInUse}
use oslab_2024fall.Mm.Fault.{
  handle_page_fault, exited, check_mprotect, is_refused, page_of, do_sbrk,
}
use oslab_2024fall.Mm.Fault.Break.{SbrkSays, do_sbrk-says}
use oslab_2024fall.Mm.Fault.Says.{Returned, handle_page_fault-Returned, handle_page_fault-exited}

abbrev near : ℕ → ℕ → ℕ → ℕ
near s t i = if leb s t && ltb t (s + 8) then i else 0

swap_same : (s : ℕ) (x : ℕ → ℕ) (d : ℕ → ℕ → ℕ) (i : ℕ) → (if s == s then x i else d s i) ≡ x i
swap_same s x d i = ground arith

swap_other :
    (s t : ℕ) (x : ℕ → ℕ) (d : ℕ → ℕ → ℕ) (i : ℕ)
    → (s + 8 ≤ t) ⊎ (t + 8 ≤ s)
    → (if s == t then x i else d t i) ≡ d t i
swap_other s t x d i apart = ground arith

-- A card that keeps a page under the number of its first sector.
abbrev swap_card : SwapCard (ℕ → ℕ → ℕ)
swap_card = record {
  read = λ d s i. d s i;
  write = λ d s x t i. if s == t then x i else d t i;
  read_same = λ d s x i lt. swap_same s x d i;
  read_other = λ d s t x i apart. swap_other s t x d i apart;
}

-- Nodes 4 and 5 are pages of process 7 in memory, and node 6 is one on the card.
abbrev two_pages : Mem
two_pages = record {
  kernel_bitmap = λ i. 15;
  user_bitmap = λ i. 15;
  pn_list = λ i. record {
    status = pn_active;
    pte_entry = 0x1000 + 8 * i;
    pid = 7;
    addr = if i == 6 then 800 else user_mem_base + page_size * i;
    uva = page_size * (i + 16);
  };
  kernel_page = [];
  user_page_mem = 4 ∷ 5 ∷ [];
  user_page_sd = 6 ∷ [];
}

-- The entry of node 4 was used; the tables of the process stand at kernel addresses.
abbrev two_words : Words
two_words a = if a == 0x1020 then 0xdf else 0x1f

abbrev two_pages_vm : Vm (ℕ → ℕ → ℕ)
two_pages_vm = record {
  mem = two_pages;
  words = two_words;
  disk = λ s i. s + i;
  sd_sector_end = 808;
}

two_words-fit : (a : ℕ) → two_words a < 2 ^ 64
two_words-fit a = ground arith

two_pages-free : find_free_pages (λ i. 15) free_user_page_num ≡ some 4
unfolding find_free_pages
two_pages-free = refl

swap_page_out-PageOut_example :
    PageOut swap_card two_pages_vm (swap_page_out swap_card two_pages_vm)
swap_page_out-PageOut_example =
    swap_page_out-PageOut swap_card two_pages_vm (omega arith) (λ p m. omega arith)

-- Page 4 of the user memory is the first that is free.
abbrev fifth : ℕ
fifth = user_mem_base + page_size * 4

allocates_fifth :
    (m : Mem)
    → m.user_bitmap ≡ (λ i. 15)
    → alloc_user_page m
      ≡ (some fifth, record m { user_bitmap = mark_page_allocated 4 m.user_bitmap })
unfolding alloc_user_page
allocates_fifth m e =
    let found : find_free_pages m.user_bitmap free_user_page_num ≡ some 4 = rw e two_pages-free in
    rw (alloc_user_page, found) refl

abbrev gone : PageOut swap_card two_pages_vm (swap_page_out swap_card two_pages_vm)
gone = swap_page_out-PageOut swap_card two_pages_vm (omega arith) (λ p m. omega arith)

in_ring : (p : ℕ) → has p (4 ∷ 5 ∷ []) ≡ true → (two_pages.pn_list p).pte_entry < fifth
in_ring p m = ground arith

abbrev unlinked : Mem
unlinked = record gone.after.mem { user_page_sd = erase gone.page gone.after.mem.user_page_sd }

swap_page_in-swap_page_out_example :
    PageIn swap_card gone.page fifth
      (λ i. gone.after.words ((two_pages.pn_list gone.page).addr + 8 * i))
      gone.after
      (swap_page_in swap_card gone.page gone.after)
swap_page_in-swap_page_out_example =
    swap_page_in-swap_page_out swap_card two_pages_vm gone fifth
      (record unlinked { user_bitmap = mark_page_allocated 4 unlinked.user_bitmap })
      (allocates_fifth unlinked (gone.bitmaps.1)) (λ i. omega arith) two_words-fit (omega arith)
      (inl (in_ring gone.page (ground (arith, gone.members gone.page))))

abbrev two_tasks : Task
two_tasks = record { pid = 7; pgdir = 0xffffffc052004000; brk = 0x20000 }

do_sbrk-says_example : SbrkSays 100 two_tasks (do_sbrk 100 two_tasks)
do_sbrk-says_example = do_sbrk-says 100 two_tasks (omega arith)

-- The tables on the way to the first 2 MB exist, and their entries are zero.
abbrev mapped_words : Words
mapped_words a =
    if a == two_tasks.pgdir
    then 0x52005 * 1024 + 1
    else if a == 0xffffffc052005000
    then 0x52006 * 1024 + 1
    else 0

abbrev tables_vm : Vm (ℕ → ℕ → ℕ)
tables_vm = record two_pages_vm { words = mapped_words }

first_entry : uva2pte mapped_words 8 two_tasks.pgdir ≡ some 0xffffffc052006000
unfolding uva2pte vpn2_of pa2kva get_pa vpn1_of vpn0_of
first_entry = refl

mapped_words-fit : (a : ℕ) → mapped_words a < 2 ^ 64
mapped_words-fit a = ground arith

iomap_page-Mapped_example :
    Mapped swap_card two_tasks 8 two_tasks.pgdir
      (0x10000000 / 2 ^ 12)
      0xffffffc052006000
      tables_vm
      (iomap_page swap_card two_tasks 8 0x10000000 two_tasks.pgdir tables_vm)
unfolding vpn2_of pa2kva get_pa vpn1_of
iomap_page-Mapped_example =
    iomap_page-Mapped swap_card two_tasks 8 0x10000000 two_tasks.pgdir tables_vm mapped_words-fit
      (omega arith) first_entry (omega arith) (omega arith)

handle_page_fault-exited_example :
    handle_page_fault swap_card two_tasks 8 13 tables_vm ≡ some exited
handle_page_fault-exited_example =
    handle_page_fault-exited swap_card two_tasks 8 13 tables_vm (omega arith) first_entry refl
      (inr (inl refl))

fault-allowed : check_mprotect two_words two_tasks 0x16008 13 ≡ false
unfolding check_mprotect uva2pte vpn2_of pa2kva get_pa vpn1_of is_refused get_attribute vpn0_of
fault-allowed = refl

away : search_list_node two_pages.pn_list two_pages.user_page_mem (page_of 0x16008) 7 ≡ none
unfolding search_list_node
away = refl

on_card : search_list_node two_pages.pn_list two_pages.user_page_sd (page_of 0x16008) 7 ≡ some 6
unfolding search_list_node
on_card = refl

handle_page_fault-Returned_example :
    Returned swap_card two_tasks 0x16008 13 two_pages_vm
      (omega arith)
      6
      fifth
      (handle_page_fault swap_card two_tasks 0x16008 13 two_pages_vm)
handle_page_fault-Returned_example =
    handle_page_fault-Returned swap_card two_tasks 0x16008 13 two_pages_vm (omega arith) 6 fifth
      (record two_pages {
        user_page_sd = [];
        user_bitmap = mark_page_allocated 4 two_pages.user_bitmap;
      })
      fault-allowed away on_card (allocates_fifth (record two_pages { user_page_sd = [] }) refl)
      (λ i. omega arith) (omega arith) two_words-fit (inl (omega arith))

-- Page 0 of the table is shared by two, and the caller has it as node 4.
abbrev shared_words : Words
shared_words a =
    if a == two_tasks.pgdir
    then 0x52005 * 1024 + 1
    else if a == 0xffffffc052005080
    then 0x52006 * 1024 + 1
    else 0x54004 * 1024 + 1

abbrev shared : Shm (ℕ → ℕ → ℕ)
shared = record {
  vm = record two_pages_vm { words = shared_words };
  shm_pages = λ i. record { status = shm_using; kva = 0xffffffc054004000; key = 9; user_num = 2 };
  user_mem_curr = 0x2000;
}

shared-leads : uva2pte shared_words 0x14000 two_tasks.pgdir ≡ some 0xffffffc0540040a0
unfolding uva2pte vpn2_of pa2kva get_pa vpn1_of vpn0_of
shared-leads = refl

shm_page_dt-FreedInUse_example :
    FreedInUse 0
      (page_idx_of (two_pages.pn_list 4).addr user_mem_base)
      shared
      (shm_page_dt swap_card two_tasks 0x14000 shared)
unfolding first_from search_list_node get_pa pa2kva
shm_page_dt-FreedInUse_example =
    shm_page_dt-FreedInUse swap_card two_tasks shared 0x14000 0 4 shared-leads refl refl
      (λ i. omega arith) (omega arith) (omega arith)

-- The tables of the first 2 MB exist, and those behind them do not.
last_mapped :
    (i : ℕ)
    → i < 2
    → uva2pte mapped_words (0x200000 - 2 * page_size + i * page_size) two_tasks.pgdir ≢ none
unfolding uva2pte vpn2_of pa2kva get_pa vpn1_of vpn0_of
last_mapped zero low h = cc
last_mapped (suc zero) low h = cc
last_mapped (suc (suc i)) low h = omega arith

not_mapped : uva2pte mapped_words (0x200000 - 2 * page_size + 2 * page_size) two_tasks.pgdir ≡ none
unfolding uva2pte vpn2_of pa2kva get_pa vpn1_of vpn0_of
not_mapped = refl
