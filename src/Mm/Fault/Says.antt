-- ===== src/Mm/Fault/Says.antt =====
-- What a page fault does.
use oslab_2024fall.Prelude.{
  ℕ, ◌+◌, ◌%◌, ◌^◌, ◌≤◌, ◌<◌, ◌≡◌, ◌≢◌, refl, true, false, Option, none, some, ◌==◌, arith, ◌⊎◌,
  erase,
}
use oslab_2024fall.Prelude.Table.{update_self, update_ne}
use oslab_2024fall.Prelude.Digits.{zero-bit_and}
use oslab_2024fall.Mm.Pte.{get_attribute, get_pfn, set_attribute, page_exec, page_read, page_write}
use oslab_2024fall.Mm.Pte.Fields.{set_attribute_lem}
use oslab_2024fall.Mm.PageNode.{Mem, search_list_node, page_size}
use oslab_2024fall.Mm.Alloc.{alloc_user_page}
use oslab_2024fall.Mm.Bitmap.{IsBytes}
use oslab_2024fall.Mm.Walk.{uva2pte}
use oslab_2024fall.Mm.Swap.{SwapCard, Vm, used_bits}
use oslab_2024fall.Mm.Swap.Moves.{IsWords, PageIn, swap_page_in-PageIn}
use oslab_2024fall.Mm.Swap.RoundTrip.{alloc_frame}
use oslab_2024fall.Mm.Paging.{Task}
use oslab_2024fall.Mm.Fault.{
  Handled, resumed, exited, handle_page_fault, check_mprotect, is_refused, touch, page_of,
}

module _ {D : Type 0} (sd : SwapCard D) (task : Task) (stval scause : ℕ) (vm : Vm D)
    (ne : stval ≢ 0) where
  not_null : (stval == 0) ≡ false
  not_null = ground arith

  -- The instruction runs again: the entry of the page has its accessed and dirty bits and its frame,
  -- and nothing else changed.
  pub record Touched (p : ℕ) (r : Option (Handled D)) : Type 0 where
    pub after : Vm D
    pub is_some : r ≡ some (resumed after)
    pub bits : get_attribute (after.words (vm.mem.pn_list p).pte_entry) used_bits ≡ used_bits
    pub frame :
        get_pfn (after.words (vm.mem.pn_list p).pte_entry)
        ≡ get_pfn (vm.words (vm.mem.pn_list p).pte_entry)
    pub others : (a : ℕ) → a ≢ (vm.mem.pn_list p).pte_entry → after.words a ≡ vm.words a
    pub same_mem : after.mem ≡ vm.mem

  touch-Touched : (p : ℕ) → IsWords vm.words → Touched p (some (resumed (touch sd p vm)))
  unfolding touch
  touch-Touched p words =
      let pte = (vm.mem.pn_list p).pte_entry in
      let (x, y, z) = set_attribute_lem (vm.words pte) used_bits (words pte) (omega arith) in
      record {
        after = touch sd p vm;
        is_some = refl;
        bits = rw (update_self vm.words pte (set_attribute (vm.words pte) used_bits)) x;
        frame = rw (update_self vm.words pte (set_attribute (vm.words pte) used_bits)) y;
        others = λ a off. update_ne vm.words pte a _ (ground arith);
        same_mem = refl;
      }

  pub handle_page_fault-Touched :
      (p : ℕ)
      → IsWords vm.words
      → check_mprotect vm.words task stval scause ≡ false
      → search_list_node vm.mem.pn_list vm.mem.user_page_mem (page_of stval) task.pid ≡ some p
      → Touched p (handle_page_fault sd task stval scause vm)
  unfolding handle_page_fault
  handle_page_fault-Touched p words allowed found =
      rw (handle_page_fault, not_null, allowed, found) (touch-Touched p words)

  -- A fault on a page on the card brings the page back.
  pub record Returned (p kva : ℕ) (r : Option (Handled D)) : Type 0 where
    pub after : Vm D
    pub is_some : r ≡ some (resumed after)
    pub page_in : PageIn sd p kva (sd.read vm.disk (vm.mem.pn_list p).addr) vm (some after)

  -- A fault that is not one of permission, on a page whose node is among those on the card
  -- and not among those in memory, with a free user page, ends with the instruction run again
  -- and the page in memory: its words are those of the card, its entry leads to the new page,
  -- and no other word outside the page changed. The words fit 64 bits, the user bitmap is
  -- made of bytes, the user address of the node is not 0, and the entry of the page does not
  -- stand in the page that is allocated.
  pub handle_page_fault-Returned :
      (p kva : ℕ) (mem' : Mem)
      → check_mprotect vm.words task stval scause ≡ false
      → search_list_node vm.mem.pn_list vm.mem.user_page_mem (page_of stval) task.pid ≡ none
      → search_list_node vm.mem.pn_list vm.mem.user_page_sd (page_of stval) task.pid ≡ some p
      → alloc_user_page (record vm.mem { user_page_sd = erase p vm.mem.user_page_sd })
        ≡ (some kva, mem')
      → IsBytes vm.mem.user_bitmap
      → (vm.mem.pn_list p).uva ≢ 0
      → IsWords vm.words
      → ((vm.mem.pn_list p).pte_entry < kva) ⊎ (kva + page_size ≤ (vm.mem.pn_list p).pte_entry)
      → Returned p kva (handle_page_fault sd task stval scause vm)
  unfolding handle_page_fault
  handle_page_fault-Returned p kva mem' allowed away found free bytes mapped words outside =
      let q =
        swap_page_in-PageIn sd vm p kva mem' free mapped words outside
          (alloc_frame _ mem' kva bytes free) in
      record {
        after = q.after;
        is_some = rw (handle_page_fault, not_null, allowed, away, found, q.is_some) refl;
        page_in = rw q.is_some at q;
      }

  -- The three faults on an entry that is zero.
  unmapped-is_refused :
      (code : ℕ) → (code ≡ 12) ⊎ (code ≡ 13) ⊎ (code ≡ 15) → is_refused 0 code ≡ true
  unfolding is_refused get_attribute
  unmapped-is_refused code h =
      ground (arith, h, zero-bit_and page_exec, zero-bit_and page_read, zero-bit_and page_write)

  -- A page fault of an instruction, a load or a store at an address that is not 0, whose page
  -- tables exist and whose entry is 0, ends the task.
  pub handle_page_fault-exited :
      {pte : ℕ}
      → uva2pte vm.words stval task.pgdir ≡ some pte
      → vm.words pte ≡ 0
      → (scause % 2 ^ 63 ≡ 12) ⊎ (scause % 2 ^ 63 ≡ 13) ⊎ (scause % 2 ^ 63 ≡ 15)
      → handle_page_fault sd task stval scause vm ≡ some exited
  unfolding handle_page_fault check_mprotect
  handle_page_fault-exited {pte} walk zero_entry code =
      let e : check_mprotect vm.words task stval scause ≡ true =
        rw (check_mprotect, walk, zero_entry) (unmapped-is_refused (scause % 2 ^ 63) code) in
      rw (handle_page_fault, not_null, e) refl
