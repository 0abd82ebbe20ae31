-- ===== src/Mm/Swap/RoundTrip.antt =====
-- A page that was swapped out comes back with its bytes.
use oslab_2024fall.Prelude.{
  ℕ, ◌+◌, ◌*◌, ◌/◌, ◌^◌, ◌≤◌, ◌<◌, ◌≡◌, ◌≢◌, Option, some, arith, erase, ◌⊎◌, ◌∙◌, ap,
}
use oslab_2024fall.Mm.PageNode.{Mem, page_size, user_mem_base}
use oslab_2024fall.Mm.Bitmap.{IsBytes}
use oslab_2024fall.Mm.Alloc.{alloc_user_page, alloc_user_page-says, free_user_page_num}
use oslab_2024fall.Mm.Pte.{kva2pa}
use oslab_2024fall.Mm.Swap.{SwapCard, Vm, swap_page_in}
use oslab_2024fall.Mm.Swap.Moves.{IsWords, PageOut, PageIn, swap_page_in-PageIn}

user_frame :
    (kva : ℕ)
    → user_mem_base ≤ kva
    → kva < user_mem_base + page_size * free_user_page_num
    → kva2pa kva / 2 ^ 12 < 2 ^ 44
unfolding kva2pa
user_frame kva lo hi = omega arith

pub alloc_frame :
    (m m' : Mem) (kva : ℕ)
    → IsBytes m.user_bitmap
    → alloc_user_page m ≡ (some kva, m')
    → kva2pa kva / 2 ^ 12 < 2 ^ 44
alloc_frame m m' kva bytes e =
    let says = rw (ap (λ r. r.0) e) at ((alloc_user_page-says m bytes).0) in
    user_frame kva (says.0) (says.1)

module _ {D : Type 0} (sd : SwapCard D) where
  -- After swap_page_out moved a page to the card, and when the user bitmap has a free page,
  -- swap_page_in of its node takes it out of the ring of the card and puts it at the tail of
  -- the ring in memory, at a page that holds the 512 words that the page held when it left,
  -- with the entry of the page leading to it. The words fit 64 bits, the bitmap is made of
  -- bytes, the user address is not 0, and the entry of the page does not stand in the page
  -- that is allocated.
  pub swap_page_in-swap_page_out :
      (vm : Vm D) {r : Option (ℕ × Vm D)} (o : PageOut sd vm r) (kva : ℕ) (mem' : Mem)
      → alloc_user_page
          (record o.after.mem { user_page_sd = erase o.page o.after.mem.user_page_sd })
        ≡ (some kva, mem')
      → IsBytes vm.mem.user_bitmap
      → IsWords vm.words
      → (vm.mem.pn_list o.page).uva ≢ 0
      → ((vm.mem.pn_list o.page).pte_entry < kva)
        ⊎ (kva + page_size ≤ (vm.mem.pn_list o.page).pte_entry)
      → PageIn sd o.page kva
          (λ i. o.after.words ((vm.mem.pn_list o.page).addr + 8 * i))
          o.after
          (swap_page_in sd o.page o.after)
  swap_page_in-swap_page_out vm o kva mem' free bytes words mapped outside =
      let (same_uva, same_entry) = o.same_node in
      let bytes' : IsBytes o.after.mem.user_bitmap = rw (o.bitmaps.1) bytes in
      let q =
        swap_page_in-PageIn sd o.after o.page kva mem' free (rw same_uva mapped) (o.fits words)
          (rw same_entry outside) (alloc_frame _ mem' kva bytes' free) in
      record {
        after = q.after;
        is_some = q.is_some;
        unlinked = q.unlinked;
        in_memory = q.in_memory;
        address = q.address;
        loaded = λ i lt. q.loaded i lt ∙ ap (λ s. sd.read o.after.disk s i) o.sector ∙ o.saved i lt;
        leads = q.leads;
        present = q.present;
        others = q.others;
      }
