-- ===== src/Mm/Shm/Detach.antt =====
-- What shm_page_dt does to a page that others use.
use oslab_2024fall.Prelude.{
  ℕ, ◌+◌, ◌-◌, ◌*◌, ◌/◌, ◌%◌, ◌^◌, ◌<◌, ◌≡◌, refl, true, false, Option, some, arith, Option-cases,
  inl, inr,
}
use oslab_2024fall.Prelude.Seq.{first_from, first_from-some}
use oslab_2024fall.Prelude.Table.{update}
use oslab_2024fall.Mm.Bitmap.{IsBytes, is_allocated}
use oslab_2024fall.Mm.Bitmap.Search.{is_allocated-unmark}
use oslab_2024fall.Mm.PageNode.{
  Mem, page_size, user_mem_base, page_idx_of, search_list_node, deactivate,
}
use oslab_2024fall.Mm.Pte.{get_pa, pa2kva, clear_attribute, page_present}
use oslab_2024fall.Mm.Walk.{uva2pte}
use oslab_2024fall.Mm.Swap.{SwapCard}
use oslab_2024fall.Mm.Paging.{Task}
use oslab_2024fall.Mm.Shm.{
  Shm, shm_page_num, is_using, using_kva, delete_mem_page, delete_uva_page, drop_user, shm_page_dt,
}

-- The page has one user less and stays in the table, and the allocator may hand it out again.
pub record FreedInUse {D : Type 0} (i frame : ℕ) (s : Shm D) (r : Option (Shm D)) : Type 0 where
  pub after : Shm D
  pub is_some : r ≡ some after
  pub still_using : is_using (after.shm_pages i).status ≡ true
  pub users : (after.shm_pages i).user_num + 1 ≡ (s.shm_pages i).user_num
  pub free : is_allocated after.vm.mem.user_bitmap frame ≡ false

module _ {D : Type 0} (sd : SwapCard D) (running : Task) where
  delete_uva_page-bitmap :
      (vpn : ℕ) (mem : Mem)
      → (delete_uva_page sd running vpn mem).user_bitmap
        ≡ (delete_mem_page sd running vpn mem).user_bitmap
  unfolding delete_uva_page deactivate
  delete_uva_page-bitmap vpn mem =
      let left = delete_mem_page sd running vpn mem in
      elim (Option-cases (search_list_node left.pn_list left.user_page_sd vpn running.pid)) [
        | inl e ↦ rw (delete_uva_page, e) refl
        | inr (p, e) ↦ rw (delete_uva_page, e) refl
      ]

  module _ (s : Shm D) (addr i p : ℕ) {pte : ℕ}
      (walk : uva2pte s.vm.words (addr % 2 ^ 39) running.pgdir ≡ some pte)
      (shared : first_from (using_kva s.shm_pages (pa2kva (get_pa (s.vm.words pte)))) shm_page_num 0
        ≡ some i)
      (recorded : search_list_node s.vm.mem.pn_list s.vm.mem.user_page_mem
          (addr % 2 ^ 39 / page_size * page_size)
          running.pid
        ≡ some p)
      (bytes : IsBytes s.vm.mem.user_bitmap) where
    vpn : ℕ
    vpn = addr % 2 ^ 39 / page_size * page_size

    detached : Shm D
    detached = record s {
      vm = record s.vm {
        mem = delete_uva_page sd running vpn s.vm.mem;
        words = update s.vm.words pte (clear_attribute (s.vm.words pte) page_present);
      };
      shm_pages = update s.shm_pages i (drop_user sd running (s.shm_pages i));
    }

    shm_page_dt-detached : shm_page_dt sd running addr s ≡ some detached
    unfolding shm_page_dt detached vpn
    shm_page_dt-detached = rw (shm_page_dt, walk, shared) refl

    detached-free :
        is_allocated detached.vm.mem.user_bitmap
          (page_idx_of (s.vm.mem.pn_list p).addr user_mem_base)
        ≡ false
    unfolding detached delete_mem_page deactivate vpn
    detached-free =
        let frame = page_idx_of (s.vm.mem.pn_list p).addr user_mem_base in
        rw (delete_uva_page-bitmap vpn s.vm.mem, delete_mem_page, recorded)
          (ground (arith, is_allocated-unmark s.vm.mem.user_bitmap frame frame bytes))

    -- When the address leads to a shared page that the caller has a node in memory for and
    -- that more than one attachment uses, shm_page_dt leaves the page in use with one user
    -- less, and the user bitmap marks the page of the node as free. The user bitmap is made
    -- of bytes and the number of users fits an int.
    pub shm_page_dt-FreedInUse :
        1 < (s.shm_pages i).user_num
        → (s.shm_pages i).user_num < 2 ^ 31
        → FreedInUse i
            (page_idx_of (s.vm.mem.pn_list p).addr user_mem_base)
            s
            (shm_page_dt sd running addr s)
    unfolding detached drop_user
    shm_page_dt-FreedInUse others fit =
        let found =
          first_from-some (using_kva s.shm_pages (pa2kva (get_pa (s.vm.words pte)))) shm_page_num 0
            shared in
        let in_use : is_using (s.shm_pages i).status ≡ true = ground (arith, found.0) in
        let left : ((s.shm_pages i).user_num + 2 ^ 32 - 1) % 2 ^ 32 ≡ (s.shm_pages i).user_num - 1 =
          omega arith in
        record {
          after = detached;
          is_some = shm_page_dt-detached;
          still_using = ground (arith, in_use);
          users = ground (arith, left);
          free = detached-free;
        }
