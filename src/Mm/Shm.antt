-- ===== src/Mm/Shm.antt =====
-- Shared pages of kernel/mm/mm.c: allocFreeUva, init_shmpage, shm_page_get and shm_page_dt.
pub mod Attach
pub mod Detach
use oslab_2024fall.Prelude.{
  ℕ, zero, suc, ◌+◌, ◌-◌, ◌*◌, ◌/◌, ◌%◌, ◌^◌, Bool, true, false, Option, none, some, ◌==◌, ◌&&◌,
  erase, if◌then◌else◌,
}
use oslab_2024fall.Prelude.Maybe.{◌>>=◌}
use oslab_2024fall.Prelude.Table.{update}
use oslab_2024fall.Prelude.Seq.{first_from}
use oslab_2024fall.Mm.Bitmap.{unmark_page_free}
use oslab_2024fall.Mm.PageNode.{
  Mem, PageNode, page_size, user_mem_base, page_idx_of, deactivate, search_list_node,
}
use oslab_2024fall.Mm.Pte.{Words, clear_attribute, get_pa, pa2kva, kva2pa, page_present}
use oslab_2024fall.Mm.Walk.{uva2pte}
use oslab_2024fall.Mm.Swap.{SwapCard, Vm}
use oslab_2024fall.Mm.Paging.{Task, round, alloc_page_helper, umap_page}

abbrev pub shm_page_num : ℕ
shm_page_num = 16

abbrev pub user_stack_addr : ℕ
user_stack_addr = 0xf00010000

pub data ShmStatus : Type 0 where
  shm_unused : ShmStatus
  shm_using : ShmStatus

pub record ShmPage : Type 0 where
  pub status : ShmStatus
  pub kva : ℕ
  pub key : ℕ
  pub user_num : ℕ

-- The memory, the table of shared pages and userMemCurr.
pub record Shm (D : Type 0) : Type 0 where
  pub vm : Vm D
  pub shm_pages : ℕ → ShmPage
  pub user_mem_curr : ℕ

abbrev pub is_using : ShmStatus → Bool
is_using shm_unused = false
is_using shm_using = true

-- The address, and userMemCurr after it.
unfoldable pub alloc_free_uva : ℕ → ℕ → ℕ × ℕ
alloc_free_uva num_page user_mem_curr =
    (round user_mem_curr, (round user_mem_curr + num_page * page_size) % 2 ^ 64)

-- The loop of init_shmpage, on the pages below `n`; kva keeps its value.
unfoldable pub init_shmpage_upto : ℕ → (ℕ → ShmPage) → ℕ → ShmPage
init_shmpage_upto zero pages = pages
init_shmpage_upto (suc n) pages =
    let before = init_shmpage_upto n pages in
    update before n (record (before n) { key = 0; status = shm_unused; user_num = 0 })

unfoldable pub init_shmpage : (ℕ → ShmPage) → ℕ → ShmPage
unfolding init_shmpage_upto
init_shmpage pages = init_shmpage_upto shm_page_num pages

-- do uva = allocFreeUva(1); while (uva2pte(uva, pgdir) != NULL), on fuel.
unfoldable pub unmapped_uva : ℕ → Words → ℕ → ℕ → Option (ℕ × ℕ)
unmapped_uva zero words pgdir curr = none
unmapped_uva (suc fuel) words pgdir curr =
    let (uva, curr') = alloc_free_uva 1 curr in
    let rest = unmapped_uva fuel words pgdir curr' in
    elim (uva2pte words uva pgdir) [ none ↦ some (uva, curr') | some pte ↦ rest ]

-- The page in use at an address or under a key, and the first that is not in use.
abbrev pub using_key : (ℕ → ShmPage) → ℕ → ℕ → Bool
using_key pages key i = is_using (pages i).status && (pages i).key == key

abbrev pub using_kva : (ℕ → ShmPage) → ℕ → ℕ → Bool
using_kva pages kva i = is_using (pages i).status && (pages i).kva == kva

abbrev pub is_unused : (ℕ → ShmPage) → ℕ → Bool
is_unused pages i = elim (pages i).status [ shm_unused ↦ true | shm_using ↦ false ]

module _ {D : Type 0} (sd : SwapCard D) (running : Task) where
  -- The key is in use: the page is mapped once more.
  unfoldable pub attach_used : ℕ → ℕ → Shm D → Option (ℕ × Shm D)
  attach_used fuel i s = do
    (uva, curr) ← unmapped_uva fuel s.vm.words running.pgdir s.user_mem_curr
    vm ← umap_page sd running uva (kva2pa (s.shm_pages i).kva) running.pgdir running s.vm
    let page = record (s.shm_pages i) { user_num = (s.shm_pages i).user_num + 1 }
    some (uva, record { vm = vm; shm_pages = update s.shm_pages i page; user_mem_curr = curr })

  -- The key is new: a page is allocated for it.
  unfoldable pub attach_new : ℕ → ℕ → ℕ → Shm D → Option (ℕ × Shm D)
  attach_new fuel key i s = do
    (uva, curr) ← unmapped_uva fuel s.vm.words running.pgdir s.user_mem_curr
    (kva, vm) ← alloc_page_helper sd running uva running.pgdir running s.vm
    let page : ShmPage = record {
      status = shm_using;
      kva = kva;
      key = key;
      user_num = (s.shm_pages i).user_num + 1;
    }
    some (uva, record { vm = vm; shm_pages = update s.shm_pages i page; user_mem_curr = curr })

  -- With every page in use the source writes behind the table; the model has no result then.
  unfoldable pub shm_page_get : ℕ → ℕ → Shm D → Option (ℕ × Shm D)
  shm_page_get fuel key s = elim (first_from (using_key s.shm_pages key) shm_page_num 0) [
    | some i ↦ attach_used fuel i s
    | none ↦ first_from (is_unused s.shm_pages) shm_page_num 0 >>= λ i. attach_new fuel key i s
  ]

  unfoldable pub delete_mem_page : ℕ → Mem → Mem
  delete_mem_page vpn mem = elim (search_list_node mem.pn_list mem.user_page_mem vpn running.pid) [
    | none ↦ mem
    | some p ↦
        let freed = record mem {
          user_bitmap =
              unmark_page_free (page_idx_of (mem.pn_list p).addr user_mem_base) mem.user_bitmap;
        } in
        record (deactivate p freed) { user_page_mem = erase p mem.user_page_mem }
  ]

  unfoldable pub delete_uva_page : ℕ → Mem → Mem
  unfolding delete_mem_page
  delete_uva_page vpn mem =
      let left = delete_mem_page vpn mem in
      elim (search_list_node left.pn_list left.user_page_sd vpn running.pid) [
        | none ↦ left
        | some p ↦ record (deactivate p left) { user_page_sd = erase p left.user_page_sd }
      ]

  -- One user less; the last one frees the page of the table.
  unfoldable pub drop_user : ShmPage → ShmPage
  drop_user page =
      let left = (page.user_num + 2 ^ 32 - 1) % 2 ^ 32 in
      if left == 0
      then record { status = shm_unused; kva = 0; key = 0; user_num = 0 }
      else record page { user_num = left }

  -- The source reads through a null entry when the address is not mapped; the model has no result.
  unfoldable pub shm_page_dt : ℕ → Shm D → Option (Shm D)
  shm_page_dt addr s =
      let uva = addr % 2 ^ 39 in
      do
        pte ← uva2pte s.vm.words uva running.pgdir
        let kva = pa2kva (get_pa (s.vm.words pte))
        let pages = s.shm_pages
        some (elim (first_from (using_kva pages kva) shm_page_num 0) [
          | none ↦ s
          | some i ↦ record s {
            vm = record s.vm {
              mem = delete_uva_page (uva / page_size * page_size) s.vm.mem;
              words = update s.vm.words pte (clear_attribute (s.vm.words pte) page_present);
            };
            shm_pages = update pages i (drop_user (pages i));
          }
        ])
