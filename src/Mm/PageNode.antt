-- ===== src/Mm/PageNode.antt =====
-- PageNode records and their rings (include/os/mm.h, kernel/mm/mm.c), and the recycling of a
-- process' pages. A ring with a sentinel head is the list of its nodes, `head->next` first.
pub mod Recycle
pub mod Release
use oslab_2024fall.Prelude.{
  ℕ, ◌+◌, ◌-◌, ◌/◌, ◌%◌, ◌^◌, Bool, true, false, Option, none, some, List, [], ◌∷◌, ◌==◌,
  if◌then◌else◌, ◌&&◌, ltb,
}
use oslab_2024fall.Prelude.Table.{update}
use oslab_2024fall.Prelude.Seq.{first_from}
use oslab_2024fall.Mm.Bitmap.{Bitmap, unmark_page_free}

pub data PageNodeStatus : Type 0 where
  pn_inactive : PageNodeStatus
  pn_active : PageNodeStatus

-- `addr` is the union of `kva` and `sector_id`.
pub record PageNode : Type 0 where
  pub status : PageNodeStatus
  pub pte_entry : ℕ
  pub pid : ℕ
  pub addr : ℕ
  pub uva : ℕ

abbrev pub page_size : ℕ
page_size = 4096

abbrev pub init_kernel_stack : ℕ
init_kernel_stack = 0xffffffc052000000

abbrev pub user_mem_base : ℕ
user_mem_base = 0xffffffc054000000

abbrev pub page_node_maxnum : ℕ
page_node_maxnum = 0x40000

pub record Mem : Type 0 where
  pub kernel_bitmap : Bitmap
  pub user_bitmap : Bitmap
  pub pn_list : ℕ → PageNode
  pub kernel_page : List ℕ
  pub user_page_mem : List ℕ
  pub user_page_sd : List ℕ

abbrev pub is_inactive : PageNodeStatus → Bool
is_inactive pn_inactive = true
is_inactive pn_active = false

unfoldable pub get_free_page_node : Mem → Option ℕ
unfolding first_from
get_free_page_node mem = first_from (λ i. is_inactive (mem.pn_list i).status) page_node_maxnum 0

-- The first node of a ring with this address and owner.
unfoldable pub search_list_node : (ℕ → PageNode) → List ℕ → ℕ → ℕ → Option ℕ
search_list_node pn_list [] uva pid = none
search_list_node pn_list (p ∷ rest) uva pid =
    if (pn_list p).uva == uva && (pn_list p).pid == pid
    then some p
    else search_list_node pn_list rest uva pid

-- (kva - base) / PAGE_SIZE on uint64_t.
abbrev pub page_idx_of : ℕ → ℕ → ℕ
page_idx_of kva base = (kva + 2 ^ 64 - base) % 2 ^ 64 / page_size

abbrev pub free_kernel_page_num : ℕ
free_kernel_page_num = 0x2000

abbrev pub free_user_page_num : ℕ
free_user_page_num = 0x9000

-- unmark_page_free on an array with a bit for each of `page_num` pages. The source writes behind the
-- array for a larger index; no bit of the array changes then, and what is hit is not in the model.
unfoldable pub unmark_within : ℕ → ℕ → Bitmap → Bitmap
unmark_within page_num page_idx bitmap =
    if ltb page_idx page_num then unmark_page_free page_idx bitmap else bitmap

-- The page of a node in memory goes back to the bitmap that its two addresses choose.
unfoldable pub recycle_mem_page : PageNode → Mem → Mem
unfolding unmark_within
recycle_mem_page node mem =
    if node.uva == node.addr
    then record mem {
      kernel_bitmap =
          unmark_within free_kernel_page_num (page_idx_of node.addr init_kernel_stack)
            mem.kernel_bitmap;
    }
    else record mem {
      user_bitmap =
          unmark_within free_user_page_num (page_idx_of node.addr user_mem_base) mem.user_bitmap;
    }

-- `p->status = PN_INACTIVE`
unfoldable pub deactivate : ℕ → Mem → Mem
deactivate p mem = record mem {
  pn_list = update mem.pn_list p (record (mem.pn_list p) { status = pn_inactive });
}

-- The walk of recycle_node_from_list over the nodes of a ring: the nodes that stay, and the memory.
unfoldable pub recycle_nodes : ℕ → Bool → List ℕ → Mem → List ℕ × Mem
unfolding recycle_mem_page deactivate
recycle_nodes pid is_in_mem [] mem = ([], mem)
recycle_nodes pid is_in_mem (p ∷ rest) mem =
    let node = mem.pn_list p in
    let freed =
      (if is_in_mem then recycle_mem_page node (deactivate p mem) else deactivate p mem) in
    let (left, mem') = recycle_nodes pid is_in_mem rest (if node.pid == pid then freed else mem) in
    (if node.pid == pid then left else p ∷ left, mem')

unfoldable pub release_process_page : ℕ → Mem → Mem
unfolding recycle_nodes
release_process_page pid mem =
    let (kernel_left, m1) = recycle_nodes pid true mem.kernel_page mem in
    let m2 = record m1 { kernel_page = kernel_left } in
    let (user_left, m3) = recycle_nodes pid true m2.user_page_mem m2 in
    let m4 = record m3 { user_page_mem = user_left } in
    let (sd_left, m5) = recycle_nodes pid false m4.user_page_sd m4 in
    record m5 { user_page_sd = sd_left }
