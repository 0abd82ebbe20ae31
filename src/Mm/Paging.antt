-- ===== src/Mm/Paging.antt =====
-- create_PageNode, alloc_page_helper and umap_page of kernel/mm/mm.c, and kernel/mm/ioremap.c.
pub mod Leaf
use oslab_2024fall.Prelude.{
  ℕ, zero, suc, ◌+◌, ◌-◌, ◌*◌, ◌/◌, ◌%◌, ◌^◌, Bool, true, false, Option, none, some, List, [], ◌∷◌,
  ◌++◌, ◌==◌, leb, not, if◌then◌else◌,
}
use oslab_2024fall.Prelude.Maybe.{◌>>=◌, ◌>>◌, assert}
use oslab_2024fall.Prelude.Table.{update}
use oslab_2024fall.Mm.PageNode.{Mem, PageNode, pn_active, page_size, get_free_page_node}
use oslab_2024fall.Mm.Pte.{
  Words, set_attribute, clear_attribute, set_pfn, kva2pa, pa2kva, clear_pgdir, page_present,
  user_page_bits,
}
use oslab_2024fall.Mm.Walk.{masked, vpn2_of, vpn1_of, vpn0_of, entry_at, table_of, kva2pte, uva2pte}
use oslab_2024fall.Mm.Swap.{
  SwapCard, Vm, set_node, alloc_kernel_page_or_swap, alloc_user_page_or_swap,
}

abbrev pub pgdir_va : ℕ
pgdir_va = 0xffffffc051000000

-- What the memory manager reads of a PCB.
pub record Task : Type 0 where
  pub pid : ℕ
  pub pgdir : ℕ
  pub brk : ℕ

-- A null pointer is the address 0.
abbrev pub or_null : Option ℕ → ℕ
or_null none = 0
or_null (some a) = a

-- The end of the addresses for devices.
abbrev pub io_addr_end : ℕ
io_addr_end = 0xffffffe400000000

-- ROUNDDOWN and ROUND to pages, on uint64_t.
abbrev pub rounddown : ℕ → ℕ
rounddown a = a / page_size * page_size

abbrev pub round : ℕ → ℕ
round a = (a + (page_size - 1)) % 2 ^ 64 / page_size * page_size

module _ {D : Type 0} (sd : SwapCard D) (running : Task) where
  -- `running` is current_running. With no free node the source writes before the array; the model
  -- has no result then.
  unfoldable pub create_page_node : ℕ → ℕ → ℕ → Task → Vm D → Option (Vm D)
  create_page_node kva uva pgdir pcb vm = do
    assert (not (uva == 0))
    i ← get_free_page_node vm.mem
    let node = record (vm.mem.pn_list i) {
      status = pn_active;
      addr = kva;
      pid = pcb.pid;
      uva = uva;
    }
    some (
        if uva == kva
        then record vm {
          mem =
              record (set_node sd i
                (record node { pte_entry = or_null (kva2pte vm.words kva pgdir running.pgdir) })
                vm.mem) { kernel_page = vm.mem.kernel_page ++ i ∷ [] };
        }
        else record vm {
          mem =
              record (set_node sd i
                (record node { pte_entry = or_null (uva2pte vm.words uva pgdir) }) vm.mem) {
                  user_page_mem = vm.mem.user_page_mem ++ i ∷ [];
                };
        })

  -- A missing table is allocated, recorded if it belongs to a process, linked and cleared.
  unfoldable pub grow_table : Bool → ℕ → Task → Vm D → Option (Vm D)
  grow_table recorded entry pcb vm =
      let grown = (do
        (kva, vm1) ← alloc_kernel_page_or_swap sd vm
        vm2 ← (if recorded then create_page_node kva kva pgdir_va pcb vm1 else some vm1)
        let linked = set_attribute (set_pfn (vm2.words entry) (kva2pa kva / 2 ^ 12)) page_present
        some (record vm2 { words = clear_pgdir kva (update vm2.words entry linked) })) in
      if vm.words entry == 0 then grown else some vm

  -- The entry of the last level for an address, with the tables on the way.
  unfoldable pub leaf_of : Bool → ℕ → ℕ → Task → Vm D → Option (ℕ × Vm D)
  leaf_of recorded va pgdir pcb vm = do
    let e2 = entry_at pgdir (vpn2_of va)
    vm1 ← grow_table recorded e2 pcb vm
    let e1 = entry_at (table_of (vm1.words e2)) (vpn1_of va)
    vm2 ← grow_table recorded e1 pcb vm1
    some (entry_at (table_of (vm2.words e1)) (vpn0_of va), vm2)

  -- set_pfn and set_attribute on the entry of a page.
  unfoldable pub set_leaf : ℕ → ℕ → Vm D → Vm D
  set_leaf entry pfn vm = record vm {
    words = update vm.words entry (set_attribute (set_pfn (vm.words entry) pfn) user_page_bits);
  }

  unfoldable pub alloc_page_helper : ℕ → ℕ → Task → Vm D → Option (ℕ × Vm D)
  alloc_page_helper va pgdir pcb vm = do
    (entry, vm1) ← leaf_of true va pgdir pcb vm
    (kva, vm2) ← alloc_user_page_or_swap sd vm1
    vm3 ← create_page_node kva (masked va) pcb.pgdir pcb vm2
    some (kva, set_leaf entry (kva2pa kva / 2 ^ 12) vm3)

  unfoldable pub umap_page : ℕ → ℕ → ℕ → Task → Vm D → Option (Vm D)
  umap_page va pa pgdir pcb vm = do
    (entry, vm1) ← leaf_of true va pgdir pcb vm
    vm2 ← create_page_node (pa2kva pa) (masked va) pcb.pgdir pcb vm1
    some (set_leaf entry (pa / 2 ^ 12) vm2)

  unfoldable pub iomap_page : ℕ → ℕ → ℕ → Vm D → Option (Vm D)
  iomap_page va pa pgdir vm = do
    (entry, vm1) ← leaf_of false va pgdir running vm
    some (set_leaf entry (pa / 2 ^ 12) vm1)

  -- The loop of ioremap, `n` pages from `pa` on; io_base moves along.
  unfoldable pub iomap_pages : ℕ → ℕ → ℕ → Vm D → Option (ℕ × Vm D)
  iomap_pages zero pa io_base vm = some (io_base, vm)
  iomap_pages (suc n) pa io_base vm = iomap_page io_base pa pgdir_va vm >>= λ vm1.
      iomap_pages n (pa + page_size) (io_base + page_size) vm1

  -- The result is the address, 0 when the region is full, with the new io_base.
  unfoldable pub ioremap : ℕ → ℕ → ℕ → Vm D → Option (ℕ × ℕ × Vm D)
  ioremap phys_addr size io_base vm =
      let pa_start = rounddown phys_addr in
      let pa_end = round (phys_addr + size) in
      let mapped = iomap_pages ((pa_end - pa_start) / page_size) pa_start io_base vm in
      if leb ((io_base + (pa_end + 2 ^ 64 - pa_start) % 2 ^ 64) % 2 ^ 64) io_addr_end
      then (mapped >>= λ (base, vm1). some (io_base, base, vm1))
      else some (0, io_base, vm)

  unfoldable pub iounmap : ℕ → Vm D → Option (Vm D)
  iounmap io_addr vm = do
    pte ← uva2pte vm.words io_addr running.pgdir
    some (record vm { words = update vm.words pte (clear_attribute (vm.words pte) page_present) })
