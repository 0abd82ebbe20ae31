-- ===== src/Mm/Swap.antt =====
-- swap_page_out and swap_page_in of kernel/mm/mm.c, and the allocators that call them.
pub mod Clock
pub mod Moves
pub mod RoundTrip
use oslab_2024fall.Prelude.{
  ℕ, zero, suc, ◌+◌, ◌*◌, ◌/◌, ◌-◌, ◌^◌, ◌≤◌, ◌<◌, ◌≡◌, ◌⊎◌, Bool, true, false, Option, none, some,
  List, [], ◌∷◌, ◌++◌, ◌==◌, ◌&&◌, not, leb, ltb, if◌then◌else◌, erase, length,
}
use oslab_2024fall.Prelude.Maybe.{◌>>=◌, ◌>>◌, assert}
use oslab_2024fall.Prelude.Table.{update}
use oslab_2024fall.Mm.PageNode.{Mem, PageNode, page_size}
use oslab_2024fall.Mm.Alloc.{alloc_kernel_page, alloc_user_page}
use oslab_2024fall.Mm.Pte.{
  Words, get_attribute, set_attribute, clear_attribute, set_pfn, kva2pa, page_present,
  user_page_bits,
}

-- The SD card behind sd_read and sd_write, a page of 512 words in 8 sectors at a time.
pub record SwapCard (D : Type 0) : Type 0 where
  pub read : D → ℕ → ℕ → ℕ
  pub write : D → ℕ → (ℕ → ℕ) → D
  pub read_same :
      (d : D) (sector : ℕ) (page : ℕ → ℕ) (i : ℕ)
      → i < 512
      → read (write d sector page) sector i ≡ page i
  pub read_other :
      (d : D) (sector t : ℕ) (page : ℕ → ℕ) (i : ℕ)
      → (sector + 8 ≤ t) ⊎ (t + 8 ≤ sector)
      → read (write d sector page) t i ≡ read d t i

-- `words` is the memory at kernel addresses.
pub record Vm (D : Type 0) : Type 0 where
  pub mem : Mem
  pub words : Words
  pub disk : D
  pub sd_sector_end : ℕ

-- _PAGE_ACCESSED | _PAGE_DIRTY
abbrev pub used_bits : ℕ
used_bits = 0xc0

-- forward_list_head: the first node goes to the end, if there are two.
unfoldable pub forward_list_head : List ℕ → List ℕ
forward_list_head [] = []
forward_list_head (p ∷ []) = p ∷ []
forward_list_head (p ∷ q ∷ rest) = q ∷ (rest ++ p ∷ [])

abbrev pub is_used : (ℕ → PageNode) → Words → ℕ → Bool
is_used pn_list words p = not (get_attribute (words (pn_list p).pte_entry) used_bits == 0)

-- The loop that looks for a page that was not used, on fuel.
unfoldable pub clock : ℕ → (ℕ → PageNode) → Words → List ℕ → Option (Words × List ℕ)
clock zero pn_list words ring = none
clock (suc fuel) pn_list words [] = none
clock (suc fuel) pn_list words (p ∷ rest) =
    let pte = (pn_list p).pte_entry in
    let next =
      clock fuel pn_list (update words pte (clear_attribute (words pte) used_bits))
        (forward_list_head (p ∷ rest)) in
    if is_used pn_list words p then next else some (words, p ∷ rest)

module _ {D : Type 0} (sd : SwapCard D) where
  abbrev pub set_node : ℕ → PageNode → Mem → Mem
  set_node p node mem = record mem { pn_list = update mem.pn_list p node }

  -- What follows once the page is chosen, the first of the ring.
  unfoldable pub evict_page : ℕ → List ℕ → Words → Vm D → Option (ℕ × Vm D)
  evict_page p rest words vm =
      let node = vm.mem.pn_list p in
      let kva = node.addr in
      let words' =
        update words node.pte_entry (clear_attribute (words node.pte_entry) page_present) in
      do
        assert (not (node.uva == 0))
        some (
          kva,
          record vm {
            words = words';
            disk = sd.write vm.disk vm.sd_sector_end (λ i. words' (kva + 8 * i));
            sd_sector_end = vm.sd_sector_end + 8;
            mem = record (set_node p (record node { addr = vm.sd_sector_end }) vm.mem) {
              user_page_mem = rest;
              user_page_sd = vm.mem.user_page_sd ++ p ∷ [];
            };
          },
        )

  unfoldable pub swap_page_out : Vm D → Option (ℕ × Vm D)
  unfolding evict_page
  swap_page_out vm =
      clock (suc (length vm.mem.user_page_mem)) vm.mem.pn_list vm.words vm.mem.user_page_mem
      >>= λ (words, ring). elim ring [ [] ↦ none | p ∷ rest ↦ evict_page p rest words vm ]

  -- alloc_kernel_page and alloc_user_page with the page that swap_page_out frees when there is none.
  unfoldable pub alloc_kernel_page_or_swap : Vm D → Option (ℕ × Vm D)
  alloc_kernel_page_or_swap vm =
      let (found, mem) = alloc_kernel_page vm.mem in
      elim found [ some kva ↦ some (kva, record vm { mem = mem }) | none ↦ swap_page_out vm ]

  unfoldable pub alloc_user_page_or_swap : Vm D → Option (ℕ × Vm D)
  alloc_user_page_or_swap vm =
      let (found, mem) = alloc_user_page vm.mem in
      elim found [ some kva ↦ some (kva, record vm { mem = mem }) | none ↦ swap_page_out vm ]

  -- A page of the card is read to an address.
  abbrev pub load_page : ℕ → (ℕ → ℕ) → Words → Words
  load_page kva page words a =
      if leb kva a && ltb a (kva + page_size) then page ((a - kva) / 8) else words a

  unfoldable pub swap_page_in : ℕ → Vm D → Option (Vm D)
  swap_page_in p vm =
      let unlinked = record vm {
        mem = record vm.mem { user_page_sd = erase p vm.mem.user_page_sd };
      } in
      do
        assert (not ((vm.mem.pn_list p).uva == 0))
        (kva, vm1) ← alloc_user_page_or_swap unlinked
        let node = vm1.mem.pn_list p
        let loaded = load_page kva (sd.read vm1.disk node.addr) vm1.words
        let entry =
            set_attribute (set_pfn (loaded node.pte_entry) (kva2pa kva / 2 ^ 12)) user_page_bits
        some (record vm1 {
          words = update loaded node.pte_entry entry;
          mem = record (set_node p (record node { addr = kva }) vm1.mem) {
            user_page_mem = vm1.mem.user_page_mem ++ p ∷ [];
          };
        })
