-- ===== src/Mm/Swap/Moves.antt =====
-- A page on its way to the SD card and back.
use oslab_2024fall.Prelude.{
  ℕ, suc, ◌+◌, ◌-◌, ◌*◌, ◌/◌, ◌^◌, ◌≤◌, ◌<◌, ◌≡◌, ◌≢◌, refl, true, false, Option, some, [], ◌∷◌,
  ◌++◌, ◌==◌, ◌&&◌, leb, ltb, arith, has, length, erase, inr, ◌⊎◌, ◌∙◌, ap,
}
use oslab_2024fall.Prelude.Table.{update, update_self, update_ne}
use oslab_2024fall.Prelude.Digits.{bit_and-not}
use oslab_2024fall.Mm.PageNode.{Mem, page_size}
use oslab_2024fall.Mm.Alloc.{alloc_user_page, alloc_user_page-others}
use oslab_2024fall.Mm.Pte.{
  Words, get_attribute, clear_attribute, set_attribute, set_pfn, get_pfn, kva2pa, page_present,
  user_page_bits,
}
use oslab_2024fall.Mm.Pte.Fields.{clear_attribute_lem, set_attribute_lem, get_pfn-set_pfn}
use oslab_2024fall.Mm.Swap.{
  SwapCard, Vm, clock, used_bits, evict_page, swap_page_out, swap_page_in, alloc_user_page_or_swap,
  load_page,
}
use oslab_2024fall.Mm.Swap.Clock.{Chosen, clock-Chosen}

-- Every word fits 64 bits.
abbrev pub IsWords : Words → Type 0
IsWords words = (a : ℕ) → words a < 2 ^ 64

module _ {D : Type 0} (sd : SwapCard D) where
  -- A page left the memory: it is on the card, and its node in the ring of the card's pages.
  pub record PageOut (vm : Vm D) (r : Option (ℕ × Vm D)) : Type 0 where
    pub after : Vm D
    pub page : ℕ
    pub is_some : r ≡ some ((vm.mem.pn_list page).addr, after)
    pub members : (x : ℕ) → has x (page ∷ after.mem.user_page_mem) ≡ has x vm.mem.user_page_mem
    pub count : length after.mem.user_page_mem + 1 ≡ length vm.mem.user_page_mem
    pub on_card : after.mem.user_page_sd ≡ vm.mem.user_page_sd ++ page ∷ []
    pub sector : (after.mem.pn_list page).addr ≡ vm.sd_sector_end
    pub same_node :
        ((after.mem.pn_list page).uva ≡ (vm.mem.pn_list page).uva)
        × ((after.mem.pn_list page).pte_entry ≡ (vm.mem.pn_list page).pte_entry)
    pub fits : IsWords vm.words → IsWords after.words
    pub next_sector : after.sd_sector_end ≡ vm.sd_sector_end + 8
    pub other_nodes : (i : ℕ) → i ≢ page → after.mem.pn_list i ≡ vm.mem.pn_list i
    pub absent : get_attribute (after.words (vm.mem.pn_list page).pte_entry) page_present ≡ 0
    pub saved :
        (i : ℕ)
        → i < 512
        → sd.read after.disk vm.sd_sector_end i ≡ after.words ((vm.mem.pn_list page).addr + 8 * i)
    pub older : (t i : ℕ) → t + 8 ≤ vm.sd_sector_end → sd.read after.disk t i ≡ sd.read vm.disk t i
    pub other_words :
        (a : ℕ)
        → a ≢ (vm.mem.pn_list page).pte_entry
        → (after.words a ≡ vm.words a) ⊎ (after.words a ≡ clear_attribute (vm.words a) used_bits)
    pub bitmaps :
        (after.mem.kernel_bitmap ≡ vm.mem.kernel_bitmap)
        × (after.mem.user_bitmap ≡ vm.mem.user_bitmap)

  clear-absent : (e : ℕ) → get_attribute (clear_attribute e page_present) page_present ≡ 0
  unfolding get_attribute clear_attribute
  clear-absent e = bit_and-not 64 e page_present (omega arith)

  module _ (vm : Vm D)
      (c : Chosen vm.mem.pn_list vm.words vm.mem.user_page_mem
        (clock (suc (length vm.mem.user_page_mem)) vm.mem.pn_list vm.words vm.mem.user_page_mem))
      (mapped : (vm.mem.pn_list c.first).uva ≢ 0) where
    evicted_words : Words
    evicted_words =
        update c.after (vm.mem.pn_list c.first).pte_entry
          (clear_attribute (c.after (vm.mem.pn_list c.first).pte_entry) page_present)

    evicted : Vm D
    evicted = record vm {
      words = evicted_words;
      disk =
          sd.write vm.disk vm.sd_sector_end
            (λ i. evicted_words ((vm.mem.pn_list c.first).addr + 8 * i));
      sd_sector_end = vm.sd_sector_end + 8;
      mem = record vm.mem {
        pn_list =
            update vm.mem.pn_list c.first
              (record (vm.mem.pn_list c.first) { addr = vm.sd_sector_end });
        user_page_mem = c.rest;
        user_page_sd = vm.mem.user_page_sd ++ c.first ∷ [];
      };
    }

    evict_page-evicted :
        evict_page sd c.first c.rest c.after vm ≡ some ((vm.mem.pn_list c.first).addr, evicted)
    unfolding evict_page evicted evicted_words
    evict_page-evicted =
        let e : ((vm.mem.pn_list c.first).uva == 0) ≡ false = ground arith in
        rw (evict_page, e) refl

    swap_page_out-evicted : swap_page_out sd vm ≡ some ((vm.mem.pn_list c.first).addr, evicted)
    unfolding swap_page_out
    swap_page_out-evicted = rw (swap_page_out, c.is_some) evict_page-evicted

    chosen-fits : IsWords vm.words → IsWords c.after
    chosen-fits words a =
        let (x, y, z) = clear_attribute_lem (vm.words a) used_bits (words a) (omega arith) in
        ground (arith, c.cleared a, words a)

    evicted-fits : IsWords vm.words → IsWords evicted_words
    unfolding evicted_words
    evicted-fits words a =
        let e = (vm.mem.pn_list c.first).pte_entry in
        let (x, y, z) =
          clear_attribute_lem (c.after e) page_present (chosen-fits words e) (omega arith) in
        ground (arith, chosen-fits words a)

    evicted-PageOut : PageOut vm (swap_page_out sd vm)
    unfolding evicted evicted_words
    evicted-PageOut = record {
      after = evicted;
      page = c.first;
      is_some = swap_page_out-evicted;
      members = c.members;
      count = omega (arith, c.count);
      on_card = refl;
      sector = ground arith;
      same_node = (ground arith, ground arith);
      fits = evicted-fits;
      next_sector = refl;
      other_nodes = λ i ne. ground arith;
      absent = ground (arith, clear-absent (c.after (vm.mem.pn_list c.first).pte_entry));
      saved = λ i lt. sd.read_same vm.disk vm.sd_sector_end _ i lt;
      older = λ t i le. sd.read_other vm.disk vm.sd_sector_end t _ i (inr le);
      other_words = λ a ne. ground (arith, c.cleared a);
      bitmaps = (refl, refl);
    }

  -- When the ring of the user pages in memory is not empty and each of its nodes has a user
  -- address that is not 0, swap_page_out ends and returns the address of the page of one of
  -- these nodes. Its bytes are on the card at the end of the swap area, which moves on by 8
  -- sectors, and the sectors before it are unchanged. The node holds that sector and is at
  -- the tail of the ring of the pages on the card, its entry is not present, every other
  -- entry loses at most its accessed and dirty bits, the other nodes stay in the ring, and
  -- the page bitmaps are unchanged.
  pub swap_page_out-PageOut :
      (vm : Vm D)
      → 0 < length vm.mem.user_page_mem
      → ((p : ℕ) → has p vm.mem.user_page_mem ≡ true → (vm.mem.pn_list p).uva ≢ 0)
      → PageOut vm (swap_page_out sd vm)
  swap_page_out-PageOut vm ne mapped =
      let c = clock-Chosen vm.mem.pn_list vm.words vm.mem.user_page_mem ne in
      evicted-PageOut vm c (mapped c.first (ground (arith, c.members c.first)))

  -- A page is back in the memory: its bytes are those of the card, its entry leads to them, and its
  -- node is in the ring of the memory's pages.
  pub record PageIn (p kva : ℕ) (page : ℕ → ℕ) (vm : Vm D) (r : Option (Vm D)) : Type 0 where
    pub after : Vm D
    pub is_some : r ≡ some after
    pub unlinked : after.mem.user_page_sd ≡ erase p vm.mem.user_page_sd
    pub in_memory : after.mem.user_page_mem ≡ vm.mem.user_page_mem ++ p ∷ []
    pub address : (after.mem.pn_list p).addr ≡ kva
    pub loaded : (i : ℕ) → i < 512 → after.words (kva + 8 * i) ≡ page i
    pub leads : get_pfn (after.words (vm.mem.pn_list p).pte_entry) ≡ kva2pa kva / 2 ^ 12
    pub present :
        get_attribute (after.words (vm.mem.pn_list p).pte_entry) user_page_bits ≡ user_page_bits
    pub others :
        (a : ℕ)
        → a ≢ (vm.mem.pn_list p).pte_entry
        → (a < kva) ⊎ (kva + page_size ≤ a)
        → after.words a ≡ vm.words a

  module _ (vm : Vm D) (p kva : ℕ) (mem' : Mem)
      (free : alloc_user_page (record vm.mem { user_page_sd = erase p vm.mem.user_page_sd })
        ≡ (some kva, mem'))
      (mapped : (vm.mem.pn_list p).uva ≢ 0) (words : IsWords vm.words)
      (outside : ((vm.mem.pn_list p).pte_entry < kva)
        ⊎ (kva + page_size ≤ (vm.mem.pn_list p).pte_entry)) where
    alloc_same :
        (mem'.pn_list ≡ vm.mem.pn_list)
        × (mem'.user_page_sd ≡ erase p vm.mem.user_page_sd)
        × (mem'.user_page_mem ≡ vm.mem.user_page_mem)
        × (mem'.kernel_page ≡ vm.mem.kernel_page)
    alloc_same =
        rw free at
          (alloc_user_page-others (record vm.mem { user_page_sd = erase p vm.mem.user_page_sd }))

    page_words : Words
    page_words = load_page sd kva (sd.read vm.disk (vm.mem.pn_list p).addr) vm.words

    new_entry : ℕ
    new_entry =
        set_attribute (set_pfn (page_words (vm.mem.pn_list p).pte_entry) (kva2pa kva / 2 ^ 12))
          user_page_bits

    swapped_in : Vm D
    swapped_in = record vm {
      words = update page_words (vm.mem.pn_list p).pte_entry new_entry;
      mem = record mem' {
        pn_list = update vm.mem.pn_list p (record (vm.mem.pn_list p) { addr = kva });
        user_page_mem = vm.mem.user_page_mem ++ p ∷ [];
      };
    }

    swap_page_in-swapped_in : swap_page_in sd p vm ≡ some swapped_in
    unfolding swap_page_in alloc_user_page_or_swap swapped_in new_entry page_words
    swap_page_in-swapped_in =
        let e : ((vm.mem.pn_list p).uva == 0) ≡ false = ground arith in
        let (same, gone, kept, _) = alloc_same in
        rw
          (
            swap_page_in,
            alloc_user_page_or_swap,
            e,
            ap (λ r. r.0) free,
            ap (λ r. r.1) free,
            same,
            kept,
          )
          refl

    entry_kept : page_words (vm.mem.pn_list p).pte_entry ≡ vm.words (vm.mem.pn_list p).pte_entry
    unfolding page_words
    entry_kept = ground arith

    new_entry_lem :
        kva2pa kva / 2 ^ 12 < 2 ^ 44
        → (get_pfn new_entry ≡ kva2pa kva / 2 ^ 12)
          × (get_attribute new_entry user_page_bits ≡ user_page_bits)
    unfolding new_entry
    new_entry_lem small =
        let old = vm.words (vm.mem.pn_list p).pte_entry in
        let (a, b, c, d) = get_pfn-set_pfn old (kva2pa kva / 2 ^ 12) (words _) small in
        let (x, y, z) =
          set_attribute_lem (set_pfn old (kva2pa kva / 2 ^ 12)) user_page_bits d (omega arith) in
        rw entry_kept (y ∙ a, x)

    page_words_lem :
        (i : ℕ) → i < 512 → page_words (kva + 8 * i) ≡ sd.read vm.disk (vm.mem.pn_list p).addr i
    unfolding page_words
    page_words_lem i lt =
        let e : (kva + 8 * i - kva) / 8 ≡ i = omega arith in
        let h : (leb kva (kva + 8 * i) && ltb (kva + 8 * i) (kva + page_size)) ≡ true =
          ground arith in
        rw (h, e) refl

    page_words_off : (a : ℕ) → (a < kva) ⊎ (kva + page_size ≤ a) → page_words a ≡ vm.words a
    unfolding page_words
    page_words_off a off = ground arith

    pub swap_page_in-PageIn :
        kva2pa kva / 2 ^ 12 < 2 ^ 44
        → PageIn p kva (sd.read vm.disk (vm.mem.pn_list p).addr) vm (swap_page_in sd p vm)
    unfolding swapped_in
    swap_page_in-PageIn small =
        let (same, gone, kept, _) = alloc_same in
        let (leads, there) = new_entry_lem small in
        record {
          after = swapped_in;
          is_some = swap_page_in-swapped_in;
          unlinked = gone;
          in_memory = refl;
          address = ground arith;
          loaded = λ i lt.
              update_ne page_words _ (kva + 8 * i) new_entry (ground arith) ∙ page_words_lem i lt;
          leads = rw (update_self page_words (vm.mem.pn_list p).pte_entry new_entry) leads;
          present = rw (update_self page_words (vm.mem.pn_list p).pte_entry new_entry) there;
          others =
              λ a ne off. update_ne page_words _ a new_entry (ground arith) ∙ page_words_off a off;
        }
