-- ===== src/Mm/Paging/Leaf.antt =====
-- Mapping an address whose tables exist.
use oslab_2024fall.Prelude.{
  ℕ, ◌/◌, ◌^◌, ◌<◌, ◌≡◌, ◌≢◌, refl, Bool, false, Option, some, ◌==◌, arith, Bool-cases, inl, inr,
  ◌∙◌, ap, sym,
}
use oslab_2024fall.Prelude.Table.{update, update_self, update_ne}
use oslab_2024fall.Mm.Pte.{Words, get_pfn, get_attribute, set_attribute, set_pfn, user_page_bits}
use oslab_2024fall.Mm.Pte.Fields.{get_pfn-set_pfn, set_attribute_lem}
use oslab_2024fall.Mm.Walk.{vpn2_of, vpn1_of, vpn0_of, entry_at, table_of, uva2pte}
use oslab_2024fall.Mm.Swap.{SwapCard, Vm}
use oslab_2024fall.Mm.Swap.Moves.{IsWords}
use oslab_2024fall.Mm.Paging.{Task, grow_table, leaf_of, set_leaf, iomap_page}

-- The two entries that the walk reads on its way.
abbrev pub upper_entry : ℕ → ℕ → ℕ
upper_entry pgdir va = entry_at pgdir (vpn2_of va)

abbrev pub middle_entry : Words → ℕ → ℕ → ℕ
middle_entry words pgdir va = entry_at (table_of (words (upper_entry pgdir va))) (vpn1_of va)

-- A walk that finds an entry went through two entries that are not zero.
walk-some :
    (words : Words) (va pgdir : ℕ) {e : ℕ}
    → uva2pte words va pgdir ≡ some e
    → ((words (upper_entry pgdir va) == 0) ≡ false)
      × ((words (middle_entry words pgdir va) == 0) ≡ false)
      × (e ≡ entry_at (table_of (words (middle_entry words pgdir va))) (vpn0_of va))
unfolding uva2pte
walk-some words va pgdir h = elim (Bool-cases (words (upper_entry pgdir va) == 0)) [
  | inl z ↦ cc (rw (uva2pte, z) at h)
  | inr z ↦ elim (Bool-cases (words (middle_entry words pgdir va) == 0)) [
    | inl y ↦ cc (rw (uva2pte, z, y) at h)
    | inr y ↦ (z, y, cc (rw (uva2pte, z, y) at h))
  ]
]

walk_of :
    (words : Words) (va pgdir : ℕ)
    → (words (upper_entry pgdir va) == 0) ≡ false
    → (words (middle_entry words pgdir va) == 0) ≡ false
    → uva2pte words va pgdir
      ≡ some (entry_at (table_of (words (middle_entry words pgdir va))) (vpn0_of va))
unfolding uva2pte
walk_of words va pgdir z y = rw (uva2pte, z, y) refl

-- A write to an entry of the last level, away from the two on the way, is found by the walk.
walk-update :
    (words : Words) (va pgdir e v : ℕ)
    → uva2pte words va pgdir ≡ some e
    → e ≢ upper_entry pgdir va
    → e ≢ middle_entry words pgdir va
    → uva2pte (update words e v) va pgdir ≡ some e
walk-update words va pgdir e v h nu nm =
    let (z, y, at_e) = walk-some words va pgdir h in
    let u : update words e v (upper_entry pgdir va) ≡ words (upper_entry pgdir va) =
      update_ne words e (upper_entry pgdir va) v nu in
    let m : update words e v (middle_entry words pgdir va) ≡ words (middle_entry words pgdir va) =
      update_ne words e (middle_entry words pgdir va) v nm in
    rw (u, m) at (walk_of (update words e v) va pgdir (rw u z) (rw (u, m) y)) ∙ ap some (sym at_e)

module _ {D : Type 0} (sd : SwapCard D) (running : Task) where
  grow_table-same :
      (recorded : Bool) (entry : ℕ) (pcb : Task) (vm : Vm D)
      → (vm.words entry == 0) ≡ false
      → grow_table sd running recorded entry pcb vm ≡ some vm
  unfolding grow_table
  grow_table-same recorded entry pcb vm h = rw (grow_table, h) refl

  -- leaf_of is the walk where the tables exist, and allocates nothing.
  leaf_of-walk :
      (recorded : Bool) (va pgdir : ℕ) (pcb : Task) (vm : Vm D) {e : ℕ}
      → uva2pte vm.words va pgdir ≡ some e
      → leaf_of sd running recorded va pgdir pcb vm ≡ some (e, vm)
  unfolding leaf_of
  leaf_of-walk recorded va pgdir pcb vm h =
      let (z, y, at_e) = walk-some vm.words va pgdir h in
      rw
        (
          leaf_of,
          grow_table-same recorded (upper_entry pgdir va) pcb vm z,
          grow_table-same recorded (middle_entry vm.words pgdir va) pcb vm y,
        )
        (ap (λ a. some (a, vm)) (sym at_e))

  -- The address leads to the frame, with the bits of a user page, and no other word changed.
  pub record Mapped (va pgdir pfn e : ℕ) (vm : Vm D) (r : Option (Vm D)) : Type 0 where
    pub after : Vm D
    pub is_some : r ≡ some after
    pub walk : uva2pte after.words va pgdir ≡ some e
    pub frame : get_pfn (after.words e) ≡ pfn
    pub bits : get_attribute (after.words e) user_page_bits ≡ user_page_bits
    pub others : (a : ℕ) → a ≢ e → after.words a ≡ vm.words a
    pub same_mem : after.mem ≡ vm.mem

  set_leaf-entry :
      (vm : Vm D) (e pfn : ℕ)
      → IsWords vm.words
      → pfn < 2 ^ 44
      → (get_pfn ((set_leaf sd running e pfn vm).words e) ≡ pfn)
        × (get_attribute ((set_leaf sd running e pfn vm).words e) user_page_bits ≡ user_page_bits)
  unfolding set_leaf
  set_leaf-entry vm e pfn words small =
      let (a, b, c, d) = get_pfn-set_pfn (vm.words e) pfn (words e) small in
      let (x, y, z) = set_attribute_lem (set_pfn (vm.words e) pfn) user_page_bits d (omega arith) in
      rw (update_self vm.words e (set_attribute (set_pfn (vm.words e) pfn) user_page_bits))
        (y ∙ a, x)

  -- Where the tables on the way to an address exist and its entry is none of the two that the
  -- walk reads before it, iomap_page allocates nothing, the walk finds the same entry
  -- afterwards, this entry has the frame of the physical address and the bits of a user page,
  -- and no other word changed. The words fit 64 bits and the frame number is below 2 ^ 44.
  pub iomap_page-Mapped :
      (va pa pgdir : ℕ) (vm : Vm D) {e : ℕ}
      → IsWords vm.words
      → pa / 2 ^ 12 < 2 ^ 44
      → uva2pte vm.words va pgdir ≡ some e
      → e ≢ upper_entry pgdir va
      → e ≢ middle_entry vm.words pgdir va
      → Mapped va pgdir (pa / 2 ^ 12) e vm (iomap_page sd running va pa pgdir vm)
  unfolding iomap_page set_leaf
  iomap_page-Mapped va pa pgdir vm {e} words small h nu nm =
      let (frame, bits) = set_leaf-entry vm e (pa / 2 ^ 12) words small in
      record {
        after = set_leaf sd running e (pa / 2 ^ 12) vm;
        is_some = rw (iomap_page, leaf_of-walk false va pgdir running vm h) refl;
        walk = walk-update vm.words va pgdir e _ h nu nm;
        frame = frame;
        bits = bits;
        others = λ a ne. update_ne vm.words e a _ (ground arith);
        same_mem = refl;
      }
