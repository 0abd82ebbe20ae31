-- ===== src/Mm/Fault/Break.antt =====
-- The end of the heap, and the permissions of pages.
use oslab_2024fall.Prelude.{
  zero, suc, ℕ, ◌+◌, ◌-◌, ◌/◌, ◌%◌, ◌^◌, ◌≤◌, ◌<◌, ◌≡◌, ◌≢◌, refl, Bool, true, false, Option, none,
  some, ◌==◌, ◌&&◌, ltb, arith, Bool-cases, Option-cases, leb, inl, inr, ◌⊎◌, ◌∙◌, if◌then◌else◌,
}
use Prim.Native.Nat.{bit_and, bit_or}
use oslab_2024fall.Prelude.Seq.{passes, passes-true}
use oslab_2024fall.Mm.Pte.{Words, get_attribute, get_pfn, set_attribute, clear_attribute}
use oslab_2024fall.Mm.Pte.Fields.{
  set_attribute_parts, clear_attribute_parts, get_attribute_low, set_attribute_lem,
  clear_attribute_lem,
}
use oslab_2024fall.Mm.PageNode.{page_size}
use oslab_2024fall.Mm.Walk.{uva2pte}
use oslab_2024fall.Mm.Paging.{Task, round}
use oslab_2024fall.Mm.Fault.{
  do_sbrk, do_brk, check_brk, user_stack_end, page_of, protected, do_mprotect, mprotect_pages,
  refused,
}

-- What do_sbrk says, by its result.
abbrev pub SbrkSays : ℕ → Task → Option ℕ × Task → Type 0
SbrkSays increment task (some old, task') =
    (old ≡ task.brk)
    × (task'.brk < user_stack_end)
    × (task.brk + increment ≤ task'.brk)
    × (task'.brk < task.brk + increment + page_size)
    × ((task'.brk - task.brk) % page_size ≡ 0)
    × ((vpn : ℕ) → vpn ≤ task'.brk → check_brk task' vpn ≡ false)
SbrkSays increment task (none, task') =
    (task' ≡ task) × (user_stack_end < task.brk + increment + page_size)

-- When the break, the increment and one page together fit 64 bits, do_sbrk either returns the
-- old break and moves the break up by the increment rounded up to pages, below the end of the
-- stack, so that check_brk allows every address up to it, or it returns -1, changes nothing,
-- and the break would have come within a page of the end of the stack.
pub do_sbrk-says :
    (increment : ℕ) (task : Task)
    → task.brk + increment + page_size < 2 ^ 64
    → SbrkSays increment task (do_sbrk increment task)
unfolding do_sbrk check_brk
do_sbrk-says increment task fits =
    elim (Bool-cases (ltb ((task.brk + round increment) % 2 ^ 64) user_stack_end)) [
      | inl e ↦
          let lt : (task.brk + round increment) % 2 ^ 64 < user_stack_end = ground arith in
          rw (do_sbrk, e) (refl, lt, omega arith, omega arith, omega arith, λ vpn le. ground arith)
      | inr e ↦
          let ge : user_stack_end ≤ (task.brk + round increment) % 2 ^ 64 = ground arith in
          rw (do_sbrk, e) (refl, omega arith)
    ]

-- do_brk takes an address behind the break and below the stack, and no other.
abbrev pub BrkSays : ℕ → Task → Bool × Task → Type 0
BrkSays addr task (true, task') =
    (task'.brk ≡ addr)
    × (task.brk < addr)
    × (task'.brk < user_stack_end)
    × (check_brk task' (page_of addr) ≡ false)
BrkSays addr task (false, task') =
    (task' ≡ task) × ((page_of addr ≤ task.brk) ⊎ (user_stack_end ≤ addr))

pub do_brk-says : (addr : ℕ) (task : Task) → BrkSays addr task (do_brk addr task)
unfolding do_brk check_brk
do_brk-says addr task =
    elim (Bool-cases (ltb task.brk (page_of addr) && ltb (page_of addr) user_stack_end)) [
      | inl e ↦
          let a : task.brk < page_of addr = ground arith in
          let b : page_of addr < user_stack_end = ground arith in
          rw (do_brk, e) (refl, omega arith, omega arith, ground arith)
      | inr e ↦
          let h : (page_of addr ≤ task.brk) ⊎ (user_stack_end ≤ page_of addr) = ground arith in
          rw (do_brk, e) (refl, elim h [ inl x ↦ inl x | inr y ↦ inr (omega arith) ])
    ]

protected_table :
    passes
      (λ x.
        (bit_and (bit_and x 1009) 14 == 0)
        && (bit_and (bit_or (bit_and x 1009) 2) 14 == 2)
        && (bit_and (bit_or (bit_and x 1009) 4) 14 == 4)
        && (bit_and (bit_or (bit_and x 1009) 8) 14 == 8))
      1024
    ≡ true
unfolding passes
protected_table = refl

-- The read, write and execute bits of a protection.
abbrev pub prot_bits : ℕ → ℕ
prot_bits prot = if prot == 0 then 0 else 2 ^ prot

-- do_mprotect on one entry.
pub record Reprotected (prot entry : ℕ) (r : Option ℕ) : Type 0 where
  pub after : ℕ
  pub is_some : r ≡ some after
  pub bits : get_attribute after 0xe ≡ prot_bits prot
  pub frame : get_pfn after ≡ get_pfn entry
  pub fits : after < 2 ^ 64

module _ (entry : ℕ) (h : entry < 2 ^ 64) where
  low : ℕ
  low = entry % 1024

  table_at :
      (bit_and (bit_and low 1009) 14 ≡ 0)
      × (bit_and (bit_or (bit_and low 1009) 2) 14 ≡ 2)
      × (bit_and (bit_or (bit_and low 1009) 4) 14 ≡ 4)
      × (bit_and (bit_or (bit_and low 1009) 8) 14 ≡ 8)
  table_at = ground (arith, passes-true _ 1024 protected_table low (unfold low in omega arith))

  bare_lem : get_attribute (clear_attribute entry 14) 14 ≡ 0
  bare_lem = (clear_attribute_lem entry 14 h (omega arith)).0

  set_lem :
      (b : ℕ)
      → b < 1024
      → bit_and (bit_or (bit_and low 1009) b) 14 ≡ b
      → get_attribute (set_attribute (clear_attribute entry 14) b) 14 ≡ b
  unfolding low
  set_lem b lt e =
      let (x, y, z) = clear_attribute_lem entry 14 h (omega arith) in
      let (p, q) = clear_attribute_parts entry 14 h (omega arith) in
      let (r, t) = set_attribute_parts (clear_attribute entry 14) b lt in
      get_attribute_low (set_attribute (clear_attribute entry 14) b) 14 (omega arith)
      ∙ rw (t, q) (unfold get_attribute in e)

  reprotect :
      (b : ℕ)
      → b < 1024
      → bit_and (bit_or (bit_and low 1009) b) 14 ≡ b
      → (get_attribute (set_attribute (clear_attribute entry 14) b) 14 ≡ b)
        × (get_pfn (set_attribute (clear_attribute entry 14) b) ≡ get_pfn entry)
        × (set_attribute (clear_attribute entry 14) b < 2 ^ 64)
  reprotect b lt e =
      let (x, y, z) = clear_attribute_lem entry 14 h (omega arith) in
      let (u, v, w) = set_attribute_lem (clear_attribute entry 14) b z lt in
      (set_lem b lt e, v ∙ y, w)

  -- For a 64-bit entry and a protection of the enumeration, do_mprotect leaves in the entry
  -- exactly the read, write or execute bit that belongs to the protection, none for
  -- PROT_NONE, and keeps the frame number.
  pub protected-Reprotected : (prot : ℕ) → prot < 4 → Reprotected prot entry (protected prot entry)
  unfolding protected
  protected-Reprotected zero lt =
      let (x, y, z) = clear_attribute_lem entry 14 h (omega arith) in
      record { after = clear_attribute entry 14; is_some = refl; bits = x; frame = y; fits = z }
  protected-Reprotected (suc zero) lt =
      let (x, y, z) = reprotect 2 (omega arith) (table_at.1) in
      record {
        after = set_attribute (clear_attribute entry 14) 2;
        is_some = refl;
        bits = x;
        frame = y;
        fits = z;
      }
  protected-Reprotected (suc (suc zero)) lt =
      let (x, y, z) = reprotect 4 (omega arith) (table_at.2) in
      record {
        after = set_attribute (clear_attribute entry 14) 4;
        is_some = refl;
        bits = x;
        frame = y;
        fits = z;
      }
  protected-Reprotected (suc (suc (suc zero))) lt =
      let (x, y, z) = reprotect 8 (omega arith) (table_at.3) in
      record {
        after = set_attribute (clear_attribute entry 14) 8;
        is_some = refl;
        bits = x;
        frame = y;
        fits = z;
      }
  protected-Reprotected (suc (suc (suc (suc prot)))) lt = absurd (omega arith)

protected-none : (prot entry : ℕ) → 3 < prot → protected prot entry ≡ none
unfolding protected
protected-none prot entry lt = ground arith

mprotect_pages-refused :
    (n addr prot : ℕ) (task : Task) (words : Words)
    → 3 < prot
    → mprotect_pages (suc n) addr prot task words ≡ refused words
unfolding mprotect_pages
mprotect_pages-refused n addr prot task words bad =
    elim (Option-cases (uva2pte words addr task.pgdir)) [
      | inl e ↦ let out : leb prot 3 ≡ false = ground arith in rw (mprotect_pages, e, out) refl
      | inr (pte, e) ↦ rw (mprotect_pages, e, protected-none prot (words pte) bad) refl
    ]

abbrev pages_of : ℕ → ℕ
pages_of len = len / page_size + (if len % page_size == 0 then 0 else 1)

pages_suc : (len : ℕ) → 0 < len → pages_of len ≡ suc (pages_of len - 1)
pages_suc len h = ground arith

-- The calls of do_mprotect that fail before a change: an address off a page, or a protection that
-- does not exist for a region that is not empty.
pub do_mprotect-refused :
    (addr len prot : ℕ) (task : Task) (words : Words)
    → (addr % 2 ^ 12 ≢ 0) ⊎ ((3 < prot) × (0 < len))
    → do_mprotect addr len prot task words ≡ refused words
unfolding do_mprotect
do_mprotect-refused addr len prot task words (inl off) =
    let e : (addr % 2 ^ 12 == 0) ≡ false = ground arith in rw (do_mprotect, e) refl
do_mprotect-refused addr len prot task words (inr (bad, some_page)) =
    elim (Bool-cases (addr % 2 ^ 12 == 0)) [
      | inl e ↦
          rw (do_mprotect, e, pages_suc len some_page)
            (mprotect_pages-refused (pages_of len - 1) addr prot task words bad)
      | inr e ↦ rw (do_mprotect, e) refl
    ]
