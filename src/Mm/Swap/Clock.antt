-- ===== src/Mm/Swap/Clock.antt =====
-- The search of swap_page_out for a page that was not used.
use oslab_2024fall.Prelude.{
  ℕ, zero, suc, ◌+◌, ◌-◌, ◌^◌, ◌≤◌, ◌<◌, ◌≡◌, refl, true, false, Option, some, List, [], ◌∷◌, ◌++◌,
  ◌==◌, arith, has, has-append, length, Bool-cases, inl, inr, ◌⊎◌, ◌∙◌, if◌then◌else◌,
}
use oslab_2024fall.Prelude.Table.{update}
use oslab_2024fall.Prelude.Digits.{bit_and-not, bit_and_twice}
use oslab_2024fall.Mm.PageNode.{PageNode}
use oslab_2024fall.Mm.Pte.{Words, get_attribute, clear_attribute}
use oslab_2024fall.Mm.Swap.{clock, forward_list_head, is_used, used_bits}

clear-unused : (e : ℕ) → get_attribute (clear_attribute e used_bits) used_bits ≡ 0
unfolding get_attribute clear_attribute
clear-unused e = bit_and-not 64 e used_bits (omega arith)

clear_twice :
    (e : ℕ) → clear_attribute (clear_attribute e used_bits) used_bits ≡ clear_attribute e used_bits
unfolding clear_attribute
clear_twice e = bit_and_twice e e (2 ^ 64 - 1 - used_bits) (omega arith)

module _ (pn_list : ℕ → PageNode) where
  -- How many pages of a ring were used.
  abbrev used_count : Words → List ℕ → ℕ
  used_count words [] = 0
  used_count words (p ∷ rest) = (if is_used pn_list words p then 1 else 0) + used_count words rest

  abbrev second_chance : Words → ℕ → Words
  second_chance words p =
      update words (pn_list p).pte_entry (clear_attribute (words (pn_list p).pte_entry) used_bits)

  used-second_chance :
      (words : Words) (p q : ℕ)
      → is_used pn_list (second_chance words p) q ≡ (
          if (pn_list p).pte_entry == (pn_list q).pte_entry then false else is_used pn_list words q)
  used-second_chance words p q = ground (arith, clear-unused (words (pn_list p).pte_entry))

  used_count_le :
      (words : Words) (p : ℕ) (xs : List ℕ)
      → used_count (second_chance words p) xs ≤ used_count words xs
  used_count_le words p [] = omega arith
  used_count_le words p (q ∷ xs) =
      ground (arith, used-second_chance words p q, used_count_le words p xs)

  used_count-append :
      (words : Words) (xs : List ℕ) (p : ℕ)
      → used_count words (xs ++ p ∷ []) ≡ used_count words (p ∷ xs)
  used_count-append words [] p = refl
  used_count-append words (q ∷ xs) p = ground (arith, used_count-append words xs p)

  used_count_le_length : (words : Words) (xs : List ℕ) → used_count words xs ≤ length xs
  used_count_le_length words [] = omega arith
  used_count_le_length words (q ∷ xs) = ground (arith, used_count_le_length words xs)

  used_count-forward :
      (words : Words) (xs : List ℕ) → used_count words (forward_list_head xs) ≡ used_count words xs
  unfolding forward_list_head
  used_count-forward words [] = refl
  used_count-forward words (p ∷ []) = refl
  used_count-forward words (p ∷ q ∷ xs) = ground (arith, used_count-append words xs p)

  has-forward : (x : ℕ) (xs : List ℕ) → has x (forward_list_head xs) ≡ has x xs
  unfolding forward_list_head
  has-forward x [] = refl
  has-forward x (p ∷ []) = refl
  has-forward x (p ∷ q ∷ xs) = ground (arith, has-append x xs (p ∷ []))

  length-append_one : (xs : List ℕ) (p : ℕ) → length (xs ++ p ∷ []) ≡ length xs + 1
  length-append_one [] p = refl
  length-append_one (x ∷ xs) p = omega (arith, length-append_one xs p)

  length-forward : (xs : List ℕ) → length (forward_list_head xs) ≡ length xs
  unfolding forward_list_head
  length-forward [] = refl
  length-forward (p ∷ []) = refl
  length-forward (p ∷ q ∷ xs) = omega (arith, length-append_one xs p)

  -- The walk ends at a page that is not used, with the nodes of the ring, and the entries that changed
  -- lost their accessed and dirty bits only.
  pub record Chosen (words : Words) (ring : List ℕ) (r : Option (Words × List ℕ)) : Type 0 where
    pub after : Words
    pub first : ℕ
    pub rest : List ℕ
    pub is_some : r ≡ some (after, first ∷ rest)
    pub unused : is_used pn_list after first ≡ false
    pub members : (x : ℕ) → has x (first ∷ rest) ≡ has x ring
    pub count : length (first ∷ rest) ≡ length ring
    pub cleared : (a : ℕ) → (after a ≡ words a) ⊎ (after a ≡ clear_attribute (words a) used_bits)

  Chosen-later :
      (words : Words) (p : ℕ) (rest : List ℕ) (r : Option (Words × List ℕ))
      → Chosen (second_chance words p) (forward_list_head (p ∷ rest)) r
      → Chosen words (p ∷ rest) r
  Chosen-later words p rest r c = record {
    after = c.after;
    first = c.first;
    rest = c.rest;
    is_some = c.is_some;
    unused = c.unused;
    members = λ x. c.members x ∙ has-forward x (p ∷ rest);
    count = c.count ∙ length-forward (p ∷ rest);
    cleared = λ a. ground (arith, c.cleared a, clear_twice (words a));
  }

  used_count-less :
      (words : Words) (p : ℕ) (rest : List ℕ)
      → is_used pn_list words p ≡ true
      → used_count (second_chance words p) (forward_list_head (p ∷ rest))
        < used_count words (p ∷ rest)
  used_count-less words p rest e = ground (
    arith,
    used_count-forward (second_chance words p) (p ∷ rest),
    used-second_chance words p p,
    used_count_le words p rest,
  )

  clock-Chosen_fuel :
      (fuel : ℕ) (words : Words) (xs : List ℕ)
      → used_count words xs < fuel
      → 0 < length xs
      → Chosen words xs (clock fuel pn_list words xs)
  unfolding clock
  clock-Chosen_fuel zero words xs lt ne = absurd (omega arith)
  clock-Chosen_fuel (suc fuel) words [] lt ne = absurd (omega arith)
  clock-Chosen_fuel (suc fuel) words (p ∷ rest) lt ne =
      elim (Bool-cases (is_used pn_list words p)) [
        | inl e ↦
            let less = used_count-less words p rest e in
            let same = length-forward (p ∷ rest) in
            rw (clock, e)
              (Chosen-later words p rest _ (
                clock-Chosen_fuel fuel (second_chance words p) (forward_list_head (p ∷ rest))
                  (omega arith) (omega arith)))
        | inr e ↦
            rw (clock, e)
              (record {
                after = words;
                first = p;
                rest = rest;
                is_some = refl;
                unused = e;
                members = λ x. refl;
                count = refl;
                cleared = λ a. inl refl;
              })
      ]

  -- In a ring that is not empty, the search of swap_page_out ends within one round for each
  -- node and one more. It stops at a node whose entry has neither the accessed nor the dirty
  -- bit, keeps the nodes of the ring and their number, and changes memory words at most by
  -- clearing these two bits.
  pub clock-Chosen :
      (words : Words) (xs : List ℕ)
      → 0 < length xs
      → Chosen words xs (clock (suc (length xs)) pn_list words xs)
  clock-Chosen words xs ne =
      let le = used_count_le_length words xs in
      clock-Chosen_fuel (suc (length xs)) words xs (omega arith) ne
