-- ===== src/Mm/Shm/Attach.antt =====
-- The address that shm_page_get maps a page at.
use oslab_2024fall.Prelude.{
  ℕ, zero, suc, ◌+◌, ◌*◌, ◌%◌, ◌^◌, ◌<◌, ◌≡◌, ◌≢◌, refl, none, some, arith, Option-cases, inl, inr,
  ◌∙◌, ap,
}
use oslab_2024fall.Mm.PageNode.{page_size}
use oslab_2024fall.Mm.Pte.{Words}
use oslab_2024fall.Mm.Walk.{uva2pte}
use oslab_2024fall.Mm.Shm.{unmapped_uva, alloc_free_uva}

shift : (curr i : ℕ) → curr + page_size + i * page_size ≡ curr + suc i * page_size
shift curr i = omega arith

next_free :
    (curr : ℕ)
    → curr % page_size ≡ 0
    → curr + page_size < 2 ^ 64
    → ((alloc_free_uva 1 curr).0 ≡ curr) × ((alloc_free_uva 1 curr).1 ≡ curr + page_size)
unfolding alloc_free_uva
next_free curr al fit = (omega arith, omega arith)

module _ (words : Words) (pgdir : ℕ) where
  unmapped-found :
      (fuel curr : ℕ)
      → uva2pte words curr pgdir ≡ none
      → curr % page_size ≡ 0
      → curr + page_size < 2 ^ 64
      → unmapped_uva (suc fuel) words pgdir curr ≡ some (curr, curr + page_size)
  unfolding unmapped_uva
  unmapped-found fuel curr h al fit =
      let (a, b) = next_free curr al fit in rw (unmapped_uva, a, h, a, b) refl

  unmapped-next :
      (fuel curr : ℕ) {pte : ℕ}
      → uva2pte words curr pgdir ≡ some pte
      → curr % page_size ≡ 0
      → curr + page_size < 2 ^ 64
      → unmapped_uva (suc fuel) words pgdir curr ≡ unmapped_uva fuel words pgdir (curr + page_size)
  unfolding unmapped_uva
  unmapped-next fuel curr h al fit =
      let (a, b) = next_free curr al fit in rw (unmapped_uva, a, h, b) refl

  -- From an aligned address, when the tables of the first n pages exist and those of the next
  -- page do not, and the addresses fit 64 bits, the loop of shm_page_get ends within n + 1
  -- rounds with that page, and the next search starts behind it.
  pub unmapped_uva_lem :
      (n fuel curr : ℕ)
      → n < fuel
      → curr % page_size ≡ 0
      → curr + (n + 1) * page_size < 2 ^ 64
      → ((i : ℕ) → i < n → uva2pte words (curr + i * page_size) pgdir ≢ none)
      → uva2pte words (curr + n * page_size) pgdir ≡ none
      → unmapped_uva fuel words pgdir curr ≡ some (curr + n * page_size, curr + (n + 1) * page_size)
  unmapped_uva_lem n zero curr lt al fit mapped free = absurd (omega arith)
  unmapped_uva_lem zero (suc fuel) curr lt al fit mapped free =
      let a : curr + 0 * page_size ≡ curr = omega arith in
      let b : curr + (0 + 1) * page_size ≡ curr + page_size = omega arith in
      rw (a, b) (unmapped-found fuel curr (rw a at free) al (omega arith))
  unmapped_uva_lem (suc n) (suc fuel) curr lt al fit mapped free =
      elim (Option-cases (uva2pte words curr pgdir)) [
        | inl e ↦
            let a : curr + 0 * page_size ≡ curr = omega arith in
            absurd (mapped 0 (omega arith) (rw a e))
        | inr (pte, e) ↦
            let next =
              unmapped_uva_lem n fuel (curr + page_size) (omega arith) (omega arith) (omega arith)
                (λ i low. rw (shift curr i) (mapped (suc i) (omega arith)))
                (rw (shift curr n) free) in
            unmapped-next fuel curr e al (omega arith)
            ∙ next
            ∙ rw (shift curr n, shift curr (n + 1))
                (ap (λ t. some (curr + suc n * page_size, curr + t * page_size)) (omega arith))
      ]
