-- ===== src/Mm/Alloc.antt =====
-- alloc_kernel_page and alloc_user_page of kernel/mm/mm.c.
use oslab_2024fall.Prelude.{
  ℕ, ◌+◌, ◌*◌, ◌%◌, ◌^◌, ◌≤◌, ◌<◌, ◌≡◌, refl, true, false, Option, none, some, ◌==◌, ◌||◌, arith,
  Option-cases, inl, inr,
}
use oslab_2024fall.Mm.Bitmap.{Bitmap, IsBytes, find_free_pages, mark_page_allocated, is_allocated}
use oslab_2024fall.Mm.Bitmap.Search.{Finds, find_free_pages-Finds, is_allocated-mark}
use oslab_2024fall.Mm.PageNode.{Mem, page_size, init_kernel_stack, user_mem_base, page_idx_of}

abbrev pub free_kernel_page_num : ℕ
free_kernel_page_num = 0x2000

abbrev pub free_user_page_num : ℕ
free_user_page_num = 0x9000

-- `none` is the call of swap_page_out, which has to make room.
unfoldable pub alloc_kernel_page : Mem → Option ℕ × Mem
alloc_kernel_page m = elim (find_free_pages m.kernel_bitmap free_kernel_page_num) [
  | some page_idx ↦ (
    some (init_kernel_stack + page_size * page_idx),
    record m { kernel_bitmap = mark_page_allocated page_idx m.kernel_bitmap },
  )
  | none ↦ (none, m)
]

unfoldable pub alloc_user_page : Mem → Option ℕ × Mem
alloc_user_page m = elim (find_free_pages m.user_bitmap free_user_page_num) [
  | some page_idx ↦ (
    some (user_mem_base + page_size * page_idx),
    record m { user_bitmap = mark_page_allocated page_idx m.user_bitmap },
  )
  | none ↦ (none, m)
]

-- An allocation of a page of `num` from address `base` on, by its result and the bitmaps before and
-- after it. The index is the one that the recycling computes from the address.
abbrev pub AllocSays : ℕ → ℕ → Bitmap → Bitmap → Option ℕ → Type 0
AllocSays base num b b' none = (b' ≡ b) × ((q : ℕ) → q < num → is_allocated b q ≡ true)
AllocSays base num b b' (some kva) =
    (base ≤ kva)
    × (kva < base + page_size * num)
    × (kva % page_size ≡ 0)
    × (is_allocated b (page_idx_of kva base) ≡ false)
    × ((q : ℕ) → is_allocated b' q ≡ ((page_idx_of kva base == q) || is_allocated b q))

index_of :
    (base num i : ℕ)
    → base + page_size * num < 2 ^ 64
    → i < num
    → page_idx_of (base + page_size * i) base ≡ i
index_of base num i fit lt = omega arith

found-says :
    (base num : ℕ) (b : Bitmap) (i : ℕ)
    → IsBytes b
    → base % page_size ≡ 0
    → base + page_size * num < 2 ^ 64
    → Finds b num 0 (some i)
    → AllocSays base num b (mark_page_allocated i b) (some (base + page_size * i))
found-says base num b i bytes al fit (lo, hi, free, least) =
    let e = index_of base num i fit hi in
    (omega arith, omega arith, omega arith, rw e free, λ q. rw e (is_allocated-mark b i q bytes))

none-says : (base num : ℕ) (b : Bitmap) → Finds b num 0 none → AllocSays base num b b none
none-says base num b f = (refl, λ q lt. f q (omega arith) lt)

-- When the user bitmap is made of bytes, alloc_user_page either returns the aligned address of
-- a user page that was not allocated, and then exactly that page is allocated besides those
-- that were, under the index that the recycling computes from the address, or it changes
-- nothing, hands over to swap_page_out, and every user page is allocated. The kernel bitmap is
-- unchanged in both cases.
pub alloc_user_page-says :
    (m : Mem)
    → IsBytes m.user_bitmap
    → AllocSays user_mem_base free_user_page_num m.user_bitmap
        (alloc_user_page m).1.user_bitmap
        (alloc_user_page m).0
      × ((alloc_user_page m).1.kernel_bitmap ≡ m.kernel_bitmap)
unfolding alloc_user_page
alloc_user_page-says m bytes =
    let f = find_free_pages-Finds m.user_bitmap free_user_page_num in
    elim (Option-cases (find_free_pages m.user_bitmap free_user_page_num)) [
      | inl e ↦
          rw (alloc_user_page, e)
            (none-says user_mem_base free_user_page_num m.user_bitmap (rw e at f), refl)
      | inr (i, e) ↦
          rw (alloc_user_page, e)
            (
              found-says user_mem_base free_user_page_num m.user_bitmap i bytes (omega arith)
                  (omega arith) (rw e at f),
              refl,
            )
    ]

-- When the kernel bitmap is made of bytes, alloc_kernel_page either returns the aligned address
-- of a kernel page that was not allocated, and then exactly that page is allocated besides
-- those that were, under the index that the recycling computes from the address, or it changes
-- nothing, hands over to swap_page_out, and every kernel page is allocated. The user bitmap is
-- unchanged in both cases.
pub alloc_kernel_page-says :
    (m : Mem)
    → IsBytes m.kernel_bitmap
    → AllocSays init_kernel_stack free_kernel_page_num m.kernel_bitmap
        (alloc_kernel_page m).1.kernel_bitmap
        (alloc_kernel_page m).0
      × ((alloc_kernel_page m).1.user_bitmap ≡ m.user_bitmap)
unfolding alloc_kernel_page
alloc_kernel_page-says m bytes =
    let f = find_free_pages-Finds m.kernel_bitmap free_kernel_page_num in
    elim (Option-cases (find_free_pages m.kernel_bitmap free_kernel_page_num)) [
      | inl e ↦
          rw (alloc_kernel_page, e)
            (none-says init_kernel_stack free_kernel_page_num m.kernel_bitmap (rw e at f), refl)
      | inr (i, e) ↦
          rw (alloc_kernel_page, e)
            (
              found-says init_kernel_stack free_kernel_page_num m.kernel_bitmap i bytes
                  (omega arith) (omega arith) (rw e at f),
              refl,
            )
    ]

pub alloc_user_page-others :
    (m : Mem)
    → ((alloc_user_page m).1.pn_list ≡ m.pn_list)
      × ((alloc_user_page m).1.user_page_sd ≡ m.user_page_sd)
      × ((alloc_user_page m).1.user_page_mem ≡ m.user_page_mem)
      × ((alloc_user_page m).1.kernel_page ≡ m.kernel_page)
unfolding alloc_user_page
alloc_user_page-others m = elim (Option-cases (find_free_pages m.user_bitmap free_user_page_num)) [
  | inl e ↦ rw (alloc_user_page, e) (refl, refl, refl, refl)
  | inr (i, e) ↦ rw (alloc_user_page, e) (refl, refl, refl, refl)
]
