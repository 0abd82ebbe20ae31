-- ===== src/Tests/Memory.antt =====
-- The page bitmaps and the memory functions.
use oslab_2024fall.Prelude.{◌++◌, inl, if◌then◌else◌, [], ◌∷◌, ◌≡◌, refl, ◌==◌, arith, some}
use oslab_2024fall.Libs.Memory.{Memory}
use oslab_2024fall.Libs.CString.{IsString, strcat, strcat-IsString}
use oslab_2024fall.Mm.Bitmap.{Bitmap, find_free_pages}
use oslab_2024fall.Mm.PageNode.{Mem, pn_active, release_process_page, user_mem_base}
use oslab_2024fall.Mm.Alloc.{AllocSays, alloc_user_page, alloc_user_page-says, free_user_page_num}
use oslab_2024fall.Mm.PageNode.Recycle.{BytesIn}
use oslab_2024fall.Mm.PageNode.Release.{PagesReleased, release_process_page-PagesReleased}

-- The first four pages are taken.
abbrev four : Bitmap
four i = 15

find_free_pages_runs : find_free_pages four 20 ≡ some 4
unfolding find_free_pages
find_free_pages_runs = refl

-- Node 3 is a kernel page of process 7, nodes 4 and 5 are user pages of processes 7 and 8.
abbrev three_pages : Mem
three_pages = record {
  kernel_bitmap = four;
  user_bitmap = four;
  pn_list = λ i. record {
    status = pn_active;
    pte_entry = 0;
    pid = if i == 5 then 8 else 7;
    addr = if i == 3 then 0xffffffc052001000 else 0xffffffc054001000;
    uva = if i == 3 then 0xffffffc052001000 else 0x10000;
  };
  kernel_page = 3 ∷ [];
  user_page_mem = 4 ∷ 5 ∷ [];
  user_page_sd = [];
}

three_pages-BytesIn : BytesIn three_pages
three_pages-BytesIn = record { kernel = λ i. omega arith; user = λ i. omega arith }

release_process_page-PagesReleased_example :
    PagesReleased 7 three_pages (release_process_page 7 three_pages)
release_process_page-PagesReleased_example =
    release_process_page-PagesReleased 7 three_pages three_pages-BytesIn

alloc_user_page-says_example :
    AllocSays user_mem_base free_user_page_num four
      (alloc_user_page three_pages).1.user_bitmap
      (alloc_user_page three_pages).0
    × ((alloc_user_page three_pages).1.kernel_bitmap ≡ four)
alloc_user_page-says_example = alloc_user_page-says three_pages (λ i. omega arith)

-- "ab" stands at 0 and "c" at 10.
abbrev letters : Memory
letters a = if a == 0 then b'a' else if a == 1 then b'b' else if a == 10 then b'c' else 0

strcat-IsString_example :
    (after : Memory) × (strcat 5 0 10 letters ≡ some after)
    × IsString after 0 ((b'a' ∷ b'b' ∷ []) ++ (b'c' ∷ []))
strcat-IsString_example =
    strcat-IsString 5 0 10 letters (b'a' ∷ b'b' ∷ []) (b'c' ∷ [])
      (refl, omega arith, (refl, omega arith, refl)) (refl, omega arith, refl) (omega arith)
      (omega arith) (inl (omega arith))
