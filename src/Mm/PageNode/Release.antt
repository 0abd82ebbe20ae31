-- ===== src/Mm/PageNode/Release.antt =====
-- release_process_page of kernel/mm/mm.c.
use oslab_2024fall.Prelude.{
  ℕ, ◌≡◌, refl, true, false, List, ◌&&◌, ◌||◌, not, arith, has, select, select_ext, Bool-cases, inl,
  inr, ◌∙◌, ap, if◌then◌else◌,
}
use oslab_2024fall.Mm.Bitmap.{is_allocated}
use oslab_2024fall.Mm.PageNode.{Mem, recycle_nodes, release_process_page}
use oslab_2024fall.Mm.PageNode.Recycle.{
  BytesIn, owned, inactive_node, node_allocated, in_bitmap, Fewer-node, Recycled,
  recycle_nodes-Recycled,
}

-- What the exit of a process leaves of its pages.
pub record PagesReleased (pid : ℕ) (m m' : Mem) : Type 0 where
  pub kernel_page : m'.kernel_page ≡ select (λ p. not (owned pid m p)) m.kernel_page
  pub user_page_mem : m'.user_page_mem ≡ select (λ p. not (owned pid m p)) m.user_page_mem
  pub user_page_sd : m'.user_page_sd ≡ select (λ p. not (owned pid m p)) m.user_page_sd
  pub nodes :
      (i : ℕ)
      → m'.pn_list i ≡ (
          if (has i m.kernel_page || has i m.user_page_mem || has i m.user_page_sd) && owned pid m i
          then inactive_node (m.pn_list i)
          else m.pn_list i)
  pub freed :
      (p : ℕ)
      → (has p m.kernel_page || has p m.user_page_mem) ≡ true
      → owned pid m p ≡ true
      → in_bitmap (m.pn_list p) ≡ true
      → node_allocated m' (m.pn_list p) ≡ false
  pub kernel :
      (q : ℕ) → is_allocated m'.kernel_bitmap q ≡ true → is_allocated m.kernel_bitmap q ≡ true
  pub user : (q : ℕ) → is_allocated m'.user_bitmap q ≡ true → is_allocated m.user_bitmap q ≡ true

module _ (pid : ℕ) (m a1 a2 a3 : Mem) (l1 l2 l3 : List ℕ)
    (r1 : Recycled pid true m.kernel_page m (l1, a1))
    (r2 : Recycled pid true a1.user_page_mem (record a1 { kernel_page = l1 }) (l2, a2))
    (r3 : Recycled pid false a2.user_page_sd (record a2 { user_page_mem = l2 }) (l3, a3)) where
  owner_1 : (i : ℕ) → owned pid a1 i ≡ owned pid m i
  owner_1 i = rw (r1.nodes i) (ground arith)

  owner_2 : (i : ℕ) → owned pid a2 i ≡ owned pid m i
  owner_2 i = rw (r2.nodes i) (ground (arith, owner_1 i))

  others :
      (a : Mem)
      → ((i : ℕ) → owned pid a i ≡ owned pid m i)
      → (xs : List ℕ) → select (λ p. not (owned pid a p)) xs ≡ select (λ p. not (owned pid m p)) xs
  others a same xs =
      select_ext (λ p. not (owned pid a p)) (λ p. not (owned pid m p)) xs (λ p. ap not (same p))

  released-nodes :
      (i : ℕ)
      → a3.pn_list i ≡ (
          if (has i m.kernel_page || has i m.user_page_mem || has i m.user_page_sd) && owned pid m i
          then inactive_node (m.pn_list i)
          else m.pn_list i)
  released-nodes i =
      rw (← (r1.fewer.user_page_mem), ← (r2.fewer.user_page_sd ∙ r1.fewer.user_page_sd))
        (ground (arith, r3.nodes i, r2.nodes i, r1.nodes i))

  released-freed :
      (p : ℕ)
      → (has p m.kernel_page || has p m.user_page_mem) ≡ true
      → owned pid m p ≡ true
      → in_bitmap (m.pn_list p) ≡ true
      → node_allocated a3 (m.pn_list p) ≡ false
  released-freed p h o inside = elim (Bool-cases (has p m.kernel_page)) [
    | inl k ↦
        Fewer-node (m.pn_list p) r3.fewer
          (Fewer-node (m.pn_list p) r2.fewer (r1.freed refl p k o inside))
    | inr k ↦
        let same : a1.pn_list p ≡ m.pn_list p = r1.nodes p ∙ rw k refl in
        let here : has p a1.user_page_mem ≡ true = rw r1.fewer.user_page_mem (ground arith) in
        Fewer-node (m.pn_list p) r3.fewer
          (rw same at (r2.freed refl p here (owner_1 p ∙ o) (rw same inside)))
  ]

  composed : PagesReleased pid m (record a3 { user_page_sd = l3 })
  composed = record {
    kernel_page = r3.fewer.kernel_page ∙ r2.fewer.kernel_page ∙ r1.left;
    user_page_mem =
        r3.fewer.user_page_mem
        ∙ r2.left
        ∙ rw r1.fewer.user_page_mem (others a1 owner_1 m.user_page_mem);
    user_page_sd =
        r3.left
        ∙ rw (r2.fewer.user_page_sd, r1.fewer.user_page_sd) (others a2 owner_2 m.user_page_sd);
    nodes = released-nodes;
    freed = released-freed;
    kernel = λ q h. r1.fewer.kernel q (r2.fewer.kernel q (r3.fewer.kernel q h));
    user = λ q h. r1.fewer.user q (r2.fewer.user q (r3.fewer.user q h));
  }

-- When both page bitmaps are made of bytes, release_process_page takes exactly the nodes of the
-- process out of the three rings, in order for the others, makes those nodes inactive and
-- changes no other node, frees the page of every node of the process that is in memory and
-- whose page has a bit in its bitmap, and allocates no page.
pub release_process_page-PagesReleased :
    (pid : ℕ) (m : Mem) → BytesIn m → PagesReleased pid m (release_process_page pid m)
unfolding release_process_page
release_process_page-PagesReleased pid m b =
    let k1 = recycle_nodes pid true m.kernel_page m in
    let r1 = recycle_nodes-Recycled pid true m.kernel_page m b in
    let m2 = record (k1.1) { kernel_page = k1.0 } in
    let b2 : BytesIn m2 = record { kernel = r1.fewer.bytes.kernel; user = r1.fewer.bytes.user } in
    let k2 = recycle_nodes pid true m2.user_page_mem m2 in
    let r2 = recycle_nodes-Recycled pid true m2.user_page_mem m2 b2 in
    let m4 = record (k2.1) { user_page_mem = k2.0 } in
    let b4 : BytesIn m4 = record { kernel = r2.fewer.bytes.kernel; user = r2.fewer.bytes.user } in
    let k3 = recycle_nodes pid false m4.user_page_sd m4 in
    let r3 = recycle_nodes-Recycled pid false m4.user_page_sd m4 b4 in
    composed pid m (k1.1) (k2.1) (k3.1) (k1.0) (k2.0) (k3.0) r1 r2 r3
