-- ===== src/Mm/PageNode/Recycle.antt =====
-- recycle_node_from_list of kernel/mm/mm.c.
use oslab_2024fall.Prelude.{
  ℕ, ltb, ◌≡◌, refl, Bool, true, false, List, [], ◌∷◌, ◌==◌, ◌&&◌, not, arith, has, select,
  select_ext, Bool-cases, inl, inr, ◌∙◌, ap, if◌then◌else◌,
}
use oslab_2024fall.Mm.Bitmap.{Bitmap, IsBytes, is_allocated}
use oslab_2024fall.Mm.Bitmap.Search.{is_allocated-unmark, unmark-IsBytes}
use oslab_2024fall.Mm.PageNode.{
  Mem, PageNode, pn_inactive, page_idx_of, init_kernel_stack, user_mem_base, recycle_mem_page,
  deactivate, recycle_nodes, unmark_within, free_kernel_page_num, free_user_page_num,
}

-- Both bitmaps are made of bytes.
pub record BytesIn (m : Mem) : Type 0 where
  pub kernel : IsBytes m.kernel_bitmap
  pub user : IsBytes m.user_bitmap

abbrev pub owned : ℕ → Mem → ℕ → Bool
owned pid m p = (m.pn_list p).pid == pid

abbrev pub inactive_node : PageNode → PageNode
inactive_node node = record node { status = pn_inactive }

-- The page of a node in its bitmap.
abbrev pub node_allocated : Mem → PageNode → Bool
node_allocated m node =
    if node.uva == node.addr
    then is_allocated m.kernel_bitmap (page_idx_of node.addr init_kernel_stack)
    else is_allocated m.user_bitmap (page_idx_of node.addr user_mem_base)

-- The page of a node has a bit in its bitmap.
abbrev pub in_bitmap : PageNode → Bool
in_bitmap node =
    if node.uva == node.addr
    then ltb (page_idx_of node.addr init_kernel_stack) free_kernel_page_num
    else ltb (page_idx_of node.addr user_mem_base) free_user_page_num

unmark_within-IsBytes :
    (n q : ℕ) (bitmap : Bitmap) → IsBytes bitmap → IsBytes (unmark_within n q bitmap)
unfolding unmark_within
unmark_within-IsBytes n q bitmap bytes i = elim (Bool-cases (ltb q n)) [
  | inl e ↦ rw (unmark_within, e) (unmark-IsBytes bitmap q bytes i)
  | inr e ↦ rw (unmark_within, e) (bytes i)
]

is_allocated-unmark_within :
    (n p q : ℕ) (bitmap : Bitmap)
    → IsBytes bitmap
    → is_allocated (unmark_within n p bitmap) q ≡ (not (ltb p n && p == q) && is_allocated bitmap q)
unfolding unmark_within
is_allocated-unmark_within n p q bitmap bytes =
    let h = is_allocated-unmark bitmap p q bytes in
    elim (Bool-cases (ltb p n)) [
      | inl e ↦ rw (unmark_within, e) h
      | inr e ↦ rw (unmark_within, e) refl
    ]

-- No page is allocated that was not before.
pub record Fewer (m m' : Mem) : Type 0 where
  pub bytes : BytesIn m'
  pub kernel :
      (q : ℕ) → is_allocated m'.kernel_bitmap q ≡ true → is_allocated m.kernel_bitmap q ≡ true
  pub user : (q : ℕ) → is_allocated m'.user_bitmap q ≡ true → is_allocated m.user_bitmap q ≡ true
  pub kernel_page : m'.kernel_page ≡ m.kernel_page
  pub user_page_mem : m'.user_page_mem ≡ m.user_page_mem
  pub user_page_sd : m'.user_page_sd ≡ m.user_page_sd

Fewer-refl : (m : Mem) → BytesIn m → Fewer m m
Fewer-refl m b = record {
  bytes = b;
  kernel = λ q h. h;
  user = λ q h. h;
  kernel_page = refl;
  user_page_mem = refl;
  user_page_sd = refl;
}

Fewer-trans : {m m1 m2 : Mem} → Fewer m m1 → Fewer m1 m2 → Fewer m m2
Fewer-trans a b = record {
  bytes = b.bytes;
  kernel = λ q h. a.kernel q (b.kernel q h);
  user = λ q h. a.user q (b.user q h);
  kernel_page = b.kernel_page ∙ a.kernel_page;
  user_page_mem = b.user_page_mem ∙ a.user_page_mem;
  user_page_sd = b.user_page_sd ∙ a.user_page_sd;
}

pub Fewer-node :
    {m m' : Mem} (node : PageNode)
    → Fewer m m'
    → node_allocated m node ≡ false
    → node_allocated m' node ≡ false
Fewer-node {m} {m'} node w h = ground (
  arith,
  w.kernel (page_idx_of node.addr init_kernel_stack),
  w.user (page_idx_of node.addr user_mem_base),
)

module _ (m : Mem) (b : BytesIn m) (p : ℕ) where
  deactivate-Fewer : Fewer m (deactivate p m)
  unfolding deactivate
  deactivate-Fewer = record {
    bytes = record { kernel = b.kernel; user = b.user };
    kernel = λ q h. h;
    user = λ q h. h;
    kernel_page = refl;
    user_page_mem = refl;
    user_page_sd = refl;
  }

module _ (m : Mem) (b : BytesIn m) (node : PageNode) where
  recycle_mem_page-Fewer : Fewer m (recycle_mem_page node m)
  unfolding recycle_mem_page
  recycle_mem_page-Fewer = elim (Bool-cases (node.uva == node.addr)) [
    | inl e ↦
        rw (recycle_mem_page, e)
          (record {
            bytes = record {
              kernel = unmark_within-IsBytes free_kernel_page_num _ m.kernel_bitmap b.kernel;
              user = b.user;
            };
            kernel = λ q h. ground (
              arith,
              h,
              is_allocated-unmark_within free_kernel_page_num
                  (page_idx_of node.addr init_kernel_stack) q m.kernel_bitmap b.kernel,
            );
            user = λ q h. h;
            kernel_page = refl;
            user_page_mem = refl;
            user_page_sd = refl;
          })
    | inr e ↦
        rw (recycle_mem_page, e)
          (record {
            bytes = record {
              kernel = b.kernel;
              user = unmark_within-IsBytes free_user_page_num _ m.user_bitmap b.user;
            };
            kernel = λ q h. h;
            user = λ q h. ground (
              arith,
              h,
              is_allocated-unmark_within free_user_page_num (page_idx_of node.addr user_mem_base) q
                  m.user_bitmap b.user,
            );
            kernel_page = refl;
            user_page_mem = refl;
            user_page_sd = refl;
          })
  ]

  recycle_mem_page-freed :
      in_bitmap node ≡ true → node_allocated (recycle_mem_page node m) node ≡ false
  unfolding recycle_mem_page
  recycle_mem_page-freed inside = elim (Bool-cases (node.uva == node.addr)) [
    | inl e ↦
        let bound : ltb (page_idx_of node.addr init_kernel_stack) free_kernel_page_num ≡ true =
          ground (arith, inside, e) in
        rw (recycle_mem_page, e)
          (ground (
            arith,
            is_allocated-unmark_within free_kernel_page_num
                (page_idx_of node.addr init_kernel_stack) (page_idx_of node.addr init_kernel_stack)
                m.kernel_bitmap b.kernel,
            bound,
          ))
    | inr e ↦
        let bound : ltb (page_idx_of node.addr user_mem_base) free_user_page_num ≡ true =
          ground (arith, inside, e) in
        rw (recycle_mem_page, e)
          (ground (
            arith,
            is_allocated-unmark_within free_user_page_num (page_idx_of node.addr user_mem_base)
                (page_idx_of node.addr user_mem_base) m.user_bitmap b.user,
            bound,
          ))
  ]

  recycle_mem_page-pn_list : (recycle_mem_page node m).pn_list ≡ m.pn_list
  unfolding recycle_mem_page
  recycle_mem_page-pn_list = ground arith

-- The nodes of the process are inactive and out of the ring, the others are as before, and the
-- pages of the nodes in memory that have a bit are free.
pub record Recycled (pid : ℕ) (is_in_mem : Bool) (xs : List ℕ) (m : Mem) (r : List ℕ × Mem)
    : Type 0 where
  pub left : r.0 ≡ select (λ p. not (owned pid m p)) xs
  pub nodes :
      (i : ℕ)
      → (r.1).pn_list i
        ≡ (if has i xs && owned pid m i then inactive_node (m.pn_list i) else m.pn_list i)
  pub fewer : Fewer m (r.1)
  pub freed :
      is_in_mem ≡ true
      → (p : ℕ) → has p xs ≡ true
      → owned pid m p ≡ true
      → in_bitmap (m.pn_list p) ≡ true
      → node_allocated (r.1) (m.pn_list p) ≡ false

module _ (pid : ℕ) (is_in_mem : Bool) (p : ℕ) (m : Mem) (b : BytesIn m) where
  -- One round of the walk.
  abbrev step : Mem
  step =
      if owned pid m p
      then (if is_in_mem then recycle_mem_page (m.pn_list p) (deactivate p m) else deactivate p m)
      else m

  step-Fewer : Fewer m step
  step-Fewer = elim (Bool-cases (owned pid m p)) [
    | inl o ↦
        let d = deactivate-Fewer m b p in
        elim (Bool-cases is_in_mem) [
          | inl e ↦
              rw (o, e)
                (Fewer-trans d (recycle_mem_page-Fewer (deactivate p m) d.bytes (m.pn_list p)))
          | inr e ↦ rw (o, e) d
        ]
    | inr o ↦ rw o (Fewer-refl m b)
  ]

  step-nodes :
      (i : ℕ)
      → step.pn_list i
        ≡ (if (p == i) && owned pid m i then inactive_node (m.pn_list i) else m.pn_list i)
  unfolding deactivate
  step-nodes i = ground (
    arith,
    recycle_mem_page-pn_list (deactivate p m) (deactivate-Fewer m b p).bytes (m.pn_list p),
  )

  step-freed :
      is_in_mem ≡ true
      → owned pid m p ≡ true
      → in_bitmap (m.pn_list p) ≡ true
      → node_allocated step (m.pn_list p) ≡ false
  step-freed e o inside =
      rw (e, o)
        (recycle_mem_page-freed (deactivate p m) (deactivate-Fewer m b p).bytes (m.pn_list p)
          inside)

  step-owned : (i : ℕ) → owned pid step i ≡ owned pid m i
  step-owned i = rw (step-nodes i) (ground arith)

module _ (pid : ℕ) (is_in_mem : Bool) (p : ℕ) (rest : List ℕ) (m m1 : Mem) (r : List ℕ × Mem)
    (nodes : (i : ℕ)
      → m1.pn_list i
        ≡ (if (p == i) && owned pid m i then inactive_node (m.pn_list i) else m.pn_list i)) where
  same_owner : (i : ℕ) → owned pid m1 i ≡ owned pid m i
  same_owner i = rw (nodes i) (ground arith)

  cons-left :
      r.0 ≡ select (λ q. not (owned pid m1 q)) rest
      → (if owned pid m p then r.0 else p ∷ r.0) ≡ select (λ q. not (owned pid m q)) (p ∷ rest)
  cons-left h =
      let g =
        select_ext (λ q. not (owned pid m1 q)) (λ q. not (owned pid m q)) rest
          (λ q. ap not (same_owner q)) in
      elim (Bool-cases (owned pid m p)) [
        | inl o ↦ rw o (h ∙ g)
        | inr o ↦ rw o (ap (λ ys. p ∷ ys) (h ∙ g))
      ]

  cons-freed :
      Fewer m1 (r.1)
      → (owned pid m p ≡ true
          → in_bitmap (m.pn_list p) ≡ true
          → node_allocated m1 (m.pn_list p) ≡ false)
      → ((q : ℕ)
          → has q rest ≡ true
          → owned pid m1 q ≡ true
          → in_bitmap (m1.pn_list q) ≡ true
          → node_allocated (r.1) (m1.pn_list q) ≡ false)
      → (q : ℕ) → has q (p ∷ rest) ≡ true
      → owned pid m q ≡ true
      → in_bitmap (m.pn_list q) ≡ true
      → node_allocated (r.1) (m.pn_list q) ≡ false
  cons-freed w f later q h o inside = elim (Bool-cases (p == q)) [
    | inl e ↦
        let g : p ≡ q = ground arith in
        rw (← g) (Fewer-node (m.pn_list p) w (f (rw g o) (rw g inside)))
    | inr e ↦
        let g : m1.pn_list q ≡ m.pn_list q = nodes q ∙ rw e refl in
        rw g at (later q (ground arith) (same_owner q ∙ o) (rw g inside))
  ]

  cons-Recycled :
      Fewer m m1
      → (is_in_mem ≡ true
          → owned pid m p ≡ true
          → in_bitmap (m.pn_list p) ≡ true
          → node_allocated m1 (m.pn_list p) ≡ false)
      → Recycled pid is_in_mem rest m1 r
      → Recycled pid is_in_mem (p ∷ rest) m (if owned pid m p then r.0 else p ∷ r.0, r.1)
  cons-Recycled w f rec = record {
    left = cons-left rec.left;
    nodes = λ i. ground (arith, rec.nodes i, nodes i);
    fewer = Fewer-trans w rec.fewer;
    freed = λ e. cons-freed rec.fewer (f e) (rec.freed e);
  }

module _ (pid : ℕ) (is_in_mem : Bool) where
  recycle_nodes_cons :
      (p : ℕ) (rest : List ℕ) (m : Mem) (b : BytesIn m)
      → recycle_nodes pid is_in_mem (p ∷ rest) m ≡ (
          let r = recycle_nodes pid is_in_mem rest (step pid is_in_mem p m b) in
          (if owned pid m p then r.0 else p ∷ r.0, r.1))
  unfolding recycle_nodes
  recycle_nodes_cons p rest m b = refl

  pub recycle_nodes-Recycled :
      (xs : List ℕ) (m : Mem)
      → BytesIn m
      → Recycled pid is_in_mem xs m (recycle_nodes pid is_in_mem xs m)
  unfolding recycle_nodes
  recycle_nodes-Recycled [] m b = record {
    left = refl;
    nodes = λ i. refl;
    fewer = Fewer-refl m b;
    freed = λ e p h o inside. absurd (ground arith);
  }
  recycle_nodes-Recycled (p ∷ rest) m b =
      let m1 = step pid is_in_mem p m b in
      let w = step-Fewer pid is_in_mem p m b in
      let r = recycle_nodes-Recycled rest m1 w.bytes in
      rw (recycle_nodes_cons p rest m b) (
        cons-Recycled pid is_in_mem p rest m m1 (recycle_nodes pid is_in_mem rest m1)
          (step-nodes pid is_in_mem p m b) w (step-freed pid is_in_mem p m b) r)
