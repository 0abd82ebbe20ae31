-- ===== src/Links/Tasks.antt =====
-- The linked queues of the kernel: the list operations of the scheduler's model are what its
-- pointer writes do. A PCB's list node and a queue's head have addresses of their own.
use oslab_2024fall.Prelude.{
  ℕ, ◌+◌, ◌*◌, ◌/◌, ◌%◌, ◌≡◌, refl, Bool, true, false, List, [], ◌∷◌, ◌++◌, ◌==◌, arith, has, erase,
  map, Bool-cases, inl, inr, ◌∙◌, sym,
}
use mathlib.Core.List.{map-append}
use oslab_2024fall.Prelude.Table.{update, update_self}
use oslab_2024fall.Kernel.{Kernel, ready_queue}
use oslab_2024fall.Sched.{do_block, do_unblock, unlink, add_readyqueue, insert_tail}
use oslab_2024fall.Sched.Queues.{IsLinked, IsDetached, unlink-IsDetached}
use oslab_2024fall.Links.{Links, link_tail, unlink_node}
use oslab_2024fall.Links.Refine.{Represents, link_tail-Represents, unlink_node-Represents}

abbrev pub node_addr : ℕ → ℕ
node_addr i = 2 * i + 2

abbrev pub head_addr : ℕ → ℕ
head_addr q = 2 * q + 1

abbrev pub is_head : ℕ → Bool
is_head a = a % 2 == 1

-- The queue of the head at an address, by the addresses of its nodes.
abbrev pub queue_at : Kernel → ℕ → List ℕ
queue_at k a = map node_addr (k.queues (a / 2))

-- The links hold the queues of the kernel.
abbrev pub AreLinks : Links → Kernel → Type 0
AreLinks l k = Represents is_head l (queue_at k)

has-map : (i : ℕ) (xs : List ℕ) → has (node_addr i) (map node_addr xs) ≡ has i xs
has-map i [] = refl
has-map i (x ∷ xs) = ground (arith, has-map i xs)

even-map : (a : ℕ) (xs : List ℕ) → is_head a ≡ true → has a (map node_addr xs) ≡ false
even-map a [] h = refl
even-map a (x ∷ xs) h = ground (arith, even-map a xs h)

erase-map :
    (i : ℕ) (xs : List ℕ) → erase (node_addr i) (map node_addr xs) ≡ map node_addr (erase i xs)
erase-map i [] = refl
erase-map i (x ∷ xs) = ground (arith, erase-map i xs)

-- Only the queues at the heads count.
Represents-ext :
    (head : ℕ → Bool) (l : Links) (p q : ℕ → List ℕ)
    → ((h : ℕ) → head h ≡ true → p h ≡ q h)
    → Represents head l p
    → Represents head l q
Represents-ext head l p q same r = record {
  ring = λ h hh. rw (← same h hh) (r.ring h hh);
  nodup = λ h hh. rw (← same h hh) (r.nodup h hh);
  apart = λ h g v hh hg mh mg. r.apart h g v hh hg (rw (same h hh) mh) (rw (same g hg) mg);
}

module _ (l : Links) (k : Kernel) (r : AreLinks l k) (i : ℕ) where
  module _ (q : ℕ) (here : has i (k.queues q) ≡ true) where
    half : head_addr q / 2 ≡ q
    half = omega arith

    unlink-AreLinks : AreLinks (unlink_node (node_addr i) l) (unlink i k)
    unfolding unlink
    unlink-AreLinks =
        Represents-ext is_head (unlink_node (node_addr i) l)
          (λ g. erase (node_addr i) (queue_at k g)) _ (λ h hh. erase-map i (k.queues (h / 2)))
          (unlink_node-Represents r (node_addr i) (head_addr q) (ground arith)
            (rw half (has-map i (k.queues q) ∙ here)))

  module _ (q : ℕ) (k' : Kernel)
      (same : (g : ℕ) → k'.queues g ≡ update k.queues q (k.queues q ++ i ∷ []) g) where
    half_of : head_addr q / 2 ≡ q
    half_of = omega arith

    abbrev put_at : ℕ → List ℕ
    put_at = update (queue_at k) (head_addr q) (queue_at k (head_addr q) ++ node_addr i ∷ [])

    put_here : put_at (head_addr q) ≡ queue_at k' (head_addr q)
    put_here =
        rw
          (
            update_self (queue_at k) (head_addr q) (queue_at k (head_addr q) ++ node_addr i ∷ []),
            same (head_addr q / 2),
            half_of,
            update_self k.queues q (k.queues q ++ i ∷ []),
          )
          (sym (map-append node_addr (k.queues q) (i ∷ [])))

    put_there :
        (h : ℕ) → (head_addr q == h) ≡ false → (q == h / 2) ≡ false → put_at h ≡ queue_at k' h
    put_there h e d = rw (same (h / 2), e, d) refl

    put_all : (h : ℕ) → is_head h ≡ true → put_at h ≡ queue_at k' h
    put_all h hh = elim (Bool-cases (head_addr q == h)) [
      | inl e ↦ let p : head_addr q ≡ h = ground arith in rw (← p) put_here
      | inr e ↦ put_there h e (ground arith)
    ]

    link-AreLinks :
        ((g : ℕ) → has i (k.queues g) ≡ false)
        → AreLinks (link_tail (node_addr i) (head_addr q) l) k'
    link-AreLinks out =
        Represents-ext is_head (link_tail (node_addr i) (head_addr q) l) put_at _ put_all (
          link_tail-Represents r (node_addr i) (head_addr q) (ground arith)
            (λ g hg. ground (arith, has-map i (k.queues (g / 2)), out (g / 2))))

module _ (l : Links) (k : Kernel) (r : AreLinks l k) (i : ℕ) where
  -- When the links of the nodes represent the queues of a kernel state and the task is in no
  -- queue, the pointer writes of do_block give links that represent the queues after do_block
  -- of the model.
  pub do_block-AreLinks :
      (q : ℕ) → IsDetached i k → AreLinks (link_tail (node_addr i) (head_addr q) l) (do_block i q k)
  unfolding do_block insert_tail
  do_block-AreLinks q out = link-AreLinks l k r i q (do_block i q k) (λ g. refl) out

  add_readyqueue-AreLinks :
      IsDetached i k
      → AreLinks (link_tail (node_addr i) (head_addr ready_queue) l) (add_readyqueue i k)
  unfolding add_readyqueue insert_tail
  add_readyqueue-AreLinks out =
      link-AreLinks l k r i ready_queue (add_readyqueue i k) (λ g. refl) out

-- When the links of the nodes represent the queues of a kernel state, a task is in at most one
-- queue and the task is in some queue, the pointer writes of do_unblock give links that
-- represent the queues after do_unblock of the model.
pub do_unblock-AreLinks :
    {l : Links} {k : Kernel}
    → AreLinks l k
    → IsLinked k
    → (i q : ℕ) → has i (k.queues q) ≡ true
    → AreLinks
        (link_tail (node_addr i) (head_addr ready_queue) (unlink_node (node_addr i) l))
        (do_unblock i k)
unfolding do_unblock
do_unblock-AreLinks {l} {k} r s i q here =
    add_readyqueue-AreLinks (unlink_node (node_addr i) l) (unlink i k)
      (unlink-AreLinks l k r i q here) i (unlink-IsDetached s i)
