-- ===== src/Links/Chain.antt =====
-- Chains of linked nodes, and what the writes do to them.
use oslab_2024fall.Prelude.{
  ℕ, ◌≡◌, ◌≢◌, true, false, List, [], ◌∷◌, ◌++◌, ◌==◌, arith, has, erase, IsNodup, Bool-cases, inl,
  inr, ◌⊎◌, ==_refl, ◌∙◌,
}
use oslab_2024fall.Links.{Links, link_tail, unlink_node}

-- From `a` the links lead through `xs`, in both directions, to `b`.
abbrev pub Chain : Links → ℕ → List ℕ → ℕ → Type 0
Chain l a [] b = (l.next a ≡ b) × (l.prev b ≡ a)
Chain l a (x ∷ xs) b = (l.next a ≡ x) × (l.prev x ≡ a) × Chain l x xs b

pub Chain-frame :
    (l l' : Links) (a : ℕ) (xs : List ℕ) (b : ℕ)
    → ((v : ℕ) → has v (a ∷ xs) ≡ true → l'.next v ≡ l.next v)
    → ((v : ℕ) → has v xs ≡ true → l'.prev v ≡ l.prev v)
    → l'.prev b ≡ l.prev b
    → Chain l a xs b
    → Chain l' a xs b
Chain-frame l l' a [] b n p pb (e, f) = (n a (ground arith) ∙ e, pb ∙ f)
Chain-frame l l' a (x ∷ xs) b n p pb (e, f, c) = (
  n a (ground arith) ∙ e,
  p x (ground arith) ∙ f,
  Chain-frame l l' x xs b (λ v h. n v (ground arith)) (λ v h. p v (ground arith)) pb c,
)

-- The node before the end is one of the chain.
pub has-prev_end :
    (l : Links) (a : ℕ) (xs : List ℕ) (b : ℕ) → Chain l a xs b → has (l.prev b) (a ∷ xs) ≡ true
has-prev_end l a [] b (e, f) = ground arith
has-prev_end l a (x ∷ xs) b (e, f, c) = ground (arith, has-prev_end l x xs b c)

pub has-prev :
    (l : Links) (a : ℕ) (xs : List ℕ) (b n : ℕ)
    → Chain l a xs b
    → has n xs ≡ true
    → has (l.prev n) (a ∷ xs) ≡ true
has-prev l a [] b n c h = absurd (ground arith)
has-prev l a (x ∷ xs) b n (e, f, c) h = elim (Bool-cases (x == n)) [
  | inl s ↦ ground arith
  | inr s ↦ ground (arith, has-prev l x xs b n c)
]

pub has-next :
    (l : Links) (a : ℕ) (xs : List ℕ) (b n : ℕ)
    → Chain l a xs b
    → has n (a ∷ xs) ≡ true
    → (has (l.next n) xs ≡ true) ⊎ (l.next n ≡ b)
has-next l a [] b n (e, f) h = inr (ground arith)
has-next l a (x ∷ xs) b n (e, f, c) h = elim (Bool-cases (a == n)) [
  | inl s ↦ inl (ground arith)
  | inr s ↦ elim (has-next l x xs b n c (ground arith)) [
    | inl m ↦ inl (ground arith)
    | inr m ↦ inr m
  ]
]

-- Putting a new node before the end of a chain.
pub Chain-link_tail :
    (l : Links) (a : ℕ) (xs : List ℕ) (b n : ℕ)
    → Chain l a xs b
    → IsNodup (a ∷ xs)
    → has b xs ≡ false
    → has n (a ∷ xs) ≡ false
    → n ≢ b
    → Chain (link_tail n b l) a (xs ++ n ∷ []) b
unfolding link_tail
Chain-link_tail l a [] b n (e, f) nd nb nn ne =
    (ground arith, ground arith, (ground arith, ground arith))
Chain-link_tail l a (x ∷ xs) b n (e, f, c) nd nb nn ne =
    let t = has-prev_end l x xs b c in
    (ground arith, ground arith, Chain-link_tail l x xs b n c nd.1 (ground arith) (ground arith) ne)

unlink_first :
    (l : Links) (a n : ℕ) (ys : List ℕ) (b : ℕ)
    → Chain l a (n ∷ ys) b
    → IsNodup (a ∷ n ∷ ys)
    → has b (n ∷ ys) ≡ false
    → Chain (unlink_node n l) a ys b
unfolding unlink_node
unlink_first l a n [] b (e, f, (g, h)) nd nb = (ground arith, ground arith)
unlink_first l a n (y ∷ ys) b (e, f, (g, h, c)) nd nb = (
  ground arith,
  ground arith,
  Chain-frame l (unlink_node n l) y ys b (λ v m. ground arith) (λ v m. ground arith) (ground arith)
      c,
)

-- The unlinking of a node changes only its own links and those that led to it.
pub unlink_node-next :
    (l : Links) (n v : ℕ) → v ≢ n → v ≢ l.prev n → (unlink_node n l).next v ≡ l.next v
unfolding unlink_node
unlink_node-next l n v d d' = ground arith

pub unlink_node-prev :
    (l : Links) (n v : ℕ) → v ≢ n → v ≢ l.next n → (unlink_node n l).prev v ≡ l.prev v
unfolding unlink_node
unlink_node-prev l n v d d' = ground arith

-- Taking a node out of a chain.
pub Chain-unlink_node :
    (l : Links) (a : ℕ) (xs : List ℕ) (b n : ℕ)
    → Chain l a xs b
    → IsNodup (a ∷ xs)
    → has b xs ≡ false
    → has n xs ≡ true
    → Chain (unlink_node n l) a (erase n xs) b
Chain-unlink_node l a [] b n c nd nb m = absurd (ground arith)
Chain-unlink_node l a (x ∷ xs) b n (e, f, c) nd nb m = elim (Bool-cases (x == n)) [
  | inl s ↦
      let z : n ≡ x = ground arith in rw (z, ==_refl x) (unlink_first l a x xs b (e, f, c) nd nb)
  | inr s ↦
      let m' : has n xs ≡ true = ground arith in
      let p = has-prev l x xs b n c m' in
      let q = has-next l x xs b n c (ground arith) in
      rw s (
        unlink_node-next l n a (ground arith) (ground arith) ∙ e,
        unlink_node-prev l n x (ground arith) (ground arith) ∙ f,
        Chain-unlink_node l x xs b n c nd.1 (ground arith) m',
      )
]
