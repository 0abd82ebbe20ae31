-- ===== src/Links/Refine.antt =====
-- The linked queues refine lists: a put at the tail is an append, an unlinking is a removal.
use oslab_2024fall.Prelude.{
  ℕ, ◌≡◌, ◌≢◌, Bool, true, false, List, [], ◌∷◌, ◌++◌, ◌==◌, arith, has, erase, IsNodup, has-append,
  has-erase_le, erase_of_not_has, IsNodup-erase, IsNodup-append_one, Bool-cases, inl, ==_refl, inr,
}
use oslab_2024fall.Prelude.Table.{update}
use oslab_2024fall.Links.{Links, link_tail, unlink_node}
use oslab_2024fall.Links.Chain.{
  Chain, Chain-frame, Chain-link_tail, Chain-unlink_node, has-prev_end, has-prev, has-next,
  unlink_node-next, unlink_node-prev,
}

-- The rings at the heads hold the lists, and share no node.
pub record Represents (is_head : ℕ → Bool) (l : Links) (queues : ℕ → List ℕ) : Type 0 where
  pub ring : (h : ℕ) → is_head h ≡ true → Chain l h (queues h) h
  pub nodup : (h : ℕ) → is_head h ≡ true → IsNodup (h ∷ queues h)
  pub apart :
      (h g v : ℕ)
      → is_head h ≡ true
      → is_head g ≡ true
      → has v (h ∷ queues h) ≡ true
      → has v (g ∷ queues g) ≡ true
      → h ≡ g

module _ {is_head : ℕ → Bool} {l : Links} {queues : ℕ → List ℕ}
    (r : Represents is_head l queues) where
  module _ (n h : ℕ) (hh : is_head h ≡ true)
      (out : (g : ℕ) → is_head g ≡ true → has n (g ∷ queues g) ≡ false) where
    appended : ℕ → List ℕ
    appended = update queues h (queues h ++ n ∷ [])

    tail_in : has (l.prev h) (h ∷ queues h) ≡ true
    tail_in = has-prev_end l h (queues h) h (r.ring h hh)

    link_tail-ring : (g : ℕ) → is_head g ≡ true → Chain (link_tail n h l) g (appended g) g
    unfolding appended
    link_tail-ring g hg = elim (Bool-cases (h == g)) [
      | inl e ↦
          let z : g ≡ h = ground arith in
          let o = out h hh in
          rw (z, ==_refl h)
            (Chain-link_tail l h (queues h) h n (r.ring h hh) (r.nodup h hh) (r.nodup h hh).0
              (out h hh) (ground arith))
      | inr e ↦ rw e (
          Chain-frame l (link_tail n h l) g (queues g) g
            (λ v m. unfold link_tail in ground (arith, r.apart h g v hh hg, out g hg, tail_in))
            (λ v m. unfold link_tail in ground (arith, r.apart h g v hh hg, out g hg))
            (unfold link_tail in ground (arith, r.apart h g g hh hg, out g hg)) (r.ring g hg))
    ]

    -- do_block and add_readyqueue: putting a node that is in no ring at the tail of a ring.
    pub link_tail-Represents :
        Represents is_head (link_tail n h l) (update queues h (queues h ++ n ∷ []))
    unfolding appended
    link_tail-Represents = record {
      ring = link_tail-ring;
      nodup = λ g hg. elim (Bool-cases (h == g)) [
        | inl e ↦
            let z : g ≡ h = ground arith in
            rw (z, ==_refl h) (IsNodup-append_one (h ∷ queues h) n (r.nodup h hh) (out h hh))
        | inr e ↦ rw e (r.nodup g hg)
      ];
      apart = λ g f v hg hf mg mf.
          ground (arith, r.apart g f v hg hf, has-append v (queues h) (n ∷ []), out g hg, out f hf);
    }

  module _ (n h : ℕ) (hh : is_head h ≡ true) (here : has n (queues h) ≡ true) where
    not_elsewhere : (g : ℕ) → is_head g ≡ true → g ≢ h → has n (g ∷ queues g) ≡ false
    not_elsewhere g hg ne = ground (arith, r.apart g h n hg hh)

    prev_in : has (l.prev n) (h ∷ queues h) ≡ true
    prev_in = has-prev l h (queues h) h n (r.ring h hh) here

    next_in : has (l.next n) (h ∷ queues h) ≡ true
    next_in = ground (arith, has-next l h (queues h) h n (r.ring h hh) (ground arith))

    unlink_node-ring : (g : ℕ) → is_head g ≡ true → Chain (unlink_node n l) g (erase n (queues g)) g
    unlink_node-ring g hg = elim (Bool-cases (h == g)) [
      | inl e ↦
          let z : g ≡ h = ground arith in
          rw z (
            Chain-unlink_node l h (queues h) h n (r.ring h hh) (r.nodup h hh) (r.nodup h hh).0 here)
      | inr e ↦
          let ne : g ≢ h = ground arith in
          let o = not_elsewhere g hg ne in
          rw (erase_of_not_has n (queues g) (ground arith)) (
            Chain-frame l (unlink_node n l) g (queues g) g
              (λ v m.
                unlink_node-next l n v (ground arith)
                  (ground (arith, r.apart h g v hh hg, prev_in)))
              (λ v m.
                unlink_node-prev l n v (ground arith)
                  (ground (arith, r.apart h g v hh hg, next_in)))
              (unlink_node-prev l n g (ground arith) (ground (arith, r.apart h g g hh hg, next_in)))
              (r.ring g hg))
    ]

    -- do_unblock, remove_readyqueue and remove_pcb_queue: the node leaves its ring, and every other
    -- ring stays as it is.
    pub unlink_node-Represents : Represents is_head (unlink_node n l) (λ g. erase n (queues g))
    unlink_node-Represents = record {
      ring = unlink_node-ring;
      nodup = λ g hg. (
        ground (arith, r.nodup g hg, has-erase_le g n (queues g)),
        IsNodup-erase n (queues g) (r.nodup g hg).1,
      );
      apart = λ g f v hg hf mg mf.
          r.apart g f v hg hf (ground (arith, has-erase_le v n (queues g)))
            (ground (arith, has-erase_le v n (queues f)));
    }
