-- ===== src/Tests/Rings.antt =====
-- The linked queues.
use oslab_2024fall.Prelude.{
  ℕ, ◌≡◌, refl, true, [], ◌∷◌, arith, has, ◌/◌, ◌==◌, ◌||◌, ◌&&◌, Bool-cases, inl, inr,
  if◌then◌else◌,
}
use oslab_2024fall.Kernel.{ready_queue, sleep_queue}
use oslab_2024fall.Sched.{do_unblock}
use oslab_2024fall.Links.{Links, link_tail, unlink_node}
use oslab_2024fall.Links.Tasks.{
  AreLinks, is_head, queue_at, node_addr, head_addr, do_unblock-AreLinks,
}
use oslab_2024fall.Tests.Demo.{demo, demo-IsSound}

-- Node 1, at address 4, is in the ring of the sleep queue, and every other node links to itself.
abbrev ring_of_one : ℕ → Links
ring_of_one q = record {
  next = λ a. if a == head_addr q then 4 else if a == 4 then head_addr q else a;
  prev = λ a. if a == head_addr q then 4 else if a == 4 then head_addr q else a;
}

ring_of_one-has :
    (h v : ℕ)
    → is_head h ≡ true
    → has v (h ∷ queue_at (demo sleep_queue) h) ≡ true
    → ((h == v) || ((h == 3) && (v == 4))) ≡ true
ring_of_one-has h v hh m = elim (Bool-cases (h / 2 == sleep_queue)) [
  | inl e ↦ let n : has v (h ∷ 4 ∷ []) ≡ true = (rw e at m) in ground arith
  | inr e ↦ let n : has v (h ∷ []) ≡ true = (rw e at m) in ground arith
]

ring_of_one-apart :
    (h g v : ℕ)
    → is_head h ≡ true
    → is_head g ≡ true
    → has v (h ∷ queue_at (demo sleep_queue) h) ≡ true
    → has v (g ∷ queue_at (demo sleep_queue) g) ≡ true
    → h ≡ g
ring_of_one-apart h g v hh hg mh mg =
    ground (arith, ring_of_one-has h v hh mh, ring_of_one-has g v hg mg)

ring_of_one-AreLinks : AreLinks (ring_of_one sleep_queue) (demo sleep_queue)
ring_of_one-AreLinks = record {
  ring = λ h hh. elim (Bool-cases (h / 2 == sleep_queue)) [
    | inl e ↦ rw e (ground arith, ground arith, (ground arith, ground arith))
    | inr e ↦ rw e (ground arith, ground arith)
  ];
  nodup = λ h hh. elim (Bool-cases (h / 2 == sleep_queue)) [
    | inl e ↦ rw e (ground arith, (refl, tt))
    | inr e ↦ rw e (refl, tt)
  ];
  apart = λ h g v hh hg mh mg. ring_of_one-apart h g v hh hg mh mg;
}

do_unblock-AreLinks_example :
    AreLinks
      (link_tail
        (node_addr 1)
        (head_addr ready_queue)
        (unlink_node (node_addr 1) (ring_of_one sleep_queue)))
      (do_unblock 1 (demo sleep_queue))
do_unblock-AreLinks_example =
    do_unblock-AreLinks ring_of_one-AreLinks (demo-IsSound sleep_queue (omega arith)).linked 1
      sleep_queue refl
