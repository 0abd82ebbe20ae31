-- ===== src/Lock/Mutex/Cleanup.antt =====
-- release_process_mutex: the locks of a process that ends.
use oslab_2024fall.Prelude.{
  ℕ, zero, suc, ◌+◌, ◌≤◌, ◌<◌, ◌≡◌, refl, false, ◌==◌, arith, Bool-cases, inl, inr, ◌∙◌, ap,
}
use oslab_2024fall.Kernel.{Kernel}
use oslab_2024fall.Sched.Queues.{IsSound}
use oslab_2024fall.Sched.Keeps.{Keeps, Keeps-refl, Keeps-trans}
use oslab_2024fall.Lock.Mutex.{release_if_held, release_from, release_process_mutex}
use oslab_2024fall.Lock.Mutex.Sound.{held_by, release_if_held-says}

-- The process holds no lock in `lo .. hi - 1`, and the locks that it did not hold are the same.
pub record Freed (pid lo hi : ℕ) (k k' : Kernel) : Type 0 where
  pub none_held : (j : ℕ) → lo ≤ j → j < hi → held_by pid (k'.mlocks j) ≡ false
  pub others : (j : ℕ) → held_by pid (k.mlocks j) ≡ false → k'.mlocks j ≡ k.mlocks j
  pub same_count : k'.last_lockid ≡ k.last_lockid
  pub sound : IsSound k'
  pub keeps : Keeps k k'

release_from-Freed :
    (pid n i hi : ℕ) (k : Kernel)
    → IsSound k
    → i + n ≡ hi
    → Freed pid i hi k (release_from pid n i k)
unfolding release_from
release_from-Freed pid zero i hi k s e = record {
  none_held = λ j lo up. absurd (omega arith);
  others = λ j h. refl;
  same_count = refl;
  sound = s;
  keeps = Keeps-refl k;
}
release_from-Freed pid (suc n) i hi k s e =
    let (freed, same, idle, count, s1, kept) = release_if_held-says pid i k s in
    let k1 = release_if_held pid i k in
    let f = release_from-Freed pid n (i + 1) hi k1 s1 (omega arith) in
    let same_at : (j : ℕ) → held_by pid (k.mlocks j) ≡ false → k1.mlocks j ≡ k.mlocks j = λ j h.
      elim (Bool-cases (j == i)) [
        | inl ji ↦ let z : j ≡ i = ground arith in rw z (idle (rw z at h))
        | inr ji ↦ same j (ground arith)
      ] in
    record {
      none_held = λ j lo up. elim (Bool-cases (j == i)) [
        | inl ji ↦
            let z : j ≡ i = ground arith in rw z (ap (held_by pid) (f.others i freed) ∙ freed)
        | inr ji ↦ f.none_held j (ground arith) up
      ];
      others = λ j h. f.others j (ap (held_by pid) (same_at j h) ∙ h) ∙ same_at j h;
      same_count = f.same_count ∙ count;
      sound = f.sound;
      keeps = Keeps-trans kept f.keeps;
    }

-- From a sound state, release_process_mutex ends in a sound state where the process holds no
-- lock that was handed out, and the locks that it did not hold are unchanged.
pub release_process_mutex-Freed :
    (pid : ℕ) (k : Kernel) → IsSound k → Freed pid 0 k.last_lockid k (release_process_mutex pid k)
unfolding release_process_mutex
release_process_mutex-Freed pid k s =
    release_from-Freed pid k.last_lockid 0 k.last_lockid k s (omega arith)
