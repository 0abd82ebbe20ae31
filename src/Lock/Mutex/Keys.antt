-- ===== src/Lock/Mutex/Keys.antt =====
-- do_mutex_lock_init: one lock for each key.
use oslab_2024fall.Prelude.{
  ℕ, ◌+◌, ◌≤◌, ◌<◌, ◌≡◌, ◌≢◌, refl, Bool, Option, none, some, ◌==◌, leb, arith, Option-cases,
  Bool-cases, inl, inr, ◌⊎◌, ◌↔◌,
}
use oslab_2024fall.Prelude.Seq.{first_from, first_from-some, first_from-none}
use oslab_2024fall.Kernel.{Kernel, lock_num}
use oslab_2024fall.Lock.Mutex.{do_mutex_lock_init}

-- The locks handed out so far fit the table and have different keys.
pub record IsKeyed (k : Kernel) : Type 0 where
  pub fits : k.last_lockid ≤ lock_num
  pub distinct :
      (i j : ℕ)
      → i < k.last_lockid
      → j < k.last_lockid
      → (k.mlocks i).key ≡ (k.mlocks j).key
      → i ≡ j

-- What do_mutex_lock_init returns and changes.
abbrev pub InitSays : ℕ → Kernel → Kernel × Option ℕ → Type 0
InitSays key k (k', some i) =
    (i < k'.last_lockid)
    × ((k'.mlocks i).key ≡ key)
    × ((j : ℕ) → j < k.last_lockid → k'.mlocks j ≡ k.mlocks j)
    × ((k'.last_lockid ≡ k.last_lockid)
        ⊎ ((i ≡ k.last_lockid)
            × (k'.last_lockid ≡ k.last_lockid + 1)
            × ((j : ℕ) → j < k.last_lockid → (k.mlocks j).key ≢ key)))
InitSays key k (k', none) =
    (k' ≡ k) × (k.last_lockid ≡ lock_num) × ((j : ℕ) → j < k.last_lockid → (k.mlocks j).key ≢ key)

abbrev match_key : ℕ → Kernel → ℕ → Bool
match_key key k i = (k.mlocks i).key == key

module _ (key : ℕ) (k : Kernel) (inv : IsKeyed k) where
  fresh_key :
      first_from (match_key key k) k.last_lockid 0 ≡ none
      → (j : ℕ) → j < k.last_lockid
      → (k.mlocks j).key ≢ key
  fresh_key e j h = ground (arith, first_from-none (match_key key k) k.last_lockid 0 e j)

  do_mutex_lock_init-says : InitSays key k (do_mutex_lock_init key k)
  unfolding do_mutex_lock_init
  do_mutex_lock_init-says = elim (Option-cases (first_from (match_key key k) k.last_lockid 0)) [
    | inr (i, e) ↦
        let (found, lo, hi) = first_from-some (match_key key k) k.last_lockid 0 e in
        rw (e, do_mutex_lock_init) (omega arith, ground arith, λ j h. refl, inl refl)
    | inl e ↦
        rw (e, do_mutex_lock_init)
          (elim (Bool-cases (leb lock_num k.last_lockid)) [
            | inl full ↦ rw full (refl, ground (arith, inv.fits), fresh_key e)
            | inr room ↦
                rw room
                  (omega arith, ground arith, λ j h. ground arith, inr (refl, refl, fresh_key e))
          ])
  ]

-- A returned lock has the key, is in the table, and an old table entry stays.
InitSays-IsKeyed :
    (key : ℕ) (k : Kernel) (r : Kernel × Option ℕ)
    → IsKeyed k
    → InitSays key k r
    → r.0.last_lockid ≤ lock_num
    → IsKeyed r.0
InitSays-IsKeyed key k (k', none) inv says le = rw (says.0) inv
InitSays-IsKeyed key k (k', some i) inv (a, b, c, inl e) le = record {
  fits = le;
  distinct =
      λ m n hm hn eq. inv.distinct m n (omega arith) (omega arith) (ground (arith, c m, c n));
}
InitSays-IsKeyed key k (k', some i) inv (a, b, c, inr (e1, e2, fresh)) le = record {
  fits = le;
  distinct = λ m n hm hn eq. elim (Bool-cases (m == i)) [
    | inl mi ↦ elim (Bool-cases (n == i)) [
      | inl ni ↦ ground arith
      | inr ni ↦ absurd (ground (arith, c n, fresh n))
    ]
    | inr mi ↦ elim (Bool-cases (n == i)) [
      | inl ni ↦ absurd (ground (arith, c m, fresh m))
      | inr ni ↦ inv.distinct m n (ground arith) (ground arith) (ground (arith, c m, c n))
    ]
  ];
}

do_mutex_lock_init-fits :
    (key : ℕ) (k : Kernel) → IsKeyed k → (do_mutex_lock_init key k).0.last_lockid ≤ lock_num
unfolding do_mutex_lock_init
do_mutex_lock_init-fits key k inv =
    elim (Option-cases (first_from (match_key key k) k.last_lockid 0)) [
      | inr (i, e) ↦ rw (e, do_mutex_lock_init) inv.fits
      | inl e ↦ rw (e, do_mutex_lock_init) (ground (arith, inv.fits))
    ]

-- do_mutex_lock_init keeps the number of locks handed out within the table and their keys
-- distinct.
pub do_mutex_lock_init-IsKeyed :
    (key : ℕ) (k : Kernel) → IsKeyed k → IsKeyed (do_mutex_lock_init key k).0
do_mutex_lock_init-IsKeyed key k inv =
    InitSays-IsKeyed key k _ inv (do_mutex_lock_init-says key k inv)
      (do_mutex_lock_init-fits key k inv)

-- What InitSays says once the result is known.
InitSays-some :
    (key : ℕ) (k k' : Kernel) (i : ℕ)
    → InitSays key k (k', some i)
    → (i < k'.last_lockid)
      × ((k'.mlocks i).key ≡ key)
      × ((j : ℕ) → j < k.last_lockid → k'.mlocks j ≡ k.mlocks j)
      × (k.last_lockid ≤ k'.last_lockid)
InitSays-some key k k' i says = (says.0, says.1, says.2, ground arith)

same_iff_of_kept :
    (key key' i j : ℕ) (k1 : Kernel) {k2 : Kernel}
    → IsKeyed k2
    → i < k1.last_lockid
    → (k1.mlocks i).key ≡ key
    → j < k2.last_lockid
    → (k2.mlocks j).key ≡ key'
    → k2.mlocks i ≡ k1.mlocks i
    → k1.last_lockid ≤ k2.last_lockid
    → (i ≡ j) ↔ (key ≡ key')
same_iff_of_kept key key' i j k1 inv in1 key1 in2 key2 kept grows =
    (λ same. ground arith, λ same. inv.distinct i j (omega arith) in2 (ground arith))

-- When the keys of the locks are distinct, two successive successful calls of
-- do_mutex_lock_init return the same lock exactly when they were given the same key.
pub do_mutex_lock_init-same_iff :
    (key key' : ℕ) {k k1 k2 : Kernel} {i j : ℕ}
    → IsKeyed k
    → do_mutex_lock_init key k ≡ (k1, some i)
    → do_mutex_lock_init key' k1 ≡ (k2, some j)
    → (i ≡ j) ↔ (key ≡ key')
do_mutex_lock_init-same_iff key key' {k} {k1} {k2} {i} {j} inv e1 e2 =
    let inv1 : IsKeyed k1 = rw e1 at (do_mutex_lock_init-IsKeyed key k inv) in
    let inv2 : IsKeyed k2 = rw e2 at (do_mutex_lock_init-IsKeyed key' k1 inv1) in
    let says1 : InitSays key k (k1, some i) = rw e1 at (do_mutex_lock_init-says key k inv) in
    let says2 : InitSays key' k1 (k2, some j) = rw e2 at (do_mutex_lock_init-says key' k1 inv1) in
    let (in1, key1, _, _) = InitSays-some key k k1 i says1 in
    let (in2, key2, kept, grows) = InitSays-some key' k1 k2 j says2 in
    same_iff_of_kept key key' i j k1 inv2 in1 key1 in2 key2 (kept i in1) grows
