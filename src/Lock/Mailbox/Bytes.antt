-- ===== src/Lock/Mailbox/Bytes.antt =====
-- A mailbox is a first-in first-out queue of bytes.
use oslab_2024fall.Prelude.{
  ℕ, zero, suc, ◌+◌, ◌-◌, ◌≤◌, ◌<◌, ◌≡◌, refl, List, [], ◌∷◌, ◌++◌, arith, length, inl, ◌∙◌, ap,
  sym,
}
use mathlib.Core.Path.{ap₂}
use oslab_2024fall.Prelude.Table.{update}
use oslab_2024fall.Libs.Memory.{Memory, memcpy, memcpy_inside}
use oslab_2024fall.Kernel.{Mailbox}
use oslab_2024fall.Lock.Mailbox.{copy_in, read_bytes, put_message, drop_message}

-- The bytes in a mailbox, the oldest first.
unfoldable pub contents : Mailbox → List ℕ
unfolding read_bytes
contents m = read_bytes m.buffer 0 m.buffer_idx

read_bytes_ext :
    (b c : Memory) (s t n : ℕ)
    → ((i : ℕ) → i < n → b (s + i) ≡ c (t + i))
    → read_bytes b s n ≡ read_bytes c t n
unfolding read_bytes
read_bytes_ext b c s t zero h = refl
read_bytes_ext b c s t (suc n) h =
    let first : b s ≡ c t = ground (arith, h 0) in
    let rest = read_bytes_ext b c (s + 1) (t + 1) n (λ i lt. shifted i lt) in ap₂ ◌∷◌ first rest
  where
    shifted : (i : ℕ) → i < n → b (s + 1 + i) ≡ c (t + 1 + i)
    shifted i lt =
        let e : s + 1 + i ≡ s + suc i = omega arith in
        let f : t + 1 + i ≡ t + suc i = omega arith in rw (e, f) (h (suc i) (omega arith))

read_bytes_split :
    (b : Memory) (s n m k : ℕ)
    → k ≡ n + m
    → read_bytes b s k ≡ read_bytes b s n ++ read_bytes b (s + n) m
unfolding read_bytes
read_bytes_split b s zero m k e =
    let f : s + 0 ≡ s = omega arith in let g : k ≡ m = omega arith in rw (f, g)
read_bytes_split b s (suc n) m zero e = absurd (omega arith)
read_bytes_split b s (suc n) m (suc k) e =
    let f : s + suc n ≡ s + 1 + n = omega arith in
    rw f (ap (◌∷◌ (b s)) (read_bytes_split b (s + 1) n m k (omega arith)))

copy_in_below :
    (start : ℕ) (msg : List ℕ) (b : Memory) (a : ℕ) → a < start → copy_in start msg b a ≡ b a
unfolding copy_in
copy_in_below start [] b a h = refl
copy_in_below start (x ∷ msg) b a h =
    copy_in_below (start + 1) msg (update b start x) a (omega arith) ∙ ground arith

read_bytes-copy_in :
    (start : ℕ) (msg : List ℕ) (b : Memory)
    → read_bytes (copy_in start msg b) start (length msg) ≡ msg
unfolding copy_in read_bytes
read_bytes-copy_in start [] b = refl
read_bytes-copy_in start (x ∷ msg) b =
    ap₂ ◌∷◌ (copy_in_below (start + 1) msg (update b start x) start (omega arith) ∙ ground arith)
      (read_bytes-copy_in (start + 1) msg (update b start x))

-- A send appends its message.
pub contents-put_message :
    (msg : List ℕ) (m : Mailbox) → contents (put_message msg m) ≡ contents m ++ msg
unfolding contents put_message
contents-put_message msg m =
    let b = copy_in m.buffer_idx msg m.buffer in
    read_bytes_split b 0 m.buffer_idx (length msg) (m.buffer_idx + length msg) refl
    ∙ ap₂ ◌++◌
        (read_bytes_ext b m.buffer 0 0 m.buffer_idx
          (λ i lt. copy_in_below m.buffer_idx msg m.buffer (0 + i) (omega arith)))
        (let e : 0 + m.buffer_idx ≡ m.buffer_idx = omega arith in
          rw e (read_bytes-copy_in m.buffer_idx msg m.buffer))

-- A receive takes its bytes from the front, and the rest stays in order.
pub contents-drop_message :
    (n : ℕ) (m : Mailbox)
    → n ≤ m.buffer_idx
    → contents m ≡ read_bytes m.buffer 0 n ++ contents (drop_message n m)
unfolding contents drop_message
contents-drop_message n m h =
    let r = m.buffer_idx - n in
    read_bytes_split m.buffer 0 n r m.buffer_idx (omega arith)
    ∙ ap (λ (ys : List ℕ). read_bytes m.buffer 0 n ++ ys)
        (read_bytes_ext m.buffer (memcpy 0 n r m.buffer) (0 + n) 0 r (λ i lt.
          let e : 0 + n + i ≡ n + i = omega arith in
          rw e (sym (memcpy_inside 0 n r m.buffer i lt (inl (omega arith))))))

pub length-read_bytes : (b : Memory) (s n : ℕ) → length (read_bytes b s n) ≡ n
unfolding read_bytes
length-read_bytes b s zero = refl
length-read_bytes b s (suc n) = ap suc (length-read_bytes b (s + 1) n)
