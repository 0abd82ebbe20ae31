-- ===== src/Fs/Mkfs/Lines.antt =====
-- The two lines of proc/sys/vm that do_vmflush of kernel/fs/fs.c copies from rdata_buffer.
use oslab_2024fall.Prelude.{
  ℕ, zero, suc, ◌+◌, ◌-◌, ◌%◌, ◌^◌, ◌≤◌, ◌<◌, ◌≡◌, refl, Bool, true, false, some, List, [], ◌∷◌,
  ◌++◌, ◌==◌, ◌||◌, ◌&&◌, not, leb, ltb, map, length, arith, ◌∙◌, length-append,
}
use oslab_2024fall.Prelude.Text.{codes, is_text}
use oslab_2024fall.Libs.Memory.{Memory}
use oslab_2024fall.Fs.Cache.{SdCard, Bcache, Policy, bwrite_back, bwrite_through}
use oslab_2024fall.Fs.Cache.Caches.{Caches}
use oslab_2024fall.Fs.Cache.Rounds.{put_sector}
use oslab_2024fall.Fs.State.{Buffers, Fs, word_at}
use oslab_2024fall.Fs.Blocks.{blocks_at}
use oslab_2024fall.Fs.Maps.Take.{read_sectors-state}
use oslab_2024fall.Fs.Mkfs.Flush.{take_line, policy_of, configure, vm_found}
use oslab_2024fall.Fs.Mkfs.Freq.{decimal, freq_from-decimal}

-- The bytes from `a` on are those of the text.
abbrev pub Holds : (ℕ → ℕ) → ℕ → List ℕ → Type 0
Holds bytes a [] = Unit {0}
Holds bytes a (c ∷ text) = (bytes a ≡ c) × Holds bytes (a + 1) text

Holds-move :
    (m bytes : ℕ → ℕ) (a c : ℕ) (text : List ℕ)
    → ((i : ℕ) → i < length text → m (a + i) ≡ bytes (c + i))
    → Holds bytes c text
    → Holds m a text
Holds-move m bytes a c [] same held = held
Holds-move m bytes a c (x ∷ text) same (first, rest) =
    let ea : a + 0 ≡ a = omega arith in
    let ec : c + 0 ≡ c = omega arith in
    let here : m a ≡ bytes c = rw (ea, ec) at (same 0 (omega arith)) in
    (
      here ∙ first,
      Holds-move m bytes (a + 1) (c + 1) text
          (λ i lt.
            let e : a + 1 + i ≡ a + suc i = omega arith in
            let e' : c + 1 + i ≡ c + suc i = omega arith in rw (e, e') (same (suc i) (omega arith)))
          rest,
    )

Holds-append :
    (bytes : ℕ → ℕ) (a : ℕ) (text rest : List ℕ)
    → Holds bytes a (text ++ rest)
    → Holds bytes a text × Holds bytes (a + length text) rest
Holds-append bytes a [] rest held = let e : a + 0 ≡ a = omega arith in (tt, rw e held)
Holds-append bytes a (c ∷ text) rest (first, later) =
    let (h1, h2) = Holds-append bytes (a + 1) text rest later in
    let e : a + suc (length text) ≡ a + 1 + length text = omega arith in ((first, h1), rw e h2)

-- No byte of the text stops a line.
abbrev passes : (ℕ → Bool) → List ℕ → Bool
passes stops [] = true
passes stops (c ∷ text) = not (stops c) && passes stops text

take_line-Holds :
    (stops : ℕ → Bool) (line : List ℕ) (stop room a : ℕ) (mem : Memory)
    → length line < room
    → stops stop ≡ true
    → passes stops line ≡ true
    → Holds mem a (line ++ stop ∷ [])
    → take_line stops room a mem ≡ some line
unfolding take_line
take_line-Holds stops line stop zero a mem lt at pass held = absurd (omega (arith, lt))
take_line-Holds stops [] stop (suc room) a mem lt at pass (first, rest) = rw (first, at) refl
take_line-Holds stops (c ∷ line) stop (suc room) a mem lt at pass (first, rest) =
    let goes : stops c ≡ false = ground (arith, pass) in
    let later : passes stops line ≡ true = ground (arith, pass) in
    rw (first, goes, take_line-Holds stops line stop room (a + 1) mem (omega arith) at later rest)
      refl

-- The digits of a number, from the first one on.
abbrev pub AreDigits : List ℕ → Type 0
AreDigits [] = Unit {0}
AreDigits (d ∷ digits) = (d < 10) × AreDigits digits

-- What ends the second line: a newline or a NUL.
abbrev pub ends_line : ℕ → Bool
ends_line c = c == b'\n' || c == 0

passes-digits :
    (digits : List ℕ) → AreDigits digits → passes ends_line (map (λ d. b'0' + d) digits) ≡ true
passes-digits [] are = refl
passes-digits (d ∷ digits) (lt, are) = let later = passes-digits digits are in ground (arith, later)

length-digits : (digits : List ℕ) → length (map (λ d. b'0' + d) digits) ≡ length digits
length-digits [] = refl
length-digits (d ∷ digits) = let h = length-digits digits in omega (arith, h)

-- The first line of the file for a policy.
abbrev pub policy_line : Policy → List ℕ
policy_line bwrite_back = codes "page_cache_policy = write back"
policy_line bwrite_through = codes "page_cache_policy = write through"

policy_of-policy_line : (policy : Policy) → policy_of (policy_line policy) ≡ some policy
unfolding policy_of is_text
policy_of-policy_line bwrite_back = refl
policy_of-policy_line bwrite_through = refl

passes-policy : (policy : Policy) → passes (λ c. c == b'\n') (policy_line policy) ≡ true
passes-policy bwrite_back = refl
passes-policy bwrite_through = refl

short-policy : (policy : Policy) → length (policy_line policy) < 40
short-policy bwrite_back = omega arith
short-policy bwrite_through = omega arith

-- The second line of the file for the digits of a number.
abbrev pub freq_line : List ℕ → List ℕ
freq_line digits = codes "write_back_freq = " ++ map (λ d. b'0' + d) digits

-- The text of the file: its two lines and what ends the second one.
abbrev pub vm_text : Policy → List ℕ → ℕ → List ℕ
vm_text policy digits stop = (policy_line policy ++ b'\n' ∷ []) ++ (freq_line digits ++ stop ∷ [])

module _ {D : Type 0} (sd : SdCard D) (b : Buffers) where
  -- A byte of the first 512 bytes of a block that was read.
  read_block_byte :
      (bytes : ℕ → ℕ) (i : ℕ) (mem : Memory)
      → i < 512
      → put_sector b.rdata_buffer bytes mem (b.rdata_buffer + i) ≡ bytes i
  read_block_byte bytes i mem less =
      let at : b.rdata_buffer + i - b.rdata_buffer ≡ i = omega arith in
      let inside : (leb b.rdata_buffer (b.rdata_buffer + i)
            && ltb (b.rdata_buffer + i) (b.rdata_buffer + 512))
          ≡ true =
        ground arith in
      rw (at, inside) refl

  policy-Caches :
      (f : ℕ → ℕ → ℕ) (policy : Policy) (c : Bcache D)
      → Caches sd f c
      → Caches sd f (record c { policy = policy })
  policy-Caches f policy c r = record {
    nodup = r.nodup;
    in_use = r.in_use;
    free = r.free;
    one_each = r.one_each;
    held = r.held;
    on_disk = r.on_disk;
  }

  -- The lines as they are copied from memory that holds the sector.
  lines-taken :
      (bytes : ℕ → ℕ) (policy : Policy) (digits : List ℕ) (stop : ℕ) (m mem : Memory)
      → ((a : ℕ) → m a ≡ put_sector b.rdata_buffer bytes mem a)
      → length digits ≤ 45
      → AreDigits digits
      → ends_line stop ≡ true
      → Holds bytes 0 (vm_text policy digits stop)
      → (take_line (λ c. c == b'\n') 64 b.rdata_buffer m ≡ some (policy_line policy))
        × (take_line ends_line 64 (b.rdata_buffer + length (policy_line policy) + 1) m
            ≡ some (freq_line digits))
  lines-taken bytes policy digits stop m mem same le are ends text =
      let short = short-policy policy in
      let count = length-digits digits in
      let (first, later) =
        Holds-append bytes 0 (policy_line policy ++ b'\n' ∷ []) (freq_line digits ++ stop ∷ [])
          text in
      let size1 = length-append (policy_line policy) (b'\n' ∷ []) in
      let from : 0 + length (policy_line policy ++ b'\n' ∷ []) ≡ length (policy_line policy) + 1 =
        omega (arith, size1) in
      let second : Holds bytes (length (policy_line policy) + 1) (freq_line digits ++ stop ∷ []) =
        rw from at later in
      let size2 = length-append (freq_line digits) (stop ∷ []) in
      let at : (i : ℕ) → i < 512 → m (b.rdata_buffer + i) ≡ bytes i =
        λ i less. same (b.rdata_buffer + i) ∙ read_block_byte bytes i mem less in
      (
        take_line-Holds (λ c. c == b'\n') (policy_line policy) b'\n' 64 b.rdata_buffer m
            (omega (arith, short)) refl (passes-policy policy)
            (Holds-move m bytes b.rdata_buffer 0 (policy_line policy ++ b'\n' ∷ [])
              (λ i lt.
                let e : 0 + i ≡ i = omega arith in rw e (at i (omega (arith, lt, size1, short))))
              first),
        take_line-Holds ends_line (freq_line digits) stop 64
            (b.rdata_buffer + length (policy_line policy) + 1) m (omega (arith, count)) ends
            (passes-digits digits are)
            (Holds-move m bytes (b.rdata_buffer + length (policy_line policy) + 1)
              (length (policy_line policy) + 1) (freq_line digits ++ stop ∷ [])
              (λ i lt.
                let e : b.rdata_buffer + length (policy_line policy) + 1 + i
                    ≡ b.rdata_buffer + (length (policy_line policy) + 1 + i) =
                  omega arith in
                rw e (
                  at (length (policy_line policy) + 1 + i)
                    (omega (arith, lt, size2, count, short))))
              second),
      )

  configure-lines :
      (policy : Policy) (digits : List ℕ) (fs : Fs D)
      → configure (policy_line policy) (freq_line digits) fs ≡ (
        some 0,
        record fs {
          cache = record fs.cache { policy = policy };
          write_back_freq = decimal 0 digits % 2 ^ 32;
        },
      )
  unfolding configure
  configure-lines policy digits fs =
      rw (configure, policy_of-policy_line policy, freq_from-decimal 0 0 digits refl) refl

  -- Once find_inode has found proc/sys/vm, over a cache that stands for the sectors f: when
  -- the first 512 bytes of the first block of the file, as do_vmflush reads them (those of
  -- the last of its 8 sectors, whose numbers fit in 32 bits), begin with the line of a policy
  -- and the line "write_back_freq = " with at most 45 decimal digits, ended by a newline or a
  -- NUL, the rest of do_vmflush returns 0, with the policy of the cache set to that policy
  -- and write_back_freq to the decimal number of the digits, modulo 2 ^ 32. The cache stands
  -- for the same sectors.
  pub vm_found-configures :
      (f : ℕ → ℕ → ℕ) (inode : ℕ) (policy : Policy) (digits : List ℕ) (stop : ℕ) (fs : Fs D)
      → word_at fs.mem (blocks_at inode 0) + 8 ≤ 2 ^ 32
      → length digits ≤ 45
      → AreDigits digits
      → ends_line stop ≡ true
      → Holds (f (word_at fs.mem (blocks_at inode 0) + 7)) 0 (vm_text policy digits stop)
      → Caches sd f fs.cache
      → (after : Fs D) × (vm_found sd b (some inode) fs ≡ some (some 0, after))
        × (after.cache.policy ≡ policy)
        × (after.write_back_freq ≡ decimal 0 digits % 2 ^ 32)
        × Caches sd f after.cache
  unfolding vm_found
  vm_found-configures f inode policy digits stop fs fits le are ends text r =
      let sector = word_at fs.mem (blocks_at inode 0) in
      let (c, m, r', same, e) =
        read_sectors-state sd f 7 b.rdata_buffer sector fs r (omega arith) in
      let (l1, l2) =
        lines-taken (f (sector + 7)) policy digits stop m fs.mem same le are ends text in
      (
        record fs {
          mem = m;
          cache = record c { policy = policy };
          write_back_freq = decimal 0 digits % 2 ^ 32;
        },
        rw (e, l1, l2, configure-lines policy digits (record fs { mem = m; cache = c })) refl,
        refl,
        refl,
        policy-Caches f policy c r',
      )
