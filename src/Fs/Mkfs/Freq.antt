-- ===== src/Fs/Mkfs/Freq.antt =====
-- The decimal number that the loop of do_vmflush in kernel/fs/fs.c computes.
use oslab_2024fall.Prelude.{ℕ, ◌+◌, ◌-◌, ◌*◌, ◌%◌, ◌^◌, ◌≡◌, List, [], ◌∷◌, map, arith}
use oslab_2024fall.Fs.Mkfs.Flush.{freq_from}

-- The number of decimal digits behind those of `n`.
abbrev pub decimal : ℕ → List ℕ → ℕ
decimal n [] = n
decimal n (d ∷ digits) = decimal (n * 10 + d) digits

pub freq_from-decimal :
    (n m : ℕ) (digits : List ℕ)
    → m ≡ n % 2 ^ 32
    → freq_from m (map (λ d. b'0' + d) digits) ≡ decimal n digits % 2 ^ 32
unfolding freq_from
freq_from-decimal n m [] e = e
freq_from-decimal n m (d ∷ digits) e =
    freq_from-decimal (n * 10 + d) ((m * 10 + (b'0' + d) + 2 ^ 32 - b'0') % 2 ^ 32) digits
      (omega (arith, e))
