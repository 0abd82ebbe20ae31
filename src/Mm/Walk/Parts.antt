-- ===== src/Mm/Walk/Parts.antt =====
-- The parts of a virtual address are its three groups of nine bits.
use oslab_2024fall.Prelude.{ℕ, ◌+◌, ◌*◌, ◌/◌, ◌%◌, ◌^◌, ◌<◌, ◌≡◌, arith}
use oslab_2024fall.Prelude.Digits.Xor.{xor_top_9, xor_top_18}
use oslab_2024fall.Mm.Walk.{masked, vpn2_of, vpn1_of, vpn0_of}

vpn1_lem : (va : ℕ) → vpn1_of va ≡ va / 2 ^ 21 % 512
unfolding vpn1_of vpn2_of
vpn1_lem va =
    let e : masked va / 2 ^ 21 ≡ masked va / 2 ^ 30 * 512 + va / 2 ^ 21 % 512 = omega arith in
    rw e ((xor_top_9 (masked va / 2 ^ 30) (va / 2 ^ 21 % 512) (omega arith)).0)

vpn0_lem : (va : ℕ) → vpn0_of va ≡ va / 2 ^ 12 % 512
unfolding vpn0_of vpn2_of
vpn0_lem va =
    let e : masked va / 2 ^ 12
        ≡ masked va / 2 ^ 30 * 0x40000 + (va / 2 ^ 21 % 512 * 512 + va / 2 ^ 12 % 512) =
      omega arith in
    rw
      (
        e,
        vpn1_lem va,
        xor_top_18 (masked va / 2 ^ 30) (va / 2 ^ 21 % 512 * 512 + va / 2 ^ 12 % 512) (omega arith),
      )
      ((xor_top_9 (va / 2 ^ 21 % 512) (va / 2 ^ 12 % 512) (omega arith)).1)

-- The three indices of a virtual address are below 512, and with the offset in the page they
-- make up the low 39 bits of the address again.
pub vpn_parts :
    (va : ℕ)
    → (vpn2_of va < 512)
      × (vpn1_of va < 512)
      × (vpn0_of va < 512)
      × (masked va ≡ vpn2_of va * 2 ^ 30 + vpn1_of va * 2 ^ 21 + vpn0_of va * 2 ^ 12 + va % 2 ^ 12)
unfolding vpn2_of
vpn_parts va = rw (vpn1_lem va, vpn0_lem va) (omega arith)
