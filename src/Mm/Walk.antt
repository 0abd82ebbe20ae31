-- ===== src/Mm/Walk.antt =====
-- kva2pte and uva2pte of kernel/mm/mm.c: the parts of an address, and the walk over the page tables.
pub mod Parts
use Prim.Native.Nat.{bit_xor}
use oslab_2024fall.Prelude.{ℕ, ◌+◌, ◌*◌, ◌/◌, ◌%◌, ◌^◌, Option, none, some, ◌==◌, if◌then◌else◌}
use oslab_2024fall.Mm.Pte.{Words, get_pa, pa2kva}

-- va & VA_MASK
abbrev pub masked : ℕ → ℕ
masked va = va % 2 ^ 39

unfoldable pub vpn2_of : ℕ → ℕ
vpn2_of va = masked va / 2 ^ 30

unfoldable pub vpn1_of : ℕ → ℕ
unfolding vpn2_of
vpn1_of va = bit_xor (vpn2_of va * 2 ^ 9) (masked va / 2 ^ 21)

unfoldable pub vpn0_of : ℕ → ℕ
unfolding vpn2_of vpn1_of
vpn0_of va = bit_xor (bit_xor (masked va / 2 ^ 12) (vpn2_of va * 2 ^ 18)) (vpn1_of va * 2 ^ 9)

-- &pgdir[idx]
abbrev pub entry_at : ℕ → ℕ → ℕ
entry_at pgdir idx = pgdir + 8 * idx

-- The table that an entry points to, pa2kva(get_pa(entry)).
abbrev pub table_of : ℕ → ℕ
table_of entry = pa2kva (get_pa entry)

-- The addresses of the entries; `none` is NULL.
--
-- kva2pte walks the tables of the running task, whatever its argument `pgdir` is.
unfoldable pub kva2pte : Words → ℕ → ℕ → ℕ → Option ℕ
kva2pte mem kva pgdir running_pgdir =
    let e2 = mem (entry_at running_pgdir (vpn2_of kva)) in
    if e2 == 0 then none else some (entry_at (table_of e2) (vpn1_of kva))

unfoldable pub uva2pte : Words → ℕ → ℕ → Option ℕ
uva2pte mem uva pgdir =
    let e2 = mem (entry_at pgdir (vpn2_of uva)) in
    let e1 = mem (entry_at (table_of e2) (vpn1_of uva)) in
    if e2 == 0 then none else if e1 == 0 then none else some (entry_at (table_of e1) (vpn0_of uva))
