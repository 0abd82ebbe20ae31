-- ===== src/Mm/Pte.antt =====
-- Page table entries and addresses: arch/riscv/include/pgtable.h. An entry is a 64-bit number.
pub mod Fields
use Prim.Native.Nat.{bit_and, bit_or}
use oslab_2024fall.Prelude.{ℕ, zero, suc, ◌+◌, ◌-◌, ◌*◌, ◌/◌, ◌%◌, ◌^◌, ◌==◌, if◌then◌else◌}
use oslab_2024fall.Prelude.Table.{update}

abbrev pub page_present : ℕ
page_present = 0x1

abbrev pub page_read : ℕ
page_read = 0x2

abbrev pub page_write : ℕ
page_write = 0x4

abbrev pub page_exec : ℕ
page_exec = 0x8

abbrev pub page_user : ℕ
page_user = 0x10

abbrev pub page_accessed : ℕ
page_accessed = 0x40

abbrev pub page_dirty : ℕ
page_dirty = 0x80

-- _PAGE_PRESENT | _PAGE_READ | _PAGE_WRITE | _PAGE_EXEC | _PAGE_USER | _PAGE_DIRTY
abbrev pub user_page_bits : ℕ
user_page_bits = 0x9f

abbrev pub pfn_mask : ℕ
pfn_mask = 2 ^ 44 - 1

-- ~x on uint64_t.
abbrev pub not_64 : ℕ → ℕ
not_64 x = 2 ^ 64 - 1 - x

abbrev pub kernel_base : ℕ
kernel_base = 0xffffffc000000000

unfoldable pub kva2pa : ℕ → ℕ
kva2pa kva = (kva + 2 ^ 64 - kernel_base) % 2 ^ 64

unfoldable pub pa2kva : ℕ → ℕ
pa2kva pa = (pa + kernel_base) % 2 ^ 64

unfoldable pub get_pfn : ℕ → ℕ
get_pfn entry = entry / 2 ^ 10 % 2 ^ 44

unfoldable pub get_pa : ℕ → ℕ
unfolding get_pfn
get_pa entry = get_pfn entry * 2 ^ 12

-- (entry & ~(pfn_mask << 10)) | (pfn << 10)
unfoldable pub set_pfn : ℕ → ℕ → ℕ
set_pfn entry pfn = bit_or (bit_and entry (not_64 (pfn_mask * 2 ^ 10))) (pfn * 2 ^ 10 % 2 ^ 64)

unfoldable pub get_attribute : ℕ → ℕ → ℕ
get_attribute entry mask = bit_and entry mask

unfoldable pub set_attribute : ℕ → ℕ → ℕ
set_attribute entry bits = bit_or entry bits

unfoldable pub clear_attribute : ℕ → ℕ → ℕ
clear_attribute entry bits = bit_and entry (not_64 bits)

-- Memory by words of 8 bytes, at addresses that are multiples of 8.
abbrev pub Words : Type 0
Words = ℕ → ℕ

-- The loop of clear_pgdir, `n` entries from the address on.
unfoldable pub clear_entries : ℕ → ℕ → Words → Words
clear_entries pte_entry zero mem = mem
clear_entries pte_entry (suc n) mem = clear_entries (pte_entry + 8) n (update mem pte_entry 0)

unfoldable pub clear_pgdir : ℕ → Words → Words
clear_pgdir pgdir_addr mem = clear_entries pgdir_addr 512 mem
