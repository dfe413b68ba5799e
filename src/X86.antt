-- ===== src/X86.antt =====
-- x86-64.h: paging constants, the parts of a paged address, and page table entries. Words are
-- natural numbers below 2 ^ 64; an `int` is kept as its bit pattern below 2 ^ 32.
pub mod Entries
use weensy_osvm.Base.{ℕ, ◌+◌, ◌-◌, ◌*◌, ◌/◌, ◌%◌, ◌^◌, bit_and, Bool, ◌!=◌}

abbrev pub u64 : ℕ → ℕ
u64 n = n % 2 ^ 64

abbrev pub u32 : ℕ → ℕ
u32 n = n % 2 ^ 32

abbrev pub u8 : ℕ → ℕ
u8 n = n % 2 ^ 8

-- The `int` -1.
abbrev pub int_minus_one : ℕ
int_minus_one = 2 ^ 32 - 1

abbrev pub page_off_bits : ℕ
page_off_bits = 12

abbrev pub page_size : ℕ
page_size = 2 ^ page_off_bits

abbrev pub page_index_bits : ℕ
page_index_bits = 9

unfoldable pub page_number : ℕ → ℕ
page_number ptr = u32 (ptr / 2 ^ page_off_bits)

-- The assertion `level >= 0 && level <= 3` holds at every call: the callers pass 0, 1, 2 and 3.
unfoldable pub pageindex : ℕ → ℕ → ℕ
pageindex addr level =
    bit_and (u32 (addr / 2 ^ (page_off_bits + (3 - level) * page_index_bits))) 0x1FF

unfoldable pub page_offset : ℕ → ℕ
page_offset addr = bit_and addr (page_size - 1)

unfoldable pub pte_addr : ℕ → ℕ
pte_addr pageentry = bit_and pageentry 0xFFFFFFFFFFFFF000

unfoldable pub pte_flags : ℕ → ℕ
pte_flags pageentry = bit_and pageentry 0xFFF

abbrev pub pte_p : ℕ
pte_p = 1

abbrev pub pte_w : ℕ
pte_w = 2

abbrev pub pte_u : ℕ
pte_u = 4

-- The test `x & mask` of C.
unfoldable pub has_flag : ℕ → ℕ → Bool
has_flag x mask = bit_and x mask != 0
