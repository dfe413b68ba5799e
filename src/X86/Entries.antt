-- ===== src/X86/Entries.antt =====
-- Page table entries and page indices as arithmetic.
use weensy_osvm.Base.{ℕ, ◌+◌, ◌-◌, ◌*◌, ◌/◌, ◌%◌, ◌^◌, ◌<◌, bit_or, ◌≡◌, ◌∙◌, ap, arith, ◌==◌}
use native.Mathlib.Nat.{div-add-mod'}
use weensy_osvm.Base.Bits.{bit_and_high, bit_or-lowest, bit_and_low, bit_or_sum}
use weensy_osvm.X86.{
  u32, page_number, pageindex, page_offset, pte_addr, pte_flags, pte_p, pte_w, pte_u, has_flag,
}

pub page_offset-mod : (a : ℕ) → page_offset a ≡ a % 4096
unfolding page_offset
page_offset-mod a = bit_and_low 12 a

pub pte_flags-mod : (a : ℕ) → pte_flags a ≡ a % 4096
unfolding pte_flags
pte_flags-mod a = bit_and_low 12 a

-- The mask `~0xFFF` clears the low twelve bits of a 64-bit word.
pub pte_addr-div : (a : ℕ) → a < 2 ^ 64 → pte_addr a ≡ a / 4096 * 4096
unfolding pte_addr
pte_addr-div a h = omega (arith, bit_and_high 12 a (2 ^ 52 - 1), bit_and_low 52 (a / 2 ^ 12))

pub pte_addr-mod : (a : ℕ) → pte_addr a % 4096 ≡ 0
unfolding pte_addr
pte_addr-mod a = omega (arith, bit_and_high 12 a (2 ^ 52 - 1))

pub has_flag-p : (x : ℕ) → has_flag x pte_p ≡ (x % 2 == 1)
unfolding has_flag
has_flag-p x = ground (arith, bit_and_low 1 x)

pub has_flag-w : (x : ℕ) → has_flag x pte_w ≡ (x / 2 % 2 == 1)
unfolding has_flag
has_flag-w x = ground (arith, bit_and_high 1 x 1, bit_and_low 1 (x / 2))

pub has_flag-u : (x : ℕ) → has_flag x pte_u ≡ (x / 4 % 2 == 1)
unfolding has_flag
has_flag-u x = ground (arith, bit_and_high 2 x 1, bit_and_low 1 (x / 4))

-- `pa | perm` for a page-aligned address.
pub bit_or_perm : (pa perm : ℕ) → pa % 4096 ≡ 0 → perm < 4096 → bit_or pa perm ≡ pa + perm
bit_or_perm pa perm h k =
    let e : pa ≡ pa / 4096 * 2 ^ 12 = omega arith in
    ap (λ t. bit_or t perm) e ∙ (bit_or_sum 12 (pa / 4096) perm k ∙ omega arith)

bit_or_aligned : (k a r : ℕ) → a % 2 ^ k ≡ 0 → r < 2 ^ k → bit_or a r ≡ a + r
bit_or_aligned k a r h l =
    let e : a ≡ a / 2 ^ k * 2 ^ k = omega (arith, div-add-mod' a (2 ^ k)) in
    ap (λ t. bit_or t r) e ∙ (bit_or_sum k (a / 2 ^ k) r l ∙ omega arith)

-- The entry that links a new table: `PTE_ADDR(new_pt) | PTE_P | PTE_W | PTE_U`.
pub link_entry :
    (p : ℕ)
    → p % 4096 ≡ 0
    → p < 2 ^ 64
    → bit_or (bit_or (bit_or (pte_addr p) pte_p) pte_w) pte_u ≡ p + 7
link_entry p h k = ground (
  arith,
  pte_addr-div p k,
  bit_or_perm p 1,
  bit_or-lowest (p + 1) 2,
  bit_or_aligned 1 (p / 2) 1,
  bit_or-lowest (p + 3) 4,
  bit_or-lowest ((p + 3) / 2) 2,
  bit_or_aligned 1 (p / 4) 1,
)

pub pageindex-lt : (va level : ℕ) → pageindex va level < 512
unfolding pageindex
pageindex-lt va level = omega (arith, bit_and_low 9 (u32 (va / 2 ^ (12 + (3 - level) * 9))))

-- Two addresses with the same four indices lie in the same page of the 48-bit address space.
pub pageindex-div :
    (va level : ℕ) → pageindex va level ≡ va / 2 ^ (12 + (3 - level) * 9) % 2 ^ 32 % 512
unfolding pageindex
pageindex-div va level = omega (arith, bit_and_low 9 (u32 (va / 2 ^ (12 + (3 - level) * 9))))

pub page_number-div : (p : ℕ) → p < 2 ^ 44 → page_number p ≡ p / 4096
unfolding page_number
page_number-div p h = omega arith
