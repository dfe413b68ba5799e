-- ===== src/Paging.antt =====
-- k-hardware.c: `virtual_memory_map`, `lookup_l4pagetable` and `virtual_memory_lookup`. A page
-- table is its physical address; NULL is 0. `nothing` of the `allocator` stands for NULL too.
pub mod Walk
pub mod Tree
pub mod Lookup
pub mod Link
pub mod Space
pub mod Grow
pub mod L4
pub mod Target
pub mod Write
pub mod Round
pub mod Map
pub mod Isolation
pub mod Untouched
pub mod Page
pub mod Empty
pub mod Keeps
use weensy_osvm.Base.{
  ℕ, zero, suc, ◌+◌, ◌-◌, ◌*◌, ◌/◌, ◌%◌, ◌^◌, bit_and, bit_or, Bool, true, false, not, ◌&&◌, ◌||◌,
  Option, none, some, ◌==◌, ◌!=◌, ltb, leb, if◌then◌else◌,
}
use weensy_osvm.X86.{
  u64, u32, int_minus_one, page_size, page_number, pageindex, page_offset, pte_addr, pte_flags,
  pte_p, pte_w, pte_u, has_flag,
}
use weensy_osvm.Memory.{Mem, load64}
use weensy_osvm.State.{K, pure, ◌>>=◌, ◌>>◌, assert, assert_when, read64, write64, clear}

abbrev pub memsize_physical : ℕ
memsize_physical = 0x200000

-- An allocator of page table pages, which may be NULL itself.
abbrev pub Allocator : Type 0
Allocator = Option (K ℕ)

-- `&pt->entry[PAGEINDEX(va, i)]`
unfoldable pub slot : ℕ → ℕ → ℕ → ℕ
slot pt va i = pt + 8 * pageindex va i

-- `vamapping`: `pn` and `pa` are bit patterns, so -1 is all ones.
pub record VaMapping : Type 0 where
  pub pn : ℕ
  pub pa : ℕ
  pub perm : ℕ

abbrev pub unmapped : VaMapping
unmapped = record { pn = int_minus_one; pa = 2 ^ 64 - 1; perm = 0 }

-- The loop of `virtual_memory_lookup` at level `i`, with `n` rounds left.
pub lookup_loop : Mem → ℕ → (n i pt pe perms : ℕ) → ℕ × ℕ
lookup_loop m va zero i pt pe perms = (pe, perms)
lookup_loop m va (suc n) i pt pe perms =
    let pe' = load64 m (slot pt va i) in
    let rest = lookup_loop m va n (i + 1) (pte_addr pe') pe' (bit_and perms (pte_flags pe')) in
    if has_flag perms pte_p then rest else (pe, perms)

-- The end of `virtual_memory_lookup`.
pub vamapping_of : ℕ → ℕ × ℕ → VaMapping
vamapping_of va (pe, perms) =
    if has_flag perms pte_p
    then record { pn = page_number pe; pa = u64 (pte_addr pe + page_offset va); perm = perms }
    else unmapped

unfoldable pub virtual_memory_lookup : Mem → ℕ → ℕ → VaMapping
unfolding lookup_loop vamapping_of slot
virtual_memory_lookup m pagetable va =
    vamapping_of va (lookup_loop m va 4 0 pagetable 0 (bit_or (bit_or pte_w pte_u) pte_p))

-- `PTE_ADDR(new_pt) | PTE_P | PTE_W | PTE_U`
pub link : ℕ → ℕ
link new_pt = bit_or (bit_or (bit_or (pte_addr new_pt) pte_p) pte_w) pte_u

-- The part of `lookup_l4pagetable` that allocates a missing table and links it at address `at`.
-- The result is the new entry, or 0 where the function returns NULL.
pub allocate_table : Allocator → ℕ → ℕ → K ℕ
allocate_table none perm at = pure 0
allocate_table (some allocator) perm at = if not (has_flag perm pte_p) then pure 0 else do
  new_pt ← allocator
  if new_pt == 0 then pure 0 else do
    assert (new_pt % page_size == 0)
    write64 at (link new_pt)
    clear new_pt page_size
    pure (link new_pt)

-- The sanity checks on a page entry.
pub check_entry : ℕ → ℕ → K (Unit {0})
check_entry perm pe = do
  assert (ltb (pte_addr pe) memsize_physical)
  assert_when (has_flag perm pte_w) (has_flag pe pte_w)
  assert_when (has_flag perm pte_u) (has_flag pe pte_u)

-- The loop of `lookup_l4pagetable` at level `i`, with `n` rounds left; 0 is NULL.
pub l4_loop : Allocator → ℕ → ℕ → (n i pt : ℕ) → K ℕ
l4_loop allocator va perm zero i pt = pure pt
l4_loop allocator va perm (suc n) i pt = do
  entry ← read64 (slot pt va i)
  pe ← if has_flag entry pte_p then pure entry else allocate_table allocator perm (slot pt va i)
  if pe == 0
      then pure 0
      else do check_entry perm pe; l4_loop allocator va perm n (i + 1) (pte_addr pe)

pub lookup_l4pagetable : ℕ → ℕ → ℕ → Allocator → K ℕ
unfolding l4_loop
lookup_l4pagetable pagetable va perm allocator = l4_loop allocator va perm 3 0 pagetable

-- The round of the loop that writes the entry: whether the loop goes on.
pub write_entry : (l4pagetable va pa perm : ℕ) → K Bool
write_entry l4pagetable va pa perm =
    if has_flag perm pte_p && l4pagetable != 0
    then (do write64 (slot l4pagetable va 3) (bit_or pa perm); pure true)
    else if l4pagetable != 0
    then (do write64 (slot l4pagetable va 3) perm; pure true)
    else pure (not (has_flag perm pte_p))

-- The loop of `virtual_memory_map`, with `n` pages left of `sz`.
pub map_loop : (allocator : Allocator) (pagetable perm n va pa last_index123 l4pagetable : ℕ) → K ℕ
map_loop allocator pagetable perm zero va pa last_index123 l4pagetable = pure 0
map_loop allocator pagetable perm (suc n) va pa last_index123 l4pagetable = do
  let cur_index123 = u32 (va / 2 ^ 21)
  l4 ←
      if cur_index123 != last_index123
      then lookup_l4pagetable pagetable va perm allocator
      else pure l4pagetable
  mapped ← write_entry l4 va pa perm
  if not mapped
      then pure int_minus_one
      else map_loop allocator pagetable perm n (u64 (va + page_size)) (u64 (pa + page_size))
          cur_index123 l4

-- The assertions of `virtual_memory_map`. A negative `perm` has a bit pattern above 0x1000.
pub map_asserts : (pagetable va pa sz perm : ℕ) → K (Unit {0})
map_asserts pagetable va pa sz perm = do
  assert (va % page_size == 0)
  assert (sz % page_size == 0)
  assert (leb va (u64 (va + sz)) || u64 (va + sz) == 0)
  assert_when (has_flag perm pte_p) (pa % page_size == 0)
  assert_when (has_flag perm pte_p) (leb pa (u64 (pa + sz)))
  assert_when (has_flag perm pte_p) (leb (u64 (pa + sz)) memsize_physical)
  assert (ltb perm 0x1000)
  assert (pagetable % page_size == 0)

-- The result is the bit pattern of 0 or -1.
pub virtual_memory_map : (pagetable va pa sz perm : ℕ) → Allocator → K ℕ
unfolding map_loop map_asserts
virtual_memory_map pagetable va pa sz perm allocator = do
  map_asserts pagetable va pa sz perm
  map_loop allocator pagetable perm (sz / page_size) va pa int_minus_one 0
