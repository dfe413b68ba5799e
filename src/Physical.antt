-- ===== src/Physical.antt =====
-- kernel.c: `pageinfo`, the record of who owns each physical page, and the allocation of pages;
-- `physical_memory_isreserved` of k-hardware.c.
pub mod Assign
pub mod Alloc
pub mod Init
pub mod Keeps
use weensy_osvm.Base.{
  ℕ, zero, suc, ◌+◌, ◌-◌, ◌*◌, ◌/◌, ◌^◌, Bool, true, false, ◌&&◌, ◌||◌, ◌==◌, ◌!=◌, ltb, leb,
  if◌then◌else◌,
}
use weensy_osvm.X86.{int_minus_one, page_size, page_number, has_flag}
use weensy_osvm.State.{PageInfo, Kernel, K, ok, pure, ◌>>=◌, ◌>>◌, clear, update}
use weensy_osvm.Paging.{memsize_physical}

-- `pageowner_t`, as `int8_t`
abbrev pub po_free : ℕ
po_free = 0

abbrev pub po_reserved : ℕ
po_reserved = 2 ^ 8 - 1

abbrev pub po_kernel : ℕ
po_kernel = 2 ^ 8 - 2

abbrev pub kernel_start_addr : ℕ
kernel_start_addr = 0x40000

abbrev pub kernel_stack_top : ℕ
kernel_stack_top = 0x80000

abbrev pub out_of_memory : ℕ
out_of_memory = 0

pub physical_memory_isreserved : ℕ → Bool
physical_memory_isreserved pa = pa == 0 || (leb 0x000A0000 pa && ltb pa 0x00100000)

-- The owner that `pageinfo_init` gives to the page at `addr`; `end` is the linker's symbol.
pub initial_owner : (end addr : ℕ) → ℕ
unfolding physical_memory_isreserved
initial_owner end addr =
    if physical_memory_isreserved addr
    then po_reserved
    else if (leb kernel_start_addr addr && ltb addr end) || addr == kernel_stack_top - page_size
    then po_kernel
    else po_free

abbrev pub initial_info : (end addr : ℕ) → PageInfo
initial_info end addr =
    let owner = initial_owner end addr in
    record { owner = owner; refcount = if owner != po_free then 1 else 0 }

-- The loop of `pageinfo_init` at `addr`, with `n` pages left.
pub pageinfo_loop : (end n addr : ℕ) → (ℕ → PageInfo) → ℕ → PageInfo
unfolding page_number
pageinfo_loop end zero addr pageinfo = pageinfo
pageinfo_loop end (suc n) addr pageinfo =
    pageinfo_loop end n (addr + page_size)
      (update pageinfo (page_number addr) (initial_info end addr))

pub pageinfo_init : (end : ℕ) → K (Unit {0})
pageinfo_init end k =
    ok tt (record k { pageinfo = pageinfo_loop end (memsize_physical / page_size) 0 k.pageinfo })

unfoldable pub assign_physical_page : (addr owner : ℕ) → K ℕ
unfolding page_number
assign_physical_page addr owner k =
    if has_flag addr 0xFFF
      || leb memsize_physical addr
      || (k.pageinfo (page_number addr)).refcount != 0
    then ok int_minus_one k
    else ok 0 (record k {
      pageinfo = update k.pageinfo (page_number addr) (record { owner = owner; refcount = 1 });
    })

-- The test of `get_free_addr` on the page at `addr`.
abbrev pub is_free : Kernel → ℕ → Bool
is_free k addr =
    (k.pageinfo (page_number addr)).refcount == 0
    && (k.pageinfo (page_number addr)).owner == po_free

take_page : (addr owner : ℕ) → K ℕ
take_page addr owner = do
  assigned ← assign_physical_page addr owner
  pure (if assigned == 0 then addr else out_of_memory)

-- The loop of `get_free_addr` at `addr`, with `n` pages left.
pub free_loop : (owner n addr : ℕ) → K ℕ
unfolding take_page
free_loop owner zero addr k = ok out_of_memory k
free_loop owner (suc n) addr k =
    let rest = free_loop owner n (addr + page_size) k in
    if is_free k addr then take_page addr owner k else rest

pub get_free_addr : (owner : ℕ) → K ℕ
unfolding free_loop
get_free_addr owner = free_loop owner (memsize_physical / page_size) 0

pub clear_table : ℕ → K ℕ
clear_table new_pagetable =
    if new_pagetable == 0 then pure 0 else do clear new_pagetable page_size; pure new_pagetable

unfoldable pub pagetable_alloc : K ℕ
unfolding get_free_addr clear_table
pagetable_alloc k = (get_free_addr k.pagetable_owner >>= clear_table) k
