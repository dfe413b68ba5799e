-- ===== src/Examples/Physical.antt =====
-- The theorems on physical pages, memory blocks and system calls at small states.
use weensy_osvm.Base.{ℕ, ◌+◌, ◌-◌, ◌/◌, ◌%◌, ◌<◌, ◌≡◌, ◌⊎◌, ◌&&◌, ltb, leb, if◌then◌else◌, arith}
use weensy_osvm.Memory.{Mem, memset, memmove}
use weensy_osvm.Memory.Blocks.{memmove-bytes}
use weensy_osvm.State.Returns.{Returns}
use weensy_osvm.Paging.Space.{IsAllocated}
use weensy_osvm.Physical.{is_free, get_free_addr, pagetable_alloc, pageinfo_init}
use weensy_osvm.Physical.Assign.{assigned, IsFull, IsFirstFree, get_free_addr_lem}
use weensy_osvm.Physical.Alloc.{pagetable_alloc_lem}
use weensy_osvm.Physical.Init.{usable, pageinfo_init-usable}
use weensy_osvm.Examples.Paging.{start}

get_free_addr_lem_example :
    Returns
      (λ r k'. (IsFull start × (r ≡ 0) × (k' ≡ start)) ⊎ IsFirstFree 1 start r k')
      (get_free_addr 1 start)
get_free_addr_lem_example = get_free_addr_lem 1 start

pagetable_alloc_lem_example :
    Returns
      (λ f k'.
        (IsFull start × (f ≡ 0) × (k' ≡ start))
        ⊎ (IsAllocated start k' f
            × (k'.mem ≡ memset start.mem f 0 4096)
            × (k'.pageinfo ≡ (assigned start f start.pagetable_owner).pageinfo)))
      (pagetable_alloc start)
pagetable_alloc_lem_example = pagetable_alloc_lem start (omega arith)

pageinfo_init-usable_example :
    Returns
      (λ _ k'.
        (addr : ℕ)
        → addr % 4096 ≡ 0
        → addr < 0x200000
        → (is_free k' addr ≡ usable 0x46000 addr)
          × ((k'.pageinfo (addr / 4096)).refcount ≡ (if usable 0x46000 addr then 0 else 1)))
      (pageinfo_init 0x46000 start)
pageinfo_init-usable_example = pageinfo_init-usable 0x46000 start

-- Memory that holds each address, modulo 256.
abbrev ramp : Mem
ramp a = a % 256

memmove-bytes_example :
    memmove ramp 102 100 4 103
    ≡ (if leb 102 103 && ltb 103 (102 + 4) then ramp (100 + (103 - 102)) else ramp 103)
memmove-bytes_example = memmove-bytes ramp 102 100 4 103
