-- ===== src/Paging/Keeps.antt =====
-- `virtual_memory_map` changes memory, and what its allocator changes.
use weensy_osvm.Base.{
  ℕ, zero, suc, ◌+◌, ◌/◌, ◌%◌, ◌^◌, bit_or, not, ◌&&◌, ◌||◌, ◌==◌, ◌!=◌, ltb, leb, true, none, some,
}
use weensy_osvm.X86.{u64, u32, page_size, pte_addr, pte_p, pte_w, pte_u, has_flag, int_minus_one}
use weensy_osvm.State.{Kernel}
use weensy_osvm.State.Keeps.{
  Stable, Keeps, Keeps-pure, Keeps-if, Keeps-bind, Keeps-assert, Keeps-assert_when, Keeps-read64,
  Keeps-write64, Keeps-clear,
}
use weensy_osvm.Paging.{
  Allocator, slot, link, allocate_table, check_entry, l4_loop, lookup_l4pagetable, write_entry,
  map_loop, map_asserts, virtual_memory_map, memsize_physical,
}

abbrev pub KeepsAllocator : (Kernel → Type 0) → Allocator → Type 0
KeepsAllocator P none = Unit {0}
KeepsAllocator P (some allocator) = Keeps P allocator

module _ {P : Kernel → Type 0} (stable : Stable P) where
  allocate_table-Keeps :
      (allocator : Allocator) (perm at : ℕ)
      → KeepsAllocator P allocator
      → Keeps P (allocate_table allocator perm at)
  unfolding allocate_table
  allocate_table-Keeps none perm at _ = Keeps-pure 0
  allocate_table-Keeps (some allocator) perm at keeps =
      Keeps-if (not (has_flag perm pte_p)) (Keeps-pure 0) (
        Keeps-bind keeps (λ new_pt. Keeps-if (new_pt == 0) (Keeps-pure 0) (
          Keeps-bind (Keeps-assert (new_pt % page_size == 0)) (λ _.
            Keeps-bind (Keeps-write64 stable at (link new_pt)) (λ _.
              Keeps-bind (Keeps-clear stable new_pt page_size) (λ _. Keeps-pure (link new_pt)))))))

  check_entry-Keeps : (perm pe : ℕ) → Keeps P (check_entry perm pe)
  unfolding check_entry
  check_entry-Keeps perm pe = Keeps-bind (Keeps-assert (ltb (pte_addr pe) memsize_physical)) (λ _.
      Keeps-bind (Keeps-assert_when (has_flag perm pte_w) (has_flag pe pte_w))
        (λ _. Keeps-assert_when (has_flag perm pte_u) (has_flag pe pte_u)))

  write_entry-Keeps : (l4 va pa perm : ℕ) → Keeps P (write_entry l4 va pa perm)
  unfolding write_entry
  write_entry-Keeps l4 va pa perm =
      Keeps-if (has_flag perm pte_p && l4 != 0)
        (Keeps-bind (Keeps-write64 stable (slot l4 va 3) (bit_or pa perm)) (λ _. Keeps-pure true))
        (Keeps-if (l4 != 0)
          (Keeps-bind (Keeps-write64 stable (slot l4 va 3) perm) (λ _. Keeps-pure true))
          (Keeps-pure (not (has_flag perm pte_p))))

  module _ (allocator : Allocator) (keeps : KeepsAllocator P allocator) where
    l4_loop-Keeps : (va perm n i pt : ℕ) → Keeps P (l4_loop allocator va perm n i pt)
    unfolding l4_loop
    l4_loop-Keeps va perm zero i pt = Keeps-pure pt
    l4_loop-Keeps va perm (suc n) i pt = Keeps-bind (Keeps-read64 (slot pt va i)) (λ entry.
        Keeps-bind
          (Keeps-if (has_flag entry pte_p) (Keeps-pure entry)
            (allocate_table-Keeps allocator perm (slot pt va i) keeps))
          (λ pe. Keeps-if (pe == 0) (Keeps-pure 0) (
            Keeps-bind (check_entry-Keeps perm pe)
              (λ _. l4_loop-Keeps va perm n (i + 1) (pte_addr pe)))))

    map_loop-Keeps :
        (pagetable perm n va pa last l4 : ℕ)
        → Keeps P (map_loop allocator pagetable perm n va pa last l4)
    unfolding map_loop lookup_l4pagetable
    map_loop-Keeps pagetable perm zero va pa last l4 = Keeps-pure 0
    map_loop-Keeps pagetable perm (suc n) va pa last l4 =
        Keeps-bind
          (Keeps-if (u32 (va / 2 ^ 21) != last) (l4_loop-Keeps va perm 3 0 pagetable)
            (Keeps-pure l4))
          (λ table. Keeps-bind (write_entry-Keeps table va pa perm) (λ mapped.
            Keeps-if (not mapped) (Keeps-pure int_minus_one) (
              map_loop-Keeps pagetable perm n (u64 (va + page_size)) (u64 (pa + page_size))
                (u32 (va / 2 ^ 21)) table)))

    -- What depends on the processes alone is kept, if the allocator keeps it.
    pub virtual_memory_map-Keeps :
        (pagetable va pa sz perm : ℕ)
        → Keeps P (virtual_memory_map pagetable va pa sz perm allocator)
    unfolding virtual_memory_map map_asserts
    virtual_memory_map-Keeps pagetable va pa sz perm =
        Keeps-bind
          (Keeps-bind (Keeps-assert (va % page_size == 0)) (λ _.
            Keeps-bind (Keeps-assert (sz % page_size == 0)) (λ _.
              Keeps-bind (Keeps-assert (leb va (u64 (va + sz)) || u64 (va + sz) == 0)) (λ _.
                Keeps-bind (Keeps-assert_when (has_flag perm pte_p) (pa % page_size == 0)) (λ _.
                  Keeps-bind (Keeps-assert_when (has_flag perm pte_p) (leb pa (u64 (pa + sz))))
                    (λ _.
                      Keeps-bind
                        (Keeps-assert_when (has_flag perm pte_p)
                          (leb (u64 (pa + sz)) memsize_physical))
                        (λ _.
                          Keeps-bind (Keeps-assert (ltb perm 0x1000))
                            (λ _. Keeps-assert (pagetable % page_size == 0)))))))))
          (λ _. map_loop-Keeps pagetable perm (sz / page_size) va pa int_minus_one 0)
