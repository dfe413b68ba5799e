-- ===== src/Physical/Keeps.antt =====
-- The allocation of pages changes `pageinfo` and memory only.
use weensy_osvm.Base.{ℕ, zero, suc, ◌+◌, ◌/◌, ◌||◌, ◌==◌, ◌!=◌, leb, if◌then◌else◌}
use weensy_osvm.X86.{page_size, has_flag, page_number}
use weensy_osvm.State.{Kernel}
use weensy_osvm.State.Allows.{returned, either}
use weensy_osvm.State.Keeps.{Stable, Keeps, Keeps-pure, Keeps-if, Keeps-bind, Keeps-clear}
use weensy_osvm.Paging.{memsize_physical}
use weensy_osvm.Physical.{
  assign_physical_page, take_page, free_loop, get_free_addr, clear_table, pagetable_alloc, is_free,
  out_of_memory,
}

module _ {P : Kernel → Type 0} (stable : Stable P) where
  assign_physical_page-Keeps : (addr owner : ℕ) → Keeps P (assign_physical_page addr owner)
  unfolding assign_physical_page
  assign_physical_page-Keeps addr owner k p =
      either
        (has_flag addr 0xFFF
          || leb memsize_physical addr
          || (k.pageinfo (page_number addr)).refcount != 0)
        (returned p) (returned (stable k k.mem _ k.ticks k.pagetable_owner k.cr3 k.keys p))

  free_loop-Keeps : (owner n addr : ℕ) → Keeps P (free_loop owner n addr)
  unfolding free_loop take_page
  free_loop-Keeps owner zero addr k p = returned p
  free_loop-Keeps owner (suc n) addr k p =
      either (is_free k addr)
        (Keeps-bind (assign_physical_page-Keeps addr owner)
          (λ assigned. Keeps-pure (if assigned == 0 then addr else out_of_memory)) k p)
        (free_loop-Keeps owner n (addr + page_size) k p)

  pub get_free_addr-Keeps : (owner : ℕ) → Keeps P (get_free_addr owner)
  unfolding get_free_addr
  get_free_addr-Keeps owner = free_loop-Keeps owner (memsize_physical / page_size) 0

  pub pagetable_alloc-Keeps : Keeps P pagetable_alloc
  unfolding pagetable_alloc clear_table
  pagetable_alloc-Keeps k p =
      Keeps-bind (get_free_addr-Keeps k.pagetable_owner)
        (λ new.
          Keeps-if (new == 0) (Keeps-pure 0)
            (Keeps-bind (Keeps-clear stable new page_size) (λ _. Keeps-pure new)))
        k p
