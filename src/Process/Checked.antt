-- ===== src/Process/Checked.antt =====
-- `check_virtual_memory` changes nothing: it keeps every predicate on the state.
use weensy_osvm.Base.{◌^◌, ◌&&◌, ℕ, zero, suc, ◌+◌, ◌-◌, ◌*◌, not, ◌&&◌, ◌==◌, ◌!=◌, ltb, leb}
use weensy_osvm.X86.{page_size, page_number, pte_addr, pte_w, has_flag, int_minus_one}
use weensy_osvm.Memory.{load64}
use weensy_osvm.State.{Kernel, K}
use weensy_osvm.State.Allows.{either, returned, stopped}
use weensy_osvm.State.Keeps.{
  Keeps, Keeps-pure, Keeps-if, Keeps-bind, Keeps-assert, Keeps-assert_when,
}
use weensy_osvm.Paging.{virtual_memory_lookup}
use weensy_osvm.Physical.{po_kernel, kernel_start_addr, kernel_stack_top}
use weensy_osvm.Process.{Link, nproc}
use weensy_osvm.Process.Fork.{is_p_free}
use weensy_osvm.Process.Check.{
  is_referenced, npages, npagetableentries, rounds, mappings_loop, check_page_table_mappings,
  check_owned, entries_loop, check_page_table_ownership_level, check_page_table_ownership,
  count_kernel_users, processes_loop, pages_loop, check_virtual_memory,
}

module _ {P : Kernel → Type 0} where
  check_owned-Keeps : (pt owner refcount : ℕ) → Keeps P (check_owned pt owner refcount)
  check_owned-Keeps pt owner refcount k p = either (leb (2 ^ 31) (page_number pt)) stopped (
      Keeps-bind (Keeps-assert (ltb (page_number pt) npages))
        (λ _.
          Keeps-bind (Keeps-assert ((k.pageinfo (page_number pt)).owner == owner))
            (λ _. Keeps-assert ((k.pageinfo (page_number pt)).refcount == refcount)))
        k p)

  entries_loop-Keeps :
      (check : ℕ → K (Unit {0})) (pt n index : ℕ)
      → ((next : ℕ) → Keeps P (check next))
      → Keeps P (entries_loop check pt n index)
  unfolding entries_loop
  entries_loop-Keeps check pt zero index keeps k p = returned p
  entries_loop-Keeps check pt (suc n) index keeps k p =
      let pe = load64 k.mem (pt + 8 * index) in
      Keeps-bind (Keeps-if (pe != 0) (keeps (pte_addr pe)) (Keeps-pure tt))
        (λ _. entries_loop-Keeps check pt n (index + 1) keeps) k p

  check_level-Keeps :
      (levels pt owner refcount : ℕ)
      → Keeps P (check_page_table_ownership_level levels pt owner refcount)
  unfolding check_page_table_ownership_level
  check_level-Keeps zero pt owner refcount = check_owned-Keeps pt owner refcount
  check_level-Keeps (suc levels) pt owner refcount =
      Keeps-bind (check_owned-Keeps pt owner refcount) (λ _.
        entries_loop-Keeps (λ nextpt. check_page_table_ownership_level levels nextpt owner 1) pt
          npagetableentries 0 (λ next. check_level-Keeps levels next owner 1))

  pages_loop-Keeps : (n pn : ℕ) → Keeps P (pages_loop n pn)
  unfolding pages_loop
  pages_loop-Keeps zero pn = Keeps-pure tt
  pages_loop-Keeps (suc n) pn =
      Keeps-bind
        (λ k p.
          either (is_referenced k pn && leb nproc (k.pageinfo pn).owner) stopped
            (Keeps-assert_when _ _ k p))
        (λ _. pages_loop-Keeps n (pn + 1))

  module _ (link : Link) where
    mappings_loop-Keeps : (pt n va : ℕ) → Keeps P (mappings_loop link pt n va)
    unfolding mappings_loop
    mappings_loop-Keeps pt zero va = Keeps-pure tt
    mappings_loop-Keeps pt (suc n) va =
        Keeps-bind
          (λ k p.
            let vam = virtual_memory_lookup k.mem pt va in
            Keeps-bind (Keeps-assert (vam.pa == va))
              (λ _. Keeps-assert_when (leb link.start_data va) (has_flag vam.perm pte_w)) k p)
          (λ _. mappings_loop-Keeps pt n (va + page_size))

    check_mappings-Keeps : (pt : ℕ) → Keeps P (check_page_table_mappings link pt)
    unfolding check_page_table_mappings
    check_mappings-Keeps pt = Keeps-bind (Keeps-assert (pte_addr pt == pt)) (λ _.
        Keeps-bind (mappings_loop-Keeps pt (rounds kernel_start_addr link.end) kernel_start_addr)
          (λ _ k p.
            let vam = virtual_memory_lookup k.mem pt (kernel_stack_top - page_size) in
            Keeps-bind (Keeps-assert (vam.pa == kernel_stack_top - page_size))
              (λ _. Keeps-assert (has_flag vam.perm pte_w)) k p))

    check_ownership-Keeps : (pt pid : ℕ) → Keeps P (check_page_table_ownership link pt pid)
    unfolding check_page_table_ownership
    check_ownership-Keeps pt pid k p =
        either (pt == link.kernel_pagetable)
          (check_level-Keeps 3 pt po_kernel (1 + count_kernel_users link.kernel_pagetable nproc 0 k)
            k p)
          (check_level-Keeps 3 pt pid 1 k p)

    processes_loop-Keeps : (n pid : ℕ) → Keeps P (processes_loop link n pid)
    unfolding processes_loop
    processes_loop-Keeps zero pid = Keeps-pure tt
    processes_loop-Keeps (suc n) pid =
        Keeps-bind
          (λ k p.
            let pt = (k.processes pid).p_pagetable in
            either (not (is_p_free (k.processes pid).p_state) && pt != link.kernel_pagetable)
              (Keeps-bind (check_mappings-Keeps pt) (λ _. check_ownership-Keeps pt pid) k p)
              (returned p))
          (λ _. processes_loop-Keeps n (pid + 1))

    pub check_virtual_memory-Keeps : Keeps P (check_virtual_memory link)
    unfolding check_virtual_memory
    check_virtual_memory-Keeps =
        Keeps-bind (λ k p. Keeps-assert (is_p_free (k.processes 0).p_state) k p)
          (λ _. Keeps-bind (check_mappings-Keeps link.kernel_pagetable) (λ _.
            Keeps-bind (check_ownership-Keeps link.kernel_pagetable int_minus_one)
              (λ _. Keeps-bind (processes_loop-Keeps nproc 0) (λ _. pages_loop-Keeps npages 0))))
