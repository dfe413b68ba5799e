-- ===== src/Process/Consistent.antt =====
-- kernel.c: what `check_virtual_memory` checks.
use weensy_osvm.Base.{
  ℕ, leb, zero, suc, ◌+◌, ◌<◌, ◌≡◌, ◌⊎◌, subst, Bool, true, not, ◌&&◌, ◌!=◌, arith,
}
use weensy_osvm.X86.{int_minus_one}
use weensy_osvm.State.{Kernel, K, ok, stop, out_of_bounds, panic, assert, and_then}
use weensy_osvm.Process.{Link, nproc}
use weensy_osvm.Process.Fork.{is_p_free}
use weensy_osvm.Process.Check.{
  is_referenced, npages, check_page_table_mappings, check_page_table_ownership, check_process,
  processes_loop, check_referenced, pages_loop, check_virtual_memory,
}
use weensy_osvm.Process.Verdict.{
  Verdict, Verdict-map, Verdict-within, Verdict-both, Verdict-when, Verdict-all, Verdict-next,
  Verdict-none, assert-Verdict, assert_when-Verdict,
}
use weensy_osvm.Process.Tables.{
  IsKernelMapped, IsOwnedTable, check_page_table_mappings-Verdict,
  check_page_table_ownership-Verdict,
}

abbrev pub has_own_table : (link : Link) (k : Kernel) (pid : ℕ) → Bool
has_own_table link k pid =
    not (is_p_free (k.processes pid).p_state)
    && (k.processes pid).p_pagetable != link.kernel_pagetable

-- The page table of the slot `pid`, where it is in use and has one of its own.
pub record IsProcessTable (link : Link) (k : Kernel) (pid : ℕ) : Type 0 where
  pub mapped : IsKernelMapped link k (k.processes pid).p_pagetable
  pub owned : IsOwnedTable link k (k.processes pid).p_pagetable pid

processes_loop-Verdict :
    (link : Link) (k : Kernel) (n pid : ℕ)
    → Verdict
        ((i : ℕ) → i < n → has_own_table link k (pid + i) ≡ true → IsProcessTable link k (pid + i))
        (processes_loop link n pid k)
        k
unfolding processes_loop
processes_loop-Verdict link k zero pid = Verdict-none
processes_loop-Verdict link k (suc n) pid =
    let At : ℕ → Type 0 = λ j. has_own_table link k j ≡ true → IsProcessTable link k j in
    let pt = (k.processes pid).p_pagetable in
    Verdict-next {I = λ i. At (pid + i)} {I' = λ i. At (pid + 1 + i)} (check_process link pid)
      (processes_loop link n (pid + 1)) (λ d. subst At (omega arith)) (λ d. subst At (omega arith))
      (Verdict-map (subst At (omega arith)) (subst At (omega arith)) (
        Verdict-when (has_own_table link k pid) (
          Verdict-map (λ (m, o). record { mapped = m; owned = o }) (λ is. (is.mapped, is.owned))
            (Verdict-both (check_page_table_mappings link pt)
              (check_page_table_ownership link pt pid) (check_page_table_mappings-Verdict link k pt)
              (check_page_table_ownership-Verdict link k pt pid)))))
      (processes_loop-Verdict link k n (pid + 1))

-- The owner of the page `pn` is the process of a slot that is in use.
pub record HasLiveOwner (k : Kernel) (pn : ℕ) : Type 0 where
  pub slot : (k.pageinfo pn).owner < nproc
  pub live : not (is_p_free (k.processes (k.pageinfo pn).owner).p_state) ≡ true

check_referenced-Verdict :
    (k : Kernel) (pn : ℕ)
    → Verdict (is_referenced k pn ≡ true → HasLiveOwner k pn) (check_referenced pn k) k
check_referenced-Verdict k pn =
    let owner = (k.pageinfo pn).owner in
    let live = not (is_p_free (k.processes owner).p_state) in
    Verdict-within (is_referenced k pn && leb nproc owner) (λ far of_live. beyond far of_live)
      (λ near.
        Verdict-map (λ l r. record { slot = ground arith; live = l r })
          (λ of_live r. (of_live r).live) (assert_when-Verdict (is_referenced k pn) live k))
  where
    beyond :
        (is_referenced k pn && leb nproc (k.pageinfo pn).owner) ≡ true
        → (is_referenced k pn ≡ true → HasLiveOwner k pn)
        → ⊥
    beyond far of_live =
        let referenced : is_referenced k pn ≡ true = ground arith in
        ground (arith, (of_live referenced).slot)

pages_loop-Verdict :
    (k : Kernel) (n pn : ℕ)
    → Verdict
        ((i : ℕ) → i < n → is_referenced k (pn + i) ≡ true → HasLiveOwner k (pn + i))
        (pages_loop n pn k)
        k
unfolding pages_loop
pages_loop-Verdict k zero pn = Verdict-none
pages_loop-Verdict k (suc n) pn =
    let At : ℕ → Type 0 = λ j. is_referenced k j ≡ true → HasLiveOwner k j in
    Verdict-next {I = λ i. At (pn + i)} {I' = λ i. At (pn + 1 + i)} (check_referenced pn)
      (pages_loop n (pn + 1)) (λ d. subst At (omega arith)) (λ d. subst At (omega arith))
      (Verdict-map (subst At (omega arith)) (subst At (omega arith))
        (check_referenced-Verdict k pn))
      (pages_loop-Verdict k n (pn + 1))

-- The invariants of the kernel's virtual memory: slot 0 is free; the kernel's page table, and that
-- of each process that has its own, maps the kernel and is a tree of tables with the right owner and
-- numbers of references; and a page that a process owns belongs to a slot in use.
pub record IsConsistent (link : Link) (k : Kernel) : Type 0 where
  pub idle : is_p_free (k.processes 0).p_state ≡ true
  pub kernel_mapped : IsKernelMapped link k link.kernel_pagetable
  pub kernel_owned : IsOwnedTable link k link.kernel_pagetable int_minus_one
  pub processes :
      (pid : ℕ) → pid < nproc → has_own_table link k pid ≡ true → IsProcessTable link k pid
  pub pages : (pn : ℕ) → pn < npages → is_referenced k pn ≡ true → HasLiveOwner k pn

-- `check_virtual_memory` returns and changes nothing where the invariants hold, and in no other
-- state: there it panics, or it reads outside `pageinfo` or `processes` before it could.
pub check_virtual_memory-IsConsistent :
    (link : Link) (k : Kernel)
    → (IsConsistent link k × (check_virtual_memory link k ≡ ok tt k))
      ⊎ ((¬ IsConsistent link k)
          × ((check_virtual_memory link k ≡ panic)
              ⊎ (check_virtual_memory link k ≡ stop out_of_bounds)))
unfolding check_virtual_memory
check_virtual_memory-IsConsistent link k =
    let first : K (Unit {0}) = λ k'. assert (is_p_free (k'.processes 0).p_state) k' in
    let pages : K (Unit {0}) = pages_loop npages 0 in
    let own : K (Unit {0}) = λ k'. and_then (processes_loop link nproc 0 k') (λ _. pages) in
    let owned = check_page_table_ownership link link.kernel_pagetable int_minus_one in
    let kernel_owned : K (Unit {0}) = λ k'. and_then (owned k') (λ _. own) in
    let mapped = check_page_table_mappings link link.kernel_pagetable in
    let tables : K (Unit {0}) = λ k'. and_then (mapped k') (λ _. kernel_owned) in
    Verdict-map
      (λ (i, (m, (o, (p, r)))). record {
        idle = i;
        kernel_mapped = m;
        kernel_owned = o;
        processes = p;
        pages = r;
      })
      (λ is. (is.idle, (is.kernel_mapped, (is.kernel_owned, (is.processes, is.pages)))))
      (Verdict-both first tables (assert-Verdict (is_p_free (k.processes 0).p_state) k) (
        Verdict-both mapped kernel_owned
          (check_page_table_mappings-Verdict link k link.kernel_pagetable)
          (Verdict-both owned own
            (check_page_table_ownership-Verdict link k link.kernel_pagetable int_minus_one)
            (Verdict-both (processes_loop link nproc 0) pages
              (Verdict-all (λ i. has_own_table link k i ≡ true → IsProcessTable link k i)
                (processes_loop-Verdict link k nproc 0))
              (Verdict-all (λ i. is_referenced k i ≡ true → HasLiveOwner k i)
                (pages_loop-Verdict k npages 0))))))
