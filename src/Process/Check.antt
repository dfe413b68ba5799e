-- ===== src/Process/Check.antt =====
-- `check_virtual_memory` and the checks that it calls.
use weensy_osvm.Base.{
  ℕ, ◌^◌, Bool, zero, suc, ◌+◌, ◌-◌, ◌*◌, ◌/◌, not, ◌&&◌, ◌==◌, ◌!=◌, ltb, leb, if◌then◌else◌,
}
use weensy_osvm.X86.{page_size, page_number, pte_addr, pte_w, has_flag, int_minus_one}
use weensy_osvm.Memory.{load64}
use weensy_osvm.State.{Kernel, K, ok, stop, out_of_bounds, pure, ◌>>◌, assert, assert_when}
use weensy_osvm.Paging.{virtual_memory_lookup, memsize_physical}
use weensy_osvm.Physical.{po_kernel, kernel_start_addr, kernel_stack_top}
use weensy_osvm.Process.{Link, nproc}
use weensy_osvm.Process.Fork.{is_p_free}

abbrev pub npages : ℕ
npages = memsize_physical / page_size

abbrev pub npagetableentries : ℕ
npagetableentries = 512

-- `(end - start)` in pages, rounded up: the rounds of `for (va = start; va < end; va += PAGESIZE)`.
abbrev pub rounds : (start end : ℕ) → ℕ
rounds start end = (end - start + (page_size - 1)) / page_size

module _ (link : Link) where
  abbrev pub check_kernel_page : (pt va : ℕ) → K (Unit {0})
  check_kernel_page pt va k =
      let vam = virtual_memory_lookup k.mem pt va in
      (assert (vam.pa == va) >> assert_when (leb link.start_data va) (has_flag vam.perm pte_w)) k

  unfoldable pub mappings_loop : (pt n va : ℕ) → K (Unit {0})
  mappings_loop pt zero va = pure tt
  mappings_loop pt (suc n) va = check_kernel_page pt va >> mappings_loop pt n (va + page_size)

  abbrev pub check_kernel_stack : (pt : ℕ) → K (Unit {0})
  check_kernel_stack pt k =
      let vam = virtual_memory_lookup k.mem pt (kernel_stack_top - page_size) in
      (assert (vam.pa == kernel_stack_top - page_size) >> assert (has_flag vam.perm pte_w)) k

  unfoldable pub check_page_table_mappings : ℕ → K (Unit {0})
  unfolding mappings_loop
  check_page_table_mappings pt = do
    assert (pte_addr pt == pt)
    mappings_loop pt (rounds kernel_start_addr link.end) kernel_start_addr
    check_kernel_stack pt

-- The assertions of `check_page_table_ownership_level` on one table. The page number is an `int`:
-- a negative one passes the first assertion, and then lies outside `pageinfo`.
abbrev pub check_owned : (pt owner refcount : ℕ) → K (Unit {0})
check_owned pt owner refcount k =
    if leb (2 ^ 31) (page_number pt)
    then stop out_of_bounds
    else (assert (ltb (page_number pt) npages)
          >> (assert ((k.pageinfo (page_number pt)).owner == owner)
              >> assert ((k.pageinfo (page_number pt)).refcount == refcount)))
        k

-- The loop over the entries of `pt`, with `n` entries left; `check` is the recursive call.
unfoldable pub entries_loop : (check : ℕ → K (Unit {0})) (pt n index : ℕ) → K (Unit {0})
entries_loop check pt zero index k = ok tt k
entries_loop check pt (suc n) index k =
    let pe = load64 k.mem (pt + 8 * index) in
    ((if pe != 0 then check (pte_addr pe) else pure tt) >> entries_loop check pt n (index + 1)) k

-- `check_page_table_ownership_level` with `levels` = 3 - `level`.
unfoldable pub check_page_table_ownership_level : (levels pt owner refcount : ℕ) → K (Unit {0})
check_page_table_ownership_level zero pt owner refcount = check_owned pt owner refcount
check_page_table_ownership_level (suc levels) pt owner refcount =
    check_owned pt owner refcount
    >> entries_loop (λ nextpt. check_page_table_ownership_level levels nextpt owner 1) pt
        npagetableentries 0

-- The references of the processes from `xpid` to the kernel's page table, with `n` left.
unfoldable pub count_kernel_users : (kernel_pagetable n xpid : ℕ) → Kernel → ℕ
count_kernel_users kernel_pagetable zero xpid k = 0
count_kernel_users kernel_pagetable (suc n) xpid k =
    (if not (is_p_free (k.processes xpid).p_state)
        && (k.processes xpid).p_pagetable == kernel_pagetable
      then 1
      else 0)
    + count_kernel_users kernel_pagetable n (xpid + 1) k

module _ (link : Link) where
  unfoldable pub check_page_table_ownership : (pt pid : ℕ) → K (Unit {0})
  unfolding check_page_table_ownership_level entries_loop count_kernel_users
  check_page_table_ownership pt pid k =
      if pt == link.kernel_pagetable
      then check_page_table_ownership_level 3 pt po_kernel
          (1 + count_kernel_users link.kernel_pagetable nproc 0 k) k
      else check_page_table_ownership_level 3 pt pid 1 k

  abbrev pub check_process : ℕ → K (Unit {0})
  check_process pid k =
      if not (is_p_free (k.processes pid).p_state)
        && (k.processes pid).p_pagetable != link.kernel_pagetable
      then (check_page_table_mappings link (k.processes pid).p_pagetable
            >> check_page_table_ownership (k.processes pid).p_pagetable pid)
          k
      else ok tt k

  unfoldable pub processes_loop : (n pid : ℕ) → K (Unit {0})
  processes_loop zero pid = pure tt
  processes_loop (suc n) pid = check_process pid >> processes_loop n (pid + 1)

-- The test on a page: it has references, and its owner is not negative. An `int8_t` is negative from
-- 128 on.
abbrev pub is_referenced : (k : Kernel) (pn : ℕ) → Bool
is_referenced k pn =
    ltb 0 (k.pageinfo pn).refcount
    && ltb (k.pageinfo pn).refcount 128
    && ltb (k.pageinfo pn).owner 128

-- A referenced page of a process belongs to an active one. An owner may lie outside `processes`.
abbrev pub check_referenced : ℕ → K (Unit {0})
check_referenced pn k =
    if is_referenced k pn && leb nproc (k.pageinfo pn).owner
    then stop out_of_bounds
    else assert_when (is_referenced k pn)
        (not (is_p_free (k.processes (k.pageinfo pn).owner).p_state)) k

unfoldable pub pages_loop : (n pn : ℕ) → K (Unit {0})
pages_loop zero pn = pure tt
pages_loop (suc n) pn = check_referenced pn >> pages_loop n (pn + 1)

module _ (link : Link) where
  unfoldable pub check_virtual_memory : K (Unit {0})
  unfolding processes_loop pages_loop check_page_table_mappings check_page_table_ownership
  check_virtual_memory = do
    (λ k. assert (is_p_free (k.processes 0).p_state) k)
    check_page_table_mappings link link.kernel_pagetable
    check_page_table_ownership link link.kernel_pagetable int_minus_one
    processes_loop link nproc 0
    pages_loop npages 0
