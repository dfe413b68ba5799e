-- ===== src/Process/Tables.antt =====
-- kernel.c: what `check_page_table_mappings` and `check_page_table_ownership` check.
use weensy_osvm.Base.{
  ℕ, ◌^◌, zero, suc, ◌+◌, ◌-◌, ◌*◌, ◌<◌, ◌≡◌, subst, true, ◌==◌, ◌!=◌, ltb, leb, if◌then◌else◌,
  arith,
}
use weensy_osvm.X86.{page_size, page_number, pte_addr, pte_w, has_flag}
use weensy_osvm.Memory.{load64}
use weensy_osvm.State.{Kernel, K, pure, assert}
use weensy_osvm.Paging.{virtual_memory_lookup}
use weensy_osvm.Physical.{po_kernel, kernel_start_addr, kernel_stack_top}
use weensy_osvm.Process.{Link, nproc}
use weensy_osvm.Process.Check.{
  npages, npagetableentries, rounds, mappings_loop, check_kernel_page, check_kernel_stack,
  check_page_table_mappings, check_owned, entries_loop, check_page_table_ownership_level,
  check_page_table_ownership, count_kernel_users,
}
use weensy_osvm.Process.Users.{uses_kernel_table, how_many, count_kernel_users-how_many}
use weensy_osvm.Process.Verdict.{
  Verdict, Verdict-map, Verdict-within, Verdict-both, Verdict-if, Verdict-either, Verdict-all,
  Verdict-next, Verdict-none, assert-Verdict, assert_when-Verdict,
}

-- The page at `va` of the kernel maps to itself; a page of its data is writable.
pub record IsKernelPage (link : Link) (k : Kernel) (pt va : ℕ) : Type 0 where
  pub identity : (virtual_memory_lookup k.mem pt va).pa ≡ va
  pub writable :
      leb link.start_data va ≡ true → has_flag (virtual_memory_lookup k.mem pt va).perm pte_w ≡ true

-- The kernel's memory in the page table `pt`.
pub record IsKernelMapped (link : Link) (k : Kernel) (pt : ℕ) : Type 0 where
  pub aligned : pte_addr pt ≡ pt
  pub pages :
      (i : ℕ)
      → kernel_start_addr + i * page_size < link.end
      → IsKernelPage link k pt (kernel_start_addr + i * page_size)
  pub stack :
      (virtual_memory_lookup k.mem pt (kernel_stack_top - page_size)).pa
      ≡ kernel_stack_top - page_size
  pub stack_writable :
      has_flag (virtual_memory_lookup k.mem pt (kernel_stack_top - page_size)).perm pte_w ≡ true

pub record IsOwned (k : Kernel) (pt owner refcount : ℕ) : Type 0 where
  pub exists : page_number pt < npages
  pub owned : (k.pageinfo (page_number pt)).owner ≡ owner
  pub counted : (k.pageinfo (page_number pt)).refcount ≡ refcount

-- `pt`, and the tables below it through `levels` levels, which have one reference each.
pub IsOwnedTree : (k : Kernel) (owner levels pt refcount : ℕ) → Type 0
IsOwnedTree k owner zero pt refcount = IsOwned k pt owner refcount
IsOwnedTree k owner (suc levels) pt refcount =
    IsOwned k pt owner refcount
    × ((i : ℕ)
        → i < npagetableentries
        → (load64 k.mem (pt + 8 * i) != 0) ≡ true
        → IsOwnedTree k owner levels (pte_addr (load64 k.mem (pt + 8 * i))) 1)

-- A page table with its owner and its number of references: the kernel's has one, and one for each
-- process that uses it.
abbrev pub IsOwnedTable : (link : Link) (k : Kernel) (pt pid : ℕ) → Type 0
IsOwnedTable link k pt pid =
    if pt == link.kernel_pagetable
    then IsOwnedTree k po_kernel 3 pt (1 + how_many (uses_kernel_table link k) nproc)
    else IsOwnedTree k pid 3 pt 1

check_kernel_page-Verdict :
    (link : Link) (k : Kernel) (pt va : ℕ)
    → Verdict (IsKernelPage link k pt va) (check_kernel_page link pt va k) k
check_kernel_page-Verdict link k pt va =
    let vam = virtual_memory_lookup k.mem pt va in
    Verdict-map (λ (i, w). record { identity = ground (arith, i); writable = w })
      (λ is. (ground (arith, is.identity), is.writable))
      (Verdict-both (assert (vam.pa == va)) _ (assert-Verdict (vam.pa == va) k)
        (assert_when-Verdict (leb link.start_data va) (has_flag vam.perm pte_w) k))

mappings_loop-Verdict :
    (link : Link) (k : Kernel) (pt n va : ℕ)
    → Verdict
        ((i : ℕ) → i < n → IsKernelPage link k pt (va + i * 4096))
        (mappings_loop link pt n va k)
        k
unfolding mappings_loop
mappings_loop-Verdict link k pt zero va = Verdict-none
mappings_loop-Verdict link k pt (suc n) va =
    Verdict-next {I = λ i. IsKernelPage link k pt (va + i * 4096)}
      {I' = λ i. IsKernelPage link k pt (va + 4096 + i * 4096)} (check_kernel_page link pt va)
      (mappings_loop link pt n (va + page_size)) (λ d. subst (IsKernelPage link k pt) (omega arith))
      (λ d. subst (IsKernelPage link k pt) (omega arith))
      (Verdict-map (subst (IsKernelPage link k pt) (omega arith))
        (subst (IsKernelPage link k pt) (omega arith)) (check_kernel_page-Verdict link k pt va))
      (mappings_loop-Verdict link k pt n (va + page_size))

pub check_page_table_mappings-Verdict :
    (link : Link) (k : Kernel) (pt : ℕ)
    → Verdict (IsKernelMapped link k pt) (check_page_table_mappings link pt k) k
unfolding check_page_table_mappings
check_page_table_mappings-Verdict link k pt =
    Verdict-map
      (λ (a, (p, (s, w))). record {
        aligned = ground (arith, a);
        pages = λ i l. p i (omega (arith, l));
        stack = ground (arith, s);
        stack_writable = w;
      })
      (λ is. (
        ground (arith, is.aligned),
        ((λ i l. is.pages i (omega (arith, l))), (ground (arith, is.stack), is.stack_writable)),
      ))
      (Verdict-both (assert (pte_addr pt == pt)) _ (assert-Verdict (pte_addr pt == pt) k) (
        Verdict-both (mappings_loop link pt (rounds kernel_start_addr link.end) kernel_start_addr)
          (check_kernel_stack link pt)
          (mappings_loop-Verdict link k pt (rounds kernel_start_addr link.end) kernel_start_addr)
          (Verdict-both (assert _) (assert _) (assert-Verdict _ k) (assert-Verdict _ k))))

check_owned-Verdict :
    (k : Kernel) (pt owner refcount : ℕ)
    → Verdict (IsOwned k pt owner refcount) (check_owned pt owner refcount k) k
check_owned-Verdict k pt owner refcount =
    Verdict-within (leb (2 ^ 31) (page_number pt)) (λ far is. ground (arith, is.exists))
      (λ near.
        Verdict-map
          (λ (e, (o, c)). record {
            exists = ground (arith, e);
            owned = ground (arith, o);
            counted = ground (arith, c);
          })
          (λ is.
            (ground (arith, is.exists), (ground (arith, is.owned), ground (arith, is.counted))))
          (Verdict-both (assert _) _ (assert-Verdict (ltb (page_number pt) npages) k) (
            Verdict-both (assert _) (assert _)
              (assert-Verdict ((k.pageinfo (page_number pt)).owner == owner) k)
              (assert-Verdict ((k.pageinfo (page_number pt)).refcount == refcount) k))))

-- The verdict on an entry of `pt`, from that on each table below.
entries_loop-Verdict :
    (k : Kernel) (check : ℕ → K (Unit {0})) (I : ℕ → Type 0) (pt n index : ℕ)
    → ((next : ℕ) → Verdict (I next) (check next k) k)
    → Verdict
        ((i : ℕ)
          → i < n
          → (load64 k.mem (pt + 8 * (index + i)) != 0) ≡ true
          → I (pte_addr (load64 k.mem (pt + 8 * (index + i)))))
        (entries_loop check pt n index k)
        k
unfolding entries_loop
entries_loop-Verdict k check I pt zero index each = Verdict-none
entries_loop-Verdict k check I pt (suc n) index each =
    let At : ℕ → Type 0 =
      λ j. (load64 k.mem (pt + 8 * j) != 0) ≡ true → I (pte_addr (load64 k.mem (pt + 8 * j))) in
    let pe = load64 k.mem (pt + 8 * index) in
    Verdict-next {I = λ i. At (index + i)} {I' = λ i. At (index + 1 + i)}
      (if pe != 0 then check (pte_addr pe) else pure tt) (entries_loop check pt n (index + 1))
      (λ d. subst At (omega arith)) (λ d. subst At (omega arith))
      (Verdict-map (subst At (omega arith)) (subst At (omega arith))
        (Verdict-if (pe != 0) (check (pte_addr pe)) (each (pte_addr pe))))
      (entries_loop-Verdict k check I pt n (index + 1) each)

check_level-Verdict :
    (k : Kernel) (owner levels pt refcount : ℕ)
    → Verdict
        (IsOwnedTree k owner levels pt refcount)
        (check_page_table_ownership_level levels pt owner refcount k)
        k
unfolding check_page_table_ownership_level IsOwnedTree
check_level-Verdict k owner zero pt refcount = check_owned-Verdict k pt owner refcount
check_level-Verdict k owner (suc levels) pt refcount =
    Verdict-both (check_owned pt owner refcount)
      (entries_loop (λ next. check_page_table_ownership_level levels next owner 1) pt
        npagetableentries 0)
      (check_owned-Verdict k pt owner refcount)
      (Verdict-all
        (λ i.
          (load64 k.mem (pt + 8 * i) != 0) ≡ true
          → IsOwnedTree k owner levels (pte_addr (load64 k.mem (pt + 8 * i))) 1)
        (entries_loop-Verdict k (λ next. check_page_table_ownership_level levels next owner 1)
          (λ next. IsOwnedTree k owner levels next 1) pt npagetableentries 0
          (λ next. check_level-Verdict k owner levels next 1)))

pub check_page_table_ownership-Verdict :
    (link : Link) (k : Kernel) (pt pid : ℕ)
    → Verdict (IsOwnedTable link k pt pid) (check_page_table_ownership link pt pid k) k
unfolding check_page_table_ownership
check_page_table_ownership-Verdict link k pt pid =
    Verdict-either (pt == link.kernel_pagetable)
      (subst
        (λ users.
          Verdict (IsOwnedTree k po_kernel 3 pt (1 + users))
            (check_page_table_ownership_level 3 pt po_kernel
              (1 + count_kernel_users link.kernel_pagetable nproc 0 k) k)
            k)
        (count_kernel_users-how_many link k)
        (check_level-Verdict k po_kernel 3 pt
          (1 + count_kernel_users link.kernel_pagetable nproc 0 k)))
      (check_level-Verdict k pid 3 pt 1)
