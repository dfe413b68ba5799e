-- ===== src/Process/Copy.antt =====
-- `copy_pagetable`.
use weensy_osvm.Base.{ℕ, zero, suc, ◌+◌, ◌/◌, some, ◌==◌, ◌!=◌, if◌then◌else◌}
use weensy_osvm.X86.{page_size, u8}
use weensy_osvm.State.{K, ok, panic, pure, ◌>>=◌, ◌>>◌}
use weensy_osvm.Paging.{VaMapping, virtual_memory_lookup, virtual_memory_map}
use weensy_osvm.Physical.{pagetable_alloc}
use weensy_osvm.Process.{proc_start_addr}

-- `panic` if the mapping of a page fails.
unfoldable pub panic_unless_zero : ℕ → K (Unit {0})
panic_unless_zero result = if result != 0 then (λ k. panic) else pure tt

-- The body of the loop of `copy_pagetable` for one page.
unfoldable pub copy_page : (new_pagetable va : ℕ) → VaMapping → K (Unit {0})
unfolding panic_unless_zero
copy_page new_pagetable va mapping =
    if mapping.perm != 0
    then (do
      result ←
          virtual_memory_map new_pagetable va mapping.pa page_size mapping.perm
            (some pagetable_alloc)
      panic_unless_zero result)
    else pure tt

-- The loop of `copy_pagetable` at `va`, with `n` pages left.
unfoldable pub copy_loop : (pagetable new_pagetable n va : ℕ) → K (Unit {0})
copy_loop pagetable new_pagetable zero va = pure tt
copy_loop pagetable new_pagetable (suc n) va = do
  (λ k. copy_page new_pagetable va (virtual_memory_lookup k.mem pagetable va) k)
  copy_loop pagetable new_pagetable n (va + page_size)

-- The part of `copy_pagetable` behind the test for NULL.
unfoldable pub copy_into : (pagetable new_pagetable : ℕ) → K ℕ
copy_into pagetable new_pagetable =
    if new_pagetable == 0
    then pure 0
    else do copy_loop pagetable new_pagetable (proc_start_addr / page_size) 0; pure new_pagetable

abbrev pub set_owner : ℕ → K (Unit {0})
set_owner owner k = ok tt (record k { pagetable_owner = u8 owner })

unfoldable pub copy_pagetable : (pagetable owner : ℕ) → K ℕ
copy_pagetable pagetable owner = do
  set_owner owner
  new_pagetable ← pagetable_alloc
  copy_into pagetable new_pagetable
