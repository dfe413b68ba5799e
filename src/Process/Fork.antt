-- ===== src/Process/Fork.antt =====
-- `fork`.
use weensy_osvm.Base.{
  ℕ, zero, suc, ◌+◌, ◌-◌, ◌/◌, ◌^◌, Bool, true, false, some, ◌==◌, if◌then◌else◌,
}
use weensy_osvm.X86.{page_size, pte_w, has_flag, u8}
use weensy_osvm.Memory.{memcpy}
use weensy_osvm.State.{ProcState, p_free, p_runnable, K, ok, pure, ◌>>=◌, ◌>>◌}
use weensy_osvm.Paging.{VaMapping, virtual_memory_lookup, virtual_memory_map}
use weensy_osvm.Physical.{get_free_addr, pagetable_alloc}
use weensy_osvm.Process.{nproc, proc_start_addr, memsize_virtual, modify, set_rax, return_value}
use weensy_osvm.Process.Copy.{copy_pagetable}

-- `FAILED` as stored in a 64-bit register
abbrev pub failed : ℕ
failed = 2 ^ 64 - 1

abbrev pub is_p_free : ProcState → Bool
is_p_free p_free = true
is_p_free _ = false

abbrev pub is_p_runnable : ProcState → Bool
is_p_runnable p_runnable = true
is_p_runnable _ = false

-- `memcpy((void*) dst, (void*) src, n)` in identity-mapped memory
abbrev pub copy_bytes : (dst src n : ℕ) → K (Unit {0})
copy_bytes dst src n k = ok tt (record k { mem = memcpy k.mem dst src n })

-- The copy of one writable page to `new_pa`: whether it was mapped.
unfoldable pub fork_copy : (i va new_pa : ℕ) → VaMapping → K Bool
fork_copy i va new_pa mapping = if new_pa == 0 then pure false else do
  copy_bytes new_pa mapping.pa page_size
  result ← (λ k.
      virtual_memory_map (k.processes i).p_pagetable va new_pa page_size mapping.perm
        (some pagetable_alloc) k)
  pure (result == 0)

-- The body of the copying loop of `fork` for one page: false where `fork` fails.
unfoldable pub fork_page : (i va : ℕ) → VaMapping → K Bool
unfolding fork_copy
fork_page i va mapping =
    if has_flag mapping.perm pte_w
    then (do new_pa ← get_free_addr (u8 i); fork_copy i va new_pa mapping)
    else pure true

-- The copying loop of `fork` at `va`, with `n` pages left.
unfoldable pub fork_loop : (i n va : ℕ) → K Bool
fork_loop i zero va = pure true
fork_loop i (suc n) va = do
  copied ←
      (λ k. fork_page i va (virtual_memory_lookup k.mem (k.processes k.current).p_pagetable va) k)
  if copied then fork_loop i n (va + page_size) else pure false

-- The assignments to `processes[i]` before the page table is copied.
abbrev pub fork_init : ℕ → K (Unit {0})
fork_init i k = ok tt (
    modify i
      (λ p. record p {
        p_state = p_runnable;
        p_registers = (k.processes k.current).p_registers;
        p_pid = i;
      })
      k)

abbrev pub set_pagetable_of : (i pagetable : ℕ) → K (Unit {0})
set_pagetable_of i pagetable k = ok tt (modify i (λ p. record p { p_pagetable = pagetable }) k)

-- The end of `fork`: the results of the parent and of the child, or of the failure.
unfoldable pub fork_done : ℕ → Bool → K (Unit {0})
fork_done i true = do return_value i; λ k. ok tt (modify i (set_rax 0) k)
fork_done i false = return_value failed

-- `fork` into the free slot `i`.
unfoldable pub fork_into : ℕ → K (Unit {0})
unfolding fork_done
fork_into i = do
  fork_init i
  pagetable ← (λ k. copy_pagetable (k.processes k.current).p_pagetable (u8 i) k)
  set_pagetable_of i pagetable
  if pagetable == 0 then return_value failed else do
    copied ← fork_loop i ((memsize_virtual - proc_start_addr) / page_size) proc_start_addr
    fork_done i copied

-- The search for a free slot from `i`, with `n` slots left.
unfoldable pub slot_loop : (n i : ℕ) → K (Unit {0})
slot_loop zero i k = return_value failed k
slot_loop (suc n) i k =
    let rest = slot_loop n (i + 1) k in
    if is_p_free (k.processes i).p_state then fork_into i k else rest

unfoldable pub fork : K (Unit {0})
fork = slot_loop (nproc - 1) 1
