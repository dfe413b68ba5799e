-- ===== src/Process/Kept.antt =====
-- `exception` keeps the other processes, case by case.
use weensy_osvm.Base.{
  ℕ, zero, suc, ◌+◌, ◌-◌, ◌/◌, ◌<◌, ◌≤◌, ◌≡◌, ◌≢◌, inl, inr, refl, ◌∙◌, Bool, true, false, ◌==◌,
  not, Bool-cases, some, arith,
}
use weensy_osvm.X86.{page_size, u8, has_flag}
use weensy_osvm.State.{Kernel, Proc, Registers, p_broken, p_runnable, ok}
use weensy_osvm.State.Allows.{returned, panicked, either}
use weensy_osvm.State.Keeps.{Keeps, Keeps-bind, Keeps-if}
use weensy_osvm.Paging.Keeps.{virtual_memory_map-Keeps}
use weensy_osvm.Physical.{pagetable_alloc}
use weensy_osvm.Physical.Keeps.{get_free_addr-Keeps, pagetable_alloc-Keeps}
use weensy_osvm.Process.{
  nproc, proc_start_addr, memsize_virtual, modify, set_rax, return_value, sign_extend,
}
use weensy_osvm.Process.Fork.{is_p_free, failed, fork_init, fork_done, fork_into, slot_loop, fork}
use weensy_osvm.Process.Exception.{map_page, page_alloc, page_fault, getpid, tick, pferr_user}
use weensy_osvm.Process.Keeps.{copy_pagetable-Keeps, fork_loop-Keeps, set_owner-Keeps}
use weensy_osvm.Process.Frame.{Within, Within-Stable, Within-own, Within-slot, Within-free}

module _ (k0 : Kernel) (low : 0 < k0.current) where
  return_value-Keeps : (v : ℕ) → Keeps (Within k0) (return_value v)
  return_value-Keeps v k is =
      returned (Within-own is low (set_rax v) (λ p. refl) (λ p. refl) (λ p u. u))

  module _ (i : ℕ) (positive : 0 < i) (bound : i < nproc) (other : i ≢ k0.current)
      (free : is_p_free (k0.processes i).p_state ≡ true) where
    slot-Keeps :
        (f : Proc → Proc)
        → ((p : Proc) → (f p).p_pid ≡ p.p_pid)
        → Keeps (Within k0) (λ k. ok tt (modify i f k))
    slot-Keeps f pid k is =
        returned
          (Within-slot is low i f positive other free (pid (k.processes i) ∙ is.kept.pids i bound))

    fork_init-Keeps : Keeps (Within k0) (fork_init i)
    fork_init-Keeps k is =
        let child = λ (p : Proc). record p {
          p_state = p_runnable;
          p_registers = (k.processes k.current).p_registers;
          p_pid = i;
        } in
        returned (Within-slot is low i child positive other free refl)

    fork_done-Keeps : (copied : Bool) → Keeps (Within k0) (fork_done i copied)
    unfolding fork_done
    fork_done-Keeps true =
        Keeps-bind (return_value-Keeps i) (λ _. slot-Keeps (set_rax 0) (λ p. refl))
    fork_done-Keeps false = return_value-Keeps failed

    fork_into-Keeps : Keeps (Within k0) (fork_into i)
    unfolding fork_into
    fork_into-Keeps = Keeps-bind fork_init-Keeps (λ _.
        Keeps-bind
          (λ k is.
            copy_pagetable-Keeps (Within-Stable k0) (k.processes k.current).p_pagetable (u8 i) k is)
          (λ pagetable.
            Keeps-bind (slot-Keeps (λ p. record p { p_pagetable = pagetable }) (λ p. refl)) (λ _.
              Keeps-if (pagetable == 0) (return_value-Keeps failed) (
                Keeps-bind
                  (fork_loop-Keeps (Within-Stable k0) i
                    ((memsize_virtual - proc_start_addr) / page_size) proc_start_addr)
                  fork_done-Keeps))))

  slot_loop-Keeps : (n i : ℕ) → 0 < i → i + n ≤ nproc → Keeps (Within k0) (slot_loop n i)
  unfolding slot_loop
  slot_loop-Keeps zero i positive bound k is = return_value-Keeps failed k is
  slot_loop-Keeps (suc n) i positive bound k is =
      elim (Bool-cases (is_p_free (k.processes i).p_state)) [
        | inl free ↦
            let (other, was_free) = Within-free is low i free in
            rw free (fork_into-Keeps i positive (omega arith) other was_free k is)
        | inr used ↦ rw used (slot_loop-Keeps n (i + 1) (omega arith) (omega arith) k is)
      ]

  pub fork-Keeps : Keeps (Within k0) fork
  unfolding fork
  fork-Keeps = slot_loop-Keeps (nproc - 1) 1 (omega arith) (omega arith)

  pub page_alloc-Keeps : Keeps (Within k0) page_alloc
  unfolding page_alloc map_page
  page_alloc-Keeps k is =
      Keeps-bind (get_free_addr-Keeps (Within-Stable k0) (u8 (k.processes k.current).p_pid))
        (λ pa. Keeps-bind (set_owner-Keeps (Within-Stable k0) (k.processes k.current).p_pid) (λ _.
          Keeps-if (pa == 0) (return_value-Keeps failed) (
            Keeps-bind
              (λ s is'.
                virtual_memory_map-Keeps (Within-Stable k0) (some pagetable_alloc)
                  (pagetable_alloc-Keeps (Within-Stable k0)) (s.processes s.current).p_pagetable
                  (k.processes k.current).p_registers.reg_rdi pa page_size 7 s is')
              (λ result. return_value-Keeps (sign_extend result)))))
        k is

  pub page_fault-Keeps : (reg : Registers) → Keeps (Within k0) (page_fault reg)
  unfolding page_fault
  page_fault-Keeps reg k is = either (not (has_flag reg.reg_err pferr_user)) panicked (
      returned (
        Within-own is low (λ p. record p { p_state = p_broken }) (λ p. refl) (λ p. refl)
          (λ p u. refl)))

  pub tick-Keeps : Keeps (Within k0) tick
  tick-Keeps k is =
      returned (Within-Stable k0 k k.mem k.pageinfo _ k.pagetable_owner k.cr3 k.keys is)

  pub getpid-Keeps : Keeps (Within k0) getpid
  getpid-Keeps k is = return_value-Keeps (sign_extend (k.processes k.current).p_pid) k is
