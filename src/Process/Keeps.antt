-- ===== src/Process/Keeps.antt =====
-- The parts of the system calls that leave `processes` and `current` alone.
use weensy_osvm.Base.{ℕ, zero, suc, ◌+◌, ◌/◌, ◌||◌, ◌==◌, ◌!=◌, some, List, [], ◌∷◌}
use weensy_osvm.X86.{page_size, page_offset, u8, has_flag, pte_w}
use weensy_osvm.State.{Kernel, Registers}
use weensy_osvm.State.Allows.{returned, stopped}
use weensy_osvm.State.Keeps.{
  Stable, Keeps, Keeps-pure, Keeps-panic, Keeps-if, Keeps-bind, Keeps-assert,
}
use weensy_osvm.Paging.{VaMapping, virtual_memory_lookup}
use weensy_osvm.Paging.Keeps.{virtual_memory_map-Keeps}
use weensy_osvm.Physical.{pagetable_alloc}
use weensy_osvm.Physical.Keeps.{pagetable_alloc-Keeps, get_free_addr-Keeps}
use weensy_osvm.Process.{
  Link, set_pagetable, key_pressed, check_keyboard, poll, proc_start_addr, maps_to,
}
use weensy_osvm.Process.Copy.{
  copy_page, copy_loop, copy_into, copy_pagetable, panic_unless_zero, set_owner,
}
use weensy_osvm.Process.Fork.{copy_bytes, fork_copy, fork_page, fork_loop}
use weensy_osvm.Process.Exception.{check_user_fault, int_pagefault, pferr_user}
use weensy_osvm.Process.Checked.{check_virtual_memory-Keeps}

module _ {P : Kernel → Type 0} (stable : Stable P) where
  pub key_pressed-Keeps : (c : ℕ) → Keeps P (key_pressed c)
  unfolding key_pressed
  key_pressed-Keeps c =
      Keeps-if (c == b'a' || c == b'f' || c == b'e') (λ k p. stopped)
        (Keeps-if (c == 0x03 || c == b'q') (λ k p. stopped) (Keeps-pure tt))

  poll-Keeps : (keys : List ℕ) → Keeps P (poll keys)
  unfolding poll
  poll-Keeps [] k p = stopped
  poll-Keeps (c ∷ rest) k p =
      key_pressed-Keeps c _ (stable k k.mem k.pageinfo k.ticks k.pagetable_owner k.cr3 rest p)

  pub check_keyboard-Keeps : Keeps P check_keyboard
  unfolding check_keyboard
  check_keyboard-Keeps k p = poll-Keeps k.keys k p

  pub set_owner-Keeps : (owner : ℕ) → Keeps P (set_owner owner)
  set_owner-Keeps owner k p = returned (stable k k.mem k.pageinfo k.ticks (u8 owner) k.cr3 k.keys p)

  copy_page-Keeps : (new va : ℕ) (mapping : VaMapping) → Keeps P (copy_page new va mapping)
  unfolding copy_page panic_unless_zero
  copy_page-Keeps new va mapping =
      Keeps-if (mapping.perm != 0)
        (Keeps-bind
          (virtual_memory_map-Keeps stable (some pagetable_alloc) (pagetable_alloc-Keeps stable) new
            va mapping.pa page_size mapping.perm)
          (λ result. Keeps-if (result != 0) Keeps-panic (Keeps-pure tt)))
        (Keeps-pure tt)

  copy_loop-Keeps : (pagetable new n va : ℕ) → Keeps P (copy_loop pagetable new n va)
  unfolding copy_loop
  copy_loop-Keeps pagetable new zero va = Keeps-pure tt
  copy_loop-Keeps pagetable new (suc n) va =
      Keeps-bind (λ k p. copy_page-Keeps new va (virtual_memory_lookup k.mem pagetable va) k p)
        (λ _. copy_loop-Keeps pagetable new n (va + page_size))

  pub copy_pagetable-Keeps : (pagetable owner : ℕ) → Keeps P (copy_pagetable pagetable owner)
  unfolding copy_pagetable copy_into
  copy_pagetable-Keeps pagetable owner = Keeps-bind (set_owner-Keeps owner) (λ _.
      Keeps-bind (pagetable_alloc-Keeps stable) (λ new. Keeps-if (new == 0) (Keeps-pure 0) (
        Keeps-bind (copy_loop-Keeps pagetable new (proc_start_addr / page_size) 0)
          (λ _. Keeps-pure new))))

  copy_bytes-Keeps : (dst src n : ℕ) → Keeps P (copy_bytes dst src n)
  copy_bytes-Keeps dst src n k p =
      returned (stable k _ k.pageinfo k.ticks k.pagetable_owner k.cr3 k.keys p)

  fork_copy-Keeps :
      (i va new_pa : ℕ) (mapping : VaMapping) → Keeps P (fork_copy i va new_pa mapping)
  unfolding fork_copy
  fork_copy-Keeps i va new_pa mapping = Keeps-if (new_pa == 0) (Keeps-pure _) (
      Keeps-bind (copy_bytes-Keeps new_pa mapping.pa page_size) (λ _.
        Keeps-bind
          (λ k p.
            virtual_memory_map-Keeps stable (some pagetable_alloc) (pagetable_alloc-Keeps stable)
              (k.processes i).p_pagetable va new_pa page_size mapping.perm k p)
          (λ result. Keeps-pure (result == 0))))

  fork_page-Keeps : (i va : ℕ) (mapping : VaMapping) → Keeps P (fork_page i va mapping)
  unfolding fork_page
  fork_page-Keeps i va mapping =
      Keeps-if (has_flag mapping.perm pte_w)
        (Keeps-bind (get_free_addr-Keeps stable (u8 i))
          (λ new_pa. fork_copy-Keeps i va new_pa mapping))
        (Keeps-pure _)

  pub fork_loop-Keeps : (i n va : ℕ) → Keeps P (fork_loop i n va)
  unfolding fork_loop
  fork_loop-Keeps i zero va = Keeps-pure _
  fork_loop-Keeps i (suc n) va =
      Keeps-bind
        (λ k p.
          fork_page-Keeps i va (virtual_memory_lookup k.mem (k.processes k.current).p_pagetable va)
            k p)
        (λ copied. Keeps-if copied (fork_loop-Keeps i n (va + page_size)) (Keeps-pure _))

  module _ (link : Link) where
    maps_to-Keeps : (pt va pa : ℕ) → Keeps P (maps_to pt va pa)
    maps_to-Keeps pt va pa k p = Keeps-assert ((virtual_memory_lookup k.mem pt va).pa == pa) k p

    pub set_pagetable-Keeps : (pagetable : ℕ) → Keeps P (set_pagetable link pagetable)
    unfolding set_pagetable
    set_pagetable-Keeps pagetable = Keeps-bind (Keeps-assert (page_offset pagetable == 0)) (λ _.
        Keeps-bind (maps_to-Keeps pagetable link.default_int_handler link.default_int_handler) (λ _.
          Keeps-bind (maps_to-Keeps link.kernel_pagetable pagetable pagetable) (λ _.
            Keeps-bind (maps_to-Keeps pagetable link.kernel_pagetable link.kernel_pagetable) (λ _.
              Keeps-bind
                (maps_to-Keeps pagetable link.virtual_memory_map_ptr link.virtual_memory_map_ptr)
                (λ _ k p.
                  returned
                    (stable k k.mem k.pageinfo k.ticks k.pagetable_owner pagetable k.keys p))))))

    pub check_user_fault-Keeps : (reg : Registers) → Keeps P (check_user_fault link reg)
    unfolding check_user_fault
    check_user_fault-Keeps reg =
        Keeps-if (reg.reg_intno != int_pagefault || has_flag reg.reg_err pferr_user)
          (check_virtual_memory-Keeps link) (Keeps-pure tt)
