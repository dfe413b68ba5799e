-- ===== src/Process/Exception.antt =====
-- `exception`: the system calls, the timer and the page fault.
use weensy_osvm.Base.{ℕ, ◌+◌, some, not, ◌||◌, ◌==◌, ◌!=◌, if◌then◌else◌}
use weensy_osvm.X86.{page_size, has_flag, u8, u32}
use weensy_osvm.State.{Registers, p_broken, K, ok, panic, pure, ◌>>=◌, ◌>>◌}
use weensy_osvm.Paging.{virtual_memory_map}
use weensy_osvm.Physical.{get_free_addr, pagetable_alloc}
use weensy_osvm.Process.{Link, sign_extend, modify, return_value, set_pagetable, check_keyboard}
use weensy_osvm.Process.Copy.{set_owner}
use weensy_osvm.Process.Fork.{fork, failed, is_p_runnable}
use weensy_osvm.Process.Schedule.{run, schedule}
use weensy_osvm.Process.Check.{check_virtual_memory}

abbrev pub int_timer : ℕ
int_timer = 32

abbrev pub int_pagefault : ℕ
int_pagefault = 0xe

abbrev pub int_sys_panic : ℕ
int_sys_panic = 48

abbrev pub int_sys_getpid : ℕ
int_sys_getpid = 49

abbrev pub int_sys_yield : ℕ
int_sys_yield = 50

abbrev pub int_sys_page_alloc : ℕ
int_sys_page_alloc = 51

abbrev pub int_sys_fork : ℕ
int_sys_fork = 52

abbrev pub pferr_user : ℕ
pferr_user = 4

-- INT_SYS_PAGE_ALLOC behind the allocation of the page `pa`.
unfoldable pub map_page : (addr pa : ℕ) → K (Unit {0})
map_page addr pa = if pa == 0 then return_value failed else do
  result ← (λ k.
      virtual_memory_map (k.processes k.current).p_pagetable addr pa page_size 7
        (some pagetable_alloc) k)
  return_value (sign_extend result)

unfoldable pub page_alloc : K (Unit {0})
unfolding map_page
page_alloc k =
    (do
      pa ← get_free_addr (u8 (k.processes k.current).p_pid)
      set_owner (k.processes k.current).p_pid
      map_page (k.processes k.current).p_registers.reg_rdi pa)
      k

-- The process that faulted is marked broken; a fault of the kernel panics.
unfoldable pub page_fault : Registers → K (Unit {0})
page_fault reg k =
    if not (has_flag reg.reg_err pferr_user)
    then panic
    else ok tt (modify k.current (λ p. record p { p_state = p_broken }) k)

abbrev pub getpid : K (Unit {0})
getpid k = return_value (sign_extend (k.processes k.current).p_pid) k

abbrev pub tick : K (Unit {0})
tick k = ok tt (record k { ticks = u32 (k.ticks + 1) })

module _ (link : Link) where
  -- The end of `exception`: back to the current process, or to another.
  unfoldable pub resume : K (Unit {0})
  resume k =
      if is_p_runnable (k.processes k.current).p_state
      then run link k.current k
      else schedule link k

  -- The switch of `exception`, each case with what follows it.
  unfoldable pub handle : Registers → K (Unit {0})
  unfolding resume page_alloc page_fault
  handle reg =
      if reg.reg_intno == int_sys_panic
      then (λ k. panic)
      else if reg.reg_intno == int_sys_getpid
      then (getpid >> resume)
      else if reg.reg_intno == int_sys_yield
      then schedule link
      else if reg.reg_intno == int_sys_page_alloc
      then (page_alloc >> resume)
      else if reg.reg_intno == int_sys_fork
      then (fork >> resume)
      else if reg.reg_intno == int_timer
      then (tick >> schedule link)
      else if reg.reg_intno == int_pagefault
      then (page_fault reg >> resume)
      else (λ k. panic)

  -- `current->p_registers = *reg`
  abbrev pub save_registers : Registers → K (Unit {0})
  save_registers reg k = ok tt (modify k.current (λ p. record p { p_registers = reg }) k)

  unfoldable pub check_user_fault : Registers → K (Unit {0})
  check_user_fault reg =
      if reg.reg_intno != int_pagefault || has_flag reg.reg_err pferr_user
      then check_virtual_memory link
      else pure tt

  unfoldable pub exception : Registers → K (Unit {0})
  unfolding handle check_user_fault
  exception reg = do
    save_registers reg
    set_pagetable link link.kernel_pagetable
    check_user_fault reg
    check_keyboard
    handle reg
