-- ===== src/Examples/System.antt =====
-- The theorems on exceptions at a system with one process.
use weensy_osvm.Base.{
  ℕ, ◌+◌, ◌*◌, ◌/◌, ◌%◌, ◌^◌, ◌≡◌, ◌⊎◌, refl, ◌==◌, ◌&&◌, if◌then◌else◌, ltb, leb, [], ◌∷◌, arith,
}
use weensy_osvm.X86.{page_offset, has_flag, pte_flags, pageindex, pte_addr, page_number}
use weensy_osvm.Memory.{load64}
use weensy_osvm.State.{Kernel, Registers, p_free, p_runnable, ok, panic, stop, out_of_bounds}
use weensy_osvm.State.Allows.{Allows}
use weensy_osvm.Physical.{po_kernel}
use weensy_osvm.Paging.{virtual_memory_lookup}
use weensy_osvm.Process.{Link, set_pagetable, check_keyboard, key_pressed, modify, set_rax}
use weensy_osvm.Process.Check.{
  check_virtual_memory, check_page_table_mappings, check_page_table_ownership,
  check_page_table_ownership_level, entries_loop, mappings_loop, processes_loop, pages_loop,
}
use weensy_osvm.Process.Schedule.{run}
use weensy_osvm.Process.Exception.{exception, handle, resume, check_user_fault}
use weensy_osvm.Process.Consistent.{IsConsistent, check_virtual_memory-IsConsistent}
use weensy_osvm.Process.Resumed.{After, IsSystem, exception-After}
use weensy_osvm.Process.Return.{Resumes, exception-Resumes}
use weensy_osvm.Examples.Paging.{no_registers}

-- Page tables at 0x1000 to 0x4000 that map each address below 2 MB to itself, and nothing else.
abbrev pub table_word : (page index : ℕ) → ℕ
table_word page index =
    if page == 4
    then index * 4096 + 7
    else if leb 1 page && ltb page 4 && index == 0
    then (page + 1) * 4096 + 7
    else 0

abbrev pub small_link : Link
small_link = record {
  kernel_pagetable = 0x1000;
  default_int_handler = 0x40010;
  virtual_memory_map_ptr = 0x41000;
  start_data = 0x44000;
  end = 0x40000;
}

-- Process 1 runs with the kernel's page table; every other slot is free.
abbrev pub alone : Kernel
alone = record {
  mem = λ a. table_word (a / 4096) (a % 4096 / 8) / 256 ^ (a % 8) % 256;
  pageinfo = λ p. record {
    owner = if leb 1 p && ltb p 5 then po_kernel else 0;
    refcount = if p == 1 then 2 else if leb 2 p && ltb p 5 then 1 else 0;
  };
  processes = λ i. record {
    p_pid = i;
    p_registers = no_registers;
    p_state = if i == 1 then p_runnable else p_free;
    p_pagetable = 0x1000;
  };
  current = 1;
  ticks = 0;
  pagetable_owner = 1;
  cr3 = 0x1000;
  keys = b'z' ∷ [];
}

-- It asks for its number.
abbrev asks_pid : Registers
asks_pid = record no_registers { reg_intno = 49 }

abbrev told_pid : Kernel
told_pid =
    record (modify 1 (set_rax 1) (modify 1 (λ p. record p { p_registers = asks_pid }) alone)) {
      keys = [];
    }

returns_pid : exception small_link asks_pid alone ≡ ok tt told_pid
unfolding exception handle resume check_user_fault check_virtual_memory check_page_table_mappings
    check_page_table_ownership check_page_table_ownership_level entries_loop mappings_loop
    processes_loop pages_loop run set_pagetable check_keyboard key_pressed virtual_memory_lookup
    load64 page_offset has_flag pte_flags pageindex pte_addr page_number
returns_pid = refl

alone-IsSystem : IsSystem alone
alone-IsSystem = record {
  pids = λ j h. refl;
  idle = refl;
  lower = omega arith;
  upper = omega arith;
  used = refl;
}

exception-After_example : Allows (λ _. After alone) (exception small_link asks_pid alone)
exception-After_example = exception-After small_link asks_pid alone alone-IsSystem

exception-Resumes_example : Resumes (exception small_link asks_pid alone)
exception-Resumes_example = exception-Resumes small_link asks_pid alone

check_virtual_memory-IsConsistent_example :
    (IsConsistent small_link alone × (check_virtual_memory small_link alone ≡ ok tt alone))
    ⊎ ((¬ IsConsistent small_link alone)
        × ((check_virtual_memory small_link alone ≡ panic)
            ⊎ (check_virtual_memory small_link alone ≡ stop out_of_bounds)))
check_virtual_memory-IsConsistent_example = check_virtual_memory-IsConsistent small_link alone
