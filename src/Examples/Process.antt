-- ===== src/Examples/Process.antt =====
-- The theorems on processes at small states.
use weensy_osvm.Base.{ℕ, ◌+◌, ◌*◌, ◌/◌, ◌%◌, ◌^◌, ◌≡◌, refl, ◌==◌, if◌then◌else◌, [], ◌∷◌, arith}
use weensy_osvm.X86.{u8, page_offset, has_flag, pte_flags, pageindex, pte_addr}
use weensy_osvm.Memory.{Mem, load64}
use weensy_osvm.State.{Kernel, p_free, p_runnable, p_blocked, ok, update}
use weensy_osvm.State.Returns.{Returns}
use weensy_osvm.Paging.{virtual_memory_lookup}
use weensy_osvm.Paging.Space.{IsSpace}
use weensy_osvm.Paging.Empty.{IsCleared, IsSpace-cleared}
use weensy_osvm.Physical.Assign.{IsFull}
use weensy_osvm.Process.{Link, modify, set_rax}
use weensy_osvm.Process.Fork.{failed, fork}
use weensy_osvm.Process.Schedule.{schedule}
use weensy_osvm.Process.Rounds.{none, idle, IsNext, IsLoadable, schedule-next}
use weensy_osvm.Process.Slots.{IsFirstSlot, stillborn, fork-full, fork-no_slot}
use weensy_osvm.Process.Exception.{page_alloc}
use weensy_osvm.Process.PageAlloc.{IsGiven, page_alloc-IsGiven}
use weensy_osvm.Examples.Paging.{start, no_registers}

-- Process 1 asks for a page at 0x100000; its page table at 0x1000 is empty.
abbrev pub asking : Kernel
asking = record start {
  processes = λ i. record {
    p_pid = i;
    p_registers = record no_registers { reg_rdi = 0x100000 };
    p_state = p_runnable;
    p_pagetable = 0x1000;
  };
}

pub asking-IsCleared : IsCleared asking.mem 0x1000
unfolding load64
asking-IsCleared va i = refl

pub asking-IsSpace : IsSpace asking 0x1000
asking-IsSpace =
    IsSpace-cleared asking 0x1000 asking-IsCleared refl (omega arith) (omega arith) (omega arith)
      (omega arith)

page_alloc-IsGiven_example : Returns (λ _. IsGiven asking 0x1000 0x100000) (page_alloc asking)
page_alloc-IsGiven_example =
    page_alloc-IsGiven asking 0x1000 0x100000 asking-IsSpace refl (omega arith) refl refl

-- All pages are in use; process 1 runs, and slot 2 is the first that is free.
abbrev crowded : Kernel
crowded = record start {
  pageinfo = λ p. record { owner = 1; refcount = 1 };
  processes = λ i. record {
    p_pid = i;
    p_registers = no_registers;
    p_state = if i == 1 then p_runnable else p_free;
    p_pagetable = 0x1000;
  };
}

crowded-IsFirstSlot : IsFirstSlot crowded 2
crowded-IsFirstSlot = record {
  lower = omega arith;
  upper = omega arith;
  free = refl;
  taken = λ i h l. ground arith;
}

crowded-IsFull : IsFull crowded
crowded-IsFull addr h l = refl

fork-full_example :
    fork crowded
    ≡ ok tt (record crowded {
      processes =
          update
            (update crowded.processes 2 (stillborn crowded 2))
            crowded.current
            (set_rax failed (crowded.processes crowded.current));
      pagetable_owner = u8 (u8 2);
    })
fork-full_example = fork-full crowded 2 crowded-IsFirstSlot crowded-IsFull (omega arith)

fork-no_slot_example : fork asking ≡ ok tt (modify asking.current (set_rax failed) asking)
fork-no_slot_example = fork-no_slot asking (λ i h l. refl)

-- Page tables at 0x1000 to 0x4000 that map each address below 2 MB to itself.
abbrev identity_word : (page index : ℕ) → ℕ
identity_word page index =
    if page == 1
    then 0x2007
    else if page == 2
    then 0x3007
    else if page == 3
    then 0x4007
    else index * 4096 + 7

abbrev identity_mem : Mem
identity_mem a = identity_word (a / 4096) (a % 4096 / 8) / 256 ^ (a % 8) % 256

abbrev example_link : Link
example_link = record {
  kernel_pagetable = 0x1000;
  default_int_handler = 0x40010;
  virtual_memory_map_ptr = 0x41000;
  start_data = 0x44000;
  end = 0x46000;
}

-- Process 1 has run; of the others, 3 can run.
abbrev waiting : Kernel
waiting = record start {
  mem = identity_mem;
  processes = λ i. record {
    p_pid = i;
    p_registers = no_registers;
    p_state = if i == 3 then p_runnable else p_blocked;
    p_pagetable = 0x1000;
  };
  keys = b'z' ∷ b'q' ∷ [];
}

waiting-IsNext : IsNext waiting 1 1
waiting-IsNext = record { skipped = λ e p h. ground arith; chosen = refl }

waiting-IsLoadable : IsLoadable example_link waiting 0x1000
unfolding virtual_memory_lookup load64 page_offset has_flag pte_flags pageindex pte_addr
waiting-IsLoadable = record {
  aligned = refl;
  handler = refl;
  identity = refl;
  kernel_table = refl;
  map_function = refl;
}

schedule-next_example :
    schedule example_link waiting
    ≡ ok tt (record waiting { keys = b'q' ∷ []; current = 3; cr3 = 0x1000 })
schedule-next_example =
    schedule-next example_link (b'z' ∷ []) (b'q' ∷ []) waiting (idle refl none) refl waiting-IsNext
      waiting-IsLoadable
