-- ===== src/Setup/Start.antt =====
-- `virtual_memory_init`, `process_init`, `process_setup` and `kernel`, on the kernel's state. The calls
-- of `segments_init`, `interrupt_init`, `timer_init` and `console_clear` act on other state.
use weensy_osvm.Base.{
  ℕ, zero, suc, ◌+◌, ◌-◌, ◌*◌, Bool, true, false, not, ◌&&◌, ◌==◌, ltb, if◌then◌else◌, Option, none,
  some, bit_or, List, [], ◌∷◌,
}
use weensy_osvm.X86.{page_size, u8, has_flag}
use weensy_osvm.State.{
  Proc, Registers, p_free, p_runnable, K, ok, pure, ◌>>=◌, ◌>>◌, assert, write64, clear,
}
use weensy_osvm.Paging.{virtual_memory_map, memsize_physical}
use weensy_osvm.Physical.{get_free_addr, pagetable_alloc, pageinfo_init}
use weensy_osvm.Process.{Link, nproc, memsize_virtual, modify}
use weensy_osvm.Process.Copy.{copy_pagetable}
use weensy_osvm.Process.Fork.{set_pagetable_of}
use weensy_osvm.Process.Schedule.{run}
use weensy_osvm.Setup.{is_failure, program_load}

abbrev pub segsel_app_code : ℕ
segsel_app_code = 0x10

abbrev pub segsel_app_data : ℕ
segsel_app_data = 0x20

abbrev pub eflags_if : ℕ
eflags_if = 0x200

abbrev pub eflags_iopl_3 : ℕ
eflags_iopl_3 = 0x3000

abbrev pub procinit_allow_programmed_io : ℕ
procinit_allow_programmed_io = 1

abbrev pub procinit_disable_interrupts : ℕ
procinit_disable_interrupts = 2

-- `memset` of the registers to 0
abbrev pub zero_registers : Registers
zero_registers = record {
  reg_rax = 0;
  reg_rcx = 0;
  reg_rdx = 0;
  reg_rbx = 0;
  reg_rbp = 0;
  reg_rsi = 0;
  reg_rdi = 0;
  reg_r8 = 0;
  reg_r9 = 0;
  reg_r10 = 0;
  reg_r11 = 0;
  reg_r12 = 0;
  reg_r13 = 0;
  reg_r14 = 0;
  reg_r15 = 0;
  reg_fs = 0;
  reg_gs = 0;
  reg_intno = 0;
  reg_err = 0;
  reg_rip = 0;
  reg_cs = 0;
  reg_rflags = 0;
  reg_rsp = 0;
  reg_ss = 0;
}

-- The flags register: EFLAGS_IF alone can be cleared, since EFLAGS_IOPL_3 is another bit.
unfoldable pub initial_rflags : ℕ → ℕ
initial_rflags flags =
    bit_or (if has_flag flags procinit_disable_interrupts then 0 else eflags_if)
      (if has_flag flags procinit_allow_programmed_io then eflags_iopl_3 else 0)

unfoldable pub process_init : (flags : ℕ) → Proc → Proc
unfolding initial_rflags
process_init flags p = record p {
  p_registers = record zero_registers {
    reg_cs = bit_or segsel_app_code 3;
    reg_fs = bit_or segsel_app_data 3;
    reg_gs = bit_or segsel_app_data 3;
    reg_ss = bit_or segsel_app_data 3;
    reg_rflags = initial_rflags flags;
  };
}

abbrev pub change : ℕ → (Proc → Proc) → K (Unit {0})
change pid f k = ok tt (modify pid f k)

module _ (link : Link) (begin : ℕ → ℕ) where
  -- The result of `virtual_memory_map` for the stack is not tested.
  pub process_setup : (pid program_number : ℕ) → K (Unit {0})
  process_setup pid program_number = do
    change pid (process_init 0)
    pagetable ← copy_pagetable link.kernel_pagetable (u8 pid)
    set_pagetable_of pid pagetable
    r ← program_load link begin pid program_number none
    assert (not (is_failure r))
    change pid (λ p. record p { p_registers = record p.p_registers { reg_rsp = memsize_virtual } })
    stack_p_addr ← get_free_addr (u8 pid)
    (λ k.
        virtual_memory_map (k.processes pid).p_pagetable (memsize_virtual - page_size) stack_p_addr
          page_size 7 (some pagetable_alloc) k)
    change pid (λ p. record p { p_state = p_runnable })

  -- `for (pid_t i = 1; i <= 4; ++i) process_setup(i, i - 1);` with `n` processes left
  pub setup_loop : (n i : ℕ) → K (Unit {0})
  setup_loop zero i = pure tt
  setup_loop (suc n) i = process_setup i (i - 1) >> setup_loop n (i + 1)

-- The five pages of the kernel's page table lie one behind the other.
pub virtual_memory_init : Link → K (Unit {0})
virtual_memory_init link = do
  let kernel_pagetables = link.kernel_pagetable
  clear kernel_pagetables (5 * page_size)
  write64 kernel_pagetables (bit_or (kernel_pagetables + page_size) 7)
  write64 (kernel_pagetables + page_size) (bit_or (kernel_pagetables + 2 * page_size) 7)
  write64 (kernel_pagetables + 2 * page_size) (bit_or (kernel_pagetables + 3 * page_size) 7)
  write64 (kernel_pagetables + 2 * page_size + 8) (bit_or (kernel_pagetables + 4 * page_size) 7)
  virtual_memory_map kernel_pagetables 0 0 memsize_physical 7 none
  λ k. ok tt (record k { cr3 = kernel_pagetables })

-- `memset(processes, 0, sizeof(processes))`, and the loop behind it
abbrev pub free_processes : K (Unit {0})
free_processes k = ok tt (record k {
  processes = λ i.
      if ltb i nproc
      then record { p_pid = i; p_registers = zero_registers; p_state = p_free; p_pagetable = 0 }
      else k.processes i;
})

-- `strcmp(command, text) == 0`, for texts without their NUL
pub same_text : List ℕ → List ℕ → Bool
same_text [] [] = true
same_text [] (c ∷ rest) = false
same_text (c ∷ rest) [] = false
same_text (c ∷ rest) (d ∷ rest') = c == d && same_text rest rest'

abbrev pub is_command_text : Option (List ℕ) → List ℕ → Bool
is_command_text none text = false
is_command_text (some command) text = same_text command text

-- "Step 1: Kernel Isolation" of `kernel`; `console` is the console's address. The results are not
-- tested.
unfoldable pub isolate_kernel : (link : Link) (console : ℕ) → K ℕ
isolate_kernel link console = do
  virtual_memory_map link.kernel_pagetable 0 0 0x100000 3 none
  virtual_memory_map link.kernel_pagetable console console page_size 7 none

pub kernel : (link : Link) (begin : ℕ → ℕ) (console : ℕ) (command : Option (List ℕ)) → K (Unit {0})
kernel link begin console command = do
  virtual_memory_init link
  pageinfo_init link.end
  free_processes
  isolate_kernel link console
  if is_command_text command (b'f' ∷ b'o' ∷ b'r' ∷ b'k' ∷ [])
      then process_setup link begin 1 4
      else if is_command_text command (b'f' ∷ b'o' ∷ b'r' ∷ b'k' ∷ b'e' ∷ b'x' ∷ b'i' ∷ b't' ∷ [])
      then process_setup link begin 1 5
      else setup_loop link begin 4 1
  run link 1
