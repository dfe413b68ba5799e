-- ===== src/Process.antt =====
-- kernel.c: processes, the copy of page tables, `fork`, the scheduler and the exception handler;
-- `process_init`, `set_pagetable` and `check_keyboard` of k-hardware.c.
pub mod Copy
pub mod Fork
pub mod Schedule
pub mod Rounds
pub mod Slots
pub mod Mapped
pub mod PageAlloc
pub mod Check
pub mod Exception
pub mod Return
pub mod Checked
pub mod Keeps
pub mod Frame
pub mod Kept
pub mod Resumed
pub mod Verdict
pub mod Users
pub mod Tables
pub mod Consistent
use weensy_osvm.Base.{ℕ, ◌+◌, ◌-◌, ◌^◌, ◌==◌, leb, if◌then◌else◌, bit_or, List, [], ◌∷◌, ◌||◌}
use weensy_osvm.X86.{page_size, page_offset, u8}
use weensy_osvm.State.{
  Kernel, Proc, Registers, K, ok, stop, powered_off, rebooted, polling, update, assert, ◌>>=◌, ◌>>◌,
  pure,
}
use weensy_osvm.Paging.{virtual_memory_lookup}

abbrev pub nproc : ℕ
nproc = 16

abbrev pub proc_start_addr : ℕ
proc_start_addr = 0x100000

abbrev pub memsize_virtual : ℕ
memsize_virtual = 0x300000

-- The addresses that the linker chooses.
pub record Link : Type 0 where
  pub kernel_pagetable : ℕ
  pub default_int_handler : ℕ
  pub virtual_memory_map_ptr : ℕ
  pub start_data : ℕ
  pub end : ℕ

-- The assignment of an `int` to a 64-bit register extends its sign.
abbrev pub sign_extend : ℕ → ℕ
sign_extend n = if leb (2 ^ 31) n then n + (2 ^ 64 - 2 ^ 32) else n

-- `processes[i] = f(processes[i])`
abbrev pub modify : ℕ → (Proc → Proc) → Kernel → Kernel
modify i f k = record k { processes = update k.processes i (f (k.processes i)) }

abbrev pub set_rax : ℕ → Proc → Proc
set_rax v p = record p { p_registers = record p.p_registers { reg_rax = v } }

-- `current->p_registers.reg_rax = v`
abbrev pub return_value : ℕ → K (Unit {0})
return_value v k = ok tt (modify k.current (set_rax v) k)

-- `virtual_memory_lookup(pt, va).pa == pa`
abbrev pub maps_to : ℕ → ℕ → ℕ → K (Unit {0})
maps_to pt va pa k = assert ((virtual_memory_lookup k.mem pt va).pa == pa) k

module _ (link : Link) where
  unfoldable pub set_pagetable : ℕ → K (Unit {0})
  set_pagetable pagetable = do
    assert (page_offset pagetable == 0)
    maps_to pagetable link.default_int_handler link.default_int_handler
    maps_to link.kernel_pagetable pagetable pagetable
    maps_to pagetable link.kernel_pagetable link.kernel_pagetable
    maps_to pagetable link.virtual_memory_map_ptr link.virtual_memory_map_ptr
    λ k. ok tt (record k { cr3 = pagetable })

-- What `check_keyboard` does for the character `c`: 'a', 'f' and 'e' reboot the kernel, Control-C
-- and 'q' power off. The reboot's argument is named by the character.
unfoldable pub key_pressed : ℕ → K (Unit {0})
key_pressed c =
    if c == b'a' || c == b'f' || c == b'e'
    then (λ k. stop (rebooted c))
    else if c == 0x03 || c == b'q'
    then (λ k. stop powered_off)
    else pure tt

-- The next character from `keyboard_readc`; where none is given the kernel still polls.
poll : List ℕ → K (Unit {0})
poll [] k = stop polling
poll (c ∷ rest) k = key_pressed c (record k { keys = rest })

unfoldable pub check_keyboard : K (Unit {0})
unfolding poll
check_keyboard k = poll k.keys k
