-- ===== src/Examples/Paging.antt =====
-- The paging theorems at two empty page tables.
use weensy_osvm.Base.{[], ℕ, ◌*◌, ◌≡◌, refl, some, ltb, if◌then◌else◌, arith}
use weensy_osvm.Memory.{load64}
use weensy_osvm.State.{Kernel, Registers, p_free}
use weensy_osvm.State.Returns.{Returns}
use weensy_osvm.Paging.{virtual_memory_map}
use weensy_osvm.Paging.Space.{IsSpace}
use weensy_osvm.Paging.Empty.{IsCleared, IsSpace-cleared, table-cleared}
use weensy_osvm.Paging.Round.{IsRequest}
use weensy_osvm.Paging.Write.{lookup}
use weensy_osvm.Paging.Map.{IsMapped, virtual_memory_map-IsMapped}
use weensy_osvm.Paging.Isolation.{Apart, virtual_memory_map-Apart}
use weensy_osvm.Physical.{pagetable_alloc}
use weensy_osvm.Physical.Alloc.{pagetable_alloc-IsAllocator}

abbrev pub no_registers : Registers
no_registers = record {
  reg_rax = 0;
  reg_rcx = 0;
  reg_rdx = 0;
  reg_rbx = 0;
  reg_rbp = 0;
  reg_rsi = 0;
  reg_rdi = 0;
  reg_r8 = 0;
  reg_r9 = 0;
  reg_r10 = 0;
  reg_r11 = 0;
  reg_r12 = 0;
  reg_r13 = 0;
  reg_r14 = 0;
  reg_r15 = 0;
  reg_fs = 0;
  reg_gs = 0;
  reg_intno = 0;
  reg_err = 0;
  reg_rip = 0;
  reg_cs = 0;
  reg_rflags = 0;
  reg_rsp = 0;
  reg_ss = 0;
}

-- Pages 0 to 2 are in use, and all memory is zero.
abbrev pub start : Kernel
start = record {
  mem = λ _. 0;
  pageinfo = λ p. record { owner = 0; refcount = if ltb p 3 then 1 else 0 };
  processes =
      λ i. record { p_pid = i; p_registers = no_registers; p_state = p_free; p_pagetable = 0 };
  current = 1;
  ticks = 0;
  pagetable_owner = 1;
  cr3 = 0;
  keys = [];
}

zeros-IsCleared : (pt : ℕ) → IsCleared start.mem pt
unfolding load64
zeros-IsCleared pt va i = refl

first-IsSpace : IsSpace start 0x1000
first-IsSpace =
    IsSpace-cleared start 0x1000 (zeros-IsCleared 0x1000) refl (omega arith) (omega arith)
      (omega arith) (omega arith)

second-IsSpace : IsSpace start 0x2000
second-IsSpace =
    IsSpace-cleared start 0x2000 (zeros-IsCleared 0x2000) refl (omega arith) (omega arith)
      (omega arith) (omega arith)

-- Two pages at 0x1FF000, which two last-level tables hold.
two_pages : IsRequest 0x1FF000 0x5000 2 7
two_pages = record {
  va_aligned = refl;
  va_room = omega arith;
  perm_fits = omega arith;
  pa_aligned = λ p. refl;
  pa_room = λ p. omega arith;
}

tables-Apart : Apart start 0x1000 0x2000
tables-Apart va va' i j t hi hj e e' = ground (
  arith,
  table-cleared start.mem 0x1000 (zeros-IsCleared 0x1000) va i t e,
  table-cleared start.mem 0x2000 (zeros-IsCleared 0x2000) va' j t e',
)

virtual_memory_map-IsMapped_example :
    Returns
      (IsMapped start 0x1000 0x1FF000 0x5000 2 7)
      (virtual_memory_map 0x1000 0x1FF000 0x5000 (2 * 4096) 7 (some pagetable_alloc) start)
virtual_memory_map-IsMapped_example =
    virtual_memory_map-IsMapped (some pagetable_alloc) pagetable_alloc-IsAllocator 7 0x1FF000 0x5000
      2 two_pages first-IsSpace

virtual_memory_map-Apart_example :
    Returns
      (λ r k'.
        ((va' : ℕ) → lookup k' 0x2000 va' ≡ lookup start 0x2000 va')
        × IsSpace k' 0x2000
        × Apart k' 0x1000 0x2000)
      (virtual_memory_map 0x1000 0x1FF000 0x5000 (2 * 4096) 7 (some pagetable_alloc) start)
virtual_memory_map-Apart_example =
    virtual_memory_map-Apart (some pagetable_alloc) pagetable_alloc-IsAllocator 0x1000 0x2000
      0x1FF000 0x5000 2 7 two_pages first-IsSpace second-IsSpace tables-Apart
