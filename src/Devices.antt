-- ===== src/Devices.antt =====
-- x86-64.h: `inb`, `inl`, `outb`, `outw` and `outl`, as a list of the accesses to ports, the latest
-- first. The devices behind the ports are a parameter: what a read returns is a function of the
-- accesses so far. The children model the drivers of k-hardware.c.
pub mod Timer
pub mod Divisor
pub mod Pci
pub mod Parallel
pub mod Log
pub mod Cursor
use weensy_osvm.Base.{ℕ, ◌^◌, ◌%◌, Bool, List, [], ◌∷◌, ◌==◌, if◌then◌else◌, Option, none, some}
use weensy_osvm.X86.{u8, u32}

pub data Access : Type 0 where
  in8 : (port : ℕ) → Access
  in32 : (port : ℕ) → Access
  out8 : (port value : ℕ) → Access
  out16 : (port value : ℕ) → Access
  out32 : (port value : ℕ) → Access

abbrev pub Trace : Type 0
Trace = List Access

-- What a read returns, from the accesses up to this read.
abbrev pub Device : Type 0
Device = Trace → ℕ

abbrev pub outb : (port value : ℕ) → Trace → Trace
outb port value t = Access.out8 port (u8 value) ∷ t

abbrev pub outw : (port value : ℕ) → Trace → Trace
outw port value t = Access.out16 port (value % 2 ^ 16) ∷ t

abbrev pub outl : (port value : ℕ) → Trace → Trace
outl port value t = Access.out32 port (u32 value) ∷ t

module _ (device : Device) where
  abbrev pub inb : (port : ℕ) → Trace → ℕ × Trace
  inb port t = (u8 (device (Access.in8 port ∷ t)), Access.in8 port ∷ t)

  abbrev pub inl : (port : ℕ) → Trace → ℕ × Trace
  inl port t = (u32 (device (Access.in32 port ∷ t)), Access.in32 port ∷ t)

-- The bytes written to a port, the latest first.
unfoldable pub writes_to : (port : ℕ) → Trace → List ℕ
writes_to port [] = []
writes_to port (Access.out8 p value ∷ t) =
    if p == port then value ∷ writes_to port t else writes_to port t
writes_to port (a ∷ t) = writes_to port t
