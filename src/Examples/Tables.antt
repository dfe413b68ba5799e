-- ===== src/Examples/Tables.antt =====
-- The page table of the system with one process, as the theorems on page tables need it.
use weensy_osvm.Base.{ℕ, ◌*◌, Bool, ◌==◌, ltb, if◌then◌else◌}
use weensy_osvm.State.{Kernel}
use weensy_osvm.Paging.{virtual_memory_lookup}
use weensy_osvm.Examples.System.{alone}
use weensy_osvm.Physical.{po_kernel}
use weensy_osvm.State.Allows.{Allows}

-- The same memory, with page 0 and the tables counted.
abbrev pub counted : Kernel
counted = record alone {
  pageinfo = λ p. record { owner = po_kernel; refcount = if ltb p 5 then 1 else 0 };
}

is_mapped : ℕ → Bool
is_mapped i = (virtual_memory_lookup alone.mem 0x1000 (i * 4096)).perm == 7
