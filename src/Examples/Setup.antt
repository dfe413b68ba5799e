-- ===== src/Examples/Setup.antt =====
-- The theorems on page tables of processes and on the loader at small states.
use weensy_osvm.Base.{
  ℕ, ◌+◌, ◌-◌, ◌*◌, ◌/◌, ◌%◌, ◌≡◌, refl, some, arith, ap, ltb, leb, ◌&&◌, if◌then◌else◌,
}
use weensy_osvm.Boot.{boot_readseg}
use weensy_osvm.Boot.Segment.{boot_readseg-bytes}
use weensy_osvm.State.Returns.{Returns}
use weensy_osvm.State.Allows.{Allows}
use weensy_osvm.Paging.Empty.{lookup-cleared}
use weensy_osvm.Physical.{pagetable_alloc}
use weensy_osvm.Physical.Alloc.{pagetable_alloc-IsAllocator}
use weensy_osvm.Process.Copy.{copy_pagetable}
use weensy_osvm.Process.Mapped.{IsPhysical, IsCopied, copy_pagetable-IsCopied}
use weensy_osvm.Setup.{load_loop}
use weensy_osvm.Setup.Segment.{IsLoaded, load_loop-IsLoaded}
use weensy_osvm.Setup.Start.{process_init}
use weensy_osvm.Setup.Privilege.{IsUser, process_init-IsUser}
use weensy_osvm.Examples.Process.{asking, asking-IsCleared, asking-IsSpace}

asking-IsPhysical : IsPhysical asking 0x1000
asking-IsPhysical va h some_perm = absurd (
    some_perm (
      ap (λ m. m.perm)
        (lookup-cleared asking.mem 0x1000 asking-IsCleared asking refl asking-IsSpace.tree va)))

copy_pagetable-IsCopied_example : Allows (IsCopied asking 0x1000) (copy_pagetable 0x1000 2 asking)
copy_pagetable-IsCopied_example =
    copy_pagetable-IsCopied asking 0x1000 2 asking-IsSpace asking-IsPhysical

load_loop-IsLoaded_example :
    Returns
      (IsLoaded asking 0x1000 0x100000 2)
      (load_loop 1 (some pagetable_alloc) 2 0x100000 asking)
load_loop-IsLoaded_example =
    load_loop-IsLoaded (some pagetable_alloc) pagetable_alloc-IsAllocator 1 0x1000 2 0x100000 asking
      refl (omega arith) asking-IsSpace refl

process_init-IsUser_example : IsUser 2 (asking.processes 1) (process_init 2 (asking.processes 1))
process_init-IsUser_example = process_init-IsUser 2 (asking.processes 1)

-- A disk whose bytes are their addresses modulo 256.
abbrev ramp_disk : ℕ → ℕ
ramp_disk i = i % 256

boot_readseg-bytes_example :
    let start = 0x40010 - 0x40010 % 512 in
    let sectors = (0x40010 + 600 - start + 511) / 512 in
    boot_readseg ramp_disk 0x40010 9 600 700 (λ b. 7) 0x40020 ≡ (
      if leb (0x40010 + 600) 0x40020 && ltb 0x40020 (0x40010 + 700)
      then 0
      else if leb start 0x40020 && ltb 0x40020 (start + sectors * 512)
      then ramp_disk (9 * 512 + (0x40020 - start))
      else 7)
boot_readseg-bytes_example =
    boot_readseg-bytes ramp_disk 0x40010 9 600 700 (λ b. 7) 0x40020 (omega arith) (omega arith)
      (omega arith)
