-- ===== src/Setup.antt =====
-- k-loader.c: the loader of programs; kernel.c: `process_setup` and `kernel`; k-hardware.c:
-- `process_init`. `begin` gives the addresses where the linker has put the programs' images. While
-- a segment is copied its pages are mapped to themselves, so that the copy is one of physical memory.
pub mod Start
pub mod Segment
pub mod Privilege
pub mod Isolation
use weensy_osvm.Base.{
  ℕ, zero, suc, ◌+◌, ◌-◌, ◌*◌, ◌%◌, ◌^◌, Bool, true, false, not, ◌&&◌, ◌==◌, ltb, leb,
  if◌then◌else◌, Option, none, some, bit_or, bit_and,
}
use weensy_osvm.X86.{page_size, u8, u64, int_minus_one, pte_p, pte_w, pte_u}
use weensy_osvm.Memory.{load_bytes, load64, memcpy, memset}
use weensy_osvm.State.{
  Kernel, Proc, Registers, p_free, p_runnable, K, ok, pure, ◌>>=◌, ◌>>◌, assert,
}
use weensy_osvm.Paging.{Allocator, virtual_memory_map}
use weensy_osvm.Physical.{assign_physical_page, get_free_addr, pagetable_alloc, pageinfo_init}
use weensy_osvm.Process.{Link, nproc, memsize_virtual, modify, set_pagetable}
use weensy_osvm.Process.Copy.{copy_pagetable}
use weensy_osvm.Process.Fork.{copy_bytes, set_pagetable_of}
use weensy_osvm.Process.Schedule.{run}
use weensy_osvm.Process.Check.{rounds}

abbrev pub elf_magic : ℕ
elf_magic = 0x464C457F

abbrev pub elf_ptype_load : ℕ
elf_ptype_load = 1

abbrev pub nprograms : ℕ
nprograms = 6

-- `elf_header`, the fields that the loader reads
pub record ElfHeader : Type 0 where
  pub e_magic : ℕ
  pub e_entry : ℕ
  pub e_phoff : ℕ
  pub e_phnum : ℕ

-- `elf_program`, the fields that the loader reads
pub record ElfProgram : Type 0 where
  pub p_type : ℕ
  pub p_offset : ℕ
  pub p_va : ℕ
  pub p_filesz : ℕ
  pub p_memsz : ℕ

abbrev pub header_at : Kernel → ℕ → ElfHeader
header_at k eh = record {
  e_magic = load_bytes 4 k.mem eh;
  e_entry = load64 k.mem (eh + 0x18);
  e_phoff = load64 k.mem (eh + 0x20);
  e_phnum = load_bytes 2 k.mem (eh + 0x38);
}

abbrev pub program_at : Kernel → ℕ → ElfProgram
program_at k ph = record {
  p_type = load_bytes 4 k.mem ph;
  p_offset = load64 k.mem (ph + 0x08);
  p_va = load64 k.mem (ph + 0x10);
  p_filesz = load64 k.mem (ph + 0x20);
  p_memsz = load64 k.mem (ph + 0x28);
}

-- `result < 0`
abbrev pub is_failure : ℕ → Bool
is_failure result = leb (2 ^ 31) result

-- The test in the loop of `program_load_segment` on the page at `addr`: whether it is loaded.
pub load_page : (pid addr : ℕ) (allocator : Allocator) → K Bool
load_page pid addr allocator = do
  assigned ← (λ k. assign_physical_page addr (u8 (k.processes pid).p_pid) k)
  if is_failure assigned then pure false else do
    result ←
        (λ k. virtual_memory_map (k.processes pid).p_pagetable addr addr page_size 7 allocator k)
    pure (not (is_failure result))

-- `for (addr = va; addr < end_mem; addr += PAGESIZE)` at `addr`, with `n` pages left
pub load_loop : (pid : ℕ) (allocator : Allocator) (n addr : ℕ) → K Bool
load_loop pid allocator zero addr = pure true
load_loop pid allocator (suc n) addr = do
  loaded ← load_page pid addr allocator
  if loaded then load_loop pid allocator n (u64 (addr + page_size)) else pure false

-- `memset((void*) a, 0, n)`
abbrev pub zero_bytes : (a n : ℕ) → K (Unit {0})
zero_bytes a n k = ok tt (record k { mem = memset k.mem a 0 n })

module _ (link : Link) (begin : ℕ → ℕ) where
  -- The copy of a segment into the process's memory, under its page table.
  pub copy_segment : (pid va src end_file end_mem : ℕ) → K ℕ
  copy_segment pid va src end_file end_mem = do
    (λ k. set_pagetable link (k.processes pid).p_pagetable k)
    copy_bytes va src (u64 (end_file + (2 ^ 64 - va)))
    zero_bytes end_file (u64 (end_mem + (2 ^ 64 - end_file)))
    set_pagetable link link.kernel_pagetable
    pure 0

  pub program_load_segment : (pid : ℕ) (ph : ElfProgram) (src : ℕ) (allocator : Allocator) → K ℕ
  unfolding load_loop copy_segment
  program_load_segment pid ph src allocator =
      let end_file = u64 (ph.p_va + ph.p_filesz) in
      let end_mem = u64 (ph.p_va + ph.p_memsz) in
      let va = ph.p_va - ph.p_va % page_size in
      (do
        loaded ← load_loop pid allocator (rounds va end_mem) va
        if loaded then copy_segment pid va src end_file end_mem else pure int_minus_one)

  -- The loop over the program headers at `ph`, with `n` left.
  pub headers_loop : (pid eh : ℕ) (allocator : Allocator) (n ph : ℕ) → K ℕ
  headers_loop pid eh allocator zero ph = pure 0
  headers_loop pid eh allocator (suc n) ph = do
    result ← (λ k.
        if (program_at k ph).p_type == elf_ptype_load
        then program_load_segment pid (program_at k ph) (u64 (eh + (program_at k ph).p_offset))
            allocator k
        else ok 0 k)
    if is_failure result then pure int_minus_one else headers_loop pid eh allocator n (ph + 56)

  abbrev pub set_rip : (pid rip : ℕ) → K (Unit {0})
  set_rip pid rip k =
      ok tt (modify pid (λ p. record p { p_registers = record p.p_registers { reg_rip = rip } }) k)

  -- `programnumber` is an `int`; a negative one is a bit pattern above NPROGRAMS.
  pub program_load : (pid programnumber : ℕ) (allocator : Allocator) → K ℕ
  unfolding headers_loop
  program_load pid programnumber allocator = do
    assert (ltb programnumber nprograms)
    let eh = begin programnumber
    (λ k. assert ((header_at k eh).e_magic == elf_magic) k)
    result ← (λ k.
        headers_loop pid eh allocator (header_at k eh).e_phnum (u64 (eh + (header_at k eh).e_phoff))
          k)
    if is_failure result
        then pure int_minus_one
        else do (λ k. set_rip pid (header_at k eh).e_entry k); pure 0
