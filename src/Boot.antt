-- ===== src/Boot.antt =====
-- boot.c: the boot loader, over memory. `disk` gives the bytes of the disk; that reading sector `s`
-- delivers the 512 bytes from `512 * s` is what the disk's documentation says.
pub mod Segment
use weensy_osvm.Base.{
  ℕ, zero, suc, ◌+◌, ◌-◌, ◌*◌, ◌/◌, ◌%◌, ◌^◌, Bool, ◌&&◌, ◌==◌, ltb, leb, if◌then◌else◌, Option,
  none, some,
}
use weensy_osvm.X86.{page_size, u32, u64}
use weensy_osvm.Memory.{Mem, load_bytes, load64, memset}
use weensy_osvm.Setup.{elf_magic}

abbrev pub sectorsize : ℕ
sectorsize = 512

-- `ELFHDR`, the scratch space for the header
abbrev pub elfhdr : ℕ
elfhdr = 0x10000

module _ (disk : ℕ → ℕ) where
  unfoldable pub boot_readsect : (dst src_sect : ℕ) → Mem → Mem
  boot_readsect dst src_sect m b =
      if leb dst b && ltb b (dst + sectorsize)
      then disk (src_sect * sectorsize + (b - dst))
      else m b

  -- `for (; ptr < end_ptr; ptr += SECTORSIZE, ++src_sect)` with `n` sectors left
  pub sectors_loop : (n ptr src_sect : ℕ) → Mem → Mem
  unfolding boot_readsect
  sectors_loop zero ptr src_sect m = m
  sectors_loop (suc n) ptr src_sect m =
      sectors_loop n (ptr + sectorsize) (u32 (src_sect + 1)) (boot_readsect ptr src_sect m)

  -- The second loop clears like `memset`.
  unfoldable pub boot_readseg : (ptr src_sect filesz memsz : ℕ) → Mem → Mem
  unfolding sectors_loop
  boot_readseg ptr src_sect filesz memsz m =
      let end_ptr = u64 (ptr + filesz) in
      let start = ptr - ptr % sectorsize in
      let sectors = (end_ptr - start + (sectorsize - 1)) / sectorsize in
      memset (sectors_loop sectors start src_sect m) end_ptr 0 (u64 (memsz + ptr) - end_ptr)

  -- The loop of `boot` over the program headers at `ph`, with `n` left.
  pub segments_loop : (n ph : ℕ) → Mem → Mem
  segments_loop zero ph m = m
  segments_loop (suc n) ph m = segments_loop n (ph + 56) (
      boot_readseg (load64 m (ph + 0x10)) (u32 (load64 m (ph + 0x08) / sectorsize + 1))
        (load64 m (ph + 0x20)) (load64 m (ph + 0x28)) m)

  -- The entry point and the memory at the jump to the kernel; without the magic number `boot`
  -- waits for ever.
  pub boot : Mem → Option (ℕ × Mem)
  unfolding segments_loop
  boot m =
      let read = boot_readseg elfhdr 1 page_size page_size m in
      let loaded =
        segments_loop (load_bytes 2 read (elfhdr + 0x38)) (elfhdr + load64 read (elfhdr + 0x20))
          read in
      if load_bytes 4 read elfhdr == elf_magic
      then some (load64 loaded (elfhdr + 0x18), loaded)
      else none
