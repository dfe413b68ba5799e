-- ===== src/Boot/Segment.antt =====
-- The memory that `boot_readseg` leaves.
use weensy_osvm.Base.{
  ℕ, zero, suc, ◌+◌, ◌-◌, ◌*◌, ◌/◌, ◌%◌, ◌^◌, ◌≤◌, ◌<◌, ◌≡◌, ◌∙◌, ◌&&◌, ltb, leb, if◌then◌else◌,
  arith,
}
use weensy_osvm.X86.{u32, u64}
use weensy_osvm.Memory.{Mem}
use weensy_osvm.Memory.Blocks.{memset-bytes}
use weensy_osvm.Boot.{boot_readsect, sectors_loop, boot_readseg}

module _ (disk : ℕ → ℕ) where
  sectors_loop-bytes :
      (n ptr src_sect : ℕ) (m : Mem) (b : ℕ)
      → src_sect + n < 2 ^ 32
      → sectors_loop disk n ptr src_sect m b
        ≡ (if leb ptr b && ltb b (ptr + n * 512) then disk (src_sect * 512 + (b - ptr)) else m b)
  unfolding sectors_loop boot_readsect
  sectors_loop-bytes zero ptr src_sect m b h = ground arith
  sectors_loop-bytes (suc n) ptr src_sect m b h =
      let next : u32 (src_sect + 1) ≡ src_sect + 1 = omega arith in
      rw next (
        sectors_loop-bytes n (ptr + 512) (src_sect + 1) (boot_readsect disk ptr src_sect m) b
          (omega arith)
        ∙ ground arith)

  -- `boot_readseg` leaves zeros from the end of the file's bytes to the end of the segment, and
  -- before them, from the start of the first sector, the disk's bytes from `src_sect` on. Behind the
  -- segment it may write up to the end of the last sector, and no other byte changes. The file part is
  -- not larger than the memory part, the addresses fit 64 bits and the sector numbers 32.
  pub boot_readseg-bytes :
      (ptr src_sect filesz memsz : ℕ) (m : Mem) (b : ℕ)
      → src_sect + (filesz + 1023) / 512 < 2 ^ 32
      → filesz ≤ memsz
      → ptr + memsz < 2 ^ 64
      → let start = ptr - ptr % 512 in
        let sectors = (ptr + filesz - start + 511) / 512 in
        boot_readseg disk ptr src_sect filesz memsz m b ≡ (
          if leb (ptr + filesz) b && ltb b (ptr + memsz)
          then 0
          else if leb start b && ltb b (start + sectors * 512)
          then disk (src_sect * 512 + (b - start))
          else m b)
  unfolding boot_readseg
  boot_readseg-bytes ptr src_sect filesz memsz m b h le fits =
      let start = ptr - ptr % 512 in
      let sectors = (ptr + filesz - start + 511) / 512 in
      let end_ptr : u64 (ptr + filesz) ≡ ptr + filesz = omega arith in
      let end_mem : u64 (memsz + ptr) ≡ memsz + ptr = omega arith in
      rw (end_ptr, end_mem)
        (ground (
          arith,
          memset-bytes (sectors_loop disk sectors start src_sect m) (ptr + filesz) 0
              (memsz + ptr - (ptr + filesz)) b,
          sectors_loop-bytes sectors start src_sect m b (omega arith),
        ))
