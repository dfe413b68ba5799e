-- ===== src/Physical/Init.antt =====
-- What `pageinfo_init` leaves in `pageinfo`.
use weensy_osvm.Base.{
  ℕ, zero, suc, ◌+◌, ◌*◌, ◌/◌, ◌%◌, ◌≤◌, ◌<◌, ◌≡◌, inl, inr, refl, ◌∙◌, Bool, true, ◌&&◌, ◌||◌,
  ◌==◌, ◌!=◌, ltb, leb, Bool-cases, if◌then◌else◌, arith,
}
use weensy_osvm.X86.{page_number}
use weensy_osvm.X86.Entries.{page_number-div}
use weensy_osvm.State.{PageInfo, Kernel, update}
use weensy_osvm.State.Returns.{Returns, returns}
use weensy_osvm.Physical.{
  initial_owner, initial_info, pageinfo_loop, pageinfo_init, is_free, po_free,
}

pageinfo_loop_lem :
    (end n addr : ℕ) (pageinfo : ℕ → PageInfo) (p : ℕ)
    → addr % 4096 ≡ 0
    → addr + n * 4096 ≤ 0x200000
    → pageinfo_loop end n addr pageinfo p ≡ (
        if leb (addr / 4096) p && ltb p (addr / 4096 + n)
        then initial_info end (p * 4096)
        else pageinfo p)
unfolding pageinfo_loop
pageinfo_loop_lem end zero addr pageinfo p h k = ground arith
pageinfo_loop_lem end (suc n) addr pageinfo p h k =
    let page : page_number addr ≡ addr / 4096 = page_number-div addr (omega arith) in
    let rest =
      pageinfo_loop_lem end n (addr + 4096) (update pageinfo (addr / 4096) (initial_info end addr))
        p (omega arith) (omega arith) in
    rw page (
      rest ∙ elim (Bool-cases (p == addr / 4096)) [
        | inl here ↦ let at : addr ≡ p * 4096 = ground arith in rw (here, at) (ground arith)
        | inr elsewhere ↦ rw elsewhere (ground arith)
      ])

-- The pages that a program or a page table may be given: not page 0, not the kernel from
-- KERNEL_START_ADDR to `end`, not the kernel's stack page, not the I/O memory.
unfoldable pub usable : (end addr : ℕ) → Bool
usable end addr =
    ltb 0 addr
    && (ltb addr 0x40000 || leb end addr)
    && addr != 0x7F000
    && (ltb addr 0xA0000 || leb 0x100000 addr)

initial_info-usable :
    (end addr : ℕ)
    → ((initial_info end addr).refcount == 0 && (initial_info end addr).owner == po_free
        ≡ usable end addr)
      × ((initial_info end addr).refcount ≡ (if usable end addr then 0 else 1))
unfolding initial_owner usable
initial_info-usable end addr = (ground arith, ground arith)

module _ (end : ℕ) (k k' : Kernel) (addr : ℕ) (aligned : addr % 4096 ≡ 0) (below : addr < 0x200000)
    (n : ℕ) (all : n ≡ 512) (init : k'.pageinfo ≡ pageinfo_loop end n 0 k.pageinfo) where
  info_at : k'.pageinfo (addr / 4096) ≡ initial_info end addr
  info_at =
      let at : addr / 4096 * 4096 ≡ addr = omega arith in
      let within : (leb (0 / 4096) (addr / 4096) && ltb (addr / 4096) (0 / 4096 + n)) ≡ true =
        ground arith in
      rw init (
        pageinfo_loop_lem end n 0 k.pageinfo (addr / 4096) refl (omega arith)
        ∙ rw (within, at) refl)

  usable_at :
      (is_free k' addr ≡ usable end addr)
      × ((k'.pageinfo (addr / 4096)).refcount ≡ (if usable end addr then 0 else 1))
  usable_at =
      let page : page_number addr ≡ addr / 4096 = page_number-div addr (omega arith) in
      rw (page, info_at) (initial_info-usable end addr)

-- `pageinfo_init` makes exactly the usable pages free, and all others counted once.
pub pageinfo_init-usable :
    (end : ℕ) (k : Kernel)
    → Returns
        (λ _ k'.
          (addr : ℕ)
          → addr % 4096 ≡ 0
          → addr < 0x200000
          → (is_free k' addr ≡ usable end addr)
            × ((k'.pageinfo (addr / 4096)).refcount ≡ (if usable end addr then 0 else 1)))
        (pageinfo_init end k)
unfolding pageinfo_init
pageinfo_init-usable end k = returns (λ addr h lt.
    usable_at end k (record k { pageinfo = pageinfo_loop end 512 0 k.pageinfo }) addr h lt 512 refl
      refl)
