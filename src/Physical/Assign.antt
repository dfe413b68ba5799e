-- ===== src/Physical/Assign.antt =====
-- The allocation of physical pages keeps the contract that the page tables rely on.
use weensy_osvm.Base.{
  ℕ, zero, suc, ◌+◌, ◌*◌, ◌/◌, ◌%◌, ◌<◌, ◌≡◌, ◌⊎◌, inl, inr, refl, true, false, ◌&&◌, ◌==◌, ◌!=◌,
  ltb, leb, Bool-cases, &&_parts, if◌then◌else◌, arith,
}
use weensy_osvm.Base.Bits.{bit_and_low}
use weensy_osvm.X86.{int_minus_one, page_number, has_flag}
use weensy_osvm.X86.Entries.{page_number-div}
use weensy_osvm.State.{Kernel, ok, update}
use weensy_osvm.State.Returns.{Returns, returns}
use weensy_osvm.Paging.{memsize_physical}
use weensy_osvm.Paging.Space.{refcount_of}
use weensy_osvm.Physical.{assign_physical_page, is_free, take_page, free_loop, get_free_addr}

-- The page at `addr` given to `owner`.
abbrev pub assigned : Kernel → (addr owner : ℕ) → Kernel
assigned k addr owner = record k {
  pageinfo = update k.pageinfo (addr / 4096) (record { owner = owner; refcount = 1 });
}

has_flag-offset : (addr : ℕ) → has_flag addr 0xFFF ≡ (addr % 4096 != 0)
unfolding has_flag
has_flag-offset addr = ground (arith, bit_and_low 12 addr)

-- `assign_physical_page` succeeds exactly on an aligned, existing page with no reference, and then
-- sets its owner and its first reference; otherwise it changes nothing.
pub assign_physical_page_lem :
    (addr owner : ℕ) (k : Kernel)
    → assign_physical_page addr owner k ≡ (
        if addr % 4096 == 0 && ltb addr 0x200000 && refcount_of k (addr / 4096) == 0
        then ok 0 (assigned k addr owner)
        else ok int_minus_one k)
unfolding assign_physical_page
assign_physical_page_lem addr owner k = elim (Bool-cases (ltb addr 0x200000)) [
  | inl low ↦
      let exists : leb memsize_physical addr ≡ false = ground arith in
      let page : page_number addr ≡ addr / 4096 = page_number-div addr (ground arith) in
      rw (has_flag-offset addr, exists, page, low) (ground arith)
  | inr high ↦
      let missing : leb memsize_physical addr ≡ true = ground arith in
      rw (has_flag-offset addr, missing, high) (ground arith)
]

-- The page that is given out, and all pages below it are in use.
pub record IsFirstFree (owner : ℕ) (k : Kernel) (r : ℕ) (k' : Kernel) : Type 0 where
  pub aligned : r % 4096 ≡ 0
  pub below : r < 0x200000
  pub free : is_free k r ≡ true
  pub first : (addr : ℕ) → addr % 4096 ≡ 0 → addr < r → is_free k addr ≡ false
  pub change : k' ≡ assigned k r owner

abbrev pub IsFull : Kernel → Type 0
IsFull k = (addr : ℕ) → addr % 4096 ≡ 0 → addr < 0x200000 → is_free k addr ≡ false

take_page-free :
    (addr owner : ℕ) (k : Kernel)
    → addr % 4096 ≡ 0
    → addr < 0x200000
    → is_free k addr ≡ true
    → take_page addr owner k ≡ ok addr (assigned k addr owner)
unfolding take_page
take_page-free addr owner k aligned below free =
    let page : page_number addr ≡ addr / 4096 = page_number-div addr (omega arith) in
    let no_reference : (refcount_of k (addr / 4096) == 0) ≡ true =
      (&&_parts (refcount_of k (addr / 4096) == 0) _ (rw page at free)).0 in
    let a : (addr % 4096 == 0) ≡ true = ground arith in
    let b : ltb addr 0x200000 ≡ true = ground arith in
    rw (assign_physical_page_lem addr owner k, a, b, no_reference) refl

module _ (owner : ℕ) (k : Kernel) where
  free_loop_lem :
      (n addr : ℕ)
      → addr % 4096 ≡ 0
      → addr + n * 4096 ≡ 0x200000
      → ((below : ℕ) → below % 4096 ≡ 0 → below < addr → is_free k below ≡ false)
      → Returns
          (λ r k'. (IsFull k × (r ≡ 0) × (k' ≡ k)) ⊎ IsFirstFree owner k r k')
          (free_loop owner n addr k)
  unfolding free_loop
  free_loop_lem zero addr aligned e busy =
      returns (inl (λ a h lt. busy a h (omega arith), refl, refl))
  free_loop_lem (suc n) addr aligned e busy = elim (Bool-cases (is_free k addr)) [
    | inl free ↦
        rw (free, take_page-free addr owner k aligned (omega arith) free)
          (returns (
            inr (record {
              aligned = aligned;
              below = omega arith;
              free = free;
              first = busy;
              change = refl;
            })))
    | inr used ↦ rw used (
        free_loop_lem n (addr + 4096) (omega arith) (omega arith) (λ a h lt.
          elim (Bool-cases (a == addr)) [
            | inl here ↦ let e' : a ≡ addr = ground arith in rw e' used
            | inr elsewhere ↦ busy a h (ground arith)
          ]))
  ]

  -- `get_free_addr` never panics. It gives the lowest free page to `owner`, or returns
  -- `OUTOFMEMORY` because no page is free, and then changes nothing.
  pub get_free_addr_lem :
      Returns
        (λ r k'. (IsFull k × (r ≡ 0) × (k' ≡ k)) ⊎ IsFirstFree owner k r k')
        (get_free_addr owner k)
  unfolding get_free_addr
  get_free_addr_lem = free_loop_lem 512 0 refl refl (λ a h lt. absurd (omega arith))
