-- ===== src/Physical/Alloc.antt =====
-- `get_free_addr` and `pagetable_alloc` as allocators of page table pages.
use weensy_osvm.Base.{
  ℕ, ◌/◌, ◌%◌, ◌≤◌, ◌<◌, ◌≡◌, ◌≢◌, ◌⊎◌, inl, inr, refl, true, false, ◌==◌, Bool-cases, &&_parts,
  ==_iff, arith,
}
use weensy_osvm.X86.{page_number}
use weensy_osvm.X86.Entries.{page_number-div}
use weensy_osvm.Memory.{memset}
use weensy_osvm.Memory.Blocks.{memset-outside}
use weensy_osvm.State.{Kernel}
use weensy_osvm.State.Returns
use weensy_osvm.State.Returns.{Returns, returns}
use weensy_osvm.Paging.Space.{refcount_of, IsAllocated, IsAllocator}
use weensy_osvm.Physical.{is_free, get_free_addr, pagetable_alloc}
use weensy_osvm.Physical.Assign.{assigned, IsFull, IsFirstFree, get_free_addr_lem}

refcount-free :
    (k : Kernel) (r : ℕ) → r < 0x200000 → is_free k r ≡ true → refcount_of k (r / 4096) ≡ 0
refcount-free k r below free =
    let page : page_number r ≡ r / 4096 = page_number-div r (omega arith) in
    (==_iff _ 0).0 (&&_parts (refcount_of k (r / 4096) == 0) _ (rw page at free)).0

module _ (owner r c n : ℕ) (k : Kernel) (zero_used : refcount_of k 0 ≢ 0) (small : n ≤ 4096)
    (aligned : r % 4096 ≡ 0) (below : r < 0x200000) (free : is_free k r ≡ true) where
  positive_of_free : 0 < r
  positive_of_free = elim (Bool-cases (r == 0)) [
    | inl e ↦
        let null : r ≡ 0 = ground arith in
        absurd (zero_used (rw null at (refcount-free k r below free)))
    | inr ne ↦ ground arith
  ]

  -- A free page with its owner and its first reference set, and `n` of its bytes written.
  IsAllocated-assigned : IsAllocated k (record (assigned k r owner) { mem = memset k.mem r c n }) r
  IsAllocated-assigned = record {
    aligned = aligned;
    positive = positive_of_free;
    below = below;
    was_free = refcount-free k r below free;
    now_used = ground arith;
    still_used = λ p u. ground arith;
    outside = λ b o. memset-outside k.mem r c n b (ground arith);
    else = record {
      processes = refl;
      current = refl;
      ticks = refl;
      pagetable_owner = refl;
      cr3 = refl;
      keys = refl;
    };
  }

-- The page that `get_free_addr` gives out.
pub IsAllocated-first :
    (owner r : ℕ) (k k' : Kernel)
    → refcount_of k 0 ≢ 0
    → IsFirstFree owner k r k'
    → IsAllocated k k' r
unfolding memset
IsAllocated-first owner r k k' zero_used first = rw first.change (
    IsAllocated-assigned owner r 0 0 k zero_used (omega arith) first.aligned first.below first.free)

-- `get_free_addr` keeps the contract of an allocator.
pub get_free_addr-IsAllocator : (owner : ℕ) → IsAllocator (get_free_addr owner)
get_free_addr-IsAllocator owner k zero_used = Returns.weaken (get_free_addr_lem owner k) (λ r k'.
    elim [
      | inl (_, null, same) ↦ inl (null, same)
      | inr first ↦ inr (IsAllocated-first owner r k k' zero_used first)
    ])

-- While page 0 is in use, `pagetable_alloc` never panics. It gives out a page that was free, cleared,
-- with `__pagetable_owner__` as its owner and one reference, and keeps the contract of an allocator;
-- or it returns NULL because no page is free, and changes nothing.
pub pagetable_alloc_lem :
    (k : Kernel)
    → refcount_of k 0 ≢ 0
    → Returns
        (λ f k'.
          (IsFull k × (f ≡ 0) × (k' ≡ k))
          ⊎ (IsAllocated k k' f
              × (k'.mem ≡ memset k.mem f 0 4096)
              × (k'.pageinfo ≡ (assigned k f k.pagetable_owner).pageinfo)))
        (pagetable_alloc k)
unfolding pagetable_alloc
pagetable_alloc_lem k zero_used = Returns.bind (get_free_addr_lem k.pagetable_owner k) (λ r k'.
    elim [
      | inl (full, null, same) ↦ rw null (returns (inl (full, refl, same)))
      | inr first ↦
          let got =
            IsAllocated-assigned k.pagetable_owner r 0 4096 k zero_used (omega arith) first.aligned
              first.below first.free in
          let some_page : (r == 0) ≡ false = ground (arith, got.positive) in
          rw (some_page, first.change) (returns (inr (got, refl, refl)))
    ])

pub pagetable_alloc-IsAllocator : IsAllocator pagetable_alloc
pagetable_alloc-IsAllocator k zero_used =
    Returns.weaken (pagetable_alloc_lem k zero_used)
      (λ f k'. elim [ inl (_, null, same) ↦ inl (null, same) | inr (got, _, _) ↦ inr got ])
