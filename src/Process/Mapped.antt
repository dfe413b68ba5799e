-- ===== src/Process/Mapped.antt =====
-- The page table that `copy_pagetable` makes.
use weensy_osvm.Base.{
  ℕ, zero, suc, ◌+◌, ◌*◌, ◌%◌, ◌^◌, ◌≤◌, ◌<◌, ◌≡◌, ◌≢◌, ◌⊎◌, inl, inr, refl, sym, ◌∙◌, false, ◌==◌,
  ◌!=◌, Bool-cases, some, arith,
}
use weensy_osvm.X86.{u8}
use weensy_osvm.State.Allows
use weensy_osvm.State.Allows.{Allows, returned, panicked, stopped}
use weensy_osvm.Paging.Isolation.{Apart, lookup-other, IsSpace-other, Apart-grown}
use weensy_osvm.Memory.{memset}
use weensy_osvm.Memory.Blocks.{load64-memset_zero}
use weensy_osvm.Paging.{slot}
use weensy_osvm.Paging.Tree.{slot_range}
use weensy_osvm.Paging.Untouched.{
  IsSpace-untouched, lookup-untouched, table-untouched, allocated-same,
}
use weensy_osvm.Paging.Empty.{
  IsCleared, table-cleared, IsTable-cleared, lookup-cleared, IsSpace-cleared,
}
use weensy_osvm.Physical.{pagetable_alloc}
use weensy_osvm.Physical.Alloc.{pagetable_alloc_lem, pagetable_alloc-IsAllocator}
use weensy_osvm.Process.Copy.{copy_page, copy_loop, copy_into, copy_pagetable}
use weensy_osvm.State.{Kernel, Run}
use weensy_osvm.Paging.{unmapped}
use weensy_osvm.Paging.Walk.{entry}
use weensy_osvm.Paging.Space.{IsSpace, IsAllocated}
use weensy_osvm.Paging.Lookup.{lookup-leaf}
use weensy_osvm.Paging.Target.{in_pages}
use weensy_osvm.Paging.Write.{lookup}
use weensy_osvm.Paging.Round.{IsRequest}
use weensy_osvm.Paging.Map.{IsMapped, virtual_memory_map-IsMapped}
use weensy_osvm.Paging.Page.{Same, Same-via, leaf-page, lookup-shift, lookup-none}

-- The pages below PROC_START_ADDR are mapped to physical memory, where they are mapped.
abbrev pub IsPhysical : Kernel → ℕ → Type 0
IsPhysical k pt =
    (va : ℕ) → va < 0x100000 → (lookup k pt va).perm ≢ 0 → (lookup k pt va).pa + 4096 ≤ 0x200000

-- The state of the loop of `copy_pagetable` when it has come to `va`.
pub record IsCopying (k0 : Kernel) (old new va : ℕ) (k : Kernel) : Type 0 where
  pub old_space : IsSpace k old
  pub new_space : IsSpace k new
  pub apart : Apart k new old
  pub source : (va' : ℕ) → lookup k old va' ≡ lookup k0 old va'
  pub copied : (va' : ℕ) → va' < va → Same (lookup k new va') (lookup k0 old va')
  pub rest : (va' : ℕ) → va ≤ va' → va' < 2 ^ 48 → lookup k new va' ≡ unmapped

module _ (k0 : Kernel) (old new : ℕ) (physical : IsPhysical k0 old) where
  IsRequest-copy :
      (va : ℕ) (k : Kernel)
      → va % 4096 ≡ 0
      → va < 0x100000
      → IsCopying k0 old new va k
      → (lookup k old va).perm ≢ 0
      → IsRequest va (lookup k old va).pa 1 (lookup k old va).perm
  IsRequest-copy va k aligned low at some_perm =
      let leaf_at = lookup-leaf at.old_space.tree va in
      let page = leaf-page (entry k.mem old va 3) va aligned (rw leaf_at at some_perm) in
      let room = physical va low (rw (at.source va) at some_perm) in
      record {
        va_aligned = aligned;
        va_room = omega arith;
        perm_fits = rw leaf_at page.1;
        pa_aligned = λ p. rw leaf_at page.0;
        pa_room = λ p. rw (at.source va) (omega (arith, room));
      }

  IsCopying-mapped :
      (va : ℕ) (k k' : Kernel) (r : ℕ)
      → va % 4096 ≡ 0
      → va < 0x100000
      → IsCopying k0 old new va k
      → (lookup k old va).perm ≢ 0
      → (m : IsMapped k new va (lookup k old va).pa 1 (lookup k old va).perm r k') → m.pages ≡ 1
      → IsCopying k0 old new (va + 4096) k'
  IsCopying-mapped va k k' r aligned low at some_perm m all =
      let maps = rw all at m.mapped in
      record {
        old_space = IsSpace-other m.grown at.new_space at.old_space at.apart;
        new_space = m.grown.space;
        apart = Apart-grown m.grown at.new_space at.old_space at.apart;
        source = λ va'. lookup-other m.grown at.new_space at.old_space at.apart va' ∙ at.source va';
        copied = λ va' h. elim (Bool-cases (in_pages va 1 va')) [
          | inl within ↦
              Same-via (rw within at (maps va' (omega arith)))
                (lookup-shift at.old_space va va' aligned (omega arith) (omega arith) within
                  some_perm (rw (at.source va) (physical va low (rw (at.source va) at some_perm))))
                (at.source va')
          | inr before ↦
              Same-via {d = lookup k0 old va'} (rw before at (maps va' (omega arith)))
                (at.copied va' (ground arith)) refl
        ];
        rest = λ va' h l.
            let beyond : in_pages va 1 va' ≡ false = ground arith in
            (rw beyond at (maps va' l)) ∙ at.rest va' (omega arith) l;
      }

  IsCopying-unused :
      (va : ℕ) (k : Kernel)
      → va % 4096 ≡ 0
      → va < 0x100000
      → IsCopying k0 old new va k
      → (lookup k old va).perm ≡ 0
      → IsCopying k0 old new (va + 4096) k
  IsCopying-unused va k aligned low at none = record {
    old_space = at.old_space;
    new_space = at.new_space;
    apart = at.apart;
    source = at.source;
    copied = λ va' h. elim (Bool-cases (in_pages va 1 va')) [
      | inl within ↦
          Same-via (at.rest va' (ground arith) (omega arith)) (refl, refl)
            (sym (lookup-none at.old_space va va' aligned (omega arith) (omega arith) within none)
              ∙ at.source va')
      | inr before ↦ at.copied va' (ground arith)
    ];
    rest = λ va' h l. at.rest va' (omega arith) l;
  }

  copy_page-IsCopying :
      (va : ℕ) (k : Kernel)
      → va % 4096 ≡ 0
      → va < 0x100000
      → IsCopying k0 old new va k
      → Allows (λ _. IsCopying k0 old new (va + 4096)) (copy_page new va (lookup k old va) k)
  unfolding copy_page
  copy_page-IsCopying va k aligned low at = elim (Bool-cases ((lookup k old va).perm != 0)) [
    | inl mapped ↦
        let some_perm : (lookup k old va).perm ≢ 0 = ground arith in
        rw mapped (
          Allows.bind
            (Allows.from_Returns (
              virtual_memory_map-IsMapped (some pagetable_alloc) pagetable_alloc-IsAllocator
                (lookup k old va).perm va (lookup k old va).pa 1
                (IsRequest-copy va k aligned low at some_perm) at.new_space))
            (λ r k' m. elim m.result [
              | inl (zero_result, all) ↦
                  rw zero_result
                    (returned (IsCopying-mapped va k k' r aligned low at some_perm m all))
              | inr (minus_one, p, few) ↦ rw minus_one panicked
            ]))
    | inr unused ↦ rw unused (returned (IsCopying-unused va k aligned low at (ground arith)))
  ]

  copy_loop-IsCopying :
      (n va : ℕ) (k : Kernel)
      → va % 4096 ≡ 0
      → va + n * 4096 ≡ 0x100000
      → IsCopying k0 old new va k
      → Allows (λ _. IsCopying k0 old new 0x100000) (copy_loop old new n va k)
  unfolding copy_loop
  copy_loop-IsCopying zero va k aligned all at =
      let e : va ≡ 0x100000 = omega arith in returned (rw e at at)
  copy_loop-IsCopying (suc n) va k aligned all at =
      Allows.bind (copy_page-IsCopying va k aligned (omega arith) at)
        (λ _ k' next. copy_loop-IsCopying n (va + 4096) k' (omega arith) (omega arith) next)

-- What `copy_pagetable` leaves: the old page table maps as before; if the result is not NULL, it is a
-- page table that shares no page with the old one, maps every address below PROC_START_ADDR as that
-- does, and no other address.
pub record IsCopied (k : Kernel) (old r : ℕ) (k' : Kernel) : Type 0 where
  pub source : (va : ℕ) → lookup k' old va ≡ lookup k old va
  pub copy :
      (r ≡ 0)
      ⊎ (IsSpace k' r
          × Apart k' r old
          × ((va : ℕ) → va < 0x100000 → Same (lookup k' r va) (lookup k old va))
          × ((va : ℕ) → 0x100000 ≤ va → va < 2 ^ 48 → lookup k' r va ≡ unmapped))

module _ (k : Kernel) (old : ℕ) (space : IsSpace k old) where
  -- The new page before the loop.
  IsCopying-start :
      (k1 : Kernel) (f : ℕ)
      → IsAllocated k k1 f
      → k1.mem ≡ memset k.mem f 0 4096
      → IsCopying k old f 0 k1
  IsCopying-start k1 f got filled =
      let cleared : IsCleared k1.mem f = λ va i. rw filled (
        load64-memset_zero k.mem f 4096 (slot f va i) (slot_range f va i).0
          (slot_range f va i).1) in
      let tree = IsTable-cleared k1.mem f cleared got.aligned got.positive got.below in
      let kept = IsSpace-untouched k k1 space (allocated-same got) got.still_used in
      record {
        old_space = kept;
        new_space =
            IsSpace-cleared k1 f cleared got.aligned got.positive got.below
              (got.still_used 0 space.zero_used) got.now_used;
        apart = λ va va' i j t hi hj e e'.
            let is_new = (table-cleared k1.mem f cleared va i t e).1 in
            let old_table =
              sym (table-untouched k k1 space (allocated-same got) got.still_used va' j hj) ∙ e' in
            space.counted va' j t hj old_table (rw is_new got.was_free);
        source = lookup-untouched k k1 space (allocated-same got) got.still_used;
        copied = λ va' h. absurd (omega arith);
        rest = λ va' h l. lookup-cleared k1.mem f cleared k1 refl tree va';
      }

  copy_into-IsCopied :
      (k1 : Kernel) (f : ℕ)
      → IsPhysical k old
      → IsAllocated k k1 f
      → k1.mem ≡ memset k.mem f 0 4096
      → Allows (IsCopied k old) (copy_into old f k1)
  unfolding copy_into
  copy_into-IsCopied k1 f physical got filled =
      let some_page : (f == 0) ≡ false = ground (arith, got.positive) in
      rw some_page (
        Allows.bind
          (copy_loop-IsCopying k old f physical 256 0 k1 refl refl
            (IsCopying-start k1 f got filled))
          (λ _ k2 done. returned (record {
            source = done.source;
            copy = inr (done.new_space, done.apart, done.copied, done.rest);
          })))

-- `copy_pagetable` of a page table whose pages below PROC_START_ADDR are mapped to physical memory
-- panics, or returns NULL or a page table that shares no page with the old one, maps every address
-- below PROC_START_ADDR as that does, and no other address. Where it returns, the old page table
-- maps as before.
pub copy_pagetable-IsCopied :
    (k : Kernel) (old owner : ℕ)
    → IsSpace k old
    → IsPhysical k old
    → Allows (IsCopied k old) (copy_pagetable old owner k)
unfolding copy_pagetable copy_into
copy_pagetable-IsCopied k old owner space physical =
    let k0 = record k { pagetable_owner = u8 owner } in
    let space0 = IsSpace-untouched k k0 space (λ b u. refl) (λ p u. u) in
    Allows.bind (Allows.from_Returns (pagetable_alloc_lem k0 space.zero_used)) (λ f k1. elim [
      | inl (full, null, same) ↦
          rw (null, same) (returned (record { source = λ va. refl; copy = inl refl }))
      | inr (got, filled, _) ↦
          weaken_copied (copy_into-IsCopied k0 old space0 k1 f physical got filled)
    ])
  where
    weaken_copied :
        {r : Run ℕ}
        → Allows (IsCopied (record k { pagetable_owner = u8 owner }) old) r
        → Allows (IsCopied k old) r
    weaken_copied (returned p) = returned (record { source = p.source; copy = p.copy })
    weaken_copied panicked = panicked
    weaken_copied stopped = stopped
