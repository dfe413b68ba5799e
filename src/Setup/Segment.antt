-- ===== src/Setup/Segment.antt =====
-- The pages that `program_load_segment` allocates.
use weensy_osvm.Base.{
  ℕ, zero, suc, ◌+◌, ◌-◌, ◌*◌, ◌/◌, ◌%◌, ◌≤◌, ◌<◌, ◌≡◌, ◌≢◌, ◌⊎◌, inl, inr, refl, ◌∙◌, ap, Bool,
  true, false, ◌&&◌, ◌==◌, ltb, Bool-cases, arith,
}
use weensy_osvm.X86.{page_size, u8, u64}
use weensy_osvm.State.{Kernel}
use weensy_osvm.State.Returns
use weensy_osvm.State.Returns.{Returns, returns}
use weensy_osvm.Paging.{Allocator}
use weensy_osvm.Paging.Space.{refcount_of, IsSpace, IsSound}
use weensy_osvm.Paging.Untouched.{IsSpace-untouched}
use weensy_osvm.Paging.Target.{in_pages}
use weensy_osvm.Paging.Round.{MapsTo}
use weensy_osvm.Paging.Map.{MapsTo-suc, virtual_memory_map-IsMapped}
use weensy_osvm.Physical.Assign.{assigned, assign_physical_page_lem}
use weensy_osvm.Setup.{load_page, load_loop}

-- The first `pages` pages from `addr` map to themselves for users, writable, and each was free of
-- references; all other addresses map as before. All `n` are loaded if the result is true.
pub record IsLoaded (k : Kernel) (pt addr n : ℕ) (loaded : Bool) (k' : Kernel) : Type 0 where
  pub space : IsSpace k' pt
  pub processes : k'.processes ≡ k.processes
  pub pages : ℕ
  pub mapped : MapsTo k k' pt addr addr pages 7
  pub result : ((loaded ≡ true) × (pages ≡ n)) ⊎ ((loaded ≡ false) × (pages < n))
  pub still_used : (p : ℕ) → refcount_of k p ≢ 0 → refcount_of k' p ≢ 0
  pub were_free : (p : ℕ) → p < pages → refcount_of k (addr / 4096 + p) ≡ 0

nothing-IsLoaded :
    {pt : ℕ} (addr n : ℕ) (k : Kernel)
    → IsSpace k pt
    → (loaded : Bool) → ((loaded ≡ true) × (0 ≡ n)) ⊎ ((loaded ≡ false) × (0 < n))
    → IsLoaded k pt addr n loaded k
nothing-IsLoaded addr n k space loaded result = record {
  space = space;
  processes = refl;
  pages = 0;
  mapped = λ va h. let outside : in_pages addr 0 va ≡ false = ground arith in rw outside refl;
  result = result;
  still_used = λ p u. u;
  were_free = λ p h. absurd (omega arith);
}

-- One page is loaded, and then the others.
IsLoaded-more :
    {pt : ℕ} (addr n : ℕ) (k k1 k2 : Kernel) (loaded : Bool)
    → addr % 4096 ≡ 0
    → addr + suc n * 4096 ≤ 0x200000
    → MapsTo k k1 pt addr addr 1 7
    → ((p : ℕ) → p < 1 → refcount_of k (addr / 4096 + p) ≡ 0)
    → (k1.processes ≡ k.processes)
    → ((p : ℕ) → refcount_of k p ≢ 0 → refcount_of k1 p ≢ 0)
    → IsLoaded k1 pt (u64 (addr + page_size)) n loaded k2
    → IsLoaded k pt addr (suc n) loaded k2
IsLoaded-more {pt} addr n k k1 k2 loaded aligned room mapped free same still rest = record {
  space = rest.space;
  processes = rest.processes ∙ same;
  pages = suc rest.pages;
  mapped =
      MapsTo-suc k k1 k2 pt addr addr 7 n rest.pages
        (record {
          va_aligned = aligned;
          va_room = omega arith;
          perm_fits = omega arith;
          pa_aligned = λ p. aligned;
          pa_room = λ p. room;
        })
        mapped rest.mapped (omega (arith, rest.result));
  result = elim rest.result [
    | inl (e, all) ↦ inl (e, ap suc all)
    | inr (e, few) ↦ inr (e, omega arith)
  ];
  still_used = λ p u. rest.still_used p (still p u);
  were_free = λ p h. elim (Bool-cases (p == 0)) [
    | inl first ↦ let e : p ≡ 0 = ground arith in rw e (free 0 (omega arith))
    | inr later ↦
        let at : addr / 4096 + p ≡ u64 (addr + page_size) / 4096 + (p - 1) = ground arith in
        rw at
          (before (u64 (addr + page_size) / 4096 + (p - 1)) (rest.were_free (p - 1) (ground arith)))
  ];
}
  where
    before : (p : ℕ) → refcount_of k1 p ≡ 0 → refcount_of k p ≡ 0
    before p e = elim (Bool-cases (refcount_of k p == 0)) [
      | inl z ↦ ground arith
      | inr nz ↦ absurd (still p (ground arith) e)
    ]

module _ (allocator : Allocator) (sound : IsSound allocator) (pid pt : ℕ) where
  load_page-IsLoaded :
      (addr : ℕ) (k : Kernel)
      → addr % 4096 ≡ 0
      → addr + 4096 ≤ 0x200000
      → IsSpace k pt
      → (k.processes pid).p_pagetable ≡ pt
      → Returns (IsLoaded k pt addr 1) (load_page pid addr allocator k)
  unfolding load_page
  load_page-IsLoaded addr k aligned room space own =
      let owner = u8 (k.processes pid).p_pid in
      elim (Bool-cases
        (addr % 4096 == 0 && ltb addr 0x200000 && refcount_of k (addr / 4096) == 0)) [
          | inl free ↦
              let zero_count : refcount_of k (addr / 4096) ≡ 0 = ground arith in
              let k1 = assigned k addr owner in
              let still : (p : ℕ) → refcount_of k p ≢ 0 → refcount_of k1 p ≢ 0 =
                λ p u. ground arith in
              let space1 = IsSpace-untouched k k1 space (λ b u. refl) still in
              rw (assign_physical_page_lem addr owner k, free, own)
                (Returns.bind
                  (virtual_memory_map-IsMapped allocator sound 7 addr addr 1
                    (record {
                      va_aligned = aligned;
                      va_room = omega arith;
                      perm_fits = omega arith;
                      pa_aligned = λ p. aligned;
                      pa_room = λ p. omega arith;
                    })
                    space1)
                  (λ r k2 m. returns (record {
                    space = m.grown.space;
                    processes = m.grown.else.processes;
                    pages = m.pages;
                    mapped = m.mapped;
                    result = elim m.result [
                      | inl (zero_result, all) ↦ inl (rw zero_result refl, all)
                      | inr (minus_one, p, few) ↦ inr (rw minus_one refl, few)
                    ];
                    still_used = λ p u. m.grown.still_used p (still p u);
                    were_free = λ p h.
                        let first : addr / 4096 + p ≡ addr / 4096 = omega (arith, m.result) in
                        rw first zero_count;
                  })))
          | inr used ↦
              rw (assign_physical_page_lem addr owner k, used)
                (returns (nothing-IsLoaded addr 1 k space false (inr (refl, omega arith))))
        ]

  -- The loop of `program_load_segment` over `n` pages of physical memory, with a sound page table and
  -- allocator, never panics: it maps pages that had no reference to themselves, for users and
  -- writable, all of them or up to the first that it cannot load, and changes no other mapping.
  pub load_loop-IsLoaded :
      (n addr : ℕ) (k : Kernel)
      → addr % 4096 ≡ 0
      → addr + n * 4096 ≤ 0x200000
      → IsSpace k pt
      → (k.processes pid).p_pagetable ≡ pt
      → Returns (IsLoaded k pt addr n) (load_loop pid allocator n addr k)
  unfolding load_loop
  load_loop-IsLoaded zero addr k aligned room space own =
      returns (nothing-IsLoaded addr 0 k space true (inl (refl, refl)))
  load_loop-IsLoaded (suc n) addr k aligned room space own =
      Returns.bind (load_page-IsLoaded addr k aligned (omega arith) space own) (λ loaded k1 one.
        elim one.result [
          | inl (goes_on, all) ↦ rw goes_on (
              Returns.weaken
                (load_loop-IsLoaded n (u64 (addr + page_size)) k1 (omega arith) (omega arith)
                  one.space (rw one.processes own))
                (λ loaded' k2 rest.
                  IsLoaded-more addr n k k1 k2 loaded' aligned room (rw all at one.mapped)
                    (rw all at one.were_free) one.processes one.still_used rest))
          | inr (stops, few) ↦ rw stops (
              returns (record {
                space = one.space;
                processes = one.processes;
                pages = one.pages;
                mapped = one.mapped;
                result = inr (refl, omega arith);
                still_used = one.still_used;
                were_free = one.were_free;
              }))
        ])
