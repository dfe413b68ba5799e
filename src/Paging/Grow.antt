-- ===== src/Paging/Grow.antt =====
-- `allocate_table` links a fresh table into the page table, or returns NULL and changes nothing.
use weensy_osvm.Base.{
  ℕ, suc, ◌+◌, ◌%◌, ◌/◌, ◌≤◌, ◌<◌, ◌≡◌, ◌≢◌, ◌⊎◌, inl, inr, refl, sym, ◌∙◌, true, false, none, some,
  arith, ◌==◌, Bool-cases, if◌then◌else◌,
}
use weensy_osvm.X86.{page_size, pte_p, has_flag}
use weensy_osvm.X86.Entries.{link_entry, has_flag-p}
use weensy_osvm.Memory.{Mem, load64, store64, memset}
use weensy_osvm.Memory.Access.{load64-same, load64-store64_self, load64-store64_ne, store64-outside}
use weensy_osvm.Memory.Blocks.{memset-outside, load64-memset_zero}
use weensy_osvm.State.{Kernel, pure, ◌>>◌, assert, write64, clear}
use weensy_osvm.State.Returns
use weensy_osvm.State.Returns.{Returns, returns}
use weensy_osvm.Paging.{Allocator, slot, link, allocate_table}
use weensy_osvm.Paging.Walk.{table, entry, same_path}
use weensy_osvm.Paging.Tree.{slot-ne, slot-aligned, slot_range}
use weensy_osvm.Paging.Link.{IsFresh, IsLinked, IsLinked-IsLinked}
use weensy_osvm.Paging.Space.{refcount_of, IsSpace, IsAllocated, IsSound, HasGrown, SameLeaves}

link-sum : (f : ℕ) → f % 4096 ≡ 0 → f < 0x200000 → link f ≡ f + 7
unfolding link
link-sum f h k = link_entry f h (omega arith)

abbrev linking : Mem → ℕ → ℕ → Mem
linking m at f = memset (store64 m at (link f)) f 0 4096

module _ {k k1 : Kernel} {pt : ℕ} (space : IsSpace k pt) (va i t f : ℕ) (hi : i ≤ 2)
    (at : table k.mem pt va i ≡ some t) (absent : has_flag (entry k.mem pt va i) pte_p ≡ false)
    (got : IsAllocated k k1 f) where
  abbrev linked_mem : Mem
  linked_mem = linking k1.mem (slot t va i) f

  fresh : IsFresh k.mem pt f
  fresh = record {
    aligned = got.aligned;
    positive = got.positive;
    below = got.below;
    unused = λ va' j h e. space.counted va' j f h e got.was_free;
  }

  -- A word in another page is not touched by what happens to the page `f`.
  word_elsewhere :
      (m : Mem) (t' va' j : ℕ)
      → t' % 4096 ≡ 0
      → t' ≢ f
      → load64 (memset m f 0 4096) (slot t' va' j) ≡ load64 m (slot t' va' j)
  word_elsewhere m t' va' j h ne =
      load64-same m (memset m f 0 4096) (slot t' va' j)
        (λ b p q. memset-outside m f 0 4096 b (ground (arith, slot_range t' va' j, got.aligned)))

  word_before :
      (t' va' j : ℕ)
      → t' % 4096 ≡ 0
      → t' ≢ f
      → load64 k1.mem (slot t' va' j) ≡ load64 k.mem (slot t' va' j)
  word_before t' va' j h ne =
      load64-same k.mem k1.mem (slot t' va' j)
        (λ b p q. got.outside b (ground (arith, slot_range t' va' j, got.aligned)))

  table-ne : (va' j t' : ℕ) → j ≤ 3 → table k.mem pt va' j ≡ some t' → t' ≢ f
  table-ne va' j t' h e same = fresh.unused va' j h (rw (← same) e)

  kept :
      (va' j t' : ℕ)
      → j ≤ 3
      → (j ≢ i) ⊎ (same_path (suc i) va va' ≡ false)
      → table k.mem pt va' j ≡ some t'
      → load64 linked_mem (slot t' va' j) ≡ load64 k.mem (slot t' va' j)
  kept va' j t' hj apart e =
      let a = (space.tree.placed va i t (omega arith) at).0 in
      let a' = (space.tree.placed va' j t' hj e).0 in
      let ne = table-ne va' j t' hj e in
      word_elsewhere _ t' va' j a' ne
      ∙ (load64-store64_ne k1.mem (slot t va i) (link f) (slot t' va' j) (slot-aligned t va i a)
            (slot-aligned t' va' j a')
            (slot-ne space.tree va va' i j t t' (omega arith) hj at e (ground arith))
          ∙ word_before t' va' j a' ne)

  linked_word : load64 linked_mem (slot t va i) ≡ f + 7
  linked_word =
      let a = (space.tree.placed va i t (omega arith) at).0 in
      let sum = link-sum f got.aligned got.below in
      word_elsewhere _ t va i a (table-ne va i t (omega arith) at)
      ∙ (load64-store64_self k1.mem (slot t va i) (link f) (omega (arith, got.below)) ∙ sum)

  cleared : (va' j : ℕ) → load64 linked_mem (slot f va' j) ≡ 0
  cleared va' j =
      load64-memset_zero _ f 4096 (slot f va' j) (slot_range f va' j).0 (slot_range f va' j).1

  is_linked : IsLinked k.mem linked_mem pt va i f
  is_linked =
      IsLinked-IsLinked space.tree linked_mem va i t f hi at absent fresh kept linked_word cleared

  counted_new :
      (va' j t' : ℕ) → j ≤ 3 → table linked_mem pt va' j ≡ some t' → refcount_of k1 (t' / 4096) ≢ 0
  counted_new va' j t' hj e = elim (is_linked.tables va' j t' hj e) [
    | inl old ↦ got.still_used (t' / 4096) (space.counted va' j t' hj old)
    | inr new ↦ rw new got.now_used
  ]

  byte_outside :
      (b : ℕ)
      → refcount_of k (b / 4096) ≢ 0
      → ((va' j t' : ℕ) → j ≤ 3 → table k.mem pt va' j ≡ some t' → b / 4096 ≢ t' / 4096)
      → linked_mem b ≡ k.mem b
  byte_outside b used apart =
      let a = (space.tree.placed va i t (omega arith) at).0 in
      let off_t = apart va i t (omega arith) at in
      let off_f : b / 4096 ≢ f / 4096 = λ e. used (rw e got.was_free) in
      let al = got.aligned in
      memset-outside _ f 0 4096 b (ground arith)
      ∙ (store64-outside k1.mem (slot t va i) (link f) b (ground (arith, slot_range t va i))
          ∙ got.outside b (ground arith))

  pub HasGrown-linked : HasGrown k (record k1 { mem = linked_mem }) pt
  HasGrown-linked = record {
    space = record {
      tree = is_linked.tree;
      zero_used = got.still_used 0 space.zero_used;
      counted = counted_new;
    };
    tables = λ va' j t' hj e. elim (is_linked.tables va' j t' hj e) [
      | inl old ↦ inl old
      | inr new ↦ inr (rw new got.was_free)
    ];
    outside = byte_outside;
    still_used = got.still_used;
    else = record {
      processes = got.else.processes;
      current = got.else.current;
      ticks = got.else.ticks;
      pagetable_owner = got.else.pagetable_owner;
      cr3 = got.else.cr3;
      keys = got.else.keys;
    };
  }

-- A missing table is linked, so that the walk for `va` comes one level further; or NULL.
pub record IsExtended (k k' : Kernel) (pt va i pe : ℕ) : Type 0 where
  pub grown : HasGrown k k' pt
  pub leaves : SameLeaves k k' pt
  pub entry_is : pe ≡ entry k'.mem pt va i
  pub present : has_flag pe pte_p ≡ true

module _ {k : Kernel} {pt : ℕ} (space : IsSpace k pt) (va i t : ℕ) (hi : i ≤ 2)
    (at : table k.mem pt va i ≡ some t) where
  abbrev pub Outcome : ℕ → Kernel → Type 0
  Outcome pe k' =
      ((pe ≡ 0) × (k' ≡ k) × (has_flag (entry k.mem pt va i) pte_p ≡ false))
      ⊎ IsExtended k k' pt va i pe

  module _ (absent : has_flag (entry k.mem pt va i) pte_p ≡ false) where
    link_allocated :
        (f : ℕ) (k1 : Kernel)
        → IsAllocated k k1 f
        → IsExtended k (record k1 { mem = linking k1.mem (slot t va i) f }) pt va i (link f)
    link_allocated f k1 got = record {
      grown = HasGrown-linked space va i t f hi at absent got;
      leaves = (is_linked space va i t f hi at absent got).leaf;
      entry_is =
          link-sum f got.aligned got.below
          ∙ sym (is_linked space va i t f hi at absent got).link_here;
      present =
          rw (link-sum f got.aligned got.below) (ground (arith, has_flag-p (f + 7), got.aligned));
    }

    allocate_from :
        (perm f : ℕ) (k1 : Kernel)
        → ((f ≡ 0) × (k1 ≡ k)) ⊎ IsAllocated k k1 f
        → Returns Outcome (
            (if f == 0 then pure 0 else do
              assert (f % page_size == 0)
              write64 (slot t va i) (link f)
              clear f page_size
              pure (link f))
              k1)
    allocate_from perm f k1 (inl (null, same)) = rw null (returns (inl (refl, same, absent)))
    allocate_from perm f k1 (inr got) =
        let some_page : (f == 0) ≡ false = ground (arith, got.positive) in
        let aligned : (f % page_size == 0) ≡ true = ground (arith, got.aligned) in
        rw (some_page, aligned) (returns (inr (link_allocated f k1 got)))

    pub allocate_table_lem :
        (allocator : Allocator) (perm : ℕ)
        → IsSound allocator
        → Returns Outcome (allocate_table allocator perm (slot t va i) k)
    unfolding allocate_table
    allocate_table_lem none perm sound = returns (inl (refl, refl, absent))
    allocate_table_lem (some allocator) perm sound = elim (Bool-cases (has_flag perm pte_p)) [
      | inl p ↦ rw p (Returns.bind (sound k space.zero_used) (allocate_from perm))
      | inr np ↦ rw np (returns (inl (refl, refl, absent)))
    ]
