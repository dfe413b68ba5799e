-- ===== src/Paging/Space.antt =====
-- Page tables in the kernel's state: their pages are counted in `pageinfo`, and what a change to
-- one of them may touch.
use weensy_osvm.Base.{
  ℕ, ◌+◌, ◌%◌, ◌/◌, ◌≤◌, ◌<◌, ◌≡◌, ◌≢◌, ◌⊎◌, inl, inr, refl, ◌∙◌, none, some, arith, ◌==◌,
  Bool-cases,
}
use weensy_osvm.State.{Kernel, K}
use weensy_osvm.State.Returns.{Returns}
use weensy_osvm.Paging.{Allocator}
use weensy_osvm.Paging.Walk.{table, entry}
use weensy_osvm.Paging.Tree.{IsTable}

abbrev pub refcount_of : Kernel → ℕ → ℕ
refcount_of k page = (k.pageinfo page).refcount

pub record IsSpace (k : Kernel) (pt : ℕ) : Type 0 where
  pub tree : IsTable k.mem pt
  -- page 0 is reserved, so that its address can stand for NULL
  pub zero_used : refcount_of k 0 ≢ 0
  pub counted : (va i t : ℕ) → i ≤ 3 → table k.mem pt va i ≡ some t → refcount_of k (t / 4096) ≢ 0

-- Nothing but memory and `pageinfo` differs.
pub record SameElse (k k' : Kernel) : Type 0 where
  pub processes : k'.processes ≡ k.processes
  pub current : k'.current ≡ k.current
  pub ticks : k'.ticks ≡ k.ticks
  pub pagetable_owner : k'.pagetable_owner ≡ k.pagetable_owner
  pub cr3 : k'.cr3 ≡ k.cr3
  pub keys : k'.keys ≡ k.keys

-- From `k` to `k'` the page `f` was given out; its contents may have changed.
pub record IsAllocated (k k' : Kernel) (f : ℕ) : Type 0 where
  pub aligned : f % 4096 ≡ 0
  pub positive : 0 < f
  pub below : f < 0x200000
  pub was_free : refcount_of k (f / 4096) ≡ 0
  pub now_used : refcount_of k' (f / 4096) ≢ 0
  pub still_used : (p : ℕ) → refcount_of k p ≢ 0 → refcount_of k' p ≢ 0
  pub outside : (b : ℕ) → (b < f) ⊎ (f + 4096 ≤ b) → k'.mem b ≡ k.mem b
  pub else : SameElse k k'

-- The contract of an allocator while page 0 is in use: it gives out a free page, or returns NULL
-- and changes nothing.
abbrev pub IsAllocator : K ℕ → Type 0
IsAllocator allocator =
    (k : Kernel)
    → refcount_of k 0 ≢ 0
    → Returns (λ f k'. ((f ≡ 0) × (k' ≡ k)) ⊎ IsAllocated k k' f) (allocator k)

abbrev pub IsSound : Allocator → Type 0
IsSound none = Unit
IsSound (some allocator) = IsAllocator allocator

-- From `k` to `k'` the page table may have grown by pages that were free, memory has changed only
-- in its own tables and in free pages, and no page has been freed.
pub record HasGrown (k k' : Kernel) (pt : ℕ) : Type 0 where
  pub space : IsSpace k' pt
  pub tables :
      (va i t : ℕ)
      → i ≤ 3
      → table k'.mem pt va i ≡ some t
      → (table k.mem pt va i ≡ some t) ⊎ (refcount_of k (t / 4096) ≡ 0)
  pub outside :
      (b : ℕ)
      → refcount_of k (b / 4096) ≢ 0
      → ((va i t : ℕ) → i ≤ 3 → table k.mem pt va i ≡ some t → b / 4096 ≢ t / 4096)
      → k'.mem b ≡ k.mem b
  pub still_used : (p : ℕ) → refcount_of k p ≢ 0 → refcount_of k' p ≢ 0
  pub else : SameElse k k'

abbrev pub SameLeaves : Kernel → Kernel → ℕ → Type 0
SameLeaves k k' pt = (va : ℕ) → entry k'.mem pt va 3 ≡ entry k.mem pt va 3

pub SameElse-refl : (k : Kernel) → SameElse k k
SameElse-refl k = record {
  processes = refl;
  current = refl;
  ticks = refl;
  pagetable_owner = refl;
  cr3 = refl;
  keys = refl;
}

pub SameElse-trans : {k k' k'' : Kernel} → SameElse k k' → SameElse k' k'' → SameElse k k''
SameElse-trans a b = record {
  processes = b.processes ∙ a.processes;
  current = b.current ∙ a.current;
  ticks = b.ticks ∙ a.ticks;
  pagetable_owner = b.pagetable_owner ∙ a.pagetable_owner;
  cr3 = b.cr3 ∙ a.cr3;
  keys = b.keys ∙ a.keys;
}

pub HasGrown-refl : {k : Kernel} {pt : ℕ} → IsSpace k pt → HasGrown k k pt
HasGrown-refl {k} space = record {
  space = space;
  tables = λ va i t h e. inl e;
  outside = λ b u o. refl;
  still_used = λ p u. u;
  else = SameElse-refl k;
}

module _ {k k' k'' : Kernel} {pt : ℕ} (a : HasGrown k k' pt) (b : HasGrown k' k'' pt) where
  was_free : (p : ℕ) → refcount_of k' p ≡ 0 → refcount_of k p ≡ 0
  was_free p e = elim (Bool-cases (refcount_of k p == 0)) [
    | inl z ↦ ground arith
    | inr nz ↦ absurd (a.still_used p (ground arith) e)
  ]

  trans_tables :
      (va i t : ℕ)
      → i ≤ 3
      → table k''.mem pt va i ≡ some t
      → (table k.mem pt va i ≡ some t) ⊎ (refcount_of k (t / 4096) ≡ 0)
  trans_tables va i t h e = elim (b.tables va i t h e) [
    | inl mid ↦ a.tables va i t h mid
    | inr free ↦ inr (was_free (t / 4096) free)
  ]

  trans_apart :
      (x : ℕ)
      → refcount_of k (x / 4096) ≢ 0
      → ((va i t : ℕ) → i ≤ 3 → table k.mem pt va i ≡ some t → x / 4096 ≢ t / 4096)
      → (va i t : ℕ) → i ≤ 3
      → table k'.mem pt va i ≡ some t
      → x / 4096 ≢ t / 4096
  trans_apart x u o va i t h e = elim (a.tables va i t h e) [
    | inl old ↦ o va i t h old
    | inr free ↦ λ same. u (rw same free)
  ]

  pub HasGrown-trans : HasGrown k k'' pt
  HasGrown-trans = record {
    space = b.space;
    tables = trans_tables;
    outside =
        λ x u o. b.outside x (a.still_used (x / 4096) u) (trans_apart x u o) ∙ a.outside x u o;
    still_used = λ p u. b.still_used p (a.still_used p u);
    else = SameElse-trans a.else b.else;
  }
