-- ===== src/Paging/Untouched.antt =====
-- A page table is not disturbed by a change that leaves all pages in use alone.
use weensy_osvm.Base.{ℕ, ◌/◌, ◌≤◌, ◌≡◌, ◌≢◌, sym, ap, ◌∙◌, some, arith}
use weensy_osvm.Memory.{load64}
use weensy_osvm.Memory.Access.{load64-same}
use weensy_osvm.State.{Kernel}
use weensy_osvm.Paging.{slot}
use weensy_osvm.Paging.Walk.{table, entry, table-same, entry-same}
use weensy_osvm.Paging.Tree.{IsTable-same, slot_range}
use weensy_osvm.Paging.Space.{refcount_of, IsSpace, IsAllocated}
use weensy_osvm.Paging.Lookup.{leaf, lookup-leaf}
use weensy_osvm.Paging.Write.{lookup}

module _ (k k' : Kernel) {pt : ℕ} (space : IsSpace k pt)
    (same : (b : ℕ) → refcount_of k (b / 4096) ≢ 0 → k'.mem b ≡ k.mem b)
    (still_used : (p : ℕ) → refcount_of k p ≢ 0 → refcount_of k' p ≢ 0) where
  word_same :
      (va j t : ℕ)
      → j ≤ 3
      → table k.mem pt va j ≡ some t
      → load64 k'.mem (slot t va j) ≡ load64 k.mem (slot t va j)
  word_same va j t hj e =
      let aligned = (space.tree.placed va j t hj e).0 in
      load64-same k.mem k'.mem (slot t va j) (λ b p q.
        let page : b / 4096 ≡ t / 4096 = omega (arith, slot_range t va j) in
        same b (rw page (space.counted va j t hj e)))

  pub table-untouched : (va i : ℕ) → i ≤ 3 → table k'.mem pt va i ≡ table k.mem pt va i
  table-untouched va i h =
      table-same k.mem k'.mem pt va i (λ j t below. word_same va j t (omega arith))

  entry_kept : (va i : ℕ) → i ≤ 3 → entry k'.mem pt va i ≡ entry k.mem pt va i
  entry_kept va i h = entry-same k.mem k'.mem pt va i (λ j t below. word_same va j t (omega arith))

  pub IsSpace-untouched : IsSpace k' pt
  IsSpace-untouched = record {
    tree =
        IsTable-same k.mem k'.mem pt table-untouched (λ va i h. entry_kept va i (omega arith))
          space.tree;
    zero_used = still_used 0 space.zero_used;
    counted = λ va i t h e.
        still_used (t / 4096) (space.counted va i t h (sym (table-untouched va i h) ∙ e));
  }

  pub lookup-untouched : (va : ℕ) → lookup k' pt va ≡ lookup k pt va
  lookup-untouched va =
      lookup-leaf IsSpace-untouched.tree va
      ∙ (ap (leaf va) (entry_kept va 3 (omega arith)) ∙ sym (lookup-leaf space.tree va))

-- The allocation of a page disturbs no page in use.
pub allocated-same :
    {k k' : Kernel} {f : ℕ}
    → IsAllocated k k' f
    → (b : ℕ) → refcount_of k (b / 4096) ≢ 0
    → k'.mem b ≡ k.mem b
allocated-same {k} {k'} {f} got b used =
    let other : b / 4096 ≢ f / 4096 = λ e. used (rw e got.was_free) in
    let aligned = got.aligned in got.outside b (ground arith)
