-- ===== src/Paging/Isolation.antt =====
-- A change to one page table leaves every page table that shares no table page with it alone.
use weensy_osvm.Base.{ℕ, ◌*◌, ◌/◌, ◌≤◌, ◌≡◌, ◌≢◌, inl, inr, sym, ap, ◌∙◌, some, arith}
use weensy_osvm.Memory.{load64}
use weensy_osvm.Memory.Access.{load64-same}
use weensy_osvm.State.{Kernel}
use weensy_osvm.State.Returns
use weensy_osvm.State.Returns.{Returns}
use weensy_osvm.Paging.{Allocator, slot, virtual_memory_map}
use weensy_osvm.Paging.Walk.{table, entry, table-same, entry-same}
use weensy_osvm.Paging.Tree.{IsTable-same, slot_range}
use weensy_osvm.Paging.Space.{IsSpace, IsSound, HasGrown}
use weensy_osvm.Paging.Lookup.{leaf, lookup-leaf}
use weensy_osvm.Paging.Write.{lookup}
use weensy_osvm.Paging.Round.{IsRequest}
use weensy_osvm.Paging.Map.{virtual_memory_map-IsMapped}

-- The two page tables have no table page in common.
abbrev pub Apart : Kernel → ℕ → ℕ → Type 0
Apart k pt other =
    (va va' i j t : ℕ)
    → i ≤ 3
    → j ≤ 3
    → table k.mem pt va i ≡ some t
    → table k.mem other va' j ≢ some t

module _ {k k' : Kernel} {pt other : ℕ} (grown : HasGrown k k' pt) (space : IsSpace k pt)
    (others : IsSpace k other) (apart : Apart k pt other) where
  word_same :
      (va j t : ℕ)
      → j ≤ 3
      → table k.mem other va j ≡ some t
      → load64 k'.mem (slot t va j) ≡ load64 k.mem (slot t va j)
  word_same va j t hj e =
      let aligned = (others.tree.placed va j t hj e).0 in
      load64-same k.mem k'.mem (slot t va j) (λ b p q.
        let page : b / 4096 ≡ t / 4096 = omega (arith, slot_range t va j) in
        grown.outside b (rw page (others.counted va j t hj e)) (λ va' i t' hi e' same.
          let aligned' = (space.tree.placed va' i t' hi e').0 in
          let met : t ≡ t' = omega arith in apart va' va i j t' hi hj e' (rw (← met) e)))

  table_kept : (va i : ℕ) → i ≤ 3 → table k'.mem other va i ≡ table k.mem other va i
  table_kept va i h =
      table-same k.mem k'.mem other va i (λ j t below. word_same va j t (omega arith))

  entry_kept : (va i : ℕ) → i ≤ 3 → entry k'.mem other va i ≡ entry k.mem other va i
  entry_kept va i h =
      entry-same k.mem k'.mem other va i (λ j t below. word_same va j t (omega arith))

  pub IsSpace-other : IsSpace k' other
  IsSpace-other = record {
    tree =
        IsTable-same k.mem k'.mem other table_kept (λ va i h. entry_kept va i (omega arith))
          others.tree;
    zero_used = grown.still_used 0 others.zero_used;
    counted = λ va i t h e.
        grown.still_used (t / 4096) (others.counted va i t h (sym (table_kept va i h) ∙ e));
  }

  pub lookup-other : (va : ℕ) → lookup k' other va ≡ lookup k other va
  lookup-other va =
      lookup-leaf IsSpace-other.tree va
      ∙ (ap (leaf va) (entry_kept va 3 (omega arith)) ∙ sym (lookup-leaf others.tree va))

  pub Apart-grown : Apart k' pt other
  Apart-grown va va' i j t hi hj e e' =
      let old' = sym (table_kept va' j hj) ∙ e' in
      elim (grown.tables va i t hi e) [
        | inl old ↦ apart va va' i j t hi hj old old'
        | inr free ↦ others.counted va' j t hj old' free
      ]

-- `virtual_memory_map` on one page table changes no mapping of another that shares no table page
-- with it, whether it succeeds or runs out of tables. The other stays a page table, and the two
-- still share no page.
pub virtual_memory_map-Apart :
    (allocator : Allocator)
    → IsSound allocator
    → (pt other va pa n perm : ℕ) {k : Kernel} → IsRequest va pa n perm
    → IsSpace k pt
    → IsSpace k other
    → Apart k pt other
    → Returns
        (λ r k'.
          ((va' : ℕ) → lookup k' other va' ≡ lookup k other va')
          × IsSpace k' other
          × Apart k' pt other)
        (virtual_memory_map pt va pa (n * 4096) perm allocator k)
virtual_memory_map-Apart allocator sound pt other va pa n perm asked space others apart =
    Returns.weaken (virtual_memory_map-IsMapped allocator sound perm va pa n asked space)
      (λ r k' done. (
        lookup-other done.grown space others apart,
        IsSpace-other done.grown space others apart,
        Apart-grown done.grown space others apart,
      ))
