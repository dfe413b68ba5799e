-- ===== src/Paging/Write.antt =====
-- The write of one last-level entry by `virtual_memory_map`.
use weensy_osvm.Base.{
  ℕ, ◌/◌, ◌^◌, ◌≤◌, ◌<◌, ◌≡◌, ◌≢◌, inl, inr, refl, sym, ap, ◌∙◌, some, arith, Bool-cases,
  if◌then◌else◌,
}
use weensy_osvm.Memory.{store64}
use weensy_osvm.Memory.Access.{store64-outside}
use weensy_osvm.State.{Kernel}
use weensy_osvm.Paging.{slot, VaMapping, virtual_memory_lookup}
use weensy_osvm.Paging.Walk.{table, same_path}
use weensy_osvm.Paging.Tree.{
  IsTable-same, table-store, entry-store_ne, entry-store_self, slot_range,
}
use weensy_osvm.Paging.Space.{IsSpace, HasGrown}
use weensy_osvm.Paging.Lookup.{leaf, lookup-leaf}

-- The mapping of `va` in the page table `pt`.
abbrev pub lookup : Kernel → ℕ → ℕ → VaMapping
lookup k pt va = virtual_memory_lookup k.mem pt va

module _ {k : Kernel} {pt : ℕ} (space : IsSpace k pt) (va l4 v : ℕ)
    (at : table k.mem pt va 3 ≡ some l4) where
  abbrev pub written : Kernel
  written = record k { mem = store64 k.mem (slot l4 va 3) v }

  pub tables_kept : (va' i : ℕ) → i ≤ 3 → table written.mem pt va' i ≡ table k.mem pt va' i
  tables_kept va' i h = table-store space.tree va 3 l4 v (omega arith) at va' i h (inl h)

  byte_kept :
      (b : ℕ)
      → ((va' i t : ℕ) → i ≤ 3 → table k.mem pt va' i ≡ some t → b / 4096 ≢ t / 4096)
      → written.mem b ≡ k.mem b
  byte_kept b apart =
      let a = (space.tree.placed va 3 l4 (omega arith) at).0 in
      let off = apart va 3 l4 (omega arith) at in
      store64-outside k.mem (slot l4 va 3) v b (ground (arith, slot_range l4 va 3))

  pub HasGrown-written : HasGrown k written pt
  HasGrown-written = record {
    space = record {
      tree =
          IsTable-same k.mem written.mem pt tables_kept
            (λ va' i h.
              entry-store_ne space.tree va 3 l4 v (omega arith) at va' i (omega arith)
                (inl (omega arith)))
            space.tree;
      zero_used = space.zero_used;
      counted = λ va' i t h e. space.counted va' i t h (sym (tables_kept va' i h) ∙ e);
    };
    tables = λ va' i t h e. inl (sym (tables_kept va' i h) ∙ e);
    outside = λ b used apart. byte_kept b apart;
    still_used = λ p u. u;
    else = record {
      processes = refl;
      current = refl;
      ticks = refl;
      pagetable_owner = refl;
      cr3 = refl;
      keys = refl;
    };
  }

  pub lookup-written :
      (va' : ℕ)
      → v < 2 ^ 64
      → lookup written pt va' ≡ (if same_path 4 va va' then leaf va' v else lookup k pt va')
  lookup-written va' hv = elim (Bool-cases (same_path 4 va va')) [
    | inl same ↦ rw same (
        lookup-leaf HasGrown-written.space.tree va'
        ∙ ap (leaf va') (entry-store_self space.tree va 3 l4 v (omega arith) at va' hv same))
    | inr other ↦ rw other (
        lookup-leaf HasGrown-written.space.tree va'
        ∙ (ap (leaf va')
              (entry-store_ne space.tree va 3 l4 v (omega arith) at va' 3 (omega arith) (inr other))
            ∙ sym (lookup-leaf space.tree va')))
  ]
