-- ===== src/Paging/L4.antt =====
-- `lookup_l4pagetable` finds or makes the last-level table of an address, and changes no mapping.
use native.Mathlib.Numerals.{add-one}
use weensy_osvm.Base.{
  ℕ, zero, suc, ◌+◌, ◌≤◌, ◌<◌, ◌≡◌, ◌⊎◌, inl, inr, refl, ◌∙◌, ltb, true, false, none, some, arith,
  ◌==◌, Bool-cases, if◌then◌else◌,
}
use weensy_osvm.X86.{pte_addr, pte_p, pte_w, pte_u, has_flag}
use weensy_osvm.State.{Kernel, ok, pure}
use weensy_osvm.State.Returns
use weensy_osvm.State.Returns.{Returns, returns}
use weensy_osvm.Memory.{load64}
use weensy_osvm.Paging.{
  Allocator, slot, allocate_table, check_entry, l4_loop, lookup_l4pagetable, memsize_physical,
}
use weensy_osvm.Paging.Walk.{table, entry, entry_at, table_step, child-present, table-below_absent}
use weensy_osvm.Paging.Space.{IsSpace, IsSound, HasGrown, HasGrown-refl, HasGrown-trans, SameLeaves}
use weensy_osvm.Paging.Grow.{Outcome, allocate_table_lem}

-- The result `r` of the walk: the last-level table, or NULL where there is none.
pub record IsWalked (k : Kernel) (pt va : ℕ) (r : ℕ) (k' : Kernel) : Type 0 where
  pub grown : HasGrown k k' pt
  pub leaves : SameLeaves k k' pt
  pub found :
      ((r ≡ 0) × (table k'.mem pt va 3 ≡ none)) ⊎ ((0 < r) × (table k'.mem pt va 3 ≡ some r))

nonzero_of_present : (pe : ℕ) → has_flag pe pte_p ≡ true → (pe == 0) ≡ false
unfolding has_flag
nonzero_of_present zero h = cc
nonzero_of_present (suc pe) h = ground arith

check_entry_ok :
    (perm pe : ℕ) (k : Kernel)
    → pte_addr pe < 0x200000
    → has_flag pe pte_w ≡ true
    → has_flag pe pte_u ≡ true
    → check_entry perm pe k ≡ ok tt k
unfolding check_entry
check_entry_ok perm pe k h w u =
    let sensible : ltb (pte_addr pe) memsize_physical ≡ true = ground arith in
    rw (sensible, w, u)
      (elim (Bool-cases (has_flag perm pte_w)) [
        | inl pw ↦
            rw pw (elim (Bool-cases (has_flag perm pte_u)) [
              | inl pu ↦ rw pu refl
              | inr nu ↦ rw nu refl
            ])
        | inr nw ↦
            rw nw (elim (Bool-cases (has_flag perm pte_u)) [
              | inl pu ↦ rw pu refl
              | inr nu ↦ rw nu refl
            ])
      ])

module _ (allocator : Allocator) (sound : IsSound allocator) (va perm : ℕ) {pt : ℕ} where
  -- The entry of the walk at level `i`, found or made.
  entry_found :
      {k : Kernel} (space : IsSpace k pt) (i t : ℕ) (hi : i ≤ 2) (at : table k.mem pt va i ≡ some t)
      → Returns (Outcome space va i t hi at) (
          (if has_flag (load64 k.mem (slot t va i)) pte_p
              then pure (load64 k.mem (slot t va i))
              else allocate_table allocator perm (slot t va i))
            k)
  entry_found {k} space i t hi at =
      rw (← entry_at k.mem pt va i at) (elim (Bool-cases (has_flag (entry k.mem pt va i) pte_p)) [
        | inl p ↦ rw p (
            returns (
              inr (record {
                grown = HasGrown-refl space;
                leaves = λ va'. refl;
                entry_is = refl;
                present = p;
              })))
        | inr absent ↦ rw absent (allocate_table_lem space va i t hi at absent allocator perm sound)
      ])

  l4_loop_lem :
      (n i t : ℕ) {k : Kernel}
      → i + n ≡ 3
      → IsSpace k pt
      → table k.mem pt va i ≡ some t
      → Returns (IsWalked k pt va) (l4_loop allocator va perm n i t k)
  unfolding l4_loop
  l4_loop_lem zero i t {k} e space at = returns (record {
    grown = HasGrown-refl space;
    leaves = λ va'. refl;
    found =
        let i_is : i ≡ 3 = omega arith in
        inr ((space.tree.placed va i t (omega arith) at).1, rw i_is at at);
  })
  l4_loop_lem (suc n) i t {k} e space at =
      Returns.bind (entry_found space i t (omega arith) at) (λ pe k1. elim [
        | inl (null, same, absent) ↦
            rw (null, same)
              (returns (record {
                grown = HasGrown-refl space;
                leaves = λ va'. refl;
                found = inl (refl, table-below_absent k.mem pt va i 3 absent (omega arith));
              }))
        | inr ext ↦
            let tree1 = ext.grown.space.tree in
            let next : table k1.mem pt va (suc i) ≡ some (pte_addr pe) =
              table_step k1.mem pt va i ∙ rw (← ext.entry_is) (child-present pe ext.present) in
            let flags = tree1.full va i (omega arith) (rw (← ext.entry_is) ext.present) in
            let below = (tree1.placed va (suc i) (pte_addr pe) (omega arith) next).2 in
            rw
              (
                nonzero_of_present pe ext.present,
                check_entry_ok perm pe k1 below (rw (← ext.entry_is) at flags.0)
                    (rw (← ext.entry_is) at flags.1),
              )
              (Returns.weaken
                (l4_loop_lem n (i + 1) (pte_addr pe) (omega arith) ext.grown.space
                  (rw add-one next))
                (λ r k2 w. record {
                  grown = HasGrown-trans ext.grown w.grown;
                  leaves = λ va'. w.leaves va' ∙ ext.leaves va';
                  found = w.found;
                }))
      ])

  pub lookup_l4pagetable_lem :
      {k : Kernel}
      → IsSpace k pt
      → Returns (IsWalked k pt va) (lookup_l4pagetable pt va perm allocator k)
  unfolding lookup_l4pagetable table
  lookup_l4pagetable_lem space = l4_loop_lem 3 0 pt refl space refl
