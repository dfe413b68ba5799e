-- ===== src/Paging/Link.antt =====
-- Linking a fresh, cleared table into a page table changes no mapping and keeps its shape.
use weensy_osvm.Base.{
  ℕ, zero, suc, ◌+◌, ◌%◌, ◌≤◌, ◌<◌, ◌≡◌, ◌≢◌, ◌⊎◌, inl, inr, refl, sym, ap, ◌∙◌, ltb, true, false,
  some, arith, ◌==◌, Bool-cases,
}
use weensy_osvm.X86.{pte_addr, pte_p, pte_w, pte_u, has_flag}
use weensy_osvm.X86.Entries.{has_flag-p, has_flag-w, has_flag-u, pte_addr-div}
use weensy_osvm.Memory.{Mem, load64}
use weensy_osvm.Paging.{slot}
use weensy_osvm.Paging.Walk.{
  table, entry, same_path, table-same, entry-same, table_step, entry_at, entry-same_path,
  child-present, table-above, entry-below_absent, same_path_refl, same_path-join,
}
use weensy_osvm.Paging.Tree.{IsTable}

-- `f` is a page for a table, and no table of the walks from `pt` lies in it.
pub record IsFresh (m : Mem) (pt f : ℕ) : Type 0 where
  pub aligned : f % 4096 ≡ 0
  pub positive : 0 < f
  pub below : f < 0x200000
  pub unused : (va j : ℕ) → j ≤ 3 → table m pt va j ≢ some f

-- `m'` is `m` with the table `f` linked at level `i` of the walk for `va`.
pub record IsLinked (m m' : Mem) (pt va i f : ℕ) : Type 0 where
  pub leaf : (va' : ℕ) → entry m' pt va' 3 ≡ entry m pt va' 3
  pub tree : IsTable m' pt
  pub here : table m' pt va (suc i) ≡ some f
  pub link_here : entry m' pt va i ≡ f + 7
  pub tables :
      (va' j t : ℕ) → j ≤ 3 → table m' pt va' j ≡ some t → (table m pt va' j ≡ some t) ⊎ (t ≡ f)

-- The entry `f | 7` as an entry.
link_flags :
    (f : ℕ)
    → f % 4096 ≡ 0
    → f < 0x200000
    → (has_flag (f + 7) pte_p ≡ true)
      × (has_flag (f + 7) pte_w ≡ true)
      × (has_flag (f + 7) pte_u ≡ true)
      × (pte_addr (f + 7) ≡ f)
link_flags f h k = (
  ground (arith, has_flag-p (f + 7)),
  ground (arith, has_flag-w (f + 7)),
  ground (arith, has_flag-u (f + 7)),
  omega (arith, pte_addr-div (f + 7)),
)

zero_absent : has_flag 0 pte_p ≢ true
unfolding has_flag
zero_absent e = cc

module _ {m : Mem} {pt : ℕ} (tree : IsTable m pt) (m' : Mem) (va i t f : ℕ) (hi : i ≤ 2)
    (at : table m pt va i ≡ some t) (absent : has_flag (entry m pt va i) pte_p ≡ false)
    (fresh : IsFresh m pt f)
    (kept : (va' j t' : ℕ)
      → j ≤ 3
      → (j ≢ i) ⊎ (same_path (suc i) va va' ≡ false)
      → table m pt va' j ≡ some t'
      → load64 m' (slot t' va' j) ≡ load64 m (slot t' va' j))
    (linked : load64 m' (slot t va i) ≡ f + 7)
    (cleared : (va' j : ℕ) → load64 m' (slot f va' j) ≡ 0) where
  flags :
      (has_flag (f + 7) pte_p ≡ true)
      × (has_flag (f + 7) pte_w ≡ true)
      × (has_flag (f + 7) pte_u ≡ true)
      × (pte_addr (f + 7) ≡ f)
  flags = link_flags f fresh.aligned fresh.below

  table-old :
      (va' j : ℕ)
      → j ≤ 3
      → (j ≤ i) ⊎ (same_path (suc i) va va' ≡ false)
      → table m' pt va' j ≡ table m pt va' j
  table-old va' j hj apart =
      table-same m m' pt va' j (λ k t' below. kept va' k t' (omega arith) (ground arith))

  entry-old :
      (va' j : ℕ)
      → j ≤ 3
      → (j < i) ⊎ (same_path (suc i) va va' ≡ false)
      → entry m' pt va' j ≡ entry m pt va' j
  entry-old va' j hj apart =
      entry-same m m' pt va' j (λ k t' below. kept va' k t' (omega arith) (ground arith))

  entry-new : (va' : ℕ) → same_path (suc i) va va' ≡ true → entry m' pt va' i ≡ f + 7
  entry-new va' same =
      entry-same_path m' pt va va' i same
      ∙ (entry_at m' pt va i (table-old va i (omega arith) (inl (omega arith)) ∙ at) ∙ linked)

  table-new : (va' : ℕ) → same_path (suc i) va va' ≡ true → table m' pt va' (suc i) ≡ some f
  table-new va' same =
      table_step m' pt va' i
      ∙ (rw (entry-new va' same) (child-present (f + 7) flags.0 ∙ rw flags.3))

  entry-new_zero : (va' j : ℕ) → same_path (suc i) va va' ≡ true → i < j → entry m' pt va' j ≡ 0
  unfolding has_flag
  entry-new_zero va' j same lt =
      let first : entry m' pt va' (suc i) ≡ 0 =
        entry_at m' pt va' (suc i) (table-new va' same) ∙ cleared va' (suc i) in
      elim (Bool-cases (j == suc i)) [
        | inl e ↦ let e' : j ≡ suc i = ground arith in rw e' first
        | inr ne ↦ entry-below_absent m' pt va' (suc i) j (rw first refl) (ground arith)
      ]

  entry-absent :
      (va' : ℕ) → same_path (suc i) va va' ≡ true → has_flag (entry m pt va' i) pte_p ≡ false
  entry-absent va' same = rw (entry-same_path m pt va va' i same) absent

  leaf_kept : (va' : ℕ) → entry m' pt va' 3 ≡ entry m pt va' 3
  leaf_kept va' = elim (Bool-cases (same_path (suc i) va va')) [
    | inl same ↦
        entry-new_zero va' 3 same (omega arith)
        ∙ sym (entry-below_absent m pt va' i 3 (entry-absent va' same) (omega arith))
    | inr other ↦ entry-old va' 3 (omega arith) (inr other)
  ]

  -- Every table of the new walks is an old one of the same walk, or the new table.
  table-cases :
      (va' j t' : ℕ)
      → j ≤ 3
      → table m' pt va' j ≡ some t'
      → (table m pt va' j ≡ some t') ⊎ ((t' ≡ f) × (j ≡ suc i) × (same_path (suc i) va va' ≡ true))
  table-cases va' zero t' hj e = inl (sym (table-old va' zero hj (inl (omega arith))) ∙ e)
  table-cases va' (suc k) t' hj e = elim (Bool-cases (same_path (suc i) va va')) [
    | inr other ↦ inl (sym (table-old va' (suc k) hj (inr other)) ∙ e)
    | inl same ↦ elim (Bool-cases (ltb k i)) [
      | inl above ↦ inl (sym (table-old va' (suc k) hj (inl (ground arith))) ∙ e)
      | inr not_above ↦ elim (Bool-cases (k == i)) [
        | inl e' ↦
            let k_is : k ≡ i = ground arith in
            let new : some f ≡ some t' = sym (table-new va' same) ∙ (rw k_is at e) in
            inr (cc, ap suc k_is, same)
        | inr ne ↦
            let gone : has_flag 0 pte_p ≡ true =
              rw (entry-new_zero va' k same (ground arith)) at (table-above m' pt va' k e).0 in
            absurd (zero_absent gone)
      ]
    ]
  ]

  full_new :
      (va' j : ℕ)
      → j ≤ 2
      → has_flag (entry m' pt va' j) pte_p ≡ true
      → (has_flag (entry m' pt va' j) pte_w ≡ true) × (has_flag (entry m' pt va' j) pte_u ≡ true)
  full_new va' j hj p = elim (Bool-cases (same_path (suc i) va va')) [
    | inr other ↦
        let old = entry-old va' j (omega arith) (inr other) in
        rw old (tree.full va' j hj (rw old at p))
    | inl same ↦ elim (Bool-cases (ltb j i)) [
      | inl above ↦
          let old = entry-old va' j (omega arith) (inl (ground arith)) in
          rw old (tree.full va' j hj (rw old at p))
      | inr not_above ↦ elim (Bool-cases (j == i)) [
        | inl e' ↦
            let j_is : j ≡ i = ground arith in rw (j_is, entry-new va' same) (flags.1, flags.2)
        | inr ne ↦ absurd (zero_absent (rw (entry-new_zero va' j same (ground arith)) at p))
      ]
    ]
  ]

  unique_new :
      (va1 va2 j1 j2 t' : ℕ)
      → j1 ≤ 3
      → j2 ≤ 3
      → table m' pt va1 j1 ≡ some t'
      → table m' pt va2 j2 ≡ some t'
      → (j1 ≡ j2) × (same_path j1 va1 va2 ≡ true)
  unique_new va1 va2 j1 j2 t' h1 h2 e1 e2 = elim (table-cases va1 j1 t' h1 e1) [
    | inl o1 ↦ elim (table-cases va2 j2 t' h2 e2) [
      | inl o2 ↦ tree.unique va1 va2 j1 j2 t' h1 h2 o1 o2
      | inr (n2, _, _) ↦ absurd (fresh.unused va1 j1 h1 (rw (← n2) o1))
    ]
    | inr (n1, k1, s1) ↦ elim (table-cases va2 j2 t' h2 e2) [
      | inl o2 ↦ absurd (fresh.unused va2 j2 h2 (rw (← n1) o2))
      | inr (n2, k2, s2) ↦ (k1 ∙ sym k2, rw k1 (same_path-join (suc i) va va1 va2 s1 s2))
    ]
  ]

  IsTable-linked : IsTable m' pt
  IsTable-linked = record {
    placed = λ va' j t' hj e. elim (table-cases va' j t' hj e) [
      | inl old ↦ tree.placed va' j t' hj old
      | inr (new, _, _) ↦ rw new (fresh.aligned, fresh.positive, fresh.below)
    ];
    full = full_new;
    unique = unique_new;
  }

  pub IsLinked-IsLinked : IsLinked m m' pt va i f
  IsLinked-IsLinked = record {
    leaf = leaf_kept;
    tree = IsTable-linked;
    here = table-new va (same_path_refl (suc i) va);
    link_here = entry-new va (same_path_refl (suc i) va);
    tables = λ va' j t' hj e. ground (arith, table-cases va' j t' hj e);
  }
