-- ===== src/Paging/Tree.antt =====
-- The shape of a page table: a tree of tables, no two of them in one page.
use weensy_osvm.Base.{
  ℕ, suc, ◌+◌, ◌%◌, ◌^◌, ◌≤◌, ◌<◌, ◌≡◌, ◌≢◌, ◌⊎◌, sym, ◌∙◌, inl, true, false, some, arith,
}
use weensy_osvm.X86.{pageindex, pte_p, pte_w, pte_u, has_flag}
use weensy_osvm.X86.Entries.{pageindex-lt}
use weensy_osvm.Memory.{Mem, load64, store64}
use weensy_osvm.Memory.Access.{load64-store64_self, load64-store64_ne}
use weensy_osvm.Paging.{slot}
use weensy_osvm.Paging.Walk.{
  table, entry, same_path, table-same, entry-same, entry-same_path, entry_at,
}

pub record IsTable (m : Mem) (pt : ℕ) : Type 0 where
  -- every table lies in a page of its own below the end of physical memory
  pub placed :
      (va i t : ℕ) → i ≤ 3 → table m pt va i ≡ some t → (t % 4096 ≡ 0) × (0 < t) × (t < 0x200000)
  -- the entries that link tables are writable and open to the user
  pub full :
      (va i : ℕ)
      → i ≤ 2
      → has_flag (entry m pt va i) pte_p ≡ true
      → (has_flag (entry m pt va i) pte_w ≡ true) × (has_flag (entry m pt va i) pte_u ≡ true)
  -- walks that meet in one table have come the same way
  pub unique :
      (va va' i j t : ℕ)
      → i ≤ 3
      → j ≤ 3
      → table m pt va i ≡ some t
      → table m pt va' j ≡ some t
      → (i ≡ j) × (same_path i va va' ≡ true)

slot-inj :
    (t t' va va' i j : ℕ)
    → t % 4096 ≡ 0
    → t' % 4096 ≡ 0
    → slot t va i ≡ slot t' va' j
    → (t ≡ t') × (pageindex va i ≡ pageindex va' j)
unfolding slot
slot-inj t t' va va' i j h h' e = omega (arith, pageindex-lt va i, pageindex-lt va' j)

pub slot-aligned : (t va i : ℕ) → t % 4096 ≡ 0 → slot t va i % 8 ≡ 0
unfolding slot
slot-aligned t va i h = omega arith

module _ {m : Mem} {pt : ℕ} (tree : IsTable m pt) where
  -- The slot of one walk at level `i` is read by another only at that level of the same path.
  pub slot-ne :
      (va va' i j t t' : ℕ)
      → i ≤ 3
      → j ≤ 3
      → table m pt va i ≡ some t
      → table m pt va' j ≡ some t'
      → (i ≢ j) ⊎ (same_path (suc i) va va' ≡ false)
      → slot t va i ≢ slot t' va' j
  slot-ne va va' i j t t' hi hj e e' apart same =
      let a = tree.placed va i t hi e in
      let a' = tree.placed va' j t' hj e' in
      let both = slot-inj t t' va va' i j a.0 a'.0 same in
      let met : table m pt va' j ≡ some t = rw both.0 e' in
      let way = tree.unique va va' i j t hi hj e met in ground (arith)

-- The shape is a matter of the tables and of the entries that link them.
pub IsTable-same :
    (m m' : Mem) (pt : ℕ)
    → ((va i : ℕ) → i ≤ 3 → table m' pt va i ≡ table m pt va i)
    → ((va i : ℕ) → i ≤ 2 → entry m' pt va i ≡ entry m pt va i)
    → IsTable m pt
    → IsTable m' pt
IsTable-same m m' pt tables entries tree = record {
  placed = λ va i t h e. tree.placed va i t h (sym (tables va i h) ∙ e);
  full = λ va i h p. rw (entries va i h) (tree.full va i h (rw (entries va i h) at p));
  unique = λ va va' i j t h h' e e'.
      tree.unique va va' i j t h h' (sym (tables va i h) ∙ e) (sym (tables va' j h') ∙ e');
}

-- A write to the slot that the walk for `va` reads at level `i`.
module _ {m : Mem} {pt : ℕ} (tree : IsTable m pt) (va i t v : ℕ) (hi : i ≤ 3)
    (e : table m pt va i ≡ some t) where
  word-kept :
      (va' j t' : ℕ)
      → j ≤ 3
      → (j < i) ⊎ (same_path (suc i) va va' ≡ false)
      → table m pt va' j ≡ some t'
      → load64 (store64 m (slot t va i) v) (slot t' va' j) ≡ load64 m (slot t' va' j)
  word-kept va' j t' hj apart e' =
      load64-store64_ne m (slot t va i) v (slot t' va' j)
        (slot-aligned t va i (tree.placed va i t hi e).0)
        (slot-aligned t' va' j (tree.placed va' j t' hj e').0)
        (slot-ne tree va va' i j t t' hi hj e e' (ground arith))

  pub table-store :
      (va' j : ℕ)
      → j ≤ 3
      → (j ≤ i) ⊎ (same_path (suc i) va va' ≡ false)
      → table (store64 m (slot t va i) v) pt va' j ≡ table m pt va' j
  table-store va' j hj apart =
      table-same m _ pt va' j (λ k t' below. word-kept va' k t' (omega arith) (ground arith))

  pub entry-store_ne :
      (va' j : ℕ)
      → j ≤ 3
      → (j < i) ⊎ (same_path (suc i) va va' ≡ false)
      → entry (store64 m (slot t va i) v) pt va' j ≡ entry m pt va' j
  entry-store_ne va' j hj apart =
      entry-same m _ pt va' j (λ k t' below. word-kept va' k t' (omega arith) (ground arith))

  pub entry-store_self :
      (va' : ℕ)
      → v < 2 ^ 64
      → same_path (suc i) va va' ≡ true
      → entry (store64 m (slot t va i) v) pt va' i ≡ v
  entry-store_self va' hv same =
      entry-same_path _ pt va va' i same
      ∙ (entry_at _ pt va i (table-store va i hi (inl (omega arith)) ∙ e)
          ∙ load64-store64_self m (slot t va i) v hv)

-- The slots of a table lie in its page.
pub slot_range : (t va i : ℕ) → (t ≤ slot t va i) × (slot t va i + 8 ≤ t + 4096)
unfolding slot
slot_range t va i = omega (arith, pageindex-lt va i)
