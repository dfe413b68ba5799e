-- ===== src/Paging/Empty.antt =====
-- A cleared page is an empty page table.
use weensy_osvm.Base.{
  ℕ, zero, suc, ◌%◌, ◌/◌, ◌<◌, ◌≡◌, ◌≢◌, refl, sym, ◌∙◌, none, some, true, false, arith,
}
use weensy_osvm.X86.{pte_p, has_flag}
use weensy_osvm.Memory.{Mem, load64}
use weensy_osvm.State.{Kernel}
use weensy_osvm.Paging.{slot, unmapped}
use weensy_osvm.Paging.Walk.{table, entry, entry_at, entry-below_absent, table-below_absent}
use weensy_osvm.Paging.Tree.{IsTable}
use weensy_osvm.Paging.Space.{refcount_of, IsSpace}
use weensy_osvm.Paging.Lookup.{lookup-leaf, leaf-absent, zero_absent}
use weensy_osvm.Paging.Write.{lookup}

-- Every entry of the table is zero.
abbrev pub IsCleared : Mem → ℕ → Type 0
IsCleared m pt = (va i : ℕ) → load64 m (slot pt va i) ≡ 0

absurd_flag {ℓ} : {A : Type ℓ} → false ≡ true → A
absurd_flag e = absurd (false_true e)
  where
    false_true : false ≡ true → ⊥
    false_true e = cc

module _ (m : Mem) (pt : ℕ) (cleared : IsCleared m pt) where
  top_absent : (va : ℕ) → has_flag (entry m pt va 0) pte_p ≡ false
  unfolding table
  top_absent va = rw (entry_at m pt va 0 refl, cleared va 0) zero_absent

  entry_absent : (va i : ℕ) → has_flag (entry m pt va i) pte_p ≡ false
  entry_absent va zero = top_absent va
  entry_absent va (suc i) =
      rw (entry-below_absent m pt va 0 (suc i) (top_absent va) (omega arith)) zero_absent

  pub table-cleared : (va i t : ℕ) → table m pt va i ≡ some t → (i ≡ 0) × (t ≡ pt)
  unfolding table
  table-cleared va zero t e = (refl, cc)
  table-cleared va (suc i) t e = absurd (none-ne-some t (sym below ∙ e))
    where
      none-ne-some : (t : ℕ) → none ≡ some t → ⊥
      none-ne-some t e = cc

      below : table m pt va (suc i) ≡ none
      below = table-below_absent m pt va 0 (suc i) (top_absent va) (omega arith)

  pub IsTable-cleared : pt % 4096 ≡ 0 → 0 < pt → pt < 0x200000 → IsTable m pt
  IsTable-cleared aligned positive below = record {
    placed = λ va i t h e. rw (table-cleared va i t e).1 (aligned, positive, below);
    full = λ va i h p. absurd_flag (sym (entry_absent va i) ∙ p);
    unique = λ va va' i j t h h' e e'.
        let at = (table-cleared va i t e).0 in (at ∙ sym (table-cleared va' j t e').0, rw at refl);
  }

  -- It maps nothing.
  pub lookup-cleared :
      (k : Kernel) → k.mem ≡ m → IsTable m pt → (va : ℕ) → lookup k pt va ≡ unmapped
  lookup-cleared k is tree va =
      rw is (lookup-leaf tree va ∙ leaf-absent va (entry m pt va 3) (entry_absent va 3))

-- A cleared page that is counted is a page table of the kernel.
pub IsSpace-cleared :
    (k : Kernel) (pt : ℕ)
    → IsCleared k.mem pt
    → pt % 4096 ≡ 0
    → 0 < pt
    → pt < 0x200000
    → refcount_of k 0 ≢ 0
    → refcount_of k (pt / 4096) ≢ 0
    → IsSpace k pt
IsSpace-cleared k pt cleared aligned positive below zero_used used = record {
  tree = IsTable-cleared k.mem pt cleared aligned positive below;
  zero_used = zero_used;
  counted = λ va i t h e. rw (table-cleared k.mem pt cleared va i t e).1 used;
}
