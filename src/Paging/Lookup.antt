-- ===== src/Paging/Lookup.antt =====
-- `virtual_memory_lookup` reads the last entry of the walk.
use weensy_osvm.Base.{
  ℕ, zero, suc, ◌+◌, ◌%◌, ◌/◌, ◌≡◌, inl, inr, refl, sym, ap, ◌∙◌, bit_and, true, false, some, arith,
  if◌then◌else◌, Bool-cases,
}
use native.Mathlib.Numerals.{add-one}
use weensy_osvm.Base.Bits.{bit_and-lowest, zero-bit_and}
use weensy_osvm.X86.{
  u64, page_number, page_offset, pte_addr, pte_flags, pte_p, pte_w, pte_u, has_flag,
}
use weensy_osvm.X86.Entries.{has_flag-p, has_flag-w, has_flag-u, pte_flags-mod}
use weensy_osvm.Memory.{Mem, load64}
use weensy_osvm.Paging.{slot, VaMapping, unmapped, lookup_loop, vamapping_of, virtual_memory_lookup}
use weensy_osvm.Paging.Walk.{table, entry, table_step, entry_at, child-present, entry-below_absent}
use weensy_osvm.Paging.Tree.{IsTable}

-- The mapping that a last-level entry stands for.
unfoldable pub leaf : ℕ → ℕ → VaMapping
leaf va pe =
    if has_flag pe pte_p
    then record { pn = page_number pe; pa = u64 (pte_addr pe + page_offset va); perm = pe % 8 }
    else unmapped

perms_step : (pe : ℕ) → bit_and 7 (pte_flags pe) ≡ pe % 8
perms_step pe = ground (
  arith,
  pte_flags-mod pe,
  bit_and-lowest 7 (pte_flags pe),
  bit_and-lowest 3 (pte_flags pe / 2),
  bit_and-lowest 1 (pte_flags pe / 2 / 2),
  zero-bit_and (pte_flags pe / 2 / 2 / 2),
)

perms_full :
    (pe : ℕ)
    → has_flag pe pte_p ≡ true
    → (has_flag pe pte_w ≡ true) × (has_flag pe pte_u ≡ true)
    → bit_and 7 (pte_flags pe) ≡ 7
perms_full pe p wu = ground (arith, perms_step pe, has_flag-p pe, has_flag-w pe, has_flag-u pe)

perms_present : (pe : ℕ) → has_flag (bit_and 7 (pte_flags pe)) pte_p ≡ has_flag pe pte_p
perms_present pe = rw (perms_step pe) (ground (arith, has_flag-p pe, has_flag-p (pe % 8)))

lookup_end :
    (m : Mem) (va i pt pe : ℕ)
    → vamapping_of va (lookup_loop m va 0 i pt pe (bit_and 7 (pte_flags pe))) ≡ leaf va pe
unfolding lookup_loop vamapping_of leaf
lookup_end m va i pt pe = rw (perms_present pe, perms_step pe) refl

lookup_absent :
    (m : Mem) (va n i pt pe : ℕ)
    → has_flag pe pte_p ≡ false
    → vamapping_of va (lookup_loop m va n i pt pe (bit_and 7 (pte_flags pe))) ≡ unmapped
unfolding lookup_loop vamapping_of
lookup_absent m va zero i pt pe h = rw (perms_present pe, h) refl
lookup_absent m va (suc n) i pt pe h = rw (perms_present pe, h) (rw (perms_present pe, h) refl)

lookup_step :
    (m : Mem) (va n i t pe : ℕ) {e : ℕ}
    → e ≡ load64 m (slot t va i)
    → lookup_loop m va (suc n) i t pe 7
      ≡ lookup_loop m va n (i + 1) (pte_addr e) e (bit_and 7 (pte_flags e))
unfolding lookup_loop has_flag
lookup_step m va n i t pe at = rw at refl

pub leaf-absent : (va pe : ℕ) → has_flag pe pte_p ≡ false → leaf va pe ≡ unmapped
unfolding leaf
leaf-absent va pe h = rw h refl

pub zero_absent : has_flag 0 pte_p ≡ false
unfolding has_flag
zero_absent = refl

module _ {m : Mem} {pt : ℕ} (tree : IsTable m pt) (va : ℕ) where
  lookup_from :
      (n i t pe : ℕ)
      → i + suc n ≡ 4
      → table m pt va i ≡ some t
      → vamapping_of va (lookup_loop m va (suc n) i t pe 7) ≡ leaf va (entry m pt va 3)
  lookup_from zero i t pe h e =
      let i_is : i ≡ 3 = omega arith in
      let at : table m pt va 3 ≡ some t = rw i_is at e in
      rw (lookup_step m va 0 i t pe (entry_at m pt va i e), lookup_end)
        (ap (λ j. leaf va (entry m pt va j)) i_is)
  lookup_from (suc n) i t pe h e =
      let e' = entry m pt va i in
      rw (lookup_step m va (suc n) i t pe (entry_at m pt va i e))
        (elim (Bool-cases (has_flag e' pte_p)) [
          | inl present ↦ rw (perms_full e' present (tree.full va i (omega arith) present)) (
              lookup_from n (i + 1) (pte_addr e') e' (omega arith)
                (rw add-one (table_step m pt va i ∙ child-present e' present)))
          | inr absent ↦
              lookup_absent m va (suc n) (i + 1) (pte_addr e') e' absent
              ∙ sym (
                  rw (entry-below_absent m pt va i 3 absent (omega arith))
                    (leaf-absent va 0 zero_absent))
        ])

  -- The lookup is a function of the last entry of the walk.
  pub lookup-leaf : virtual_memory_lookup m pt va ≡ leaf va (entry m pt va 3)
  unfolding virtual_memory_lookup table
  lookup-leaf = lookup_from 3 0 pt 0 refl refl
