-- ===== src/Paging/Round.antt =====
-- One round of the loop of `virtual_memory_map`.
use weensy_osvm.Base.{
  ℕ, suc, ◌+◌, ◌-◌, ◌*◌, ◌%◌, ◌^◌, ◌≤◌, ◌<◌, ◌≡◌, ◌⊎◌, inl, inr, refl, sym, ap, ◌∙◌, bit_or, Bool,
  true, false, none, some, arith, ◌!=◌, &&_parts, Bool-cases, if◌then◌else◌,
}
use weensy_osvm.X86.{pte_p, has_flag}
use weensy_osvm.X86.Entries.{bit_or_perm}
use weensy_osvm.State.{Kernel}
use weensy_osvm.State.Returns.{Returns, returns}
use weensy_osvm.Paging.{unmapped, write_entry}
use weensy_osvm.Paging.Walk.{table, same_path, entry-none, table-same_path}
use weensy_osvm.Paging.Space.{IsSpace, HasGrown, HasGrown-refl}
use weensy_osvm.Paging.Lookup.{leaf, lookup-leaf, leaf-absent, zero_absent}
use weensy_osvm.Paging.Target.{
  mapping_to, in_pages, mapping_to-unmapped, leaf-bit_or, leaf-not_present, same_path_four,
}
use weensy_osvm.Paging.Write.{lookup, written, tables_kept, HasGrown-written, lookup-written}

-- `n` pages from `va` map to the pages from `pa`, and every other address maps as before. Only
-- the 48 bits that the four levels translate are considered.
abbrev pub MapsTo : (k k' : Kernel) (pt va pa n perm : ℕ) → Type 0
MapsTo k k' pt va pa n perm =
    (va' : ℕ)
    → va' < 2 ^ 48
    → lookup k' pt va'
      ≡ (if in_pages va n va' then mapping_to perm (pa + (va' - va)) else lookup k pt va')

-- What is asked for: whole pages below 2 ^ 48, and if present at existing physical pages.
pub record IsRequest (va pa n perm : ℕ) : Type 0 where
  pub va_aligned : va % 4096 ≡ 0
  pub va_room : va + n * 4096 ≤ 2 ^ 48
  pub perm_fits : perm < 4096
  pub pa_aligned : has_flag perm pte_p ≡ true → pa % 4096 ≡ 0
  pub pa_room : has_flag perm pte_p ≡ true → pa + n * 4096 ≤ 0x200000

abbrev pub Found : Kernel → ℕ → ℕ → ℕ → Type 0
Found k pt va l4 =
    ((l4 ≡ 0) × (table k.mem pt va 3 ≡ none)) ⊎ ((0 < l4) × (table k.mem pt va 3 ≡ some l4))

-- One round: the page is mapped, or it is to be present and has no table, so that it is unmapped.
pub record IsRound (k : Kernel) (pt va pa perm : ℕ) (more : Bool) (k' : Kernel) : Type 0 where
  pub grown : HasGrown k k' pt
  pub tables : (va' : ℕ) → table k'.mem pt va' 3 ≡ table k.mem pt va' 3
  pub outcome :
      ((more ≡ true) × MapsTo k k' pt va pa 1 perm)
      ⊎ ((more ≡ false) × (has_flag perm pte_p ≡ true) × (k' ≡ k) × (lookup k pt va ≡ unmapped))

module _ {k : Kernel} {pt : ℕ} (space : IsSpace k pt) (va pa perm n : ℕ)
    (asked : IsRequest va pa (suc n) perm) where
  -- The indices tell the page of `va` from the others.
  page_of : (va' : ℕ) → va' < 2 ^ 48 → same_path 4 va va' ≡ in_pages va 1 va'
  page_of va' h = same_path_four va va' asked.va_aligned (omega (arith, asked.va_room)) h

  lookup_missing :
      (va' : ℕ)
      → va' < 2 ^ 48
      → table k.mem pt va 3 ≡ none
      → in_pages va 1 va' ≡ true
      → lookup k pt va' ≡ unmapped
  lookup_missing va' h missing within =
      let same = &&_parts (same_path 3 va va') _ (page_of va' h ∙ within) in
      let none_here = table-same_path k.mem pt va va' 3 same.0 ∙ missing in
      lookup-leaf space.tree va'
      ∙ (ap (leaf va') (entry-none k.mem pt va' 3 none_here) ∙ leaf-absent va' 0 zero_absent)

  -- Without a table the page is unmapped already.
  MapsTo-missing :
      has_flag perm pte_p ≡ false → table k.mem pt va 3 ≡ none → MapsTo k k pt va pa 1 perm
  MapsTo-missing np missing va' h = elim (Bool-cases (in_pages va 1 va')) [
    | inl within ↦
        rw within (
          lookup_missing va' h missing within ∙ sym (mapping_to-unmapped perm (pa + (va' - va)) np))
    | inr other ↦ rw other refl
  ]

  MapsTo-written :
      (l4 v : ℕ) (at : table k.mem pt va 3 ≡ some l4)
      → v < 2 ^ 64
      → ((va' : ℕ) → in_pages va 1 va' ≡ true → leaf va' v ≡ mapping_to perm (pa + (va' - va)))
      → MapsTo k (written space va l4 v at) pt va pa 1 perm
  MapsTo-written l4 v at hv is va' h = elim (Bool-cases (in_pages va 1 va')) [
    | inl within ↦
        rw within
          (lookup-written space va l4 v at va' hv ∙ rw (page_of va' h ∙ within) (is va' within))
    | inr other ↦
        rw other (lookup-written space va l4 v at va' hv ∙ rw (page_of va' h ∙ other) refl)
  ]

  Round-written :
      (l4 v : ℕ) (at : table k.mem pt va 3 ≡ some l4)
      → v < 2 ^ 64
      → ((va' : ℕ) → in_pages va 1 va' ≡ true → leaf va' v ≡ mapping_to perm (pa + (va' - va)))
      → IsRound k pt va pa perm true (written space va l4 v at)
  Round-written l4 v at hv is = record {
    grown = HasGrown-written space va l4 v at;
    tables = λ va'. tables_kept space va l4 v at va' 3 (omega arith);
    outcome = inl (refl, MapsTo-written l4 v at hv is);
  }

  entry_word : has_flag perm pte_p ≡ true → bit_or pa perm < 2 ^ 64
  entry_word p =
      rw (bit_or_perm pa perm (asked.pa_aligned p) asked.perm_fits)
        (omega (arith, asked.pa_room p, asked.perm_fits))

  pub write_entry_lem :
      (l4 : ℕ) → Found k pt va l4 → Returns (IsRound k pt va pa perm) (write_entry l4 va pa perm k)
  unfolding write_entry
  write_entry_lem l4 (inl (null, missing)) = elim (Bool-cases (has_flag perm pte_p)) [
    | inl p ↦
        rw (null, p)
          (returns (record {
            grown = HasGrown-refl space;
            tables = λ va'. refl;
            outcome = inr (
              refl,
              p,
              refl,
              lookup_missing va (omega (arith, asked.va_room)) missing (ground arith),
            );
          }))
    | inr np ↦
        rw (null, np)
          (returns (record {
            grown = HasGrown-refl space;
            tables = λ va'. refl;
            outcome = inl (refl, MapsTo-missing np missing);
          }))
  ]
  write_entry_lem l4 (inr (positive, at)) =
      let some_table : (l4 != 0) ≡ true = ground arith in
      elim (Bool-cases (has_flag perm pte_p)) [
        | inl p ↦
            rw (some_table, p)
              (returns (
                Round-written l4 (bit_or pa perm) at (entry_word p) (λ va' within.
                  leaf-bit_or va pa perm va' asked.va_aligned (asked.pa_aligned p)
                    (omega (arith, asked.pa_room p)) asked.perm_fits within p)))
        | inr np ↦
            rw (some_table, np)
              (returns (
                Round-written l4 perm at (omega (arith, asked.perm_fits))
                  (λ va' within. leaf-not_present perm va' (pa + (va' - va)) np)))
      ]
