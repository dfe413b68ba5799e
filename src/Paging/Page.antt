-- ===== src/Paging/Page.antt =====
-- The addresses of one page map to the addresses of one physical page.
use weensy_osvm.Base.{
  ℕ, ◌+◌, ◌-◌, ◌%◌, ◌^◌, ◌≤◌, ◌<◌, ◌≡◌, ◌≢◌, inl, inr, refl, ◌∙◌, ap, true, Bool-cases, arith,
}
use weensy_osvm.X86.{pte_p, has_flag}
use weensy_osvm.X86.Entries.{pte_addr-mod, has_flag-p, page_offset-mod}
use weensy_osvm.State.{Kernel}
use weensy_osvm.Paging.{VaMapping, unmapped}
use weensy_osvm.Paging.Walk.{entry, entry-same_path}
use weensy_osvm.Paging.Space.{IsSpace}
use weensy_osvm.Paging.Lookup.{leaf, lookup-leaf}
use weensy_osvm.Paging.Target.{mapping_to, in_pages, same_path_four}
use weensy_osvm.Paging.Write.{lookup}

-- The same physical address and permissions.
abbrev pub Same : VaMapping → VaMapping → Type 0
Same a b = (a.pa ≡ b.pa) × (a.perm ≡ b.perm)

leaf-shift :
    (pe va va' : ℕ)
    → va % 4096 ≡ 0
    → in_pages va 1 va' ≡ true
    → (leaf va pe).perm ≢ 0
    → (leaf va pe).pa + 4096 ≤ 0x200000
    → Same (mapping_to (leaf va pe).perm ((leaf va pe).pa + (va' - va))) (leaf va' pe)
unfolding leaf mapping_to
leaf-shift pe va va' aligned within some_perm room = elim (Bool-cases (has_flag pe pte_p)) [
  | inl p ↦
      let flag : has_flag (pe % 8) pte_p ≡ true =
        ground (arith, has_flag-p (pe % 8), has_flag-p pe) in
      rw (p, flag)
        (ground (arith, page_offset-mod va, page_offset-mod va', rw p at room), ground arith)
  | inr np ↦ absurd (some_perm (rw np refl))
]

-- A lookup of a page gives an aligned page and the three permission bits.
pub leaf-page :
    (pe va : ℕ)
    → va % 4096 ≡ 0
    → (leaf va pe).perm ≢ 0
    → ((leaf va pe).pa % 4096 ≡ 0) × ((leaf va pe).perm < 4096)
unfolding leaf
leaf-page pe va aligned some_perm = elim (Bool-cases (has_flag pe pte_p)) [
  | inl p ↦ rw p (omega (arith, pte_addr-mod pe, page_offset-mod va), omega arith)
  | inr np ↦ absurd (some_perm (rw np refl))
]

leaf-none : (pe va va' : ℕ) → (leaf va pe).perm ≡ 0 → leaf va' pe ≡ unmapped
unfolding leaf
leaf-none pe va va' none = elim (Bool-cases (has_flag pe pte_p)) [
  | inl p ↦ let no_perm : pe % 8 ≡ 0 = rw p at none in ground (arith, has_flag-p pe)
  | inr np ↦ rw np refl
]

pub Same-via : {a b c d : VaMapping} → a ≡ b → Same b c → c ≡ d → Same a d
Same-via e (pa, perm) e' =
    (ap (λ m. m.pa) e ∙ (pa ∙ ap (λ m. m.pa) e'), ap (λ m. m.perm) e ∙ (perm ∙ ap (λ m. m.perm) e'))

-- The addresses of one page in a page table.
module _ {k : Kernel} {pt : ℕ} (space : IsSpace k pt) (va va' : ℕ) (aligned : va % 4096 ≡ 0)
    (low : va < 2 ^ 48) (low' : va' < 2 ^ 48) (within : in_pages va 1 va' ≡ true) where
  lookup-in_page : lookup k pt va' ≡ leaf va' (entry k.mem pt va 3)
  lookup-in_page =
      lookup-leaf space.tree va'
      ∙ ap (leaf va')
          (entry-same_path k.mem pt va va' 3 (same_path_four va va' aligned low low' ∙ within))

  pub lookup-shift :
      (lookup k pt va).perm ≢ 0
      → (lookup k pt va).pa + 4096 ≤ 0x200000
      → Same (mapping_to (lookup k pt va).perm ((lookup k pt va).pa + (va' - va))) (lookup k pt va')
  lookup-shift some_perm room =
      let at = lookup-leaf space.tree va in
      rw (at, lookup-in_page)
        (leaf-shift (entry k.mem pt va 3) va va' aligned within (rw at at some_perm)
          (rw at at room))

  pub lookup-none : (lookup k pt va).perm ≡ 0 → lookup k pt va' ≡ unmapped
  lookup-none none =
      lookup-in_page
      ∙ leaf-none (entry k.mem pt va 3) va va' (rw (lookup-leaf space.tree va) at none)
