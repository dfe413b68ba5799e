-- ===== src/Paging/Target.antt =====
-- The abstract mapping that `virtual_memory_map` is asked for, and the entry that it writes.
use weensy_osvm.Base.{
  ℕ, ◌+◌, ◌-◌, ◌*◌, ◌%◌, ◌/◌, ◌^◌, ◌≤◌, ◌<◌, ◌≡◌, refl, sym, ap, ◌∙◌, &&_parts, ==_iff, ==_self,
  bit_or, leb, ltb, Bool, true, false, ◌&&◌, arith, ◌==◌, if◌then◌else◌,
}
use weensy_osvm.X86.{u32, page_number, pageindex, pte_p, has_flag}
use weensy_osvm.X86.Entries.{
  has_flag-p, bit_or_perm, pte_addr-div, page_offset-mod, page_number-div, pageindex-div,
}
use weensy_osvm.Paging.{VaMapping, unmapped}
use weensy_osvm.Paging.Walk.{same_path}
use weensy_osvm.Paging.Lookup.{leaf}

-- The mapping of one address to the physical address `target`.
unfoldable pub mapping_to : ℕ → ℕ → VaMapping
mapping_to perm target =
    if has_flag perm pte_p
    then record { pn = page_number target; pa = target; perm = perm % 8 }
    else unmapped

-- `va'` lies in the `n` pages from `va`.
abbrev pub in_pages : (va n va' : ℕ) → Bool
in_pages va n va' = leb va va' && ltb va' (va + n * 4096)

pub mapping_to-absent :
    (perm a b : ℕ) → has_flag perm pte_p ≡ false → mapping_to perm a ≡ mapping_to perm b
unfolding mapping_to
mapping_to-absent perm a b h = rw h refl

pub mapping_to-unmapped : (perm a : ℕ) → has_flag perm pte_p ≡ false → mapping_to perm a ≡ unmapped
unfolding mapping_to
mapping_to-unmapped perm a h = rw h refl

flag_of_sum : (pa perm : ℕ) → pa % 4096 ≡ 0 → has_flag (pa + perm) pte_p ≡ has_flag perm pte_p
flag_of_sum pa perm h = ground (arith, has_flag-p (pa + perm), has_flag-p perm)

-- The entry `pa | perm` maps the page to `pa`.
pub leaf-bit_or :
    (va pa perm va' : ℕ)
    → va % 4096 ≡ 0
    → pa % 4096 ≡ 0
    → pa + 4096 ≤ 0x200000
    → perm < 4096
    → in_pages va 1 va' ≡ true
    → has_flag perm pte_p ≡ true
    → leaf va' (bit_or pa perm) ≡ mapping_to perm (pa + (va' - va))
unfolding leaf mapping_to
leaf-bit_or va pa perm va' hv hp room hperm within p =
    rw (bit_or_perm pa perm hp hperm, flag_of_sum pa perm hp, p)
      (ground (
        arith,
        pte_addr-div (pa + perm),
        page_offset-mod va',
        page_number-div (pa + perm),
        page_number-div (pa + (va' - va)),
      ))

-- An entry that is not present maps nothing.
pub leaf-not_present :
    (perm va' target : ℕ) → has_flag perm pte_p ≡ false → leaf va' perm ≡ mapping_to perm target
unfolding leaf mapping_to
leaf-not_present perm va' target h = rw h refl

-- The index at each level as a digit of the page number.
index_digit :
    (va : ℕ)
    → va < 2 ^ 48
    → (pageindex va 0 ≡ va / 4096 / 2 ^ 27)
      × (pageindex va 1 ≡ va / 4096 / 2 ^ 18 % 512)
      × (pageindex va 2 ≡ va / 4096 / 2 ^ 9 % 512)
      × (pageindex va 3 ≡ va / 4096 % 512)
index_digit va h = (
  omega (arith, pageindex-div va 0),
  omega (arith, pageindex-div va 1),
  omega (arith, pageindex-div va 2),
  omega (arith, pageindex-div va 3),
)

page_of_digits :
    (p q : ℕ)
    → p / 2 ^ 27 ≡ q / 2 ^ 27
    → p / 2 ^ 18 % 512 ≡ q / 2 ^ 18 % 512
    → p / 2 ^ 9 % 512 ≡ q / 2 ^ 9 % 512
    → p % 512 ≡ q % 512
    → p ≡ q
page_of_digits p q a b c d = omega arith

page_of_path :
    (va va' : ℕ) → va < 2 ^ 48 → va' < 2 ^ 48 → same_path 4 va va' ≡ true → va / 4096 ≡ va' / 4096
page_of_path va va' h h' same =
    let i = index_digit va h in
    let i' = index_digit va' h' in
    let three = &&_parts (same_path 3 va va') (pageindex va' 3 == pageindex va 3) same in
    let two = &&_parts (same_path 2 va va') (pageindex va' 2 == pageindex va 2) three.0 in
    let one =
      &&_parts (pageindex va' 0 == pageindex va 0) (pageindex va' 1 == pageindex va 1) two.0 in
    page_of_digits (va / 4096) (va' / 4096)
      (sym i.0 ∙ (sym ((==_iff _ (pageindex va 0)).0 one.0) ∙ i'.0))
      (sym i.1 ∙ (sym ((==_iff _ (pageindex va 1)).0 one.1) ∙ i'.1))
      (sym i.2 ∙ (sym ((==_iff _ (pageindex va 2)).0 two.1) ∙ i'.2))
      (sym i.3 ∙ (sym ((==_iff _ (pageindex va 3)).0 three.1) ∙ i'.3))

path_of_page :
    (va va' : ℕ) → va < 2 ^ 48 → va' < 2 ^ 48 → va / 4096 ≡ va' / 4096 → same_path 4 va va' ≡ true
path_of_page va va' h h' e =
    let i = index_digit va h in
    let i' = index_digit va' h' in
    let at = λ (f : ℕ → ℕ). ap f (sym e) in
    rw
      (
        i'.0 ∙ (at (λ p. p / 2 ^ 27) ∙ sym i.0),
        i'.1 ∙ (at (λ p. p / 2 ^ 18 % 512) ∙ sym i.1),
        i'.2 ∙ (at (λ p. p / 2 ^ 9 % 512) ∙ sym i.2),
        i'.3 ∙ (at (λ p. p % 512) ∙ sym i.3),
        ==_self (pageindex va 0),
        ==_self (pageindex va 1),
        ==_self (pageindex va 2),
        ==_self (pageindex va 3),
      )
      refl

Bool-eq : (a b : Bool) → (a ≡ true → b ≡ true) → (b ≡ true → a ≡ true) → a ≡ b
Bool-eq true b f g = sym (f refl)
Bool-eq false true f g = g refl
Bool-eq false false f g = refl

-- Below 2 ^ 48 the four indices tell two pages apart.
pub same_path_four :
    (va va' : ℕ)
    → va % 4096 ≡ 0
    → va < 2 ^ 48
    → va' < 2 ^ 48
    → same_path 4 va va' ≡ in_pages va 1 va'
same_path_four va va' h k k' =
    Bool-eq (same_path 4 va va') (in_pages va 1 va')
      (λ same. let e = page_of_path va va' k k' same in ground arith)
      (λ within. path_of_page va va' k k' (ground arith))

-- `cur_index123` tells the last-level tables apart.
pub same_path_three :
    (va : ℕ)
    → va % 4096 ≡ 0
    → va + 4096 < 2 ^ 48
    → u32 ((va + 4096) / 2 ^ 21) ≡ u32 (va / 2 ^ 21)
    → same_path 3 va (va + 4096) ≡ true
same_path_three va h k e = ground (
  arith,
  pageindex-div va 0,
  pageindex-div va 1,
  pageindex-div va 2,
  pageindex-div (va + 4096) 0,
  pageindex-div (va + 4096) 1,
  pageindex-div (va + 4096) 2,
)
