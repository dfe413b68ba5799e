-- ===== src/Paging/Map.antt =====
-- `virtual_memory_map` maps exactly the pages that it is asked for.
use weensy_osvm.Base.{
  ℕ, zero, suc, ◌+◌, ◌-◌, ◌*◌, ◌%◌, ◌/◌, ◌^◌, ◌≤◌, ◌<◌, ◌≡◌, ◌⊎◌, inl, inr, refl, sym, ap, ◌∙◌, leb,
  ltb, true, false, ◌||◌, arith, ◌==◌, ◌!=◌, Bool-cases, if◌then◌else◌,
}
use weensy_osvm.X86.{u64, u32, int_minus_one, page_size, pte_p, has_flag}
use weensy_osvm.State.{Kernel, ok, pure}
use weensy_osvm.State.Returns
use weensy_osvm.State.Returns.{Returns, returns}
use weensy_osvm.Paging.{
  Allocator, unmapped, lookup_l4pagetable, map_loop, map_asserts, virtual_memory_map,
  memsize_physical,
}
use weensy_osvm.Paging.Walk.{table, table-same_path}
use weensy_osvm.Paging.Space.{IsSpace, IsSound, HasGrown, HasGrown-refl, HasGrown-trans, SameLeaves}
use weensy_osvm.Paging.L4.{IsWalked, lookup_l4pagetable_lem}
use weensy_osvm.Paging.Lookup.{leaf, lookup-leaf}
use weensy_osvm.Paging.Target.{mapping_to, in_pages, mapping_to-absent, same_path_three}
use weensy_osvm.Paging.Write.{lookup}
use weensy_osvm.Paging.Round.{MapsTo, IsRequest, Found, write_entry_lem}

-- The result: all `n` pages are mapped, or the first `pages` of them and then a table was missing.
pub record IsMapped (k : Kernel) (pt va pa n perm : ℕ) (r : ℕ) (k' : Kernel) : Type 0 where
  pub grown : HasGrown k k' pt
  pub pages : ℕ
  pub mapped : MapsTo k k' pt va pa pages perm
  pub result :
      ((r ≡ 0) × (pages ≡ n)) ⊎ ((r ≡ int_minus_one) × (has_flag perm pte_p ≡ true) × (pages < n))
  -- the page at which it gave up was unmapped
  pub bare : pages < n → lookup k pt (va + pages * 4096) ≡ unmapped

lookup_same :
    {k k' : Kernel} {pt : ℕ}
    → IsSpace k pt
    → IsSpace k' pt
    → SameLeaves k k' pt
    → (va : ℕ) → lookup k' pt va ≡ lookup k pt va
lookup_same space space' same va =
    lookup-leaf space'.tree va ∙ (ap (leaf va) (same va) ∙ sym (lookup-leaf space.tree va))

-- What the remembered table is worth: nothing before the first round.
abbrev Cached : Kernel → (pt va last l4 : ℕ) → Type 0
Cached k pt va last l4 = u32 (va / 2 ^ 21) ≡ last → Found k pt va l4

module _ (k k1 k2 : Kernel) (pt va pa perm n m : ℕ) (asked : IsRequest va pa (suc n) perm) where
  next_target :
      (va' : ℕ)
      → va + 4096 ≤ va'
      → mapping_to perm (u64 (pa + page_size) + (va' - (va + 4096)))
        ≡ mapping_to perm (pa + (va' - va))
  next_target va' le = elim (Bool-cases (has_flag perm pte_p)) [
    | inl p ↦ ap (mapping_to perm) (omega (arith, asked.pa_room p))
    | inr np ↦ mapping_to-absent perm _ _ np
  ]

  -- A page and the pages behind it.
  pub MapsTo-suc :
      MapsTo k k1 pt va pa 1 perm
      → MapsTo k1 k2 pt (u64 (va + page_size)) (u64 (pa + page_size)) m perm
      → m ≤ n
      → MapsTo k k2 pt va pa (suc m) perm
  MapsTo-suc first rest le va' h =
      let room = asked.va_room in
      let step : u64 (va + page_size) ≡ va + 4096 = omega arith in
      elim (Bool-cases (in_pages (va + 4096) m va')) [
        | inl later ↦
            let within : in_pages va (suc m) va' ≡ true = ground arith in
            rest va' h ∙ rw (step, later, within) (next_target va' (ground arith))
        | inr not_later ↦
            rest va' h
            ∙ rw (step, not_later)
                (first va' h ∙ elim (Bool-cases (in_pages va 1 va')) [
                  | inl here ↦
                      let within : in_pages va (suc m) va' ≡ true = ground arith in
                      rw (here, within) refl
                  | inr not_here ↦
                      let beyond : in_pages va (suc m) va' ≡ false = ground arith in
                      rw (not_here, beyond) refl
                ])
      ]

  IsRequest-next : IsRequest (u64 (va + page_size)) (u64 (pa + page_size)) n perm
  IsRequest-next = record {
    va_aligned = omega (arith, asked.va_aligned);
    va_room = omega (arith, asked.va_room);
    perm_fits = asked.perm_fits;
    pa_aligned = λ p. omega (arith, asked.pa_aligned p);
    pa_room = λ p. omega (arith, asked.pa_room p);
  }

-- The table of a page is that of the next page if the indices above are the same.
Cached-next :
    (k : Kernel) (pt va l4 : ℕ)
    → va % 4096 ≡ 0
    → va + 4096 < 2 ^ 48
    → Found k pt va l4
    → Cached k pt (u64 (va + page_size)) (u32 (va / 2 ^ 21)) l4
Cached-next k pt va l4 h room found e =
    let step : u64 (va + page_size) ≡ va + 4096 = omega arith in
    rw (step, table-same_path k.mem pt va (va + 4096) 3 (same_path_three va h room (rw step at e)))
      found

Found-round :
    (k k' : Kernel) (pt va l4 : ℕ)
    → ((va' : ℕ) → table k'.mem pt va' 3 ≡ table k.mem pt va' 3)
    → Found k pt va l4
    → Found k' pt va l4
Found-round k k' pt va l4 tables found = rw (tables va) found

abbrev IsWalkedSpace : Kernel → Kernel → ℕ → Type 0
IsWalkedSpace k k1 pt = IsSpace k1 pt × SameLeaves k k1 pt

pages-le :
    {k k' : Kernel} {pt va pa n perm r : ℕ} (m : IsMapped k pt va pa n perm r k') → m.pages ≤ n
pages-le m = ground (arith, m.result)

result-suc :
    (perm : ℕ) {r pages n : ℕ}
    → ((r ≡ 0) × (pages ≡ n)) ⊎ ((r ≡ int_minus_one) × (has_flag perm pte_p ≡ true) × (pages < n))
    → ((r ≡ 0) × (suc pages ≡ suc n))
      ⊎ ((r ≡ int_minus_one) × (has_flag perm pte_p ≡ true) × (suc pages < suc n))
result-suc perm (inl (z, e)) = inl (z, ap suc e)
result-suc perm (inr (m, p, lt)) = inr (m, p, omega arith)

-- The first round looks the table up.
first_round : (va : ℕ) → u32 (va / 2 ^ 21) ≡ int_minus_one → va < 2 ^ 48 → ⊥
first_round va e h = omega arith

bare-suc :
    (k k2 : Kernel) (pt va pa perm n pages : ℕ)
    → IsRequest va pa (suc n) perm
    → MapsTo k k2 pt va pa 1 perm
    → (pages < n → lookup k2 pt (u64 (va + page_size) + pages * 4096) ≡ unmapped)
    → pages < n
    → lookup k pt (va + suc pages * 4096) ≡ unmapped
bare-suc k k2 pt va pa perm n pages asked first none_there l =
    let at = va + suc pages * 4096 in
    let low : at < 2 ^ 48 = omega (arith, asked.va_room) in
    let place : u64 (va + page_size) + pages * 4096 ≡ at = omega (arith, asked.va_room) in
    let beyond : in_pages va 1 at ≡ false = ground arith in
    let kept : lookup k2 pt at ≡ lookup k pt at = first at low ∙ rw beyond refl in
    sym kept ∙ (ap (lookup k2 pt) (sym place) ∙ none_there l)

-- The loop keeps the table of the last round for the pages that share it.
module _ (allocator : Allocator) (sound : IsSound allocator) {pt : ℕ} (perm : ℕ) where
  table_for :
      {k : Kernel} (va last l4 : ℕ)
      → IsSpace k pt
      → Cached k pt va last l4
      → Returns (IsWalked k pt va) (
          (if u32 (va / 2 ^ 21) != last then lookup_l4pagetable pt va perm allocator else pure l4)
            k)
  table_for {k} va last l4 space cached = elim (Bool-cases (u32 (va / 2 ^ 21) != last)) [
    | inl new ↦ rw new (lookup_l4pagetable_lem allocator sound va perm space)
    | inr old ↦ rw old (
        returns (record {
          grown = HasGrown-refl space;
          leaves = λ va'. refl;
          found = cached (ground arith);
        }))
  ]

  MapsTo-before :
      (k k1 k2 : Kernel) (va pa n : ℕ)
      → IsSpace k pt
      → IsWalkedSpace k k1 pt
      → MapsTo k1 k2 pt va pa n perm
      → MapsTo k k2 pt va pa n perm
  MapsTo-before k k1 k2 va pa n space (space1, same) maps va' h =
      maps va' h ∙ rw (lookup_same space space1 same va') refl

  MapsTo-none :
      {k k1 : Kernel} (va pa : ℕ)
      → IsSpace k pt
      → IsWalkedSpace k k1 pt
      → MapsTo k k1 pt va pa 0 perm
  MapsTo-none va pa space (space1, same) va' h =
      let outside : in_pages va 0 va' ≡ false = ground arith in
      rw outside (lookup_same space space1 same va')

  map_loop_lem :
      (n va pa last l4 : ℕ) {k : Kernel}
      → IsRequest va pa n perm
      → IsSpace k pt
      → (0 < n → Cached k pt va last l4)
      → Returns (IsMapped k pt va pa n perm) (map_loop allocator pt perm n va pa last l4 k)
  unfolding map_loop
  map_loop_lem zero va pa last l4 asked space cached = returns (record {
    grown = HasGrown-refl space;
    pages = 0;
    mapped = MapsTo-none va pa space (space, λ va'. refl);
    result = inl (refl, refl);
    bare = λ l. absurd (omega (arith, l));
  })
  map_loop_lem (suc n) va pa last l4 {k} asked space cached =
      Returns.bind (table_for va last l4 space (cached (omega arith))) (λ l4' k1 w.
        let walked : IsWalkedSpace k k1 pt = (w.grown.space, w.leaves) in
        Returns.bind (write_entry_lem w.grown.space va pa perm n asked l4' w.found)
          (λ more k2 round. elim round.outcome [
            | inl (goes_on, maps) ↦ rw goes_on (
                Returns.weaken
                  (map_loop_lem n _ _ _ l4' (IsRequest-next k k1 k2 pt va pa perm n n asked)
                    round.grown.space
                    (λ some_left.
                      Cached-next k2 pt va l4' asked.va_aligned (omega (arith, asked.va_room))
                        (Found-round k1 k2 pt va l4' round.tables w.found)))
                  (λ r k3 rest. record {
                    grown = HasGrown-trans w.grown (HasGrown-trans round.grown rest.grown);
                    pages = suc rest.pages;
                    mapped =
                        MapsTo-suc k k2 k3 pt va pa perm n rest.pages asked
                          (MapsTo-before k k1 k2 va pa 1 space walked maps) rest.mapped
                          (pages-le rest);
                    result = result-suc perm rest.result;
                    bare = λ l.
                        bare-suc k k2 pt va pa perm n rest.pages asked
                          (MapsTo-before k k1 k2 va pa 1 space walked maps) rest.bare
                          (omega (arith, l));
                  }))
            | inr (stops, p, same, none_here) ↦ rw stops (
                returns (record {
                  grown = HasGrown-trans w.grown round.grown;
                  pages = 0;
                  mapped = rw same (MapsTo-none va pa space walked);
                  result = inr (refl, p, omega arith);
                  bare = λ l.
                      ap (lookup k pt) (omega arith)
                      ∙ (sym (lookup_same space w.grown.space w.leaves va) ∙ none_here);
                }))
          ]))

  -- The assertions hold for a request.
  map_asserts_ok :
      (va pa n : ℕ) (k : Kernel)
      → IsRequest va pa n perm
      → IsSpace k pt
      → map_asserts pt va pa (n * 4096) perm k ≡ ok tt k
  unfolding map_asserts table
  map_asserts_ok va pa n k asked space =
      let a1 : (va % page_size == 0) ≡ true = ground (arith, asked.va_aligned) in
      let a2 : (n * 4096 % page_size == 0) ≡ true = ground arith in
      let a3 : (leb va (u64 (va + n * 4096)) || u64 (va + n * 4096) == 0) ≡ true =
        ground (arith, asked.va_room) in
      let a4 : ltb perm 0x1000 ≡ true = ground (arith, asked.perm_fits) in
      let a5 : (pt % page_size == 0) ≡ true =
        ground (arith, (space.tree.placed 0 0 pt (omega arith) refl).0) in
      elim (Bool-cases (has_flag perm pte_p)) [
        | inl p ↦
            let b1 : (pa % page_size == 0) ≡ true = ground (arith, asked.pa_aligned p) in
            let b2 : leb pa (u64 (pa + n * 4096)) ≡ true = ground (arith, asked.pa_room p) in
            let b3 : leb (u64 (pa + n * 4096)) memsize_physical ≡ true =
              ground (arith, asked.pa_room p) in
            rw (a1, a2, a3, p, b1, b2, b3, a4, a5) refl
        | inr np ↦ rw (a1, a2, a3, np, a4, a5) refl
      ]

  -- `virtual_memory_map` on a page table of the kernel, with whole pages below 2 ^ 48 and, if they
  -- are to be present, existing physical pages: no assertion fails. It returns 0 and then exactly
  -- the pages asked for have the new mapping and every other address keeps its own; or it returns
  -- -1, which it does only for a present mapping and at a page that was unmapped, and then this
  -- holds of the first `pages` pages, those before it.
  -- Memory changes only in the table's own pages and in pages that were free.
  pub virtual_memory_map-IsMapped :
      (va pa n : ℕ) {k : Kernel}
      → IsRequest va pa n perm
      → IsSpace k pt
      → Returns
          (IsMapped k pt va pa n perm)
          (virtual_memory_map pt va pa (n * 4096) perm allocator k)
  unfolding virtual_memory_map
  virtual_memory_map-IsMapped va pa n {k} asked space =
      let rounds : n * 4096 / page_size ≡ n = omega arith in
      rw (map_asserts_ok va pa n k asked space, rounds)
        (map_loop_lem n va pa int_minus_one 0 asked space
          (λ some_left e. absurd (first_round va e (omega (arith, asked.va_room)))))
