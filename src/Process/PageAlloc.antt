-- ===== src/Process/PageAlloc.antt =====
-- The system call INT_SYS_PAGE_ALLOC.
use weensy_osvm.Base.{
  ℕ, ◌+◌, ◌-◌, ◌/◌, ◌%◌, ◌^◌, ◌≤◌, ◌<◌, ◌≡◌, ◌≢◌, inl, inr, refl, ◌∙◌, ap, true, false, ◌==◌,
  if◌then◌else◌, some, arith,
}
use weensy_osvm.X86.{u8}
use weensy_osvm.State.{Kernel}
use weensy_osvm.State.Returns
use weensy_osvm.State.Returns.{Returns, returns}
use weensy_osvm.Paging.Space.{refcount_of, IsSpace}
use weensy_osvm.Paging.Untouched.{IsSpace-untouched, lookup-untouched, allocated-same}
use weensy_osvm.Paging.Target.{mapping_to, in_pages}
use weensy_osvm.Paging.Write.{lookup}
use weensy_osvm.Paging.Round.{MapsTo, IsRequest}
use weensy_osvm.Paging.Map.{IsMapped, virtual_memory_map-IsMapped}
use weensy_osvm.Physical.{is_free, pagetable_alloc}
use weensy_osvm.Physical.Assign.{get_free_addr_lem}
use weensy_osvm.Physical.Alloc.{IsAllocated-first, pagetable_alloc-IsAllocator}
use weensy_osvm.Process.{modify, set_rax, sign_extend}
use weensy_osvm.Process.Fork.{failed}
use weensy_osvm.Process.Exception.{map_page, page_alloc}

-- The result that the system call gives to its caller.
abbrev pub rax_of : Kernel → ℕ → ℕ
rax_of k pid = (k.processes pid).p_registers.reg_rax

-- The page at `addr` maps to the physical page `pa`, which was free, and nothing else is mapped
-- differently; or the call has failed and no mapping has changed.
pub data IsGiven (k : Kernel) (pt addr : ℕ) (k' : Kernel) : Type 0 where
  given :
      (pa : ℕ)
      → is_free k pa ≡ true
      → refcount_of k' (pa / 4096) ≢ 0
      → rax_of k' k.current ≡ 0
      → MapsTo k k' pt addr pa 1 7
      → IsGiven k pt addr k'
  refused :
      rax_of k' k.current ≡ failed
      → ((va : ℕ) → va < 2 ^ 48 → lookup k' pt va ≡ lookup k pt va)
      → IsGiven k pt addr k'

-- A page for a user: present, writable, accessible.
IsRequest-page :
    (addr pa : ℕ)
    → addr % 4096 ≡ 0
    → addr + 4096 ≤ 2 ^ 48
    → pa % 4096 ≡ 0
    → pa < 0x200000
    → IsRequest addr pa 1 7
IsRequest-page addr pa aligned room pa_aligned below = record {
  va_aligned = aligned;
  va_room = omega arith;
  perm_fits = omega arith;
  pa_aligned = λ p. pa_aligned;
  pa_room = λ p. omega arith;
}

module _ (k k2 : Kernel) {pt addr : ℕ} (space : IsSpace k pt)
    (same : (b : ℕ) → refcount_of k (b / 4096) ≢ 0 → k2.mem b ≡ k.mem b)
    (still_used : (p : ℕ) → refcount_of k p ≢ 0 → refcount_of k2 p ≢ 0)
    (current : k2.current ≡ k.current) (pa : ℕ) (free : is_free k pa ≡ true)
    (used : refcount_of k2 (pa / 4096) ≢ 0) where
  result-IsGiven :
      (r : ℕ) (k3 : Kernel)
      → IsMapped k2 pt addr pa 1 7 r k3
      → IsGiven k pt addr (modify k3.current (set_rax (sign_extend r)) k3)
  result-IsGiven r k3 m =
      let here : k3.current ≡ k.current = m.grown.else.current ∙ current in
      let before = lookup-untouched k k2 space same still_used in
      elim m.result [
        | inl (zero_result, all) ↦
            given pa free (m.grown.still_used (pa / 4096) used)
              (rw (here, zero_result) (ground arith))
              (λ va h.
                rw all at (m.mapped va h)
                ∙ ap (λ x. if in_pages addr 1 va then mapping_to 7 (pa + (va - addr)) else x)
                    (before va))
        | inr (minus_one, p, few) ↦
            let none : m.pages ≡ 0 = omega (arith, few) in
            refused (rw (here, minus_one) (ground arith)) (λ va h.
              let outside : in_pages addr 0 va ≡ false = ground arith in
              (rw (none, outside) at (m.mapped va h)) ∙ before va)
      ]

-- INT_SYS_PAGE_ALLOC at a page-aligned address below 2 ^ 48, with a sound page table, never panics:
-- the caller gets a free page mapped there for users, present and writable, and 0; or -1, and then
-- no mapping has changed.
pub page_alloc-IsGiven :
    (k : Kernel) (pt addr : ℕ)
    → IsSpace k pt
    → addr % 4096 ≡ 0
    → addr + 4096 ≤ 2 ^ 48
    → (k.processes k.current).p_pagetable ≡ pt
    → (k.processes k.current).p_registers.reg_rdi ≡ addr
    → Returns (λ _. IsGiven k pt addr) (page_alloc k)
unfolding page_alloc map_page
page_alloc-IsGiven k pt addr space aligned room own address =
    let pid = (k.processes k.current).p_pid in
    Returns.bind (get_free_addr_lem (u8 pid) k) (λ pa k1. elim [
      | inl (full, null, same) ↦ rw (null, same) (returns (refused (ground arith) (λ va h. refl)))
      | inr first ↦
          let got = IsAllocated-first (u8 pid) pa k k1 space.zero_used first in
          let some_page : (pa == 0) ≡ false = ground (arith, got.positive) in
          let k2 = record k1 { pagetable_owner = u8 pid } in
          let same = allocated-same got in
          let own1 : (k1.processes k1.current).p_pagetable ≡ pt =
            rw (got.else.processes, got.else.current) own in
          rw (some_page, address, own1)
            (Returns.bind
              (virtual_memory_map-IsMapped (some pagetable_alloc) pagetable_alloc-IsAllocator 7 addr
                pa 1 (IsRequest-page addr pa aligned room first.aligned first.below)
                (IsSpace-untouched k k2 space same got.still_used))
              (λ r k3 m. returns (
                result-IsGiven k k2 space same got.still_used got.else.current pa first.free
                  got.now_used r k3 m)))
    ])
