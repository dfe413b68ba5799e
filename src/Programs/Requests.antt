-- ===== src/Programs/Requests.antt =====
-- The programs' requests, as the kernel gets them.
use weensy_osvm.Base.{
  ℕ, ◌^◌, ◌≤◌, ◌<◌, ◌≡◌, inl, inr, true, List, [], ◌∷◌, ◌++◌, all, &&_parts, arith,
}
use weensy_osvm.State.{Kernel}
use weensy_osvm.State.Returns.{Returns}
use weensy_osvm.Paging.Space.{IsSpace}
use weensy_osvm.Process.Exception.{page_alloc}
use weensy_osvm.Process.PageAlloc.{IsGiven, page_alloc-IsGiven}
use weensy_osvm.Programs.{Event, Answers, Program, forkexit_round, rounds_of}
use weensy_osvm.Programs.Heap.{is_safe, is_heap_page}
use weensy_osvm.Programs.Forkexit.{first_page, stack_page, IsClient, forkexit_round-IsClient}

IsClient-safe :
    {first bottom : ℕ} {st : Program}
    → IsClient first bottom st
    → all (is_safe first bottom) st.events ≡ true
IsClient-safe (inl (e, safe)) = safe
IsClient-safe (inr heap) = heap.safe

-- A request among the events is one for a page of the heap.
asked-is_heap_page :
    (first bottom addr : ℕ) (later earlier : List Event)
    → all (is_safe first bottom) (later ++ (Event.sys_page_alloc addr ∷ earlier)) ≡ true
    → is_heap_page first bottom addr ≡ true
asked-is_heap_page first bottom addr [] earlier h =
    (&&_parts (is_heap_page first bottom addr) (all (is_safe first bottom) earlier) h).0
asked-is_heap_page first bottom addr (e ∷ later) earlier h =
    asked-is_heap_page first bottom addr later earlier
      (&&_parts (is_safe first bottom e)
        (all (is_safe first bottom) (later ++ (Event.sys_page_alloc addr ∷ earlier))) h).1

-- Whatever page p-forkexit.c asks for in any of its rounds, from a state in which it has asked for
-- pages of its heap only, the kernel answers without a panic where the caller's page table is sound
-- and the heap's first page is not above the stack page: the caller gets a fresh page mapped at that
-- address, or -1 and an unchanged address space.
pub forkexit_round-IsGiven :
    (answers : Answers) (end rsp : ℕ) (n addr : ℕ) (later earlier : List Event) (st : Program)
    (k : Kernel) (pt : ℕ)
    → first_page end ≤ stack_page rsp
    → stack_page rsp < 2 ^ 48
    → IsClient (first_page end) (stack_page rsp) st
    → (rounds_of (forkexit_round answers end rsp) n st).events
      ≡ later ++ (Event.sys_page_alloc addr ∷ earlier)
    → IsSpace k pt
    → (k.processes k.current).p_pagetable ≡ pt
    → (k.processes k.current).p_registers.reg_rdi ≡ addr
    → Returns (λ _. IsGiven k pt addr) (page_alloc k)
forkexit_round-IsGiven answers end rsp n addr later earlier st k pt fits room is e space own asked =
    let client = forkexit_round-IsClient answers end rsp fits room n st is in
    let page =
      asked-is_heap_page (first_page end) (stack_page rsp) addr later earlier
        (rw (← e) (IsClient-safe client)) in
    page_alloc-IsGiven k pt addr space (ground (arith, page)) (ground (arith, page)) own asked
