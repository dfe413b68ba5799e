-- ===== src/Programs/Heap.antt =====
-- p-allocator.c: the heap of a program and the pages that it asks for.
use weensy_osvm.Base.{
  ℕ, zero, suc, ◌+◌, ◌%◌, ◌^◌, ◌≤◌, ◌<◌, ◌≡◌, inl, inr, refl, Bool, true, ◌&&◌, ◌==◌, ltb, leb, all,
  Bool-cases, arith,
}
use weensy_osvm.X86.{page_size}
use weensy_osvm.Rand.{RandState, rand}
use weensy_osvm.Programs.{
  Event, Answers, Phase, Program, alloc_slowdown, allocate, fill_round, allocator_round, rounds_of,
  do_event, set_phase, grow, result, unless_waiting, allocator_step,
}

-- A page that is asked for or written to is a page of the heap.
abbrev pub is_heap_page : (first bottom addr : ℕ) → Bool
is_heap_page first bottom addr =
    addr % page_size == 0 && (leb first addr && leb (addr + page_size) bottom)

abbrev pub is_safe : (first bottom : ℕ) → Event → Bool
is_safe first bottom (Event.sys_page_alloc addr) = is_heap_page first bottom addr
is_safe first bottom (Event.store addr value) = is_heap_page first bottom addr
is_safe first bottom e = true

pub record IsHeap (first bottom : ℕ) (st : Program) : Type 0 where
  pub aligned : st.heap_top % page_size ≡ 0
  pub low : first ≤ st.heap_top
  pub high : st.heap_top ≤ bottom
  pub stack : st.stack_bottom ≡ bottom
  pub safe : all (is_safe first bottom) st.events ≡ true

module _ {first bottom : ℕ} {st : Program} (is : IsHeap first bottom st) where
  -- What keeps the heap's two ends, and makes safe events only.
  pub IsHeap-same :
      (st' : Program)
      → st'.heap_top ≡ st.heap_top
      → st'.stack_bottom ≡ st.stack_bottom
      → all (is_safe first bottom) st'.events ≡ true
      → IsHeap first bottom st'
  IsHeap-same st' top stack safe = record {
    aligned = rw top is.aligned;
    low = rw top is.low;
    high = rw top is.high;
    stack = rw stack is.stack;
    safe = safe;
  }

  pub IsHeap-event :
      (e : Event) → is_safe first bottom e ≡ true → IsHeap first bottom (do_event e st)
  IsHeap-event e safe = IsHeap-same (do_event e st) refl refl (rw safe is.safe)

  pub IsHeap-phase : (phase : Phase) → IsHeap first bottom (set_phase phase st)
  IsHeap-phase phase = IsHeap-same (set_phase phase st) refl refl is.safe

  pub IsHeap-rand : (r : RandState) → IsHeap first bottom (record st { rand_state = r })
  IsHeap-rand r = IsHeap-same (record st { rand_state = r }) refl refl is.safe

  pub IsHeap-p : (p : ℕ) → IsHeap first bottom (record st { p = p })
  IsHeap-p p = IsHeap-same (record st { p = p }) refl refl is.safe

  pub IsHeap-grow :
      is_heap_page first bottom st.heap_top ≡ true → bottom < 2 ^ 48 → IsHeap first bottom (grow st)
  IsHeap-grow page room = record {
    aligned = ground (arith, is.aligned);
    low = ground (arith, is.low);
    high = ground arith;
    stack = is.stack;
    safe = rw page is.safe;
  }

module _ (answers : Answers) (first bottom : ℕ) (bottom_aligned : bottom % page_size ≡ 0)
    (room : bottom < 2 ^ 48) where
  pub allocate-IsHeap :
      (st : Program) → IsHeap first bottom st → IsHeap first bottom (allocate answers st)
  unfolding allocate
  allocate-IsHeap st is = elim (Bool-cases (st.heap_top == st.stack_bottom)) [
    | inl full ↦ rw full (IsHeap-phase is Phase.waiting)
    | inr more ↦
        let page : is_heap_page first bottom st.heap_top ≡ true = ground (arith, is) in
        let asked = IsHeap-event is (Event.sys_page_alloc st.heap_top) page in
        elim (Bool-cases
          (leb (2 ^ 31) (result answers (do_event (Event.sys_page_alloc st.heap_top) st)))) [
            | inl refused ↦ rw (more, refused) (IsHeap-phase asked Phase.waiting)
            | inr given ↦ rw (more, given) (IsHeap-grow asked page room)
          ]
  ]

  pub unless_waiting-IsHeap :
      (phase : Phase) (f : Program → Program) (st : Program)
      → (IsHeap first bottom st → IsHeap first bottom (f st))
      → IsHeap first bottom st
      → IsHeap first bottom (unless_waiting answers phase f st)
  unless_waiting-IsHeap Phase.forking f st keeps is = keeps is
  unless_waiting-IsHeap Phase.filling f st keeps is = keeps is
  unless_waiting-IsHeap Phase.waiting f st keeps is = is
  unless_waiting-IsHeap Phase.exited f st keeps is = keeps is

  fill_round-IsHeap :
      (st : Program) → IsHeap first bottom st → IsHeap first bottom (fill_round answers st)
  unfolding fill_round
  fill_round-IsHeap st is =
      let x = rand st.rand_state in
      let drawn = record st { rand_state = x.1 } in
      let drawn_is = IsHeap-rand is x.1 in
      let tried = allocate answers drawn in
      elim (Bool-cases (ltb (x.0 % alloc_slowdown) st.p && ltb st.p (2 ^ 31))) [
        | inl turn ↦ rw turn (
            unless_waiting-IsHeap tried.phase (do_event Event.sys_yield) tried
              (λ t. IsHeap-event t Event.sys_yield refl) (allocate-IsHeap drawn drawn_is))
        | inr other ↦ rw other (IsHeap-event drawn_is Event.sys_yield refl)
      ]

  allocator_step-IsHeap :
      (phase : Phase) (st : Program)
      → IsHeap first bottom st
      → IsHeap first bottom (allocator_step answers phase st)
  allocator_step-IsHeap Phase.forking st is = IsHeap-event is Event.sys_yield refl
  allocator_step-IsHeap Phase.filling st is = fill_round-IsHeap st is
  allocator_step-IsHeap Phase.waiting st is = IsHeap-event is Event.sys_yield refl
  allocator_step-IsHeap Phase.exited st is = IsHeap-event is Event.sys_yield refl

  -- However the kernel answers its system calls, each page that p-allocator.c asks for or writes to
  -- in any number of rounds is page-aligned and lies from its first heap page to its stack.
  pub allocator_round-IsHeap :
      (n : ℕ) (st : Program)
      → IsHeap first bottom st
      → IsHeap first bottom (rounds_of (allocator_round answers) n st)
  unfolding rounds_of allocator_round
  allocator_round-IsHeap zero st is = is
  allocator_round-IsHeap (suc n) st is =
      allocator_round-IsHeap n (allocator_round answers st) (allocator_step-IsHeap st.phase st is)
