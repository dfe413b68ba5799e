-- ===== src/Programs/Forkexit.antt =====
-- p-forkexit.c: the pages that it asks for in each of its loops.
use weensy_osvm.Base.{
  ℕ, zero, suc, ◌+◌, ◌-◌, ◌*◌, ◌%◌, ◌^◌, ◌≤◌, ◌<◌, ◌≡◌, ◌⊎◌, inl, inr, refl, true, ◌==◌, ◌&&◌, ◌!=◌,
  ltb, all, Bool-cases, arith,
}
use weensy_osvm.X86.{page_size, u32}
use weensy_osvm.Rand.{rand}
use weensy_osvm.Programs.{
  Event, Answers, Phase, Program, alloc_slowdown, round_down, round_up, allocate, start, fork_round,
  forkexit_fill_round, wait_round, forkexit_round, rounds_of, do_event, result, clear_old_message,
  fork_again, exit, forkexit_step,
}
use weensy_osvm.Programs.Heap.{
  IsHeap, is_safe, IsHeap-event, IsHeap-phase, IsHeap-rand, IsHeap-p, allocate-IsHeap,
  unless_waiting-IsHeap,
}

module _ (answers : Answers) (first bottom : ℕ) (bottom_aligned : bottom % page_size ≡ 0)
    (room : bottom < 2 ^ 48) where
  clear_old_message-IsHeap :
      (st : Program) → IsHeap first bottom st → IsHeap first bottom (clear_old_message answers st)
  clear_old_message-IsHeap st is =
      let looked = do_event Event.read_console st in
      let looked_is = IsHeap-event is Event.read_console refl in
      elim (Bool-cases (answers looked.events % 2 ^ 16 != 0)) [
        | inl message ↦ rw message (IsHeap-event looked_is Event.clear_message refl)
        | inr none ↦ rw none looked_is
      ]

  fork_again-IsHeap :
      (st : Program) → IsHeap first bottom st → IsHeap first bottom (fork_again answers st)
  fork_again-IsHeap st is =
      let forked_is = IsHeap-event is Event.sys_fork refl in
      elim (Bool-cases (result answers (do_event Event.sys_fork st) == 0)) [
        | inl child ↦ rw child (IsHeap-p (IsHeap-event forked_is Event.sys_getpid refl) _)
        | inr parent ↦ rw parent forked_is
      ]

  exit-IsHeap : (st : Program) → IsHeap first bottom st → IsHeap first bottom (exit answers st)
  exit-IsHeap st is = IsHeap-phase (IsHeap-event is Event.sys_exit refl) Phase.exited

  forkexit_fill_round-IsHeap :
      (st : Program) → IsHeap first bottom st → IsHeap first bottom (forkexit_fill_round answers st)
  unfolding forkexit_fill_round
  forkexit_fill_round-IsHeap st is =
      let x = rand st.rand_state in
      let drawn = record st { rand_state = x.1 } in
      let drawn_is = IsHeap-rand is x.1 in
      let tried = allocate answers drawn in
      let choice = x.0 % (8 * alloc_slowdown) in
      let bound = u32 (8 * st.p) in
      elim (Bool-cases (ltb bound (2 ^ 31) && ltb choice bound)) [
        | inl fill ↦ rw fill (
            unless_waiting-IsHeap answers first bottom bottom_aligned room tried.phase
              (clear_old_message answers) tried (clear_old_message-IsHeap tried)
              (allocate-IsHeap answers first bottom bottom_aligned room drawn drawn_is))
        | inr not_fill ↦ elim (Bool-cases (choice == bound)) [
          | inl fork ↦ rw (not_fill, fork) (fork_again-IsHeap drawn drawn_is)
          | inr not_fork ↦ elim (Bool-cases (choice == u32 (bound + 1))) [
            | inl leave ↦ rw (not_fill, not_fork, leave) (exit-IsHeap drawn drawn_is)
            | inr stay ↦ rw (not_fill, not_fork, stay) (IsHeap-event drawn_is Event.sys_yield refl)
          ]
        ]
      ]

  wait_round-IsHeap :
      (st : Program) → IsHeap first bottom st → IsHeap first bottom (wait_round answers st)
  unfolding wait_round
  wait_round-IsHeap st is =
      let x = rand st.rand_state in
      let drawn = record st { rand_state = x.1 } in
      let drawn_is = IsHeap-rand is x.1 in
      elim (Bool-cases (x.0 % (2 * alloc_slowdown) == 0)) [
        | inl leave ↦ rw leave (exit-IsHeap drawn drawn_is)
        | inr stay ↦ rw stay (IsHeap-event drawn_is Event.sys_yield refl)
      ]

-- The first page of the heap and the bottom of the stack page, as `process_main` computes them.
abbrev pub first_page : (end : ℕ) → ℕ
first_page end = round_up end page_size

abbrev pub stack_page : (rsp : ℕ) → ℕ
stack_page rsp = round_down (rsp + (2 ^ 64 - 1)) page_size

round_down-aligned : (a : ℕ) → round_down a page_size % page_size ≡ 0
unfolding round_down
round_down-aligned a = omega arith

round_up-aligned : (a : ℕ) → round_up a page_size % page_size ≡ 0
unfolding round_up
round_up-aligned a = round_down-aligned (a + page_size + (2 ^ 64 - 1))

-- In its first loop the program has no heap yet; behind it, its heap is sound.
abbrev pub IsClient : (first bottom : ℕ) → Program → Type 0
IsClient first bottom st =
    ((st.phase ≡ Phase.forking) × (all (is_safe first bottom) st.events ≡ true))
    ⊎ IsHeap first bottom st

module _ (answers : Answers) (end rsp : ℕ) (fits : first_page end ≤ stack_page rsp)
    (room : stack_page rsp < 2 ^ 48) where
  pub start-IsHeap :
      (st : Program)
      → all (is_safe (first_page end) (stack_page rsp)) st.events ≡ true
      → IsHeap (first_page end) (stack_page rsp) (start answers end rsp st)
  unfolding start
  start-IsHeap st safe = record {
    aligned = round_up-aligned end;
    low = omega arith;
    high = fits;
    stack = refl;
    safe = safe;
  }

  fork_round-IsClient :
      (st : Program)
      → st.phase ≡ Phase.forking
      → all (is_safe (first_page end) (stack_page rsp)) st.events ≡ true
      → IsClient (first_page end) (stack_page rsp) (fork_round answers end rsp st)
  unfolding fork_round
  fork_round-IsClient st e safe =
      let x = rand st.rand_state in
      let forked = do_event Event.sys_fork (record st { rand_state = x.1 }) in
      elim (Bool-cases (x.0 % alloc_slowdown == 0)) [
        | inr stay ↦ rw stay (inl (e, safe))
        | inl fork ↦ elim (Bool-cases (result answers forked == 0)) [
          | inl child ↦ rw (fork, child) (inr (start-IsHeap forked safe))
          | inr parent ↦ rw (fork, parent) (inl (e, safe))
        ]
      ]

  forkexit_step-IsClient :
      (phase : Phase) (st : Program)
      → st.phase ≡ phase
      → IsClient (first_page end) (stack_page rsp) st
      → IsClient (first_page end) (stack_page rsp) (forkexit_step answers end rsp phase st)
  forkexit_step-IsClient Phase.forking st e (inl (f, safe)) = fork_round-IsClient st e safe
  forkexit_step-IsClient Phase.forking st e (inr heap) = fork_round-IsClient st e heap.safe
  forkexit_step-IsClient Phase.filling st e (inl (f, safe)) = absurd (ground arith)
  forkexit_step-IsClient Phase.filling st e (inr heap) = inr (
      forkexit_fill_round-IsHeap answers (first_page end) (stack_page rsp)
        (round_down-aligned (rsp + (2 ^ 64 - 1))) room st heap)
  forkexit_step-IsClient Phase.waiting st e (inl (f, safe)) = absurd (ground arith)
  forkexit_step-IsClient Phase.waiting st e (inr heap) = inr (
      wait_round-IsHeap answers (first_page end) (stack_page rsp)
        (round_down-aligned (rsp + (2 ^ 64 - 1))) room st heap)
  forkexit_step-IsClient Phase.exited st e is = is

  -- However the kernel answers its system calls, in any number of rounds from its start p-forkexit.c
  -- asks for and writes to pages only that are page-aligned and lie from its first heap page to its
  -- stack, as parent or as child.
  pub forkexit_round-IsClient :
      (n : ℕ) (st : Program)
      → IsClient (first_page end) (stack_page rsp) st
      → IsClient (first_page end) (stack_page rsp) (rounds_of (forkexit_round answers end rsp) n st)
  unfolding rounds_of forkexit_round
  forkexit_round-IsClient zero st is = is
  forkexit_round-IsClient (suc n) st is =
      forkexit_round-IsClient n (forkexit_round answers end rsp st)
        (forkexit_step-IsClient st.phase st refl is)
