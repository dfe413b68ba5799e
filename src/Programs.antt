-- ===== src/Programs.antt =====
-- p-allocator.c and p-forkexit.c, with the system calls of process.h: the programs as machines that
-- make one round of their loops at a time. What a program does towards the kernel and the memory is
-- a list of events, the latest first; what a system call returns is a function of them, a parameter.
pub mod Heap
pub mod Forkexit
pub mod Requests
pub mod Message
use weensy_osvm.Base.{
  ℕ, zero, suc, ◌+◌, ◌-◌, ◌*◌, ◌%◌, ◌^◌, ◌&&◌, ◌==◌, ◌!=◌, ltb, leb, if◌then◌else◌, Bool, true,
  false, ◌||◌, Option, none, some, List, [], ◌∷◌,
}
use weensy_osvm.X86.{u32, u64, page_size}
use weensy_osvm.Rand.{RandState, rand, srand}

-- The system calls of process.h that the programs make, and their accesses to memory.
pub data Event : Type 0 where
  sys_getpid : Event
  sys_yield : Event
  sys_page_alloc : (addr : ℕ) → Event
  sys_fork : Event
  sys_exit : Event
  store : (addr value : ℕ) → Event
  read_console : Event
  clear_message : Event

-- What a call returns, from the events up to it.
abbrev pub Answers : Type 0
Answers = List Event → ℕ

-- The loops of `process_main`: those of p-forkexit.c that forks, that fills the heap, that has run
-- out of memory; and the process's end.
pub data Phase : Type 0 where
  forking filling waiting exited : Phase

pub record Program : Type 0 where
  pub p : ℕ
  pub heap_top : ℕ
  pub stack_bottom : ℕ
  pub rand_state : RandState
  pub phase : Phase
  pub events : List Event

abbrev pub alloc_slowdown : ℕ
alloc_slowdown = 100

unfoldable pub round_down : (a n : ℕ) → ℕ
round_down a n = u64 a - u64 a % n

unfoldable pub round_up : (a n : ℕ) → ℕ
unfolding round_down
round_up a n = round_down (a + n + (2 ^ 64 - 1)) n

abbrev pub do_event : Event → Program → Program
do_event e st = record st { events = e ∷ st.events }

abbrev pub set_phase : Phase → Program → Program
set_phase phase st = record st { phase = phase }

-- `*heap_top = p; heap_top += PAGESIZE;`
abbrev pub grow : Program → Program
grow st = record (do_event (Event.store st.heap_top st.p) st) {
  heap_top = u64 (st.heap_top + page_size);
}

module _ (answers : Answers) where
  -- The value of a system call whose event has just been added.
  abbrev pub result : Program → ℕ
  result st = u32 (answers st.events)

  -- `p = sys_getpid()`
  abbrev pub get_pid : Program → Program
  get_pid st = let called = do_event Event.sys_getpid st in record called { p = result called }

  -- `if (heap_top == stack_bottom || sys_page_alloc(heap_top) < 0) break; ...`
  unfoldable pub allocate : Program → Program
  allocate st =
      let asked = do_event (Event.sys_page_alloc st.heap_top) st in
      if st.heap_top == st.stack_bottom
      then set_phase Phase.waiting st
      else if leb (2 ^ 31) (result asked)
      then set_phase Phase.waiting asked
      else grow asked

  -- The start of both programs, behind the forks of p-forkexit.c: `end` is the linker's symbol, and
  -- `rsp` the stack pointer.
  unfoldable pub start : (end rsp : ℕ) → Program → Program
  unfolding round_down round_up
  start end rsp st =
      let named = get_pid st in
      record named {
        rand_state = srand named.p named.rand_state;
        heap_top = round_up end page_size;
        stack_bottom = round_down (rsp + (2 ^ 64 - 1)) page_size;
        phase = Phase.filling;
      }

  abbrev pub unless_waiting : Phase → (Program → Program) → Program → Program
  unless_waiting Phase.waiting f st = st
  unless_waiting phase f st = f st

  -- The loop of p-allocator.c that fills the heap: one round.
  unfoldable pub fill_round : Program → Program
  unfolding allocate
  fill_round st =
      let x = rand st.rand_state in
      let drawn = record st { rand_state = x.1 } in
      let tried = allocate drawn in
      if ltb (x.0 % alloc_slowdown) st.p && ltb st.p (2 ^ 31)
      then unless_waiting tried.phase (do_event Event.sys_yield) tried
      else do_event Event.sys_yield drawn

  abbrev pub allocator_step : Phase → Program → Program
  allocator_step Phase.filling st = fill_round st
  allocator_step phase st = do_event Event.sys_yield st

  -- A round of p-allocator.c behind its start.
  unfoldable pub allocator_round : Program → Program
  unfolding fill_round
  allocator_round st = allocator_step st.phase st

  -- The first loop of p-forkexit.c: a child goes on to its heap.
  unfoldable pub fork_round : (end rsp : ℕ) → Program → Program
  unfolding start
  fork_round end rsp st =
      let x = rand st.rand_state in
      let drawn = record st { rand_state = x.1 } in
      let forked = do_event Event.sys_fork drawn in
      if x.0 % alloc_slowdown == 0
      then (if result forked == 0 then start end rsp forked else forked)
      else do_event Event.sys_yield drawn

  -- `if (console[CPOS(24, 0)]) console_printf(CPOS(24, 0), 0, "\n");` behind a new page
  abbrev pub clear_old_message : Program → Program
  clear_old_message st =
      let looked = do_event Event.read_console st in
      if answers looked.events % 2 ^ 16 != 0 then do_event Event.clear_message looked else looked

  abbrev pub fork_again : Program → Program
  fork_again st =
      let forked = do_event Event.sys_fork st in
      if result forked == 0 then get_pid forked else forked

  abbrev pub exit : Program → Program
  exit st = set_phase Phase.exited (do_event Event.sys_exit st)

  -- The second loop of p-forkexit.c. `8 * p` is an `int` as its bit pattern.
  unfoldable pub forkexit_fill_round : Program → Program
  unfolding allocate
  forkexit_fill_round st =
      let x = rand st.rand_state in
      let drawn = record st { rand_state = x.1 } in
      let tried = allocate drawn in
      let choice = x.0 % (8 * alloc_slowdown) in
      let bound = u32 (8 * st.p) in
      if ltb bound (2 ^ 31) && ltb choice bound
      then unless_waiting tried.phase clear_old_message tried
      else if choice == bound
      then fork_again drawn
      else if choice == u32 (bound + 1)
      then exit drawn
      else do_event Event.sys_yield drawn

  -- The third loop of p-forkexit.c.
  unfoldable pub wait_round : Program → Program
  wait_round st =
      let x = rand st.rand_state in
      let drawn = record st { rand_state = x.1 } in
      if x.0 % (2 * alloc_slowdown) == 0 then exit drawn else do_event Event.sys_yield drawn

  abbrev pub forkexit_step : (end rsp : ℕ) → Phase → Program → Program
  forkexit_step end rsp Phase.forking st = fork_round end rsp st
  forkexit_step end rsp Phase.filling st = forkexit_fill_round st
  forkexit_step end rsp Phase.waiting st = wait_round st
  forkexit_step end rsp Phase.exited st = st

  -- A round of p-forkexit.c, in whichever of its loops it is.
  unfoldable pub forkexit_round : (end rsp : ℕ) → Program → Program
  unfolding fork_round forkexit_fill_round wait_round
  forkexit_round end rsp st = forkexit_step end rsp st.phase st

-- `assert` in a program: a failing one panics by the system call, and does not return.
abbrev assert_that : Bool → Option Program → Option Program
assert_that true next = next
assert_that false next = none

-- The values that the two forks of p-fork.c returned, as the assertions behind them read them.
unfoldable pub fork_results_ok : (pid p1 p2 : ℕ) → Bool
fork_results_ok pid p1 p2 = if pid == 1 then p1 != 0 && p2 != 0 && p1 != p2 else p1 == 0 || p2 == 0

-- The start of p-fork.c, behind which it makes the rounds of p-allocator.c.
unfoldable pub fork_start : (answers : Answers) (end rsp : ℕ) → Program → Option Program
unfolding start fork_results_ok
fork_start answers end rsp st =
    let first = do_event Event.sys_fork st in
    let second = do_event Event.sys_fork first in
    let asked = do_event Event.sys_getpid second in
    assert_that (ltb (result answers first) (2 ^ 31)) (
      assert_that (ltb (result answers second) (2 ^ 31)) (
        assert_that
          (fork_results_ok (result answers asked) (result answers first) (result answers second))
          (some (start answers end rsp asked))))

-- `n` rounds
unfoldable pub rounds_of : (round : Program → Program) (n : ℕ) → Program → Program
rounds_of round zero st = st
rounds_of round (suc n) st = rounds_of round n (round st)
