-- ===== src/Examples/Programs.antt =====
-- The theorems on the programs at small inputs.
use weensy_osvm.Base.{◌≡◌, inr, refl, true, some, [], ◌∷◌, arith}
use weensy_osvm.Memory.{Mem}
use weensy_osvm.State.Returns.{Returns}
use weensy_osvm.Process.Exception.{page_alloc}
use weensy_osvm.Process.PageAlloc.{IsGiven}
use weensy_osvm.Rand.{rand, seeded, advance}
use weensy_osvm.Programs.{
  Event, Phase, Program, Answers, rounds_of, forkexit_round, forkexit_fill_round, allocate,
  round_up, round_down,
}
use weensy_osvm.Programs.Heap.{IsHeap}
use weensy_osvm.Programs.Requests.{forkexit_round-IsGiven}
use weensy_osvm.Programs.Message.{panic_message, IsLine, panic_message-IsLine}
use weensy_osvm.Examples.Process.{asking, asking-IsSpace}
use weensy_osvm.Examples.Text.{forty_twos, format, two_strings}

-- Process 1 with an empty heap from 0x100000 on, and a draw that asks for a page.
abbrev fresh : Program
fresh = record {
  p = 1;
  heap_top = 0x100000;
  stack_bottom = 0x2FF000;
  rand_state = record { rand_seed_set = true; rand_seed = 709 };
  phase = Phase.filling;
  events = [];
}

-- Every system call succeeds with 0.
abbrev zeros : Answers
zeros events = 0

fresh-IsHeap : IsHeap 0x100000 0x2FF000 fresh
fresh-IsHeap = record {
  aligned = refl;
  low = omega arith;
  high = omega arith;
  stack = refl;
  safe = refl;
}

forkexit_round-IsGiven_example : Returns (λ _. IsGiven asking 0x1000 0x100000) (page_alloc asking)
unfolding rounds_of forkexit_round forkexit_fill_round allocate round_up round_down rand seeded
    advance
forkexit_round-IsGiven_example =
    forkexit_round-IsGiven zeros 0x100000 0x300000 1 0x100000
      (Event.read_console ∷ Event.store 0x100000 1 ∷ []) [] fresh asking 0x1000 (omega arith)
      (omega arith) (inr fresh-IsHeap) refl asking-IsSpace refl refl

panic_message-IsLine_example :
    (m' : Mem) × (panic_message 1000 format forty_twos two_strings ≡ some m')
    × IsLine 1000 two_strings m'
panic_message-IsLine_example = panic_message-IsLine 1000 format forty_twos two_strings
