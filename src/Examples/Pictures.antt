-- ===== src/Examples/Pictures.antt =====
-- The theorems on the pictures of memory at small states.
use weensy_osvm.Base.{
  ℕ, ◌*◌, ◌^◌, ◌<◌, ◌≤◌, ◌≡◌, ◌⊎◌, inl, inr, refl, Bool, Bool-cases, true, ◌&&◌, ◌||◌, leb, ltb,
  all_below, all_below-lt, some, [], ◌∷◌, arith,
}
use weensy_osvm.X86.{page_size, page_offset, page_number, has_flag, pte_flags, pageindex, pte_addr}
use weensy_osvm.Memory.{load64}
use weensy_osvm.Paging.{VaMapping, virtual_memory_lookup, memsize_physical}
use weensy_osvm.Console.{Console}
use weensy_osvm.Memshow.{memshow_virtual}
use weensy_osvm.Memshow.Draw.{place}
use weensy_osvm.Memshow.Shown.{IsOwner, shows, memshow_virtual-shown}
use weensy_osvm.Memshow.Animate.{Animation, animate, IsShownNext, animate-IsShownNext}
use weensy_osvm.Examples.System.{alone}

abbrev blank_console : Console
blank_console = record { cells = λ i. 0; cursor = 0 }

-- The page table of `alone` maps the first 512 pages, and no page behind them.
is_within : ℕ → Bool
is_within i =
    let vam = virtual_memory_lookup alone.mem 0x1000 (i * page_size) in
    leb (2 ^ 31) vam.pn || ltb vam.pa memsize_physical

all_within : all_below 768 is_within ≡ true
unfolding is_within virtual_memory_lookup load64 page_offset has_flag pte_flags pageindex pte_addr
    page_number
all_within = refl

within_or_unmapped :
    (i : ℕ)
    → i < 768
    → (2 ^ 31 ≤ (virtual_memory_lookup alone.mem 0x1000 (i * page_size)).pn)
      ⊎ ((virtual_memory_lookup alone.mem 0x1000 (i * page_size)).pa < memsize_physical)
unfolding is_within
within_or_unmapped i h =
    split (virtual_memory_lookup alone.mem 0x1000 (i * page_size))
      (all_below-lt 768 is_within i all_within h)
  where
    split :
        (vam : VaMapping)
        → (leb (2 ^ 31) vam.pn || ltb vam.pa memsize_physical) ≡ true
        → (2 ^ 31 ≤ vam.pn) ⊎ (vam.pa < memsize_physical)
    split vam t = ground arith

alone-IsOwner : (p : ℕ) → IsOwner (alone.pageinfo p)
alone-IsOwner p = elim (Bool-cases (leb 1 p && ltb p 5)) [
  | inl table ↦ rw table (inr (omega arith, omega arith))
  | inr other ↦ rw other (inl (omega arith))
]

memshow_virtual-shown_example :
    (con' : Console) × (memshow_virtual alone 0x1000 (b'1' ∷ []) blank_console ≡ some con')
    × ((i : ℕ)
        → i < 768
        → con'.cells (place 11 i)
          ≡ shows alone.pageinfo (virtual_memory_lookup alone.mem 0x1000 (i * page_size)))
unfolding pte_addr
memshow_virtual-shown_example =
    memshow_virtual-shown alone 0x1000 (b'1' ∷ []) blank_console refl alone-IsOwner
      within_or_unmapped

-- Process 15 was shown last; only process 1 is in use.
abbrev shown_last : Animation
shown_last = record { last_ticks = 0; showing = 15 }

animate-IsShownNext_example : IsShownNext alone shown_last (animate alone shown_last)
animate-IsShownNext_example =
    animate-IsShownNext alone shown_last 1 (omega arith) (omega arith) refl
