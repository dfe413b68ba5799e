-- ===== src/Rand.antt =====
-- lib.c: `rand` and `srand`, with the static variables `rand_seed_set` and `rand_seed`.
use weensy_osvm.Base.{
  ℕ, ◌+◌, ◌-◌, ◌*◌, ◌%◌, ◌^◌, ◌≤◌, ◌<◌, ◌≡◌, refl, inl, inr, Bool-cases, bit_and, Bool, true,
  if◌then◌else◌, arith,
}
use weensy_osvm.Base.Bits.{bit_and_low}
use weensy_osvm.X86.{u32}

abbrev pub rand_max : ℕ
rand_max = 0x7FFFFFFF

pub record RandState : Type 0 where
  pub rand_seed_set : Bool
  pub rand_seed : ℕ

unfoldable pub srand : ℕ → RandState → RandState
srand seed s = record { rand_seed_set = true; rand_seed = u32 seed }

-- `if (!rand_seed_set) srand(819234718U);`
unfoldable pub seeded : RandState → RandState
unfolding srand
seeded s = if s.rand_seed_set then s else srand 819234718 s

-- The assignment to `rand_seed`.
unfoldable pub advance : RandState → RandState
advance s = record s { rand_seed = u32 (s.rand_seed * 1664525 + 1013904223) }

unfoldable pub rand : RandState → ℕ × RandState
unfolding seeded advance
rand s = (bit_and (advance (seeded s)).rand_seed rand_max, advance (seeded s))

rand-low : (s : RandState) → (rand s).0 ≡ (rand s).1.rand_seed % 2 ^ 31
unfolding rand
rand-low s = bit_and_low 31 _

seeded-set : (s : RandState) → (seeded s).rand_seed_set ≡ true
unfolding seeded
seeded-set s = ground arith

seeded-same : (s : RandState) → s.rand_seed_set ≡ true → seeded s ≡ s
unfolding seeded
seeded-same s e = rw e refl

-- The numbers lie between 0 and RAND_MAX, and the seed stays an `unsigned` that is set.
pub rand-bounds :
    (s : RandState)
    → ((rand s).0 ≤ rand_max) × ((rand s).1.rand_seed < 2 ^ 32) × ((rand s).1.rand_seed_set ≡ true)
unfolding rand
rand-bounds s = (ground (arith, rand-low s), omega arith, seeded-set s)

rand-next :
    (s : RandState)
    → (rand (rand s).1).1.rand_seed ≡ ((rand s).1.rand_seed * 1664525 + 1013904223) % 2 ^ 32
unfolding rand
rand-next s = rw (seeded-same (advance (seeded s)) (seeded-set s)) refl

-- The multiplier's inverse modulo 2 ^ 32 takes a seed back to the seed before it.
unfoldable pub retreat : ℕ → ℕ
retreat seed = u32 ((seed + (2 ^ 32 - 1013904223)) * 4276115653)

-- `rand` returns the seed that it leaves, less its highest bit, and the seed is set then; and from
-- that seed the one before the call can be computed, which is 819234718 where no seed was set, so
-- that no two seeds are followed by the same one.
pub retreat-rand :
    (s : RandState)
    → s.rand_seed < 2 ^ 32
    → ((rand s).0 ≡ (rand s).1.rand_seed % 2 ^ 31)
      × ((rand s).1.rand_seed_set ≡ true)
      × (retreat (rand s).1.rand_seed ≡ (if s.rand_seed_set then s.rand_seed else 819234718))
unfolding retreat rand advance seeded srand
retreat-rand s h = (rand-low s, seeded-set s, back)
  where
    back :
        retreat (advance (seeded s)).rand_seed
        ≡ (if s.rand_seed_set then s.rand_seed else 819234718)
    back = elim (Bool-cases s.rand_seed_set) [
      | inl set ↦ rw set (omega arith)
      | inr unset ↦ rw unset refl
    ]

-- The lowest bit of the numbers alternates.
pub rand-parity : (s : RandState) → ((rand s).0 + (rand (rand s).1).0) % 2 ≡ 1
rand-parity s = ground (arith, rand-low s, rand-low (rand s).1, rand-next s)
