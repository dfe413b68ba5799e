-- ===== src/Devices/Divisor.antt =====
-- What `timer_init` programs.
use weensy_osvm.Base.{
  ℕ, ◌+◌, ◌-◌, ◌*◌, ◌/◌, ◌%◌, ◌^◌, ◌≤◌, ◌<◌, ◌≡◌, refl, true, ltb, ◌&&◌, ◌∷◌, bit_and, bit_or,
  arith,
}
use native.Mathlib.Nat.{div-add-mod', mod-lt, mul-le-mul_right}
use native.Mathlib.Decide.{dec_lt}
use weensy_osvm.Base.Bits.{bit_and_low, bit_or-lowest, bit_or-zero}
use weensy_osvm.Devices.{Access}
use weensy_osvm.Devices.Timer.{Pic, interrupt_mask, timer_init, timer_div, timer_freq}

timer_div_bounds :
    (rate : ℕ)
    → 0 < rate
    → (timer_div rate * rate ≤ timer_freq + rate / 2)
      × (timer_freq + rate / 2 < timer_div rate * rate + rate)
unfolding timer_div
timer_div_bounds rate h =
    let total = div-add-mod' (timer_freq + rate / 2) rate in
    let rest = mod-lt (timer_freq + rate / 2) h in
    (omega (arith, total), omega (arith, total, rest))

-- The divisor fits in two bytes.
timer_div-lt : (rate : ℕ) → 19 ≤ rate → timer_div rate < 2 ^ 16
timer_div-lt rate h = elim (dec_lt (timer_div rate) (2 ^ 16)) [
  | yes small ↦ small
  | no large ↦
      let product : 2 ^ 16 * rate ≤ timer_div rate * rate = mul-le-mul_right rate (omega arith) in
      absurd (omega (arith, product, timer_div_bounds rate (omega arith)))
]

-- The accesses of `timer_init`, from the earliest on: the command, the two bytes of the divisor `d`,
-- and the masks of the master and of the slave, with the interrupts `enabled`.
pub record IsProgrammed (enabled d : ℕ) (pic pic' : Pic) : Type 0 where
  pub enabled_now : pic'.interrupts_enabled ≡ enabled
  pub accesses :
      pic'.trace
      ≡ Access.out8 0xA1 (255 - enabled / 256)
        ∷ Access.out8 0x21 (255 - enabled % 256)
        ∷ Access.out8 0x40 (d / 256)
        ∷ Access.out8 0x40 (d % 256)
        ∷ Access.out8 0x43 0x34
        ∷ pic.trace

-- For a rate from 19 to 2 ^ 31 - 1, `timer_init` makes exactly these accesses, in this order: the
-- command for a rate generator, the low and the high byte of a divisor that differs from
-- TIMER_FREQ / rate by at most one half, and the masks of the master and of the slave, with the
-- timer's interrupt enabled and every other as before.
pub timer_init-IsProgrammed :
    (rate : ℕ) (pic : Pic)
    → 19 ≤ rate
    → rate < 2 ^ 31
    → pic.interrupts_enabled < 2 ^ 16
    → (d : ℕ) × IsProgrammed (pic.interrupts_enabled / 2 * 2 + 1) d pic (timer_init rate pic)
      × (d < 2 ^ 16)
      × (2 * d * rate ≤ 2 * timer_freq + rate)
      × (2 * timer_freq ≤ 2 * d * rate + rate)
unfolding timer_init interrupt_mask
timer_init-IsProgrammed rate pic h l e =
    let positive : (ltb 0 rate && ltb rate (2 ^ 31)) ≡ true = ground arith in
    let on = pic.interrupts_enabled / 2 * 2 + 1 in
    let enabled : bit_or pic.interrupts_enabled 1 ≡ on =
      omega
        (arith, bit_or-lowest pic.interrupts_enabled 1, bit_or-zero (pic.interrupts_enabled / 2)) in
    let d = timer_div rate in
    let small = timer_div-lt rate h in
    let bounds = timer_div_bounds rate (omega arith) in
    let high_byte : d / 256 % 2 ^ 8 ≡ d / 256 = omega arith in
    let low_byte : d % 256 % 2 ^ 8 ≡ d % 256 = omega arith in
    let masked = 2 ^ 16 - 1 - on in
    let low : bit_and masked 0xFF % 2 ^ 8 ≡ 255 - on % 256 = omega (arith, bit_and_low 8 masked) in
    let high : bit_and (masked / 2 ^ 8) 0xFF % 2 ^ 8 ≡ 255 - on / 256 =
      omega (arith, bit_and_low 8 (masked / 2 ^ 8)) in
    rw (positive, enabled)
      (
        d,
        record { enabled_now = refl; accesses = rw (high, low, high_byte, low_byte) refl },
        small,
        omega (arith, bounds),
        omega (arith, bounds),
      )
