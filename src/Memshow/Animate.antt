-- ===== src/Memshow/Animate.antt =====
-- `memshow_virtual_animate`, with its static variables: the picture of one process after the other.
use weensy_osvm.Base.{
  ℕ, zero, suc, ◌+◌, ◌-◌, ◌*◌, ◌/◌, ◌%◌, ◌^◌, ◌≤◌, ◌<◌, ◌≡◌, ◌≢◌, ◌⊎◌, inl, inr, refl, sym, ap, ◌∙◌,
  true, false, not, ◌&&◌, ◌||◌, ◌==◌, leb, if◌then◌else◌, Option, none, some, List, [], ◌∷◌, map,
  take, Bool-cases, arith,
}
use mathlib.Core.Bool.{true≢false}
use native.Mathlib.Decide.{ℕ_discrete}
use weensy_osvm.X86.{u8, u32}
use weensy_osvm.State.{Proc, Kernel}
use weensy_osvm.Process.{nproc}
use weensy_osvm.Process.Fork.{is_p_free}
use weensy_osvm.Console.{Console}
use weensy_osvm.Printer.Output.{output}
use weensy_osvm.Memshow.{args_of, number_slot, memshow_virtual}

abbrev pub hz : ℕ
hz = 100

pub record Animation : Type 0 where
  pub last_ticks : ℕ
  pub showing : ℕ

-- Every `hz / 2` timer interrupts another process is shown.
unfoldable pub next_process : (ticks : ℕ) → Animation → Animation
next_process ticks anim =
    if anim.last_ticks == 0 || leb (hz / 2) (u32 (ticks + (2 ^ 32 - anim.last_ticks)))
    then record { last_ticks = ticks; showing = anim.showing + 1 }
    else anim

-- `while (showing <= 2*NPROC && ...) ++showing;` with `n` rounds left
unfoldable pub skip_free : (processes : ℕ → Proc) (n showing : ℕ) → ℕ
skip_free processes zero showing = showing
skip_free processes (suc n) showing =
    let rest = skip_free processes n (showing + 1) in
    if leb showing (2 * nproc) && is_p_free (processes (showing % nproc)).p_state
    then rest
    else showing

-- The variables behind the loop: it ends after at most 2 * NPROC + 1 - showing rounds.
unfoldable pub animate : Kernel → Animation → Animation
unfolding next_process skip_free
animate k anim =
    let next = next_process k.ticks anim in
    record next {
      showing = skip_free k.processes (2 * nproc + 1 - next.showing) next.showing % nproc;
    }

-- `snprintf(s, 4, "%d ", n)`: at most three characters
abbrev pub process_name : ℕ → List ℕ
process_name n =
    take 3
      (map (λ cell. u8 cell.0) (output (args_of (number_slot n ∷ [])) 0 (b'%' ∷ b'd' ∷ b' ' ∷ [])))

abbrev pub with_variables : Animation → Option Console → Option (Animation × Console)
with_variables anim none = none
with_variables anim (some con) = some (anim, con)

unfoldable pub memshow_virtual_animate : Kernel → Animation → Console → Option (Animation × Console)
unfolding animate
memshow_virtual_animate k anim con =
    let next = animate k anim in
    let p = k.processes next.showing in
    with_variables next (
      if not (is_p_free p.p_state)
      then memshow_virtual k p.p_pagetable (process_name next.showing) con
      else some con)

-- The loop stops at the first slot from `showing` on that is in use, where there is one.
record IsFirstUsed (processes : ℕ → Proc) (from at : ℕ) : Type 0 where
  low : from ≤ at
  used : is_p_free (processes (at % nproc)).p_state ≡ false
  free : (j : ℕ) → from ≤ j → j < at → is_p_free (processes (j % nproc)).p_state ≡ true

skip_free-IsFirstUsed :
    (processes : ℕ → Proc) (n showing t : ℕ)
    → showing ≤ t
    → t < showing + n
    → t ≤ 2 * nproc
    → is_p_free (processes (t % nproc)).p_state ≡ false
    → IsFirstUsed processes showing (skip_free processes n showing)
unfolding skip_free
skip_free-IsFirstUsed processes zero showing t l h b u = absurd (omega arith)
skip_free-IsFirstUsed processes (suc n) showing t l h b u =
    let within : leb showing (2 * nproc) ≡ true = ground arith in
    elim (Bool-cases (is_p_free (processes (showing % nproc)).p_state)) [
      | inr used ↦
          rw (within, used)
            (record { low = omega arith; used = used; free = λ j k m. absurd (omega arith) })
      | inl unused ↦
          let later : showing ≢ t = λ e.
            true≢false (sym unused ∙ (ap (λ x. is_p_free (processes (x % nproc)).p_state) e ∙ u)) in
          let rest =
            skip_free-IsFirstUsed processes n (showing + 1) t (omega (arith, later)) (omega arith) b
              u in
          rw (within, unused)
            (record {
              low = omega (arith, rest.low);
              used = rest.used;
              free = λ j k m. elim (ℕ_discrete showing j) [
                | yes e ↦ ap (λ x. is_p_free (processes (x % nproc)).p_state) (sym e) ∙ unused
                | no e ↦ rest.free j (omega arith) m
              ];
            })
    ]

next_process-bound :
    (ticks : ℕ) (anim : Animation)
    → anim.showing < nproc
    → (next_process ticks anim).showing ≤ nproc
unfolding next_process
next_process-bound ticks anim h = ground arith

-- A round of the loop at which the slot `p` comes up.
target :
    (from p : ℕ)
    → from ≤ nproc
    → p < nproc
    → (t : ℕ) × (from ≤ t) × (t ≤ 2 * nproc) × (t % nproc ≡ p)
target from p h l = (p + nproc, omega arith, omega arith, omega arith)

-- Nothing has been shown yet, or half a second has passed since `last_ticks`, an `unsigned`.
abbrev pub IsDue : (ticks : ℕ) (anim : Animation) → Type 0
IsDue ticks anim = (anim.last_ticks ≡ 0) ⊎ (50 ≤ (ticks + (2 ^ 32 - anim.last_ticks)) % 2 ^ 32)

-- The slot from which the search goes on, and the time that is kept.
pub record IsStart (ticks : ℕ) (anim anim' : Animation) (from : ℕ) : Type 0 where
  pub due : IsDue ticks anim → (from ≡ anim.showing + 1) × (anim'.last_ticks ≡ ticks)
  pub early : ¬ IsDue ticks anim → (from ≡ anim.showing) × (anim'.last_ticks ≡ anim.last_ticks)

-- From `from`, the slot that is shown is the one in use that is `steps` places on, over free slots.
pub record IsShownNext (k : Kernel) (anim anim' : Animation) : Type 0 where
  pub from : ℕ
  pub start : IsStart k.ticks anim anim' from
  pub steps : ℕ
  pub place : anim'.showing ≡ (from + steps) % nproc
  pub used : is_p_free (k.processes anim'.showing).p_state ≡ false
  pub skipped : (j : ℕ) → j < steps → is_p_free (k.processes ((from + j) % nproc)).p_state ≡ true

next_process-IsStart :
    (ticks : ℕ) (anim : Animation)
    → IsStart ticks anim (next_process ticks anim) (next_process ticks anim).showing
unfolding next_process
next_process-IsStart ticks anim =
    let elapsed = (ticks + (2 ^ 32 - anim.last_ticks)) % 2 ^ 32 in
    elim (Bool-cases (anim.last_ticks == 0 || leb 50 elapsed)) [
      | inl now ↦
          let is_due : IsDue ticks anim = ground arith in
          rw now (record { due = λ d. (refl, refl); early = λ n. absurd (n is_due) })
      | inr later ↦
          rw later (record { due = λ d. absurd (ground arith); early = λ n. (refl, refl) })
    ]

-- While a slot is in use, the loop of `memshow_virtual_animate` ends at one: the slot that is shown
-- is the first in use in the ring of slots, from the one behind the slot shown before if nothing has
-- been shown or 50 ticks have passed since the time kept, which is then set to now, and else from the
-- slot shown before; so that never a free slot is shown, whichever processes have come and gone.
pub animate-IsShownNext :
    (k : Kernel) (anim : Animation) (p : ℕ)
    → anim.showing < nproc
    → p < nproc
    → is_p_free (k.processes p).p_state ≡ false
    → IsShownNext k anim (animate k anim)
unfolding animate
animate-IsShownNext k anim p h l u =
    let from = (next_process k.ticks anim).showing in
    let bound = next_process-bound k.ticks anim h in
    let (t, low, high, same) = target from p bound l in
    let first =
      skip_free-IsFirstUsed k.processes (2 * nproc + 1 - from) from t low (omega arith) high
        (ap (λ x. is_p_free (k.processes x).p_state) same ∙ u) in
    let at = skip_free k.processes (2 * nproc + 1 - from) from in
    let back : from + (at - from) ≡ at = omega (arith, first.low) in
    let start = next_process-IsStart k.ticks anim in
    record {
      from = from;
      start = record { due = start.due; early = start.early };
      steps = at - from;
      place = rw back refl;
      used = first.used;
      skipped = λ j m. first.free (from + j) (omega arith) (omega (arith, first.low));
    }
