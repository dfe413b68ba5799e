-- ===== src/Segments/Gates.antt =====
-- The interrupt descriptor table that `segments_init` builds.
use weensy_osvm.Base.{
  ℕ, zero, suc, ◌+◌, ◌-◌, ◌^◌, ◌<◌, ◌≡◌, ◌⊎◌, inl, inr, refl, ap, Bool, true, false, ◌==◌, ◌&&◌,
  ◌||◌, ltb, leb, if◌then◌else◌, Bool-cases, arith,
}
use weensy_osvm.State.{update}
use weensy_osvm.Segments.{
  Gate, Handlers, Cpu, set_gate, no_gate, default_loop, sys_loop, gates_of, segments_init,
  interrupt_count, x86gate_interrupt, int_gpf, int_sys,
}
use weensy_osvm.Segments.Fields.{IsGate, set_gate-IsGate, present_of}

default_loop_lem :
    (default_int n i : ℕ) (gates : ℕ → Gate) (j : ℕ)
    → default_loop default_int n i gates j
      ≡ (if leb i j && ltb j (i + n) then set_gate x86gate_interrupt 0 default_int else gates j)
unfolding default_loop
default_loop_lem default_int zero i gates j = ground arith
default_loop_lem default_int (suc n) i gates j = ground (
  arith,
  default_loop_lem default_int n (i + 1) (update gates i (set_gate x86gate_interrupt 0 default_int))
      j,
)

sys_loop_lem :
    (sys_int : ℕ → ℕ) (n i : ℕ) (gates : ℕ → Gate) (j : ℕ)
    → sys_loop sys_int n i gates j ≡ (
        if leb i j && ltb j (i + n)
        then set_gate x86gate_interrupt 3 (sys_int (j - int_sys))
        else gates j)
unfolding sys_loop
sys_loop_lem sys_int zero i gates j = ground arith
sys_loop_lem sys_int (suc n) i gates j = elim (Bool-cases (j == i)) [
  | inl e ↦
      let same : j ≡ i = ground arith in
      ground (
        arith,
        sys_loop_lem sys_int n (i + 1)
            (update gates i (set_gate x86gate_interrupt 3 (sys_int (i - int_sys)))) j,
        ap (λ k. set_gate x86gate_interrupt 3 (sys_int (k - int_sys))) same,
      )
  | inr e ↦ ground (
    arith,
    sys_loop_lem sys_int n (i + 1)
        (update gates i (set_gate x86gate_interrupt 3 (sys_int (i - int_sys)))) j,
  )
]

abbrev pub is_system_call : ℕ → Bool
is_system_call i = leb int_sys i && ltb i (int_sys + 16)

-- The handler of the interrupt `i`, and the level that may raise it by an instruction.
abbrev pub handler_of : Handlers → ℕ → ℕ
handler_of handlers i =
    if is_system_call i
    then handlers.sys_int (i - int_sys)
    else if i == 0xe
    then handlers.pagefault_int
    else if i == int_gpf
    then handlers.gpf_int
    else if i == 32
    then handlers.timer_int
    else handlers.default_int

abbrev pub level_for : ℕ → ℕ
level_for i = if is_system_call i then 3 else 0

gates_lem :
    (handlers : Handlers) (i : ℕ)
    → i < interrupt_count
    → gates_of handlers i ≡ (
        if leb 16 i || i == int_gpf || i == 0xe
        then set_gate x86gate_interrupt (level_for i) (handler_of handlers i)
        else no_gate)
gates_lem handlers i h =
    let cleared = default_loop handlers.default_int (interrupt_count - 16) 16 (λ i. no_gate) in
    let timer = update cleared 32 (set_gate x86gate_interrupt 0 handlers.timer_int) in
    let gpf = update timer int_gpf (set_gate x86gate_interrupt 0 handlers.gpf_int) in
    let pagefault = update gpf 0xe (set_gate x86gate_interrupt 0 handlers.pagefault_int) in
    ground (
      arith,
      sys_loop_lem handlers.sys_int 16 int_sys pagefault i,
      default_loop_lem handlers.default_int (interrupt_count - 16) 16 (λ i. no_gate) i,
    )

set_gate_interrupt :
    (dpl function : ℕ)
    → dpl < 4
    → function < 2 ^ 64
    → IsGate 0xE dpl function (set_gate x86gate_interrupt dpl function)
set_gate_interrupt dpl function = set_gate-IsGate 0xE dpl function (omega arith)

abbrev pub is_handled : ℕ → Bool
is_handled i = leb 16 i || i == int_gpf || i == 0xe

-- The vector `i` has an interrupt gate to its handler, with level 3 for a system call and 0
-- otherwise; or it has no gate.
abbrev pub IsVector : Handlers → (i : ℕ) → Gate → Type 0
IsVector handlers i g =
    ((is_handled i ≡ true) × IsGate 0xE (level_for i) (handler_of handlers i) g)
    ⊎ ((is_handled i ≡ false) × (present_of g.gd_low ≡ 0))

-- Every vector of the interrupt descriptor table that `segments_init` builds, for handlers at
-- 64-bit addresses: 13, 14 and all from 16 on have an interrupt gate to the handler of the general
-- protection fault, of the page fault, of the timer (32), of a system call (48 to 63) or to the
-- default handler, entered in the kernel's code segment; the processor lets a program raise only
-- the system calls; the other vectors are not present.
pub segments_init-IsVector :
    (handlers : Handlers) (cpu : Cpu) (i : ℕ)
    → i < interrupt_count
    → handler_of handlers i < 2 ^ 64
    → IsVector handlers i ((segments_init handlers cpu).interrupt_descriptors i)
unfolding segments_init present_of
segments_init-IsVector handlers cpu i h hf = elim (Bool-cases (is_handled i)) [
  | inl handled ↦
      let level : level_for i < 4 = ground arith in
      rw (gates_lem handlers i h, handled)
        (inl (refl, set_gate_interrupt (level_for i) (handler_of handlers i) level hf))
  | inr not_handled ↦ rw (gates_lem handlers i h, not_handled) (inr (refl, refl))
]
