-- ===== src/Setup/Privilege.antt =====
-- The privilege with which `process_init` starts a process.
use weensy_osvm.Base.{ℕ, ◌%◌, ◌≡◌, refl, Bool, true, false, not, if◌then◌else◌, bit_or}
use weensy_osvm.X86.{has_flag}
use weensy_osvm.State.{Proc}
use weensy_osvm.Setup.Start.{
  process_init, initial_rflags, eflags_if, eflags_iopl_3, procinit_allow_programmed_io,
  procinit_disable_interrupts,
}

-- The privilege level is the two lowest bits of the code segment's selector.
pub record IsUser (flags : ℕ) (p p' : Proc) : Type 0 where
  pub code_level : p'.p_registers.reg_cs % 4 ≡ 3
  pub stack_level : p'.p_registers.reg_ss % 4 ≡ 3
  pub interrupts :
      has_flag p'.p_registers.reg_rflags eflags_if
      ≡ not (has_flag flags procinit_disable_interrupts)
  pub programmed_io :
      has_flag p'.p_registers.reg_rflags eflags_iopl_3 ≡ has_flag flags procinit_allow_programmed_io
  pub entry : p'.p_registers.reg_rip ≡ 0
  pub same_state : p'.p_state ≡ p.p_state
  pub same_pagetable : p'.p_pagetable ≡ p.p_pagetable
  pub same_pid : p'.p_pid ≡ p.p_pid

initial_rflags_lem :
    (flags : ℕ)
    → (has_flag (initial_rflags flags) eflags_if ≡ not (has_flag flags procinit_disable_interrupts))
      × (has_flag (initial_rflags flags) eflags_iopl_3
          ≡ has_flag flags procinit_allow_programmed_io)
unfolding initial_rflags has_flag
initial_rflags_lem flags =
    both (has_flag flags procinit_disable_interrupts) (has_flag flags procinit_allow_programmed_io)
  where
    both :
        (d io : Bool)
        → (has_flag
              (bit_or (if d then 0 else eflags_if) (if io then eflags_iopl_3 else 0))
              eflags_if
            ≡ not d)
          × (has_flag
                (bit_or (if d then 0 else eflags_if) (if io then eflags_iopl_3 else 0))
                eflags_iopl_3
              ≡ io)
    both true true = (refl, refl)
    both true false = (refl, refl)
    both false true = (refl, refl)
    both false false = (refl, refl)

-- A process starts with the application's privilege level 3, interrupts enabled unless the flags
-- disable them, and programmed I/O only if they allow it; its slot's state, page table and number
-- stay.
pub process_init-IsUser : (flags : ℕ) (p : Proc) → IsUser flags p (process_init flags p)
unfolding process_init
process_init-IsUser flags p = record {
  code_level = refl;
  stack_level = refl;
  interrupts = (initial_rflags_lem flags).0;
  programmed_io = (initial_rflags_lem flags).1;
  entry = refl;
  same_state = refl;
  same_pagetable = refl;
  same_pid = refl;
}
