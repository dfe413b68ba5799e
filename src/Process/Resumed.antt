-- ===== src/Process/Resumed.antt =====
-- The end of `exception`: the process that runs next, and the invariant of the slots.
use weensy_osvm.Base.{
  ℕ, ◌+◌, ◌%◌, ◌<◌, ◌≡◌, ◌≢◌, inl, inr, refl, sym, ap, ◌∙◌, Bool, true, false, ◌==◌, if◌then◌else◌,
  Bool-cases, List, [], ◌∷◌, arith,
}
use mathlib.Core.Bool.{true≢false}
use weensy_osvm.State.{Kernel, ProcState, p_free, p_runnable, p_blocked, p_broken, Registers, K}
use weensy_osvm.State.Allows.{Allows, returned, panicked, stopped, bind, either}
use weensy_osvm.State.Keeps.{Stable, Leads, Leads-then}
use weensy_osvm.Process.{Link, nproc}
use weensy_osvm.Process.Fork.{is_p_free, is_p_runnable}
use weensy_osvm.Process.Schedule.{run, schedule_loop, schedule}
use weensy_osvm.Process.Exception.{
  resume, handle, save_registers, exception, int_sys_panic, int_sys_getpid, int_sys_yield,
  int_sys_page_alloc, int_sys_fork, int_timer, int_pagefault,
}
use weensy_osvm.Process.Keeps.{
  key_pressed-Keeps, check_keyboard-Keeps, set_pagetable-Keeps, check_user_fault-Keeps,
}
use weensy_osvm.Process.Frame.{Kept, Within, Within-Stable, Within-own}
use weensy_osvm.Process.Kept.{
  fork-Keeps, page_alloc-Keeps, page_fault-Keeps, tick-Keeps, getpid-Keeps,
}

-- Behind the exception: a process of another slot than 0 runs.
pub record After (k0 k : Kernel) : Type 0 where
  pub kept : Kept k0 k
  pub upper : k.current < nproc
  pub lower : 0 < k.current
  pub runnable : is_p_runnable (k.processes k.current).p_state ≡ true

Kept-Stable : (k0 : Kernel) → Stable (Kept k0)
Kept-Stable k0 k mem pageinfo ticks owner cr3 keys is = record {
  others = is.others;
  pids = is.pids;
  idle = is.idle;
  own_table = is.own_table;
  own_used = is.own_used;
}

After-Stable : (k0 : Kernel) → Stable (After k0)
After-Stable k0 k mem pageinfo ticks owner cr3 keys is = record {
  kept = Kept-Stable k0 k mem pageinfo ticks owner cr3 keys is.kept;
  upper = is.upper;
  lower = is.lower;
  runnable = is.runnable;
}

not_free : (s : ProcState) → is_p_runnable s ≡ true → is_p_free s ≡ false
not_free p_free h = absurd (true≢false (sym h))
not_free p_runnable h = refl
not_free p_blocked h = refl
not_free p_broken h = refl

Leads-if :
    {P Q : Kernel → Type 0} (b : Bool) {m n : K (Unit {0})}
    → Leads P Q m
    → Leads P Q n
    → Leads P Q (if b then m else n)
Leads-if true lm ln = lm
Leads-if false lm ln = ln

module _ (link : Link) (k0 : Kernel) (low : 0 < k0.current) (high : k0.current < nproc) where
  save_registers-Leads : (reg : Registers) → Leads (Within k0) (Within k0) (save_registers link reg)
  save_registers-Leads reg k is =
      returned
        (Within-own is low (λ p. record p { p_registers = reg }) (λ p. refl) (λ p. refl) (λ p u. u))

  run-Leads : (pid : ℕ) → pid < nproc → Leads (Kept k0) (After k0) (run link pid)
  unfolding run
  run-Leads pid bound k is = elim (Bool-cases (is_p_runnable (k.processes pid).p_state)) [
    | inl can ↦
        let positive : pid ≢ 0 = λ e. true≢false (
          sym is.idle
          ∙ (ap (λ (x : ℕ). is_p_free (k.processes x).p_state) (sym e)
              ∙ not_free (k.processes pid).p_state can)) in
        let here : Kernel = record k { current = pid } in
        let after : After k0 here = record {
          kept = record {
            others = is.others;
            pids = is.pids;
            idle = is.idle;
            own_table = is.own_table;
            own_used = is.own_used;
          };
          upper = bound;
          lower = omega (arith, positive);
          runnable = can;
        } in
        rw can (set_pagetable-Keeps (After-Stable k0) link (k.processes pid).p_pagetable here after)
    | inr cannot ↦ rw cannot panicked
  ]

  schedule_loop-Leads :
      (keys : List ℕ) (pid : ℕ) → Leads (Kept k0) (After k0) (schedule_loop link keys pid)
  unfolding schedule_loop
  schedule_loop-Leads [] pid k is =
      either (is_p_runnable (k.processes ((pid + 1) % nproc)).p_state)
        (run-Leads ((pid + 1) % nproc) (omega arith) k is) stopped
  schedule_loop-Leads (c ∷ rest) pid k is =
      either (is_p_runnable (k.processes ((pid + 1) % nproc)).p_state)
        (run-Leads ((pid + 1) % nproc) (omega arith) k is)
        (bind
          (key_pressed-Keeps (Kept-Stable k0) c (record k { keys = rest })
            (Kept-Stable k0 k k.mem k.pageinfo k.ticks k.pagetable_owner k.cr3 rest is))
          (λ _ k' is'. schedule_loop-Leads rest ((pid + 1) % nproc) k' is'))

  schedule-Leads : Leads (Within k0) (After k0) (schedule link)
  unfolding schedule
  schedule-Leads k is = schedule_loop-Leads k.keys (k.processes k.current).p_pid k is.kept

  resume-Leads : Leads (Within k0) (After k0) (resume link)
  unfolding resume
  resume-Leads k is =
      either (is_p_runnable (k.processes k.current).p_state)
        (run-Leads k.current (omega (arith, is.same_current)) k is.kept) (schedule-Leads k is)

  handle-Leads : (reg : Registers) → Leads (Within k0) (After k0) (handle link reg)
  unfolding handle
  handle-Leads reg =
      Leads-if (reg.reg_intno == int_sys_panic) (λ k is. panicked)
        (Leads-if (reg.reg_intno == int_sys_getpid) (Leads-then (getpid-Keeps k0 low) resume-Leads)
          (Leads-if (reg.reg_intno == int_sys_yield) schedule-Leads (
            Leads-if (reg.reg_intno == int_sys_page_alloc)
              (Leads-then (page_alloc-Keeps k0 low) resume-Leads)
              (Leads-if (reg.reg_intno == int_sys_fork)
                (Leads-then (fork-Keeps k0 low) resume-Leads)
                (Leads-if (reg.reg_intno == int_timer)
                  (Leads-then (tick-Keeps k0 low) schedule-Leads)
                  (Leads-if (reg.reg_intno == int_pagefault)
                    (Leads-then (page_fault-Keeps k0 low reg) resume-Leads) (λ k is. panicked)))))))

-- The invariant of the process table between two exceptions: each slot has its number, slot 0 is
-- free, and the current process has another slot and is not free.
pub record IsSystem (k : Kernel) : Type 0 where
  pub pids : (j : ℕ) → j < nproc → (k.processes j).p_pid ≡ j
  pub idle : is_p_free (k.processes 0).p_state ≡ true
  pub lower : 0 < k.current
  pub upper : k.current < nproc
  pub used : is_p_free (k.processes k.current).p_state ≡ false

pub After-IsSystem : {k0 k : Kernel} → After k0 k → IsSystem k
After-IsSystem {k} after = record {
  pids = after.kept.pids;
  idle = after.kept.idle;
  lower = after.lower;
  upper = after.upper;
  used = not_free (k.processes k.current).p_state after.runnable;
}

Within-start : {k : Kernel} → IsSystem k → Within k k
Within-start is = record {
  kept = record {
    others = λ j h n. refl;
    pids = is.pids;
    idle = is.idle;
    own_table = refl;
    own_used = is.used;
  };
  same_current = refl;
}

-- Whatever the exception, a run of `exception` that goes back to user mode has left every process
-- that was in use but the one that ran as it was, with its registers, state and page table, has kept
-- the page table of the one that ran, and goes back to a runnable process of a slot from 1 to 15; the
-- slots keep their numbers, and slot 0 stays free.
pub exception-After :
    (link : Link) (reg : Registers) (k : Kernel)
    → IsSystem k
    → Allows (λ _. After k) (exception link reg k)
unfolding exception
exception-After link reg k is =
    Leads-then (save_registers-Leads link k is.lower is.upper reg)
      (Leads-then (set_pagetable-Keeps (Within-Stable k) link link.kernel_pagetable) (
        Leads-then (check_user_fault-Keeps (Within-Stable k) link reg) (
          Leads-then (check_keyboard-Keeps (Within-Stable k))
            (handle-Leads link k is.lower is.upper reg))))
      k (Within-start is)
