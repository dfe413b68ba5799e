-- ===== src/Process/Return.antt =====
-- The state in which `exception` goes back to user mode.
use weensy_osvm.Base.{
  ℕ, ◌+◌, ◌%◌, ◌≡◌, refl, inl, inr, Bool, true, false, ◌==◌, Bool-cases, List, [], ◌∷◌,
}
use weensy_osvm.X86.{page_offset}
use weensy_osvm.State.{Kernel, Registers, Run, K, ok, panic, stop, assert, and_then}
use weensy_osvm.State.Allows.{Allows, returned, panicked, stopped}
use weensy_osvm.Paging.{virtual_memory_lookup}
use weensy_osvm.Process.{Link, nproc, set_pagetable, key_pressed, check_keyboard}
use weensy_osvm.Process.Fork.{is_p_runnable, fork}
use weensy_osvm.Process.Schedule.{run, schedule_loop, schedule}
use weensy_osvm.Process.Exception.{
  resume, handle, exception, check_user_fault, getpid, tick, page_alloc, page_fault, int_sys_panic,
  int_sys_getpid, int_sys_yield, int_sys_page_alloc, int_sys_fork, int_timer, int_pagefault,
}

-- The current process can run, and its page table is loaded.
pub record IsRunning (k : Kernel) : Type 0 where
  pub runnable : is_p_runnable (k.processes k.current).p_state ≡ true
  pub loaded : k.cr3 ≡ (k.processes k.current).p_pagetable

-- Every run that ends has a running process.
abbrev pub Resumes : Run (Unit {0}) → Type 0
Resumes = Allows (λ _. IsRunning)

after_assert :
    {Q : Kernel → Type 0} (b : Bool) (k : Kernel) (next : K (Unit {0}))
    → (b ≡ true → Allows (λ _. Q) (next k))
    → Allows (λ _. Q) (and_then (assert b k) (λ _. next))
after_assert true k next h = h refl
after_assert false k next h = panicked

-- Whatever came before.
after_any :
    {Q : Kernel → Type 0} (r : Run (Unit {0})) (next : K (Unit {0}))
    → ((k : Kernel) → Allows (λ _. Q) (next k))
    → Allows (λ _. Q) (and_then r (λ _. next))
after_any (ok _ k) next h = h k
after_any panic next h = panicked
after_any (stop s) next h = stopped

module _ (link : Link) where
  set_pagetable-loads :
      (pagetable : ℕ) (k : Kernel)
      → Allows (λ _ k'. k' ≡ record k { cr3 = pagetable }) (set_pagetable link pagetable k)
  unfolding set_pagetable
  set_pagetable-loads pagetable k = after_assert (page_offset pagetable == 0) k _ (λ _.
      after_assert
        ((virtual_memory_lookup k.mem pagetable link.default_int_handler).pa
          == link.default_int_handler)
        k _
        (λ _.
          after_assert
            ((virtual_memory_lookup k.mem link.kernel_pagetable pagetable).pa == pagetable) k _
            (λ _.
              after_assert
                ((virtual_memory_lookup k.mem pagetable link.kernel_pagetable).pa
                  == link.kernel_pagetable)
                k _
                (λ _.
                  after_assert
                    ((virtual_memory_lookup k.mem pagetable link.virtual_memory_map_ptr).pa
                      == link.virtual_memory_map_ptr)
                    k _ (λ _. returned refl)))))

  run-Resumes : (pid : ℕ) (k : Kernel) → Resumes (run link pid k)
  unfolding run
  run-Resumes pid k = after_assert (is_p_runnable (k.processes pid).p_state) k _ (λ runnable.
      loads_running (set_pagetable-loads (k.processes pid).p_pagetable (record k { current = pid }))
        runnable)
    where
      loads_running :
          {r : Run (Unit {0})}
          → Allows (λ _ k'. k' ≡ record k { current = pid; cr3 = (k.processes pid).p_pagetable }) r
          → is_p_runnable (k.processes pid).p_state ≡ true
          → Resumes r
      loads_running (returned e) runnable =
          returned (rw e (record { runnable = runnable; loaded = refl }))
      loads_running panicked runnable = panicked
      loads_running stopped runnable = stopped

  schedule_loop-Resumes :
      (keys : List ℕ) (pid : ℕ) (k : Kernel) → Resumes (schedule_loop link keys pid k)
  unfolding schedule_loop
  schedule_loop-Resumes [] pid k =
      elim (Bool-cases (is_p_runnable (k.processes ((pid + 1) % nproc)).p_state)) [
        | inl can ↦ rw can (run-Resumes ((pid + 1) % nproc) k)
        | inr cannot ↦ rw cannot stopped
      ]
  schedule_loop-Resumes (c ∷ rest) pid k =
      elim (Bool-cases (is_p_runnable (k.processes ((pid + 1) % nproc)).p_state)) [
        | inl can ↦ rw can (run-Resumes ((pid + 1) % nproc) k)
        | inr cannot ↦ rw cannot (
            after_any (key_pressed c (record k { keys = rest })) _
              (schedule_loop-Resumes rest ((pid + 1) % nproc)))
      ]

  schedule-Resumes : (k : Kernel) → Resumes (schedule link k)
  unfolding schedule
  schedule-Resumes k = schedule_loop-Resumes k.keys (k.processes k.current).p_pid k

  resume-Resumes : (k : Kernel) → Resumes (resume link k)
  unfolding resume
  resume-Resumes k = elim (Bool-cases (is_p_runnable (k.processes k.current).p_state)) [
    | inl can ↦ rw can (run-Resumes k.current k)
    | inr cannot ↦ rw cannot (schedule-Resumes k)
  ]

  handle-Resumes : (reg : Registers) (k : Kernel) → Resumes (handle link reg k)
  unfolding handle
  handle-Resumes reg k = elim (Bool-cases (reg.reg_intno == int_sys_panic)) [
    | inl e0 ↦ rw e0 panicked
    | inr e0 ↦ elim (Bool-cases (reg.reg_intno == int_sys_getpid)) [
      | inl e1 ↦ rw (e0, e1) (after_any (getpid k) (resume link) resume-Resumes)
      | inr e1 ↦ elim (Bool-cases (reg.reg_intno == int_sys_yield)) [
        | inl e2 ↦ rw (e0, e1, e2) (schedule-Resumes k)
        | inr e2 ↦ elim (Bool-cases (reg.reg_intno == int_sys_page_alloc)) [
          | inl e3 ↦ rw (e0, e1, e2, e3) (after_any (page_alloc k) (resume link) resume-Resumes)
          | inr e3 ↦ elim (Bool-cases (reg.reg_intno == int_sys_fork)) [
            | inl e4 ↦ rw (e0, e1, e2, e3, e4) (after_any (fork k) (resume link) resume-Resumes)
            | inr e4 ↦ elim (Bool-cases (reg.reg_intno == int_timer)) [
              | inl e5 ↦
                  rw (e0, e1, e2, e3, e4, e5) (after_any (tick k) (schedule link) schedule-Resumes)
              | inr e5 ↦ elim (Bool-cases (reg.reg_intno == int_pagefault)) [
                | inl e6 ↦
                    rw (e0, e1, e2, e3, e4, e5, e6)
                      (after_any (page_fault reg k) (resume link) resume-Resumes)
                | inr e6 ↦ rw (e0, e1, e2, e3, e4, e5, e6) panicked
              ]
            ]
          ]
        ]
      ]
    ]
  ]

  -- Whatever the exception, a run of `exception` that goes back to user mode does so with a current
  -- process that is runnable and whose own page table is loaded.
  pub exception-Resumes : (reg : Registers) (k : Kernel) → Resumes (exception link reg k)
  unfolding exception
  exception-Resumes reg k = after_any (set_pagetable link link.kernel_pagetable _) _ (λ k1.
      after_any (check_user_fault link reg k1) _
        (λ k2. after_any (check_keyboard k2) (handle link reg) (handle-Resumes reg)))
