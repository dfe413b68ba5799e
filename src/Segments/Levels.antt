-- ===== src/Segments/Levels.antt =====
-- The privilege levels of the segments that `segments_init` builds, with the registers that
-- `process_init` gives to a process.
use weensy_osvm.Base.{ℕ, ◌+◌, ◌-◌, ◌/◌, ◌%◌, ◌^◌, ◌<◌, ◌≡◌, refl, arith}
use weensy_osvm.State.{Proc, Registers}
use weensy_osvm.Physical.{kernel_stack_top}
use weensy_osvm.Segments.{
  Handlers, Cpu, set_app_segment, segments_init, segsel_kern_code, taskstate_size,
}
use weensy_osvm.Segments.Fields.{IsSystem, set_sys_segment-IsSystem, limit_of, level_of, present_of}
use weensy_osvm.Setup.Start.{process_init}

-- The selector's index picks the segment, and its two lowest bits are the level that it asks for.
pub record IsSeparated (handlers : Handlers) (cpu : Cpu) (r : Registers) : Type 0 where
  pub user_code : level_of (cpu.segments (r.reg_cs / 8)) ≡ 3
  pub user_code_present : present_of (cpu.segments (r.reg_cs / 8)) ≡ 1
  pub user_code_requested : r.reg_cs % 4 ≡ 3
  pub user_stack : level_of (cpu.segments (r.reg_ss / 8)) ≡ 3
  pub user_stack_present : present_of (cpu.segments (r.reg_ss / 8)) ≡ 1
  pub kernel_code : level_of (cpu.segments (segsel_kern_code / 8)) ≡ 0
  pub task :
      IsSystem 0x9 0 handlers.kernel_task_descriptor_ptr
        (cpu.segments (cpu.task_register / 8), cpu.segments (cpu.task_register / 8 + 1))
  pub task_limit :
      limit_of (cpu.segments (cpu.task_register / 8), cpu.segments (cpu.task_register / 8 + 1))
      ≡ taskstate_size - 1
  pub kernel_stack : cpu.kernel_task_descriptor.ts_rsp 0 ≡ kernel_stack_top

-- Behind `segments_init`, the code and stack selectors that `process_init` gives to a process name
-- present segments of level 3, the kernel's code segment has level 0, and the task register names
-- a task state segment over `kernel_task_descriptor`, whose stack for interrupts is the kernel's.
pub segments_init-IsSeparated :
    (handlers : Handlers) (cpu : Cpu) (flags : ℕ) (p : Proc)
    → handlers.kernel_task_descriptor_ptr < 2 ^ 64
    → IsSeparated handlers (segments_init handlers cpu) (process_init flags p).p_registers
unfolding segments_init process_init set_app_segment level_of present_of
segments_init-IsSeparated handlers cpu flags p h =
    let task =
      set_sys_segment-IsSystem 0x9 0 handlers.kernel_task_descriptor_ptr taskstate_size
        (omega arith) (omega arith) h (omega arith) (omega arith) in
    record {
      user_code = refl;
      user_code_present = refl;
      user_code_requested = refl;
      user_stack = refl;
      user_stack_present = refl;
      kernel_code = refl;
      task = task.0;
      task_limit = task.1;
      kernel_stack = refl;
    }
