-- ===== src/Examples/Hardware.antt =====
-- The theorems on the keyboard, the descriptors and the devices at small inputs.
use weensy_osvm.Base.{
  ℕ, ◌+◌, ◌-◌, ◌*◌, ◌/◌, ◌%◌, ◌^◌, ◌<◌, ◌≤◌, ◌≡◌, inl, refl, ◌==◌, if◌then◌else◌, [], ◌∷◌, arith,
}
use weensy_osvm.Keyboard.{Keyboard, keyboard_readc}
use weensy_osvm.Keyboard.Codes.{Answers, keyboard_readc-IsKey}
use weensy_osvm.Segments.{Handlers, Cpu, no_gate, no_taskstate, set_sys_segment, segments_init}
use weensy_osvm.Segments.Fields.{IsSystem, limit_of, set_sys_segment-IsSystem}
use weensy_osvm.Segments.Gates.{IsVector, segments_init-IsVector}
use weensy_osvm.Segments.Levels.{IsSeparated, segments_init-IsSeparated}
use weensy_osvm.Setup.Start.{process_init}
use weensy_osvm.Devices.{Access, Device}
use weensy_osvm.Devices.Timer.{Pic, timer_init, timer_freq}
use weensy_osvm.Devices.Divisor.{IsProgrammed, timer_init-IsProgrammed}
use weensy_osvm.Examples.Process.{asking}

-- Shift is held.
abbrev shifted : Keyboard
shifted = record { modifiers = 1; last_escape = 0 }

keyboard_readc-IsKey_example : Answers 1 shifted (keyboard_readc 1 0x1E shifted)
keyboard_readc-IsKey_example =
    keyboard_readc-IsKey 1 0x1E shifted (record { modifiers_byte = omega arith; escape = inl refl })

-- Control, at the scan code 0x1D.
abbrev handlers : Handlers
handlers = record {
  default_int = 0x40010;
  timer_int = 0x40020;
  gpf_int = 0x40030;
  pagefault_int = 0x40040;
  sys_int = λ i. 0x40100 + 16 * i;
  segments_ptr = 0x45000;
  interrupt_descriptors_ptr = 0x46000;
  kernel_task_descriptor_ptr = 0x47000;
}

abbrev reset_cpu : Cpu
reset_cpu = record {
  segments = λ i. 0;
  kernel_task_descriptor = no_taskstate;
  interrupt_descriptors = λ i. no_gate;
  gdtr = record { pseudod_limit = 0; pseudod_base = 0 };
  task_register = 0;
  idtr = record { pseudod_limit = 0; pseudod_base = 0 };
  cr0 = 1;
}

-- INT_SYS_GETPID
segments_init-IsVector_example :
    IsVector handlers 49 ((segments_init handlers reset_cpu).interrupt_descriptors 49)
segments_init-IsVector_example =
    segments_init-IsVector handlers reset_cpu 49 (omega arith) (omega arith)

segments_init-IsSeparated_example :
    IsSeparated handlers
      (segments_init handlers reset_cpu)
      (process_init 0 (asking.processes 1)).p_registers
segments_init-IsSeparated_example =
    segments_init-IsSeparated handlers reset_cpu 0 (asking.processes 1) (omega arith)

-- A segment of 128 kB: the limit that is read is 65535.
set_sys_segment-IsSystem_example :
    IsSystem 0x9 0 0x47000 (set_sys_segment (0x9 * 2 ^ 40) 0 0x47000 0x20000)
    × (limit_of (set_sys_segment (0x9 * 2 ^ 40) 0 0x47000 0x20000) ≡ (0x20000 - 1) % 2 ^ 16)
set_sys_segment-IsSystem_example =
    set_sys_segment-IsSystem 0x9 0 0x47000 0x20000 (omega arith) (omega arith) (omega arith)
      (omega arith) (omega arith)

abbrev masked_pic : Pic
masked_pic = record { interrupts_enabled = 0; trace = [] }

timer_init-IsProgrammed_example :
    (d : ℕ) × IsProgrammed (0 / 2 * 2 + 1) d masked_pic (timer_init 100 masked_pic)
    × (d < 2 ^ 16)
    × (2 * d * 100 ≤ 2 * timer_freq + 100)
    × (2 * timer_freq ≤ 2 * d * 100 + 100)
timer_init-IsProgrammed_example =
    timer_init-IsProgrammed 100 masked_pic (omega arith) (omega arith) (omega arith)

-- The power management controller is function 3 of slot 1 on bus 0.
abbrev config_words : ℕ → ℕ
config_words a =
    if a == 0x80000B00 then 0x71138086 else if a == 0x80000800 then 0x70008086 else 2 ^ 32 - 1

bridge_read : Device
bridge_read (Access.in32 port ∷ Access.out32 config_port a ∷ t) = config_words a
bridge_read t = 0
