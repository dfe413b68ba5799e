-- ===== src/Segments.antt =====
-- k-hardware.c: `segments_init`, with the descriptors of segments and gates that it builds, and the
-- structures of x86-64.h that they fill. A descriptor is a 64-bit word, or two of them. The linker's
-- addresses are in `Handlers`.
pub mod Fields
pub mod Gates
pub mod Levels
use weensy_osvm.Base.{
  ℕ, zero, suc, ◌+◌, ◌-◌, ◌*◌, ◌/◌, ◌^◌, if◌then◌else◌, ◌==◌, ltb, bit_and, bit_or,
}
use weensy_osvm.X86.{u64}
use weensy_osvm.State.{update}
use weensy_osvm.Physical.{kernel_stack_top}

abbrev pub segsel_kern_code : ℕ
segsel_kern_code = 0x8

abbrev pub segsel_kern_data : ℕ
segsel_kern_data = 0x18

abbrev pub segsel_taskstate : ℕ
segsel_taskstate = 0x28

abbrev pub x86seg_s : ℕ
x86seg_s = 2 ^ 44

abbrev pub x86seg_p : ℕ
x86seg_p = 2 ^ 47

abbrev pub x86seg_l : ℕ
x86seg_l = 2 ^ 53

abbrev pub x86seg_w : ℕ
x86seg_w = 0x2 * 2 ^ 40

abbrev pub x86seg_x : ℕ
x86seg_x = 0x8 * 2 ^ 40

abbrev pub x86seg_tss : ℕ
x86seg_tss = 0x9 * 2 ^ 40

abbrev pub x86gate_interrupt : ℕ
x86gate_interrupt = 0xE * 2 ^ 40

unfoldable pub set_app_segment : (type dpl : ℕ) → ℕ
set_app_segment type dpl = bit_or (bit_or (bit_or type x86seg_s) (u64 (dpl * 2 ^ 45))) x86seg_p

-- The two words of a system segment.
unfoldable pub set_sys_segment : (type dpl addr size : ℕ) → ℕ × ℕ
set_sys_segment type dpl addr size =
    let limit = u64 (size + (2 ^ 64 - 1)) in
    let base_low =
      bit_or (u64 (bit_and addr 0xFFFFFF * 2 ^ 16)) (u64 (bit_and addr 0xFF000000 * 2 ^ 32)) in
    let limits =
      bit_or (bit_or base_low (bit_and limit 0xFFFF)) (u64 (bit_and limit 0xF0000 * 2 ^ 48)) in
    (bit_or (bit_or (bit_or limits type) (u64 (dpl * 2 ^ 45))) x86seg_p, addr / 2 ^ 32)

-- `x86_64_gatedescriptor`
pub record Gate : Type 0 where
  pub gd_low : ℕ
  pub gd_high : ℕ

unfoldable pub set_gate : (type dpl function : ℕ) → Gate
set_gate type dpl function = record {
  gd_low =
      let selector = bit_or (bit_and function 0xFFFF) (segsel_kern_code * 2 ^ 16) in
      let flags = bit_or (bit_or (bit_or selector type) (u64 (dpl * 2 ^ 45))) x86seg_p in
      bit_or flags (u64 (bit_and function 0xFFFF0000 * 2 ^ 32));
  gd_high = function / 2 ^ 32;
}

-- `x86_64_taskstate`
pub record TaskState : Type 0 where
  pub ts_reserved0 : ℕ
  pub ts_rsp : ℕ → ℕ
  pub ts_ist : ℕ → ℕ
  pub ts_reserved1 : ℕ
  pub ts_reserved2 : ℕ
  pub ts_iomap_base : ℕ

-- `sizeof` a packed `x86_64_taskstate`
abbrev pub taskstate_size : ℕ
taskstate_size = 4 + 3 * 8 + 7 * 8 + 8 + 2 + 2

-- `x86_64_pseudodescriptor`
pub record Pseudodescriptor : Type 0 where
  pub pseudod_limit : ℕ
  pub pseudod_base : ℕ

-- The addresses of the handlers in k-exception.S and of the kernel's tables.
pub record Handlers : Type 0 where
  pub default_int : ℕ
  pub timer_int : ℕ
  pub gpf_int : ℕ
  pub pagefault_int : ℕ
  pub sys_int : ℕ → ℕ
  pub segments_ptr : ℕ
  pub interrupt_descriptors_ptr : ℕ
  pub kernel_task_descriptor_ptr : ℕ

-- The static tables, and what the processor's registers refer to.
pub record Cpu : Type 0 where
  pub segments : ℕ → ℕ
  pub kernel_task_descriptor : TaskState
  pub interrupt_descriptors : ℕ → Gate
  pub gdtr : Pseudodescriptor
  pub task_register : ℕ
  pub idtr : Pseudodescriptor
  pub cr0 : ℕ

abbrev pub interrupt_count : ℕ
interrupt_count = 256

abbrev pub int_gpf : ℕ
int_gpf = 0xd

abbrev pub int_sys : ℕ
int_sys = 48

-- `memset` to 0
abbrev pub no_gate : Gate
no_gate = record { gd_low = 0; gd_high = 0 }

abbrev pub no_taskstate : TaskState
no_taskstate = record {
  ts_reserved0 = 0;
  ts_rsp = λ i. 0;
  ts_ist = λ i. 0;
  ts_reserved1 = 0;
  ts_reserved2 = 0;
  ts_iomap_base = 0;
}

-- `for (i = 16; i < 256; ++i)` at `i`, with `n` gates left
pub default_loop : (default_int n i : ℕ) → (ℕ → Gate) → ℕ → Gate
default_loop default_int zero i gates = gates
default_loop default_int (suc n) i gates =
    default_loop default_int n (i + 1) (update gates i (set_gate x86gate_interrupt 0 default_int))

-- `for (i = INT_SYS; i < INT_SYS + 16; ++i)` at `i`, with `n` gates left
pub sys_loop : (sys_int : ℕ → ℕ) (n i : ℕ) → (ℕ → Gate) → ℕ → Gate
sys_loop sys_int zero i gates = gates
sys_loop sys_int (suc n) i gates =
    sys_loop sys_int n (i + 1)
      (update gates i (set_gate x86gate_interrupt 3 (sys_int (i - int_sys))))

abbrev pub gates_of : Handlers → ℕ → Gate
gates_of handlers =
    let cleared = default_loop handlers.default_int (interrupt_count - 16) 16 (λ i. no_gate) in
    let timer = update cleared 32 (set_gate x86gate_interrupt 0 handlers.timer_int) in
    let gpf = update timer int_gpf (set_gate x86gate_interrupt 0 handlers.gpf_int) in
    let pagefault = update gpf 0xe (set_gate x86gate_interrupt 0 handlers.pagefault_int) in
    sys_loop handlers.sys_int 16 int_sys pagefault

abbrev pub segments_of : Handlers → (ℕ → ℕ) → ℕ → ℕ
segments_of handlers segments =
    let tss = set_sys_segment x86seg_tss 0 handlers.kernel_task_descriptor_ptr taskstate_size in
    let none = update segments 0 0 in
    let kern_code =
      update none (segsel_kern_code / 8) (set_app_segment (bit_or x86seg_x x86seg_l) 0) in
    let app_code = update kern_code (0x10 / 8) (set_app_segment (bit_or x86seg_x x86seg_l) 3) in
    let kern_data = update app_code (segsel_kern_data / 8) (set_app_segment x86seg_w 0) in
    let app_data = update kern_data (0x20 / 8) (set_app_segment x86seg_w 3) in
    update (update app_data (segsel_taskstate / 8) tss.0) (segsel_taskstate / 8 + 1) tss.1

-- CR0_PE | CR0_PG | CR0_WP | CR0_AM | CR0_MP | CR0_NE
abbrev pub cr0_flags : ℕ
cr0_flags = bit_or (bit_or (bit_or (bit_or (bit_or 0x1 0x80000000) 0x10000) 0x40000) 0x2) 0x20

unfoldable pub segments_init : Handlers → Cpu → Cpu
unfolding default_loop sys_loop
segments_init handlers cpu = record {
  segments = segments_of handlers cpu.segments;
  kernel_task_descriptor = record no_taskstate { ts_rsp = update (λ i. 0) 0 kernel_stack_top };
  interrupt_descriptors = gates_of handlers;
  gdtr = record { pseudod_limit = 7 * 8 - 1; pseudod_base = handlers.segments_ptr };
  task_register = segsel_taskstate;
  idtr = record {
    pseudod_limit = interrupt_count * 16 - 1;
    pseudod_base = handlers.interrupt_descriptors_ptr;
  };
  cr0 = bit_or cpu.cr0 cr0_flags;
}
