-- ===== src/Devices/Timer.antt =====
-- k-hardware.c: `interrupt_mask`, `interrupt_init` and `timer_init`, with the static variable
-- `interrupts_enabled`. An `int` rate is its bit pattern.
use weensy_osvm.Base.{ℕ, ◌+◌, ◌-◌, ◌/◌, ◌%◌, ◌^◌, ◌&&◌, ltb, if◌then◌else◌, bit_and, bit_or}
use weensy_osvm.Devices.{Trace, outb}

abbrev pub io_pic1 : ℕ
io_pic1 = 0x20

abbrev pub io_pic2 : ℕ
io_pic2 = 0xA0

abbrev pub irq_slave : ℕ
irq_slave = 2

abbrev pub io_timer1 : ℕ
io_timer1 = 0x040

abbrev pub timer_mode : ℕ
timer_mode = io_timer1 + 3

abbrev pub timer_freq : ℕ
timer_freq = 1193182

abbrev pub int_hardware : ℕ
int_hardware = 32

unfoldable pub timer_div : ℕ → ℕ
timer_div x = (timer_freq + x / 2) / x

pub record Pic : Type 0 where
  pub interrupts_enabled : ℕ
  pub trace : Trace

-- `masked` is `~interrupts_enabled` as a `uint16_t`.
unfoldable pub interrupt_mask : Pic → Pic
interrupt_mask pic =
    let masked = 2 ^ 16 - 1 - pic.interrupts_enabled in
    record pic {
      trace =
          outb (io_pic2 + 1) (bit_and (masked / 2 ^ 8) 0xFF)
            (outb (io_pic1 + 1) (bit_and masked 0xFF) pic.trace);
    }

-- The command words of the two controllers, in the order in which they are written.
abbrev pub set_up_controllers : Trace → Trace
set_up_controllers t =
    let icw1 = outb io_pic1 0x11 t in
    let icw2 = outb (io_pic1 + 1) int_hardware icw1 in
    let icw3 = outb (io_pic1 + 1) (2 ^ irq_slave) icw2 in
    let icw4 = outb (io_pic1 + 1) 0x3 icw3 in
    let slave_icw1 = outb io_pic2 0x11 icw4 in
    let slave_icw2 = outb (io_pic2 + 1) (int_hardware + 8) slave_icw1 in
    let slave_icw3 = outb (io_pic2 + 1) irq_slave slave_icw2 in
    let slave_icw4 = outb (io_pic2 + 1) 0x01 slave_icw3 in
    outb io_pic2 0x0a (outb io_pic2 0x68 (outb io_pic1 0x0a (outb io_pic1 0x68 slave_icw4)))

unfoldable pub interrupt_init : Pic → Pic
unfolding interrupt_mask
interrupt_init pic =
    let masked = interrupt_mask (record pic { interrupts_enabled = 0 }) in
    interrupt_mask (record masked { trace = set_up_controllers masked.trace })

-- TIMER_SEL0 | TIMER_RATEGEN | TIMER_16BIT
abbrev pub timer_command : ℕ
timer_command = bit_or (bit_or 0x00 0x04) 0x30

unfoldable pub timer_init : (rate : ℕ) → Pic → Pic
unfolding interrupt_mask timer_div
timer_init rate pic =
    if ltb 0 rate && ltb rate (2 ^ 31)
    then interrupt_mask (record {
      interrupts_enabled = bit_or pic.interrupts_enabled 1;
      trace =
          outb io_timer1 (timer_div rate / 256)
            (outb io_timer1 (timer_div rate % 256) (outb timer_mode timer_command pic.trace));
    })
    else interrupt_mask
        (record pic { interrupts_enabled = bit_and pic.interrupts_enabled (2 ^ 16 - 1 - 1) })
