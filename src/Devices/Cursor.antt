-- ===== src/Devices/Cursor.antt =====
-- k-hardware.c: `console_show_cursor`; `cpos` is an `int` as its bit pattern.
use weensy_osvm.Base.{ℕ, ◌/◌, ◌%◌, ◌^◌, ◌||◌, ltb, leb, if◌then◌else◌}
use weensy_osvm.Console.{console_size}
use weensy_osvm.Devices.{Trace, outb}

abbrev pub shown_position : (cpos : ℕ) → ℕ
shown_position cpos = if leb (2 ^ 31) cpos || ltb console_size cpos then 0 else cpos

unfoldable pub console_show_cursor : (cpos : ℕ) → Trace → Trace
console_show_cursor cpos t =
    outb 0x3D5 (shown_position cpos % 256)
      (outb 0x3D4 15 (outb 0x3D5 (shown_position cpos / 256) (outb 0x3D4 14 t)))
