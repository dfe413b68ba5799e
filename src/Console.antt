-- ===== src/Console.antt =====
-- lib.c: the console, `console_putc` and `console_clear`, and the printer into a string. The
-- cursor is its index in `console`.
pub mod Cursor
pub mod Text
pub mod Buffer
use weensy_osvm.Base.{
  ℕ, zero, suc, ◌+◌, ◌-◌, ◌*◌, ◌/◌, ◌%◌, ◌^◌, Bool, ◌==◌, ltb, leb, if◌then◌else◌, bit_or, ◌||◌,
}
use weensy_osvm.X86.{u8}
use weensy_osvm.Memory.{Mem, store8}
use weensy_osvm.State.{update}

abbrev pub console_columns : ℕ
console_columns = 80

abbrev pub console_rows : ℕ
console_rows = 25

abbrev pub console_size : ℕ
console_size = console_rows * console_columns

pub record Console : Type 0 where
  pub cells : ℕ → ℕ
  pub cursor : ℕ

-- `*cp->cursor++ = c | color`, a `uint16_t`
unfoldable pub put_cell : (c color : ℕ) → Console → Console
put_cell c color con = record {
  cells = update con.cells con.cursor (bit_or c color % 2 ^ 16);
  cursor = con.cursor + 1;
}

-- `for (; pos != 80; pos++)` with `n` = 80 - pos
pub blank_loop : (n color : ℕ) → Console → Console
blank_loop zero color con = con
blank_loop (suc n) color con = blank_loop n color (put_cell b' ' color con)

-- `if (cp->cursor >= console + CONSOLE_ROWS * CONSOLE_COLUMNS) cp->cursor = console;`
unfoldable pub wrap : Console → Console
wrap con = if leb console_size con.cursor then record con { cursor = 0 } else con

unfoldable pub console_putc : (c color : ℕ) → Console → Console
unfolding blank_loop put_cell wrap
console_putc c color con =
    if c == b'\n'
    then blank_loop (80 - (wrap con).cursor % 80) color (wrap con)
    else put_cell c color (wrap con)

-- The cursor that `console_vprintf` starts from; `cpos` is an `int`.
unfoldable pub start_cursor : (cpos : ℕ) → ℕ
start_cursor cpos = if leb (2 ^ 31) cpos || leb console_size cpos then 0 else cpos

-- The loop of `console_clear` at `i`, with `n` cells left.
pub clear_loop : (n i : ℕ) → (ℕ → ℕ) → ℕ → ℕ
clear_loop zero i cells = cells
clear_loop (suc n) i cells = clear_loop n (i + 1) (update cells i (bit_or b' ' 0x0700))

-- The cells and `cursorpos`.
unfoldable pub console_clear : (ℕ → ℕ) → (ℕ → ℕ) × ℕ
console_clear cells = (clear_loop console_size 0 cells, 0)

pub record StringPrinter : Type 0 where
  pub buffer : Mem
  pub s : ℕ
  pub end : ℕ

unfoldable pub string_putc : (c color : ℕ) → StringPrinter → StringPrinter
unfolding store8
string_putc c color sp =
    if ltb sp.s sp.end
    then record sp { buffer = store8 sp.buffer sp.s (u8 c); s = sp.s + 1 }
    else sp
