-- ===== src/Console/Text.antt =====
-- `console_vprintf` and `vsnprintf`: `printer_vprintf` on the console and on a buffer. Their fuel is
-- enough for every format.
use weensy_osvm.Base.{
  ℕ, zero, suc, ◌+◌, ◌-◌, ◌≤◌, ◌<◌, ◌≡◌, ◌⊎◌, refl, Option, some, List, length, arith,
}
use mathlib.Core.Option
use weensy_osvm.Memory.{Mem, store8}
use weensy_osvm.Console.{
  Console, start_cursor, console_putc, console_size, StringPrinter, string_putc,
}
use weensy_osvm.Console.Cursor.{IsWithin, console_putc-IsWithin}
use weensy_osvm.Printer.{Slot}
use weensy_osvm.Printer.Emit.{printer_vprintf}
use weensy_osvm.Printer.Total.{printer_vprintf-preserves}

-- The console and the result, which is its cursor.
unfoldable pub console_vprintf :
    (cpos color : ℕ) (format : List ℕ) (args : ℕ → Slot) → Console → Option Console
console_vprintf cpos color format args con =
    printer_vprintf console_putc (suc (length format)) args 0 color format
      (record con { cursor = start_cursor cpos })

start_cursor-bound : (cpos : ℕ) → start_cursor cpos < console_size
unfolding start_cursor
start_cursor-bound cpos = ground arith

-- `console_vprintf` ends for every format, writes only cells of the console and returns a cursor
-- position within it or just behind it.
pub console_vprintf-IsWithin :
    (cpos color : ℕ) (format : List ℕ) (args : ℕ → Slot) (con : Console)
    → (con' : Console) × (console_vprintf cpos color format args con ≡ some con')
      × IsWithin con.cells con'
unfolding console_vprintf
console_vprintf-IsWithin cpos color format args con =
    printer_vprintf-preserves console_putc (IsWithin con.cells) (console_putc-IsWithin con.cells)
      (suc (length format)) args 0 color format (record con { cursor = start_cursor cpos })
      (omega arith)
      (record { cursor_bound = omega (arith, start_cursor-bound cpos); behind = λ i h. refl })

-- `*sp.s = 0; ... return sp.s - s;`
unfoldable pub finish : (s : ℕ) → StringPrinter → ℕ × Mem
unfolding store8
finish s sp = (sp.s - s, store8 sp.buffer sp.s 0)

unfoldable pub vsnprintf : (s size : ℕ) (format : List ℕ) (args : ℕ → Slot) → Mem → Option (ℕ × Mem)
vsnprintf s zero format args m = some (0, m)
vsnprintf s (suc size) format args m = Option.map (finish s) (
    printer_vprintf string_putc (suc (length format)) args 0 0 format
      (record { buffer = m; s = s; end = s + size }))

record IsFilling (s end : ℕ) (m : Mem) (sp : StringPrinter) : Type 0 where
  from : s ≤ sp.s
  to : sp.s ≤ end
  same_end : sp.end ≡ end
  others : (b : ℕ) → (b < s) ⊎ (end ≤ b) → sp.buffer b ≡ m b

string_putc-IsFilling :
    (s end : ℕ) (m : Mem) (c color : ℕ) (sp : StringPrinter)
    → IsFilling s end m sp
    → IsFilling s end m (string_putc c color sp)
unfolding string_putc store8
string_putc-IsFilling s end m c color sp is = record {
  from = ground (arith, is.from);
  to = ground (arith, is.to, is.same_end);
  same_end = ground (arith, is.same_end);
  others = λ b o. ground (arith, is.from, is.to, is.same_end, is.others b o);
}

-- The buffer of `size` bytes holds a text of `n` characters and a NUL, and nothing else changes.
pub record IsPrinted (s size : ℕ) (m : Mem) (n : ℕ) (m' : Mem) : Type 0 where
  pub room : n < size
  pub ended : m' (s + n) ≡ 0
  pub outside : (b : ℕ) → (b < s) ⊎ (s + size ≤ b) → m' b ≡ m b

-- `vsnprintf` into a buffer that is not empty ends for every format, and never writes outside the
-- buffer: the text is cut where it does not fit, and its NUL lies in the buffer.
pub vsnprintf-IsPrinted :
    (s size : ℕ) (format : List ℕ) (args : ℕ → Slot) (m : Mem)
    → 0 < size
    → (n : ℕ) × (m' : Mem) × (vsnprintf s size format args m ≡ some (n, m'))
      × IsPrinted s size m n m'
unfolding vsnprintf finish store8
vsnprintf-IsPrinted s zero format args m h = absurd (omega arith)
vsnprintf-IsPrinted s (suc size) format args m h =
    let (sp, e, is) =
      printer_vprintf-preserves string_putc (IsFilling s (s + size) m)
        (string_putc-IsFilling s (s + size) m) (suc (length format)) args 0 0 format
        (record { buffer = m; s = s; end = s + size }) (omega arith)
        (record { from = omega arith; to = omega arith; same_end = refl; others = λ b o. refl }) in
    (
      sp.s - s,
      store8 sp.buffer sp.s 0,
      rw e refl,
      record {
        room = omega (arith, is.from, is.to);
        ended = ground (arith, is.from);
        outside = λ b o. ground (arith, is.from, is.to, is.others b (omega arith));
      },
    )
