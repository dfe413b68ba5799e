-- ===== src/Memshow/Draw.antt =====
-- The cells that a picture's labels and its pages write.
use weensy_osvm.Base.{
  ℕ, zero, suc, ◌+◌, ◌*◌, ◌/◌, ◌%◌, ◌^◌, ◌≤◌, ◌<◌, ◌≡◌, ◌⊎◌, inl, inr, refl, ◌∙◌, Bool, true, ◌&&◌,
  ◌==◌, ◌!=◌, ltb, leb, if◌then◌else◌, List, [], ◌∷◌, length, all, all_below, all_below-lt, ==_self,
  ==_ne, &&_parts, Bool-cases, arith,
}
use native.Mathlib.Decide.{ℕ_discrete}
use weensy_osvm.Console.{Console, console_size, console_putc, start_cursor}
use weensy_osvm.Console.Cursor.{console_putc_lem}
use weensy_osvm.Console.Text.{console_vprintf}
use weensy_osvm.Printer.Output.{Cell, output, play, printer_vprintf-play}
use weensy_osvm.Printer.{
  convert, parse_flags, parse_digits, parse_width, parse_precision, flag_of, parse_precision_value,
}
use weensy_osvm.Printer.Emit.{
  printer_vprintf, emit, text_of, directive, put_all, layout, prefix_of, shown, zeros_of, padding,
}
use weensy_osvm.Numbuf.{fill_numbuf, fill_loop}
use weensy_osvm.X86.{has_flag}
use weensy_osvm.Memshow.{
  cpos, args_of, number_slot, console_printf, address_format, label, set_cell,
}

abbrev is_printable : Cell → Bool
is_printable cell = cell.0 != b'\n'

-- A text without a newline that fits in the console writes only its own cells.
play-others :
    (cells : List Cell) (con : Console) (x : ℕ)
    → all is_printable cells ≡ true
    → con.cursor + length cells ≤ console_size
    → (x < con.cursor) ⊎ (con.cursor + length cells ≤ x)
    → (play console_putc cells con).cells x ≡ con.cells x
unfolding play
play-others [] con x p h o = refl
play-others ((c, color) ∷ rest) con x p h o =
    let parts = &&_parts (c != b'\n') (all is_printable rest) p in
    let one = console_putc_lem c color con x in
    let moved : (console_putc c color con).cursor ≡ con.cursor + 1 = ground (arith, one.0) in
    let kept : (console_putc c color con).cells x ≡ con.cells x = ground (arith, one.1) in
    play-others rest (console_putc c color con) x parts.1 (omega (arith, moved))
      (ground (arith, moved))
    ∙ kept

-- A label takes nine cells, without a newline, for every address at the start of a row.
is_label : (row : ℕ) → Bool
is_label row =
    let cells = output (args_of (number_slot (row * 2 ^ 18) ∷ [])) 0x0F00 address_format in
    leb (length cells) 9 && all is_printable cells

all_labels : all_below 12 is_label ≡ true
unfolding is_label output printer_vprintf emit text_of has_flag directive convert parse_flags
    parse_digits parse_width parse_precision flag_of fill_numbuf fill_loop put_all layout prefix_of
    shown zeros_of padding parse_precision_value
all_labels = refl

label_others :
    (row pn : ℕ) (con : Console) (x : ℕ)
    → pn < 768
    → row + pn / 64 < 25
    → (x < cpos (row + pn / 64) 3) ⊎ (cpos (row + pn / 64) 12 ≤ x)
    → (label row pn (pn * 2 ^ 12) con).cells x ≡ con.cells x
unfolding console_printf console_vprintf start_cursor is_label
label_others row pn con x h r o = elim (Bool-cases (pn % 64 == 0)) [
  | inr inside ↦ rw inside refl
  | inl first ↦
      let address : pn * 2 ^ 12 ≡ pn / 64 * 2 ^ 18 = ground arith in
      let start : Console = record con { cursor = start_cursor (cpos (row + pn / 64) 3) } in
      let slots = number_slot (pn / 64 * 2 ^ 18) ∷ [] in
      let cells = output (args_of slots) 0x0F00 address_format in
      let test : is_label (pn / 64) ≡ true =
        all_below-lt 12 is_label (pn / 64) all_labels (omega arith) in
      let parts = &&_parts (leb (length cells) 9) (all is_printable cells) test in
      let at : start_cursor (cpos (row + pn / 64) 3) ≡ cpos (row + pn / 64) 3 = ground arith in
      rw
        (
          first,
          address,
          printer_vprintf-play console_putc (args_of slots) 0x0F00 address_format start,
        )
        (play-others cells start x parts.1 (ground (arith, at, parts.0))
          (ground (arith, at, parts.0)))
]

-- The cell of the page `pn` in the picture that starts at `row`.
abbrev pub place : (row pn : ℕ) → ℕ
place row pn = cpos (row + pn / 64) (12 + pn % 64)

-- The loop of both pictures, for the colours that they compute.
unfoldable pub draw_loop : (row : ℕ) (color : ℕ → ℕ) (n pn : ℕ) → Console → Console
draw_loop row color zero pn con = con
draw_loop row color (suc n) pn con =
    draw_loop row color n (pn + 1)
      (set_cell (place row pn) (color pn) (label row pn (pn * 2 ^ 12) con))

place-inj : (row i j : ℕ) → place row i ≡ place row j → i ≡ j
place-inj row i j e = omega arith

draw_step :
    (row : ℕ) (color : ℕ → ℕ) (pn : ℕ) (con : Console) (i : ℕ)
    → pn < 768
    → row + pn / 64 < 25
    → (set_cell (place row pn) (color pn) (label row pn (pn * 2 ^ 12) con)).cells (place row i)
      ≡ (if i == pn then color i else con.cells (place row i))
draw_step row color pn con i h r = elim (ℕ_discrete i pn) [
  | yes e ↦ rw (e, ==_self (place row pn), ==_self pn) refl
  | no e ↦
      rw (==_ne (place row i) (place row pn) (λ p. e (place-inj row i pn p)), ==_ne i pn e)
        (label_others row pn con (place row i) h r (omega arith))
]

-- The cells of the pages drawn have their colours, and those of the others stay.
pub draw_loop-cells :
    (row : ℕ) (color : ℕ → ℕ) (n pn : ℕ) (con : Console) (i : ℕ)
    → pn + n ≤ 768
    → 64 * row + pn + n ≤ 1600
    → i < 768
    → (draw_loop row color n pn con).cells (place row i)
      ≡ (if leb pn i && ltb i (pn + n) then color i else con.cells (place row i))
unfolding draw_loop
draw_loop-cells row color zero pn con i h r l = ground arith
draw_loop-cells row color (suc n) pn con i h r l =
    let con1 = set_cell (place row pn) (color pn) (label row pn (pn * 2 ^ 12) con) in
    ground (
      arith,
      draw_loop-cells row color n (pn + 1) con1 i (omega arith) (omega arith) l,
      draw_step row color pn con i (omega arith) (omega arith),
    )
