-- ===== src/Console/Cursor.antt =====
-- The console's cursor and cells.
use weensy_osvm.Base.{
  ℕ, zero, suc, ◌+◌, ◌-◌, ◌%◌, ◌^◌, ◌≤◌, ◌≡◌, inl, inr, refl, ◌==◌, ltb, leb, ◌&&◌, if◌then◌else◌,
  Bool-cases, bit_or, arith,
}
use weensy_osvm.State.{update}
use weensy_osvm.Console.{
  Console, console_size, put_cell, blank_loop, wrap, console_putc, clear_loop, console_clear,
}

blank_loop-cells :
    (n color : ℕ) (con : Console) (i : ℕ)
    → ((blank_loop n color con).cursor ≡ con.cursor + n)
      × ((blank_loop n color con).cells i ≡ (
          if leb con.cursor i && ltb i (con.cursor + n)
          then bit_or b' ' color % 2 ^ 16
          else con.cells i))
unfolding blank_loop put_cell
blank_loop-cells zero color con i = (omega arith, ground arith)
blank_loop-cells (suc n) color con i =
    let rest = blank_loop-cells n color (put_cell b' ' color con) i in
    (omega (arith, rest.0), ground (arith, rest.1))

-- The next cell to write, where the cursor has reached the end of the console.
abbrev pub place : ℕ → ℕ
place cursor = if leb console_size cursor then 0 else cursor

wrap-cursor :
    (con : Console) → ((wrap con).cursor ≡ place con.cursor) × ((wrap con).cells ≡ con.cells)
unfolding wrap
wrap-cursor con = elim (Bool-cases (leb console_size con.cursor)) [
  | inl past ↦ rw past (refl, refl)
  | inr within ↦ rw within (refl, refl)
]

-- A newline blanks the rest of the row and goes to the start of the next; another character is
-- written at the cursor, which moves by one. Behind the last cell both start at the first.
pub console_putc_lem :
    (c color : ℕ) (con : Console) (i : ℕ)
    → let here = place con.cursor in
      let next = if c == b'\n' then here + (80 - here % 80) else here + 1 in
      ((console_putc c color con).cursor ≡ next)
      × ((console_putc c color con).cells i ≡ (
          if leb here i && ltb i next
          then bit_or (if c == b'\n' then b' ' else c) color % 2 ^ 16
          else con.cells i))
unfolding console_putc put_cell
console_putc_lem c color con i = elim (Bool-cases (c == b'\n')) [
  | inl newline ↦
      let blanks = blank_loop-cells (80 - (wrap con).cursor % 80) color (wrap con) i in
      rw newline
        (ground (arith, blanks.0, wrap-cursor con), ground (arith, blanks.1, wrap-cursor con))
  | inr other ↦ rw other (ground (arith, wrap-cursor con), ground (arith, wrap-cursor con))
]

-- Whatever is printed, the cursor ends within the console or just behind it, and no cell behind the
-- console is written.
pub record IsWithin (cells : ℕ → ℕ) (con : Console) : Type 0 where
  pub cursor_bound : con.cursor ≤ console_size
  pub behind : (i : ℕ) → console_size ≤ i → con.cells i ≡ cells i

pub console_putc-IsWithin :
    (cells : ℕ → ℕ) (c color : ℕ) (con : Console)
    → IsWithin cells con
    → IsWithin cells (console_putc c color con)
console_putc-IsWithin cells c color con is = record {
  cursor_bound = ground (arith, console_putc_lem c color con 0);
  behind = λ i h. ground (arith, console_putc_lem c color con i, is.behind i h);
}

clear_loop-cells :
    (n i : ℕ) (cells : ℕ → ℕ) (j : ℕ)
    → clear_loop n i cells j ≡ (if leb i j && ltb j (i + n) then bit_or b' ' 0x0700 else cells j)
unfolding clear_loop
clear_loop-cells zero i cells j = ground arith
clear_loop-cells (suc n) i cells j =
    ground (arith, clear_loop-cells n (i + 1) (update cells i (bit_or b' ' 0x0700)) j)

-- `console_clear` fills exactly the cells of the console with grey blanks, and sets `cursorpos` to 0.
pub console_clear_lem :
    (cells : ℕ → ℕ) (i : ℕ)
    → ((console_clear cells).0 i ≡ (if ltb i console_size then 0x0720 else cells i))
      × ((console_clear cells).1 ≡ 0)
unfolding console_clear
console_clear_lem cells i = (ground (arith, clear_loop-cells console_size 0 cells i), refl)
