-- ===== src/Examples/Text.antt =====
-- The theorems on lib.c at small inputs.
use weensy_osvm.Base.{
  ℕ, ◌+◌, ◌-◌, ◌%◌, ◌^◌, ◌≡◌, inr, refl, true, ◌&&◌, ◌==◌, ltb, leb, if◌then◌else◌, bit_or, length,
  some, List, [], ◌∷◌, arith,
}
use weensy_osvm.Memory.{Mem}
use weensy_osvm.CString.{strcpy, strchr}
use weensy_osvm.CString.Length.{IsString}
use weensy_osvm.CString.Copy.{IsCopied, strcpy_lem}
use weensy_osvm.CString.Search.{IsFound, strchr_lem}
use weensy_osvm.Rand.{RandState, rand, retreat, retreat-rand}
use weensy_osvm.Console.{Console, console_putc}
use weensy_osvm.Console.Cursor.{IsWithin, place, console_putc_lem, console_putc-IsWithin}
use weensy_osvm.Console.Text.{
  console_vprintf, vsnprintf, IsPrinted, console_vprintf-IsWithin, vsnprintf-IsPrinted,
}
use weensy_osvm.Printer.{Slot}
use weensy_osvm.Printer.Emit.{printer_vprintf}
use weensy_osvm.Printer.Output.{output}
use weensy_osvm.Console.Buffer.{IsText, vsnprintf-IsText}
use weensy_osvm.Printer.Total.{printer_vprintf-preserves}

-- "ab" at 100 and "ac" at 200, and zeros elsewhere.
abbrev pub two_strings : Mem
two_strings a =
    if a == 100
    then b'a'
    else if a == 101
    then b'b'
    else if a == 200
    then b'a'
    else if a == 201
    then b'c'
    else 0

first-IsString : IsString two_strings 100 2
first-IsString = record { characters = λ i h. ground arith; end = refl }

strcpy_lem_example :
    (m' : Mem) × (strcpy 3 two_strings 300 100 ≡ some m') × IsCopied two_strings 300 100 2 m'
strcpy_lem_example =
    strcpy_lem 2 3 two_strings 300 100 first-IsString (omega arith) (inr (omega arith))

strchr_lem_example :
    (r : ℕ) × IsFound two_strings 100 2 b'b' r × (strchr 3 two_strings 100 b'b' ≡ some r)
strchr_lem_example = strchr_lem two_strings 2 3 100 b'b' first-IsString (omega arith)

abbrev seed_seven : RandState
seed_seven = record { rand_seed_set = true; rand_seed = 7 }

retreat-rand_example :
    ((rand seed_seven).0 ≡ (rand seed_seven).1.rand_seed % 2 ^ 31)
    × ((rand seed_seven).1.rand_seed_set ≡ true)
    × (retreat (rand seed_seven).1.rand_seed ≡ 7)
retreat-rand_example = retreat-rand seed_seven (omega arith)

-- An empty console, with the cursor at its last cell.
abbrev at_end : Console
at_end = record { cells = λ i. 0; cursor = 1999 }

console_putc_lem_example :
    let here = place 1999 in
    let next = if b'\n' == b'\n' then here + (80 - here % 80) else here + 1 in
    ((console_putc b'\n' 0x0700 at_end).cursor ≡ next)
    × ((console_putc b'\n' 0x0700 at_end).cells 1999 ≡ (
        if leb here 1999 && ltb 1999 next
        then bit_or (if b'\n' == b'\n' then b' ' else b'\n') 0x0700 % 2 ^ 16
        else at_end.cells 1999))
console_putc_lem_example = console_putc_lem b'\n' 0x0700 at_end 1999

-- The arguments 42, 42, and so on.
abbrev pub forty_twos : ℕ → Slot
forty_twos i = record { value = 42; string = b'o' ∷ b'k' ∷ [] }

-- "%5d %s"
abbrev pub format : List ℕ
format = b'%' ∷ b'5' ∷ b'd' ∷ b' ' ∷ b'%' ∷ b's' ∷ []

vsnprintf-IsPrinted_example :
    (n : ℕ) × (m' : Mem) × (vsnprintf 300 4 format forty_twos two_strings ≡ some (n, m'))
    × IsPrinted 300 4 two_strings n m'
vsnprintf-IsPrinted_example = vsnprintf-IsPrinted 300 4 format forty_twos two_strings (omega arith)

console_vprintf-IsWithin_example :
    (con' : Console) × (console_vprintf 1999 0x0700 format forty_twos at_end ≡ some con')
    × IsWithin at_end.cells con'
console_vprintf-IsWithin_example = console_vprintf-IsWithin 1999 0x0700 format forty_twos at_end

at_end-IsWithin : IsWithin at_end.cells at_end
at_end-IsWithin = record { cursor_bound = omega arith; behind = λ i h. refl }

printer_vprintf-preserves_example :
    (con' : Console) × (printer_vprintf console_putc 7 forty_twos 0 0x0700 format at_end
      ≡ some con')
    × IsWithin at_end.cells con'
printer_vprintf-preserves_example =
    printer_vprintf-preserves console_putc (IsWithin at_end.cells)
      (console_putc-IsWithin at_end.cells) 7 forty_twos 0 0x0700 format at_end (omega arith)
      at_end-IsWithin

vsnprintf-IsText_example :
    let cells = output forty_twos 0 format in
    let n = (if leb (length cells) 3 then length cells else 3) in
    (m' : Mem) × (vsnprintf 300 4 format forty_twos two_strings ≡ some (n, m'))
    × IsText cells 300 n m'
vsnprintf-IsText_example = vsnprintf-IsText 300 3 format forty_twos two_strings
