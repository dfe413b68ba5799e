-- ===== src/Printer/Decimal.antt =====
-- lib.c: the conversions %*d and %-*d of `printer_vprintf`.
use weensy_osvm.Base.{
  ℕ, ◌-◌, ◌^◌, Bool, List, [], ◌∷◌, ◌++◌, length, replicate, if◌then◌else◌, leb, ◌==◌, bit_or,
}
use weensy_osvm.Printer.{
  Slot, Conversion, number_of, flag_numeric, flag_signed, flag_negative, flag_leftjustify,
}

-- "%-*d" or "%*d"
abbrev pub number_format : (left : Bool) → List ℕ
number_format left = if left then b'%' ∷ b'-' ∷ b'*' ∷ b'd' ∷ [] else b'%' ∷ b'*' ∷ b'd' ∷ []

-- A width and a number.
abbrev pub number_args : (width n : ℕ) → ℕ → Slot
number_args width n i =
    if i == 0 then record { value = width; string = [] } else record { value = n; string = [] }

-- The format behind its '%'.
abbrev number_directive : (left : Bool) → List ℕ
number_directive left = if left then b'-' ∷ b'*' ∷ b'd' ∷ [] else b'*' ∷ b'd' ∷ []

-- The absolute value of an `int` from its bit pattern.
abbrev pub size_of : (n : ℕ) → ℕ
size_of n = if leb (2 ^ 31) n then 2 ^ 32 - n else n

-- An `int` in decimal: its digits, behind a minus sign if it is negative.
abbrev pub signed : (n : ℕ) → List ℕ → List ℕ
signed n text = if leb (2 ^ 31) n then b'-' ∷ text else text

abbrev pub justified : (left : Bool) (width : ℕ) → List ℕ → List ℕ
justified left width text =
    if left
    then text ++ replicate (width - length text) b' '
    else replicate (width - length text) b' ' ++ text

abbrev flags_of : (left negative : Bool) → ℕ
flags_of left negative =
    bit_or (bit_or (if left then flag_leftjustify else 0) (bit_or flag_numeric flag_signed))
      (if negative then flag_negative else 0)

abbrev decimal_of : (left negative : Bool) (color num : ℕ) → Conversion
decimal_of left negative color num = number_of (flags_of left negative) color 10 num []
