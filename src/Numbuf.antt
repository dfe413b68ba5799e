-- ===== src/Numbuf.antt =====
-- lib.c: `fill_numbuf`. The characters that it writes below `numbuf_end` are a list, the lowest
-- address first, without the final NUL.
pub mod Digits
use weensy_osvm.Base.{
  ℕ, zero, suc, ◌+◌, ◌-◌, ◌*◌, ◌/◌, ◌%◌, ◌^◌, Bool, ◌==◌, ◌!=◌, leb, if◌then◌else◌, Option, none,
  some, List, [], ◌∷◌, get_or,
}

abbrev pub numbufsiz : ℕ
numbufsiz = 24

abbrev pub upper_digits : List ℕ
upper_digits =
    b'0' ∷ b'1' ∷ b'2' ∷ b'3' ∷ b'4' ∷ b'5' ∷ b'6' ∷ b'7' ∷ b'8' ∷ b'9' ∷ b'A' ∷ b'B' ∷ b'C' ∷ b'D'
    ∷ b'E' ∷ b'F' ∷ []

abbrev pub lower_digits : List ℕ
lower_digits =
    b'0' ∷ b'1' ∷ b'2' ∷ b'3' ∷ b'4' ∷ b'5' ∷ b'6' ∷ b'7' ∷ b'8' ∷ b'9' ∷ b'a' ∷ b'b' ∷ b'c' ∷ b'd'
    ∷ b'e' ∷ b'f' ∷ []

-- `do { *--numbuf_end = digits[val % base]; val /= base; } while (val != 0);`
unfoldable pub fill_loop :
    (fuel : ℕ) (digits : List ℕ) (base val : ℕ) (numbuf : List ℕ) → Option (List ℕ)
fill_loop zero digits base val numbuf = none
fill_loop (suc fuel) digits base val numbuf =
    let numbuf' = get_or digits (val % base) 0 ∷ numbuf in
    let rest = fill_loop fuel digits base (val / base) numbuf' in
    if val / base != 0 then rest else some numbuf'

-- `base` is an `int`; a negative one asks for lower case. 64 rounds are enough for a 64-bit number.
unfoldable pub fill_numbuf : (val base : ℕ) → Option (List ℕ)
fill_numbuf val base =
    if leb (2 ^ 31) base
    then fill_loop 64 lower_digits (2 ^ 32 - base) val []
    else fill_loop 64 upper_digits base val []
