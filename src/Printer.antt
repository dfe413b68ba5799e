-- ===== src/Printer.antt =====
-- lib.c: `printer_vprintf`, over any printer, that is a state `S` with its `putc`. A format is the
-- list of its characters without the NUL, and the arguments are a stream of slots. The strings are
-- values: the printer's output does not overlap them.
pub mod Emit
pub mod Total
pub mod Output
pub mod Decimal
use weensy_osvm.Base.{
  ℕ, zero, suc, ◌+◌, ◌-◌, ◌*◌, ◌/◌, ◌%◌, ◌^◌, Bool, true, false, not, ◌&&◌, ◌||◌, ◌==◌, ◌!=◌, ltb,
  leb, if◌then◌else◌, bit_or, Option, none, some, List, [], ◌∷◌, ◌++◌, length, take, replicate,
}
use weensy_osvm.X86.{u8, u32, u64, has_flag, int_minus_one}
use weensy_osvm.Numbuf.{fill_numbuf}

-- What `va_arg` reads: the value, and the string that it points to where it is a pointer.
pub record Slot : Type 0 where
  pub value : ℕ
  pub string : List ℕ

abbrev pub flag_alt : ℕ
flag_alt = 1

abbrev pub flag_zero : ℕ
flag_zero = 2

abbrev pub flag_leftjustify : ℕ
flag_leftjustify = 4

abbrev pub flag_spacepositive : ℕ
flag_spacepositive = 8

abbrev pub flag_pluspositive : ℕ
flag_pluspositive = 16

abbrev pub flag_chars : List ℕ
flag_chars = b'#' ∷ b'0' ∷ b'-' ∷ b' ' ∷ b'+' ∷ []

abbrev pub flag_numeric : ℕ
flag_numeric = 32

abbrev pub flag_signed : ℕ
flag_signed = 64

abbrev pub flag_negative : ℕ
flag_negative = 128

abbrev pub flag_alt2 : ℕ
flag_alt2 = 256

-- `1 << (strchr(chars, c) - chars)` from the flag `bit` on, or 0 if `c` is no such character
unfoldable pub flag_of : (chars : List ℕ) (bit c : ℕ) → ℕ
flag_of [] bit c = 0
flag_of (f ∷ chars) bit c = if f == c then bit else flag_of chars (bit * 2) c

-- The flags and the rest of the format.
unfoldable pub parse_flags : (flags : ℕ) → List ℕ → ℕ × List ℕ
unfolding flag_of
parse_flags flags [] = (flags, [])
parse_flags flags (c ∷ rest) =
    let next = parse_flags (bit_or flags (flag_of flag_chars 1 c)) rest in
    if flag_of flag_chars 1 c != 0 then next else (flags, c ∷ rest)

abbrev pub is_digit : ℕ → Bool
is_digit c = leb b'0' c && leb c b'9'

-- `for (n = 0; *format >= '0' && *format <= '9'; ) n = 10 * n + *format++ - '0';`
unfoldable pub parse_digits : (n : ℕ) → List ℕ → ℕ × List ℕ
parse_digits n [] = (n, [])
parse_digits n (c ∷ rest) =
    let next = parse_digits (u32 (10 * n + (c - b'0'))) rest in
    if is_digit c then next else (n, c ∷ rest)

-- A number parsed from the format: its value, the rest, and the number of arguments read.
pub record Parsed : Type 0 where
  pub value : ℕ
  pub rest : List ℕ
  pub read : ℕ

abbrev pub digits : List ℕ → Parsed
digits format = let r = parse_digits 0 format in record { value = r.0; rest = r.1; read = 0 }

unfoldable pub parse_width : (args : ℕ → Slot) (ap : ℕ) → List ℕ → Parsed
parse_width args ap [] = record { value = int_minus_one; rest = []; read = 0 }
parse_width args ap (c ∷ rest) =
    if leb b'1' c && leb c b'9'
    then digits (c ∷ rest)
    else if c == b'*'
    then record { value = u32 (args ap).value; rest = rest; read = 1 }
    else record { value = int_minus_one; rest = c ∷ rest; read = 0 }

-- The precision behind a '.', before `if (precision < 0) precision = 0;`.
unfoldable pub parse_precision_value : (args : ℕ → Slot) (ap : ℕ) → List ℕ → Parsed
parse_precision_value args ap [] = record { value = int_minus_one; rest = []; read = 0 }
parse_precision_value args ap (c ∷ rest) =
    if is_digit c
    then digits (c ∷ rest)
    else if c == b'*'
    then record { value = u32 (args ap).value; rest = rest; read = 1 }
    else record { value = int_minus_one; rest = c ∷ rest; read = 0 }

abbrev pub at_least_zero : Parsed → Parsed
at_least_zero p = record p { value = if leb (2 ^ 31) p.value then 0 else p.value }

unfoldable pub parse_precision : (args : ℕ → Slot) (ap : ℕ) → List ℕ → Parsed
unfolding parse_precision_value
parse_precision args ap [] = record { value = int_minus_one; rest = []; read = 0 }
parse_precision args ap (c ∷ rest) =
    if c == b'.'
    then at_least_zero (parse_precision_value args ap rest)
    else record { value = int_minus_one; rest = c ∷ rest; read = 0 }

-- What the switch on the conversion character leaves in its variables.
pub record Conversion : Type 0 where
  pub flags : ℕ
  pub base : ℕ
  pub num : ℕ
  pub chars : List ℕ
  pub color : ℕ
  pub done : Bool
  pub rest : List ℕ
  pub read : ℕ

abbrev pub chars_of : (flags color : ℕ) → List ℕ → List ℕ → ℕ → Conversion
chars_of flags color chars rest read = record {
  flags = flags;
  base = 10;
  num = 0;
  chars = chars;
  color = color;
  done = false;
  rest = rest;
  read = read;
}

abbrev pub number_of : (flags color base num : ℕ) → List ℕ → Conversion
number_of flags color base num rest = record {
  flags = flags;
  base = base;
  num = num;
  chars = [];
  color = color;
  done = false;
  rest = rest;
  read = 1;
}

-- `length ? va_arg(val, unsigned long) : va_arg(val, unsigned)`
abbrev pub unsigned_arg : Bool → ℕ → ℕ
unsigned_arg long v = if long then u64 v else u32 v

-- Whether `x < 0`, and `-x` or `x`, where `x` is a `long` or an `int`.
abbrev pub is_negative : Bool → ℕ → Bool
is_negative long v = if long then leb (2 ^ 63) (u64 v) else leb (2 ^ 31) (u32 v)

abbrev pub magnitude : Bool → ℕ → ℕ
magnitude long v =
    if is_negative long v
    then (if long then 2 ^ 64 - u64 v else 2 ^ 32 - u32 v)
    else unsigned_arg long v

-- `numbuf[0] = c; numbuf[1] = '\0';`
abbrev pub one_char : ℕ → List ℕ
one_char c = if u8 c == 0 then [] else u8 c ∷ []

-- The switch from `again` on, with `long` for `length`; `v` is the next argument.
unfoldable pub convert : (long : Bool) (flags color : ℕ) (v : Slot) → List ℕ → Conversion
convert long flags color v [] = chars_of flags color (b'%' ∷ []) [] 0
convert long flags color v (c ∷ rest) =
    let again = convert true flags color v rest in
    if c == b'l' || c == b'z'
    then again
    else if c == b'd' || c == b'i'
    then number_of
        (bit_or (bit_or flags (bit_or flag_numeric flag_signed))
          (if is_negative long v.value then flag_negative else 0))
        color 10 (magnitude long v.value) rest
    else if c == b'u'
    then number_of (bit_or flags flag_numeric) color 10 (unsigned_arg long v.value) rest
    else if c == b'x'
    then number_of (bit_or flags flag_numeric) color (2 ^ 32 - 16) (unsigned_arg long v.value) rest
    else if c == b'X'
    then number_of (bit_or flags flag_numeric) color 16 (unsigned_arg long v.value) rest
    else if c == b'p'
    then number_of (bit_or flags (bit_or flag_alt (bit_or flag_alt2 flag_numeric))) color
        (2 ^ 32 - 16) (u64 v.value) rest
    else if c == b's'
    then chars_of flags color v.string rest 1
    else if c == b'C'
    then record (chars_of flags (u32 v.value) [] rest 1) { done = true }
    else if c == b'c'
    then chars_of flags color (one_char v.value) rest 1
    else chars_of flags color (c ∷ []) rest 0
