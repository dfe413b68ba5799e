-- ===== src/Printer/Emit.antt =====
-- The output of one conversion and the loop over the format.
use weensy_osvm.Base.{
  ℕ, zero, suc, ◌+◌, ◌-◌, ◌^◌, Bool, false, not, ◌&&◌, ◌||◌, ◌==◌, ◌!=◌, ltb, if◌then◌else◌, Option,
  none, some, List, [], ◌∷◌, ◌++◌, length, take, replicate,
}
use weensy_osvm.X86.{u32, has_flag}
use weensy_osvm.Numbuf.{fill_numbuf}
use weensy_osvm.Printer.{
  Slot, Conversion, parse_flags, parse_width, parse_precision, convert, flag_alt, flag_zero,
  flag_leftjustify, flag_spacepositive, flag_pluspositive, flag_numeric, flag_signed, flag_negative,
  flag_alt2,
}

abbrev is_signed_number : Conversion → Bool
is_signed_number c = has_flag c.flags flag_numeric && has_flag c.flags flag_signed

abbrev is_alternate : Conversion → Bool
is_alternate c =
    has_flag c.flags flag_numeric
    && has_flag c.flags flag_alt
    && (c.base == 16 || c.base == 2 ^ 32 - 16)
    && (c.num != 0 || has_flag c.flags flag_alt2)

unfoldable pub prefix_of : Conversion → List ℕ
prefix_of c =
    if is_signed_number c
    then (if has_flag c.flags flag_negative
        then b'-' ∷ []
        else if has_flag c.flags flag_pluspositive
        then b'+' ∷ []
        else if has_flag c.flags flag_spacepositive
        then b' ' ∷ []
        else [])
    else if is_alternate c
    then (if c.base == 2 ^ 32 - 16 then b'0' ∷ b'x' ∷ [] else b'0' ∷ b'X' ∷ [])
    else []

-- `len = strnlen(data, precision)` or `strlen(data)`, and the characters so counted
unfoldable pub shown : (precision : ℕ) → Conversion → List ℕ → List ℕ
shown precision c text =
    if ltb precision (2 ^ 31) && not (has_flag c.flags flag_numeric)
    then take precision text
    else text

unfoldable pub zeros_of : (width precision len prefix : ℕ) → Conversion → ℕ
zeros_of width precision len prefix c =
    if has_flag c.flags flag_numeric && ltb precision (2 ^ 31)
    then precision - len
    else if has_flag c.flags flag_numeric
        && has_flag c.flags flag_zero
        && not (has_flag c.flags flag_leftjustify)
        && ltb width (2 ^ 31)
        && ltb (len + prefix) width
    then width - len - prefix
    else 0

-- `width -= used`, and how often a loop `for (; width > 0; --width)` then runs
unfoldable pub padding : (width used : ℕ) → ℕ
padding width used =
    let left = u32 (width + (2 ^ 32 - u32 used)) in if ltb left (2 ^ 31) then left else 0

-- The characters that one conversion prints.
unfoldable pub layout : (width precision : ℕ) → Conversion → List ℕ → List ℕ
unfolding prefix_of shown zeros_of padding
layout width precision c text =
    let chars = shown precision c text in
    let prefix = prefix_of c in
    let zeros = zeros_of width precision (length chars) (length prefix) c in
    let spaces = replicate (padding width (length chars + zeros + length prefix)) b' ' in
    let body = prefix ++ replicate zeros b'0' ++ chars in
    if has_flag c.flags flag_leftjustify then body ++ spaces else spaces ++ body

-- The characters of `data`, those of `numbuf` for a number.
unfoldable pub text_of : Conversion → Option (List ℕ)
text_of c = if has_flag c.flags flag_numeric then fill_numbuf c.num c.base else some c.chars

-- A whole conversion: its flags, width and precision read, and the switch.
pub record Directive : Type 0 where
  pub width : ℕ
  pub precision : ℕ
  pub conversion : Conversion
  pub read : ℕ

unfoldable pub directive : (args : ℕ → Slot) (ap color : ℕ) (format : List ℕ) → Directive
directive args ap color format =
    let f = parse_flags 0 format in
    let w = parse_width args ap f.1 in
    let p = parse_precision args (ap + w.read) w.rest in
    let c = convert false f.0 color (args (ap + w.read + p.read)) p.rest in
    record { width = w.value; precision = p.value; conversion = c; read = w.read + p.read + c.read }

-- No text means that `fill_numbuf` had too little fuel.
abbrev pub and_continue : {S : Type 0} → Option S → (S → Option S) → Option S
and_continue none next = none
and_continue (some p) next = next p

module _ {S : Type 0} (putc : (c color : ℕ) → S → S) where
  -- `for (...) p->putc(p, *s, color);`
  unfoldable pub put_all : (color : ℕ) → List ℕ → S → S
  put_all color [] p = p
  put_all color (c ∷ rest) p = put_all color rest (putc c color p)

  unfoldable pub emit : (width precision : ℕ) → Conversion → S → Option (List ℕ) → Option S
  unfolding put_all
  emit width precision c p none = none
  emit width precision c p (some text) =
      some (if c.done then p else put_all c.color (layout width precision c text) p)

  -- The loop over the format; each round takes at least one character of it.
  unfoldable pub printer_vprintf :
      (fuel : ℕ) (args : ℕ → Slot) (ap color : ℕ) (format : List ℕ) (p : S) → Option S
  printer_vprintf zero args ap color format p = none
  printer_vprintf (suc fuel) args ap color [] p = some p
  printer_vprintf (suc fuel) args ap color (c ∷ rest) p =
      let plain = printer_vprintf fuel args ap color rest (putc c color p) in
      let d = directive args ap color rest in
      let next : S → Option S =
        λ p'. printer_vprintf fuel args (ap + d.read) d.conversion.color d.conversion.rest p' in
      if c != b'%'
      then plain
      else and_continue (emit d.width d.precision d.conversion p (text_of d.conversion)) next
