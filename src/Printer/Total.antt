-- ===== src/Printer/Total.antt =====
-- The loop of `printer_vprintf` ends, and only calls `putc`.
use weensy_osvm.Base.{
  ℕ, zero, suc, ◌+◌, ◌-◌, ◌*◌, ◌^◌, ◌≤◌, ◌<◌, ◌≡◌, ◌⊎◌, inl, inr, refl, Bool, true, false, ◌!=◌,
  some, List, [], ◌∷◌, length, Bool-cases, arith, bit_or, ap,
}
use weensy_osvm.X86.{u32, has_flag}
use weensy_osvm.Numbuf.Digits.{fill_numbuf-IsNumeral}
use weensy_osvm.Printer.{
  Slot, Conversion, parse_flags, parse_digits, parse_width, parse_precision, parse_precision_value,
  convert, flag_of, flag_chars, flag_numeric,
}
use weensy_osvm.Printer.Emit.{directive, text_of, put_all, emit, printer_vprintf, layout}

parse_flags-rest :
    (flags : ℕ) (format : List ℕ) → length (parse_flags flags format).1 ≤ length format
unfolding parse_flags
parse_flags-rest flags [] = omega arith
parse_flags-rest flags (c ∷ rest) =
    ground (arith, parse_flags-rest (bit_or flags (flag_of flag_chars 1 c)) rest)

parse_digits-rest : (n : ℕ) (format : List ℕ) → length (parse_digits n format).1 ≤ length format
unfolding parse_digits
parse_digits-rest n [] = omega arith
parse_digits-rest n (c ∷ rest) = ground (arith, parse_digits-rest (u32 (10 * n + (c - b'0'))) rest)

parse_width-rest :
    (args : ℕ → Slot) (ap : ℕ) (format : List ℕ)
    → length (parse_width args ap format).rest ≤ length format
unfolding parse_width
parse_width-rest args ap [] = omega arith
parse_width-rest args ap (c ∷ rest) = ground (arith, parse_digits-rest 0 (c ∷ rest))

parse_precision_value-rest :
    (args : ℕ → Slot) (ap : ℕ) (format : List ℕ)
    → length (parse_precision_value args ap format).rest ≤ length format
unfolding parse_precision_value
parse_precision_value-rest args ap [] = omega arith
parse_precision_value-rest args ap (c ∷ rest) = ground (arith, parse_digits-rest 0 (c ∷ rest))

parse_precision-rest :
    (args : ℕ → Slot) (ap : ℕ) (format : List ℕ)
    → length (parse_precision args ap format).rest ≤ length format
unfolding parse_precision
parse_precision-rest args ap [] = omega arith
parse_precision-rest args ap (c ∷ rest) = ground (arith, parse_precision_value-rest args ap rest)

-- The rest is no longer than the format, and the number and its base are ones that
-- `fill_numbuf` prints.
record IsConverted (format : List ℕ) (c : Conversion) : Type 0 where
  shorter : length c.rest ≤ length format
  base_known : (c.base ≡ 10) ⊎ (c.base ≡ 16) ⊎ (c.base ≡ 2 ^ 32 - 16)
  num_bound : c.num < 2 ^ 64

convert-IsConverted :
    (long : Bool) (flags color : ℕ) (v : Slot) (format : List ℕ)
    → IsConverted format (convert long flags color v format)
unfolding convert
convert-IsConverted long flags color v [] = record {
  shorter = omega arith;
  base_known = inl refl;
  num_bound = omega arith;
}
convert-IsConverted long flags color v (c ∷ rest) =
    let again = convert-IsConverted true flags color v rest in
    record {
      shorter = ground (arith, again.shorter);
      base_known = ground (arith, again.base_known);
      num_bound = ground (arith, again.num_bound);
    }

text_of-IsConverted :
    (format : List ℕ) (c : Conversion)
    → IsConverted format c
    → (text : List ℕ) × (text_of c ≡ some text)
unfolding text_of
text_of-IsConverted format c is = elim (Bool-cases (has_flag c.flags flag_numeric)) [
  | inl number ↦
      let (text, e, _) = fill_numbuf-IsNumeral c.num c.base is.base_known is.num_bound in
      (text, rw number e)
  | inr other ↦ (c.chars, rw other refl)
]

directive-IsConverted :
    (args : ℕ → Slot) (ap color : ℕ) (format : List ℕ)
    → IsConverted format (directive args ap color format).conversion
unfolding directive
directive-IsConverted args ap color format =
    let f = parse_flags 0 format in
    let w = parse_width args ap f.1 in
    let p = parse_precision args (ap + w.read) w.rest in
    let c = convert-IsConverted false f.0 color (args (ap + w.read + p.read)) p.rest in
    record {
      shorter = omega (
        arith,
        parse_flags-rest 0 format,
        parse_width-rest args ap f.1,
        parse_precision-rest args (ap + w.read) w.rest,
        c.shorter,
      );
      base_known = c.base_known;
      num_bound = c.num_bound;
    }

module _ {S : Type 0} (putc : (c color : ℕ) → S → S) (P : S → Type 0)
    (preserved : (c color : ℕ) (p : S) → P p → P (putc c color p)) where
  put_all-preserves : (color : ℕ) (chars : List ℕ) (p : S) → P p → P (put_all putc color chars p)
  unfolding put_all
  put_all-preserves color [] p h = h
  put_all-preserves color (c ∷ rest) p h =
      put_all-preserves color rest (putc c color p) (preserved c color p h)

  emit-preserves :
      (width precision : ℕ) (c : Conversion) (text : List ℕ) (p : S)
      → P p
      → (p' : S) × (emit putc width precision c p (some text) ≡ some p') × P p'
  unfolding emit
  emit-preserves width precision c text p h = elim (Bool-cases c.done) [
    | inl skip ↦ (p, rw skip refl, h)
    | inr print ↦
        let chars = layout width precision c text in
        (put_all putc c.color chars p, rw print refl, put_all-preserves c.color chars p h)
  ]

  -- With more fuel than the format has characters, `printer_vprintf` ends, whatever the format and
  -- the arguments, and its final state has every property that `putc` preserves.
  pub printer_vprintf-preserves :
      (fuel : ℕ) (args : ℕ → Slot) (ap color : ℕ) (format : List ℕ) (p : S)
      → length format < fuel
      → P p
      → (p' : S) × (printer_vprintf putc fuel args ap color format p ≡ some p') × P p'
  unfolding printer_vprintf
  printer_vprintf-preserves zero args ap color format p k h = absurd (omega arith)
  printer_vprintf-preserves (suc fuel) args ap color [] p k h = (p, refl, h)
  printer_vprintf-preserves (suc fuel) args ap color (c ∷ rest) p k h =
      elim (Bool-cases (c != b'%')) [
        | inl plain ↦ rw plain (
            printer_vprintf-preserves fuel args ap color rest (putc c color p) (omega arith)
              (preserved c color p h))
        | inr percent ↦
            let d = directive args ap color rest in
            let is = directive-IsConverted args ap color rest in
            let (text, e) = text_of-IsConverted rest d.conversion is in
            let (p', printed, h') = emit-preserves d.width d.precision d.conversion text p h in
            rw (percent, e, printed)
              (printer_vprintf-preserves fuel args (ap + d.read) d.conversion.color
                d.conversion.rest p' (omega (arith, is.shorter)) h')
      ]
