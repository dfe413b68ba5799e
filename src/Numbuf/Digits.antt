-- ===== src/Numbuf/Digits.antt =====
-- What the characters of `fill_numbuf` say.
use weensy_osvm.Base.{
  ℕ, zero, suc, ◌+◌, ◌-◌, ◌*◌, ◌/◌, ◌%◌, ◌^◌, ◌≤◌, ◌<◌, ◌≡◌, ◌⊎◌, inl, inr, refl, Bool, ◌==◌, ltb,
  leb, if◌then◌else◌, Bool-cases, some, List, [], ◌∷◌, length, get_or, arith, true, ◌&&◌, &&_parts,
  ==_iff, ap, ◌∙◌,
}
use weensy_osvm.Numbuf.{upper_digits, lower_digits, fill_loop, fill_numbuf, numbufsiz}

-- The number that a character stands for, in either case.
abbrev pub digit_value : ℕ → ℕ
digit_value c = if ltb c b'A' then c - b'0' else if ltb c b'a' then c - b'A' + 10 else c - b'a' + 10

-- A text read as a numeral, `n` being what stands before it.
pub numeral : (base n : ℕ) → List ℕ → ℕ
numeral base n [] = n
numeral base n (c ∷ rest) = numeral base (n * base + digit_value c) rest

-- The digits stand for the values from `n` on, in order.
abbrev are_digits : (n : ℕ) → List ℕ → Bool
are_digits n [] = true
are_digits n (c ∷ rest) = digit_value c == n && are_digits (suc n) rest

digit_value-get_or :
    (n d : ℕ) (digits : List ℕ)
    → are_digits n digits ≡ true
    → d < length digits
    → digit_value (get_or digits d 0) ≡ n + d
digit_value-get_or n d [] are h = absurd (omega arith)
digit_value-get_or n zero (c ∷ rest) are h =
    (==_iff _ _).0 (&&_parts (digit_value c == n) _ are).0 ∙ omega arith
digit_value-get_or n (suc d) (c ∷ rest) are h =
    digit_value-get_or (suc n) d rest (&&_parts (digit_value c == n) _ are).1 (omega arith)
    ∙ omega arith

module _ (digits : List ℕ) (base : ℕ) (are : are_digits 0 digits ≡ true) (all : length digits ≡ 16)
    (b : (base ≡ 10) ⊎ (base ≡ 16)) where
  -- One digit stands for the remainder.
  step_value : (val : ℕ) → val / base * base + digit_value (get_or digits (val % base) 0) ≡ val
  step_value val = elim b [
    | inl e ↦ rw (e, digit_value-get_or 0 (val % 10) digits are (omega arith)) (omega arith)
    | inr e ↦ rw (e, digit_value-get_or 0 (val % 16) digits are (omega arith)) (omega arith)
  ]

  step_bound : (val n : ℕ) → val < 10 ^ suc n → val / base < 10 ^ n
  step_bound val n h = elim b [ inl e ↦ rw e (omega arith) | inr e ↦ rw e (omega arith) ]

  step_last : (val : ℕ) → val < 10 → val / base ≡ 0
  step_last val h = elim b [ inl e ↦ rw e (omega arith) | inr e ↦ rw e (omega arith) ]

  fill_loop-numeral :
      (n fuel val : ℕ) (numbuf : List ℕ)
      → val < 10 ^ suc n
      → n < fuel
      → (text : List ℕ) × (fill_loop fuel digits base val numbuf ≡ some text)
        × (numeral base 0 text ≡ numeral base val numbuf)
        × (length text ≤ suc n + length numbuf)
  unfolding fill_loop numeral
  fill_loop-numeral n zero val numbuf h k = absurd (omega arith)
  fill_loop-numeral zero (suc fuel) val numbuf h k =
      let null = step_last val h in
      let numbuf' = get_or digits (val % base) 0 ∷ numbuf in
      (
        numbuf',
        rw null refl,
        ap (λ v. numeral base v numbuf) (rw null at (step_value val)),
        omega arith,
      )
  fill_loop-numeral (suc n) (suc fuel) val numbuf h k =
      let numbuf' = get_or digits (val % base) 0 ∷ numbuf in
      elim (Bool-cases (val / base == 0)) [
        | inl last ↦
            let null : val / base ≡ 0 = ground arith in
            (
              numbuf',
              ground arith,
              ap (λ v. numeral base v numbuf) (rw null at (step_value val)),
              omega arith,
            )
        | inr more ↦
            let (text, e, same, short) =
              fill_loop-numeral n fuel (val / base) numbuf' (step_bound val (suc n) h)
                (omega arith) in
            (
              text,
              ground (arith, e),
              same ∙ ap (λ v. numeral base v numbuf) (step_value val),
              omega (arith, short),
            )
      ]

-- Read as a numeral in its base, the text is the number; with its NUL it fits into the buffer.
pub record IsNumeral (base val : ℕ) (text : List ℕ) : Type 0 where
  pub value : numeral base 0 text ≡ val
  pub room : length text + 1 ≤ numbufsiz

fill_loop-IsNumeral :
    (digits : List ℕ) (base val fuel : ℕ)
    → are_digits 0 digits ≡ true
    → length digits ≡ 16
    → (base ≡ 10) ⊎ (base ≡ 16)
    → val < 2 ^ 64
    → 19 < fuel
    → (text : List ℕ) × (fill_loop fuel digits base val [] ≡ some text) × IsNumeral base val text
unfolding numeral
fill_loop-IsNumeral digits base val fuel are all b h k =
    let (text, e, same, short) =
      fill_loop-numeral digits base are all b 19 fuel val [] (omega arith) k in
    (text, e, record { value = same; room = omega (arith, short) })

pub fill_numbuf-IsNumeral :
    (val base : ℕ)
    → (base ≡ 10) ⊎ (base ≡ 16) ⊎ (base ≡ 2 ^ 32 - 16)
    → val < 2 ^ 64
    → (text : List ℕ) × (fill_numbuf val base ≡ some text)
      × IsNumeral (if leb (2 ^ 31) base then 2 ^ 32 - base else base) val text
unfolding fill_numbuf
fill_numbuf-IsNumeral val base b h = elim b [
  | inl ten ↦
      rw ten (fill_loop-IsNumeral upper_digits 10 val 64 refl refl (inl refl) h (omega arith))
  | inr (inl hex) ↦
      rw hex (fill_loop-IsNumeral upper_digits 16 val 64 refl refl (inr refl) h (omega arith))
  | inr (inr lower) ↦
      rw lower (fill_loop-IsNumeral lower_digits 16 val 64 refl refl (inr refl) h (omega arith))
]
