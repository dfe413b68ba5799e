-- ===== src/Printer/Output.antt =====
-- The characters and colours that `printer_vprintf` gives to its printer.
use weensy_osvm.Base.{
  ℕ, zero, suc, ◌+◌, ◌≡◌, refl, ap, ◌∙◌, false, ◌!=◌, Option, none, some, List, [], ◌∷◌, ◌++◌,
  length, inl, inr, Bool-cases, arith,
}
use mathlib.Core.Option
use weensy_osvm.Printer.{Slot, Conversion}
use weensy_osvm.Printer.Emit.{
  directive, text_of, put_all, emit, printer_vprintf, layout, and_continue,
}
use weensy_osvm.Printer.Total.{printer_vprintf-preserves}

-- A translation of a printer's states into another's that `putc` respects.
module _ {S S' : Type 0} (putc : (c color : ℕ) → S → S) (putc' : (c color : ℕ) → S' → S')
    (f : S → S') (respects : (c color : ℕ) (p : S) → f (putc c color p) ≡ putc' c color (f p)) where
  put_all-map :
      (color : ℕ) (chars : List ℕ) (p : S)
      → f (put_all putc color chars p) ≡ put_all putc' color chars (f p)
  unfolding put_all
  put_all-map color [] p = refl
  put_all-map color (c ∷ rest) p =
      put_all-map color rest (putc c color p) ∙ ap (put_all putc' color rest) (respects c color p)

  emit-map :
      (width precision : ℕ) (c : Conversion) (p : S) (text : Option (List ℕ))
      → Option.map f (emit putc width precision c p text) ≡ emit putc' width precision c (f p) text
  unfolding emit
  emit-map width precision c p none = refl
  emit-map width precision c p (some text) = elim (Bool-cases c.done) [
    | inl skip ↦ rw skip refl
    | inr print ↦
        rw print (
          ap some (put_all-map c.color (layout width precision (record c { done = false }) text) p))
  ]

  and_continue-map :
      (o : Option S) (next : S → Option S) (next' : S' → Option S')
      → ((p : S) → Option.map f (next p) ≡ next' (f p))
      → Option.map f (and_continue o next) ≡ and_continue (Option.map f o) next'
  and_continue-map none next next' h = refl
  and_continue-map (some p) next next' h = h p

  printer_vprintf-map :
      (fuel : ℕ) (args : ℕ → Slot) (ap color : ℕ) (format : List ℕ) (p : S)
      → Option.map f (printer_vprintf putc fuel args ap color format p)
        ≡ printer_vprintf putc' fuel args ap color format (f p)
  unfolding printer_vprintf
  printer_vprintf-map zero args ap color format p = refl
  printer_vprintf-map (suc fuel) args ap color [] p = refl
  printer_vprintf-map (suc fuel) args ap color (c ∷ rest) p = elim (Bool-cases (c != b'%')) [
    | inl plain ↦
        rw (plain, ← respects c color p)
          (printer_vprintf-map fuel args ap color rest (putc c color p))
    | inr percent ↦
        let d = directive args ap color rest in
        let printed = emit-map d.width d.precision d.conversion p (text_of d.conversion) in
        let next = λ (q : S).
          printer_vprintf putc fuel args (ap + d.read) d.conversion.color d.conversion.rest q in
        let next' = λ (q : S').
          printer_vprintf putc' fuel args (ap + d.read) d.conversion.color d.conversion.rest q in
        rw (percent, ← printed)
          (and_continue-map (emit putc d.width d.precision d.conversion p (text_of d.conversion))
            next next'
            (λ q.
              printer_vprintf-map fuel args (ap + d.read) d.conversion.color d.conversion.rest q))
  ]

-- A printed character with its colour.
abbrev pub Cell : Type 0
Cell = ℕ × ℕ

-- The printer that only lists what is printed.
abbrev list_putc : (c color : ℕ) → List Cell → List Cell
list_putc c color cells = cells ++ ((c, color) ∷ [])

abbrev or_empty : Option (List Cell) → List Cell
or_empty none = []
or_empty (some cells) = cells

-- What a format prints with its arguments, from the initial colour on.
unfoldable pub output : (args : ℕ → Slot) (color : ℕ) (format : List ℕ) → List Cell
output args color format =
    or_empty (printer_vprintf list_putc (suc (length format)) args 0 color format [])

-- `putc` of each of the cells in turn
unfoldable pub play : {S : Type 0} → ((c color : ℕ) → S → S) → List Cell → S → S
play putc [] p = p
play putc ((c, color) ∷ rest) p = play putc rest (putc c color p)

play-append :
    {S : Type 0} (putc : (c color : ℕ) → S → S) (cells : List Cell) (c color : ℕ) (p : S)
    → play putc (cells ++ ((c, color) ∷ [])) p ≡ putc c color (play putc cells p)
unfolding play
play-append putc [] c color p = refl
play-append putc ((d, shade) ∷ rest) c color p = play-append putc rest c color (putc d shade p)

-- `printer_vprintf` on any printer, with one more fuel than the format has characters, ends and has
-- called its `putc` for the characters that a printer which only lists them gets, in that order and
-- with those colours: what is printed does not depend on the printer.
pub printer_vprintf-play :
    {S : Type 0} (putc : (c color : ℕ) → S → S) (args : ℕ → Slot) (color : ℕ) (format : List ℕ)
    (p : S)
    → printer_vprintf putc (suc (length format)) args 0 color format p
      ≡ some (play putc (output args color format) p)
unfolding output play
printer_vprintf-play putc args color format p =
    let (cells, e, _) =
      printer_vprintf-preserves list_putc (λ _. Unit {0}) (λ c shade q _. tt) (suc (length format))
        args 0 color format [] (omega arith) tt in
    let same =
      printer_vprintf-map list_putc putc (λ q. play putc q p)
        (λ c shade q. play-append putc q c shade p) (suc (length format)) args 0 color format [] in
    rw (← same, e) refl
