-- ===== src/Console/Buffer.antt =====
-- The text that `vsnprintf` leaves in its buffer.
use weensy_osvm.Base.{
  ℕ, zero, suc, ◌+◌, ◌-◌, ◌≤◌, ◌<◌, ◌≡◌, refl, ltb, leb, if◌then◌else◌, some, List, [], ◌∷◌, length,
  get_or, ==_ne, ==_self, arith, true, false,
}
use native.Mathlib.Decide.{dec_lt}
use weensy_osvm.X86.{u8}
use weensy_osvm.Memory.{Mem, store8}
use weensy_osvm.Console.{StringPrinter, string_putc}
use weensy_osvm.Console.Text.{vsnprintf, finish}
use weensy_osvm.Printer.{Slot}
use weensy_osvm.Printer.Output.{Cell, output, play, printer_vprintf-play}

abbrev smaller : ℕ → ℕ → ℕ
smaller a b = if leb a b then a else b

abbrev pub char_at : List Cell → ℕ → ℕ
char_at cells i = u8 (get_or cells i (0, 0)).0

-- The printer's place behind `cells`, and the bytes of its buffer.
record IsPlayed (cells : List Cell) (sp sp' : StringPrinter) : Type 0 where
  place : sp'.s ≡ smaller (sp.s + length cells) sp.end
  before : (b : ℕ) → b < sp.s → sp'.buffer b ≡ sp.buffer b
  text : (i : ℕ) → sp.s + i < sp'.s → sp'.buffer (sp.s + i) ≡ char_at cells i

string_putc_room :
    (c color : ℕ) (sp : StringPrinter)
    → sp.s < sp.end
    → string_putc c color sp ≡ record sp { buffer = store8 sp.buffer sp.s (u8 c); s = sp.s + 1 }
unfolding string_putc
string_putc_room c color sp h = let room : ltb sp.s sp.end ≡ true = ground arith in rw room refl

string_putc_full : (c color : ℕ) (sp : StringPrinter) → sp.end ≤ sp.s → string_putc c color sp ≡ sp
unfolding string_putc
string_putc_full c color sp h = let full : ltb sp.s sp.end ≡ false = ground arith in rw full refl

IsPlayed-put :
    (c color : ℕ) (rest : List Cell) (sp sp' : StringPrinter)
    → sp.s < sp.end
    → IsPlayed rest (record sp { buffer = store8 sp.buffer sp.s (u8 c); s = sp.s + 1 }) sp'
    → IsPlayed ((c, color) ∷ rest) sp sp'
unfolding store8
IsPlayed-put c color rest sp sp' h is = record {
  place = ground (arith, is.place);
  before = λ b l. ground (arith, is.before b);
  text = λ i l. text_from i l;
}
  where
    text_from : (i : ℕ) → sp.s + i < sp'.s → sp'.buffer (sp.s + i) ≡ char_at ((c, color) ∷ rest) i
    text_from zero l = ground (arith, is.before sp.s)
    text_from (suc i) l =
        let e : sp.s + suc i ≡ sp.s + 1 + i = omega arith in rw e (is.text i (omega arith))

IsPlayed-full :
    (c color : ℕ) (rest : List Cell) (sp sp' : StringPrinter)
    → sp.s ≡ sp.end
    → IsPlayed rest sp sp'
    → IsPlayed ((c, color) ∷ rest) sp sp'
IsPlayed-full c color rest sp sp' h is = record {
  place = ground (arith, is.place);
  before = is.before;
  text = λ i l. absurd (ground (arith, is.place));
}

play-IsPlayed :
    (cells : List Cell) (sp : StringPrinter)
    → sp.s ≤ sp.end
    → IsPlayed cells sp (play string_putc cells sp)
unfolding play
play-IsPlayed [] sp h = record {
  place = ground arith;
  before = λ b l. refl;
  text = λ i l. absurd (omega arith);
}
play-IsPlayed ((c, color) ∷ rest) sp h = elim (dec_lt sp.s sp.end) [
  | yes room ↦
      let sp1 : StringPrinter = record sp { buffer = store8 sp.buffer sp.s (u8 c); s = sp.s + 1 } in
      rw (string_putc_room c color sp room) (
        IsPlayed-put c color rest sp (play string_putc rest sp1) room
          (play-IsPlayed rest sp1 (omega arith)))
  | no full ↦ rw (string_putc_full c color sp (omega arith)) (
      IsPlayed-full c color rest sp (play string_putc rest sp) (omega arith)
        (play-IsPlayed rest sp h))
]

-- The `n` first characters of the text, as bytes from `s` on, with a NUL behind them.
pub record IsText (cells : List Cell) (s n : ℕ) (m : Mem) : Type 0 where
  pub chars : (i : ℕ) → i < n → m (s + i) ≡ char_at cells i
  pub ended : m (s + n) ≡ 0

-- `vsnprintf` with a buffer of `size` + 1 bytes leaves in it the first `size` characters of what the
-- format prints, or all where they are fewer, and a NUL behind them, and returns how many they are.
pub vsnprintf-IsText :
    (s size : ℕ) (format : List ℕ) (args : ℕ → Slot) (m : Mem)
    → let cells = output args 0 format in
      let n = smaller (length cells) size in
      (m' : Mem) × (vsnprintf s (suc size) format args m ≡ some (n, m')) × IsText cells s n m'
unfolding vsnprintf finish store8
vsnprintf-IsText s size format args m =
    let cells = output args 0 format in
    let sp : StringPrinter = record { buffer = m; s = s; end = s + size } in
    let played = play-IsPlayed cells sp (omega arith) in
    let sp' = play string_putc cells sp in
    let count : sp'.s - s ≡ smaller (length cells) size = ground (arith, played.place) in
    let at : s + smaller (length cells) size ≡ sp'.s = ground (arith, played.place) in
    (
      store8 sp'.buffer sp'.s 0,
      rw (printer_vprintf-play string_putc args 0 format sp, count) refl,
      record {
        chars = λ i l.
            let within : s + i < sp'.s = omega (arith, at) in
            rw (==_ne (s + i) sp'.s (omega (arith, within))) (played.text i within);
        ended = rw (at, ==_self sp'.s) refl;
      },
    )
