-- ===== src/Programs/Message.antt =====
-- process.c: `app_printf` and the message of `panic`.
use weensy_osvm.Base.{
  ℕ, zero, suc, ◌+◌, ◌-◌, ◌*◌, ◌/◌, ◌%◌, ◌^◌, ◌≤◌, ◌<◌, ◌≡◌, ◌⊎◌, inl, inr, refl, ◌∙◌, ◌&&◌, ◌==◌,
  ◌!=◌, ltb, leb, if◌then◌else◌, Option, none, some, List, [], ◌∷◌, get_or, length, Bool-cases,
  arith,
}
use weensy_osvm.Memory.{Mem, store8}
use weensy_osvm.Console.{Console, console_size}
use weensy_osvm.Console.Text.{
  console_vprintf, console_vprintf-IsWithin, vsnprintf, vsnprintf-IsPrinted,
}
use weensy_osvm.Printer.{Slot}

abbrev pub app_colors : List ℕ
app_colors = 0x0E ∷ 0x0F ∷ 0x0C ∷ 0x0A ∷ 0x09 ∷ []

-- `colorid` is an `int`.
unfoldable pub app_color : (colorid : ℕ) → ℕ
app_color colorid =
    if leb (2 ^ 31) colorid then 0x0700 else get_or app_colors (colorid % 5) 0 * 2 ^ 8

-- The console behind the text, and `cursorpos`.
abbrev pub scrolled : Option Console → Option (Console × ℕ)
scrolled none = none
scrolled (some con) = some (con, if leb 23 (con.cursor / 80) then 0 else con.cursor)

unfoldable pub app_printf :
    (colorid : ℕ) (format : List ℕ) (args : ℕ → Slot)
    → Console
    → (cursorpos : ℕ) → Option (Console × ℕ)
app_printf colorid format args con cursorpos =
    scrolled (console_vprintf cursorpos (app_color colorid) format args con)

-- `app_printf` ends for every format, writes only cells of the console, and leaves `cursorpos` in
-- the first 23 rows, wherever it was.
pub app_printf-IsWithin :
    (colorid : ℕ) (format : List ℕ) (args : ℕ → Slot) (con : Console) (cursorpos : ℕ)
    → (con' : Console) × (cursorpos' : ℕ) × (app_printf colorid format args con cursorpos
        ≡ some (con', cursorpos'))
      × (cursorpos' < 23 * 80)
      × ((i : ℕ) → console_size ≤ i → con'.cells i ≡ con.cells i)
unfolding app_printf
app_printf-IsWithin colorid format args con cursorpos =
    let (con', printed, within) =
      console_vprintf-IsWithin cursorpos (app_color colorid) format args con in
    (
      con',
      (if leb 23 (con'.cursor / 80) then 0 else con'.cursor),
      rw printed refl,
      ground arith,
      within.behind,
    )

abbrev pub buf_size : ℕ
buf_size = 160

-- "PANIC: "
abbrev pub panic_prefix : List ℕ
panic_prefix = b'P' ∷ b'A' ∷ b'N' ∷ b'I' ∷ b'C' ∷ b':' ∷ b' ' ∷ []

-- `memcpy` of a literal
unfoldable pub store_text : List ℕ → (a : ℕ) → Mem → Mem
store_text [] a m = m
store_text (c ∷ rest) a m = store_text rest (a + 1) (store8 m a c)

-- `strcpy(buf + len - (len == (int) sizeof(buf) - 1), "\n")`
unfoldable pub put_newline : (buf len : ℕ) → Mem → Mem
put_newline buf len m =
    store_text (b'\n' ∷ 0 ∷ []) (buf + len - (if len == buf_size - 1 then 1 else 0)) m

-- The buffer behind the text, `n` characters long.
unfoldable pub end_line : (buf : ℕ) → ℕ × Mem → Mem
unfolding put_newline
end_line buf (n, m) =
    if ltb 0 (n + 7) && m (buf + (n + 7) - 1) != b'\n' then put_newline buf (n + 7) m else m

abbrev pub ended_line : (buf : ℕ) → Option (ℕ × Mem) → Option Mem
ended_line buf none = none
ended_line buf (some r) = some (end_line buf r)

-- `panic` up to its message in `buf`, which it then prints and panics by the system call.
unfoldable pub panic_message : (buf : ℕ) (format : List ℕ) (args : ℕ → Slot) → Mem → Option Mem
panic_message buf format args m =
    ended_line buf (vsnprintf (buf + 7) (buf_size - 7) format args (store_text panic_prefix buf m))

-- The message is a line that begins with the prefix and lies in the buffer.
pub record IsLine (buf : ℕ) (m m' : Mem) : Type 0 where
  pub size : ℕ
  pub room : size < buf_size
  pub ended : m' (buf + size) ≡ 0
  pub newline : m' (buf + size - 1) ≡ b'\n'
  pub prefix : (i : ℕ) → i < 7 → m' (buf + i) ≡ get_or panic_prefix i 0
  pub outside : (b : ℕ) → (b < buf) ⊎ (buf + buf_size ≤ b) → m' b ≡ m b

store_text-outside :
    (text : List ℕ) (a : ℕ) (m : Mem) (b : ℕ)
    → (b < a) ⊎ (a + length text ≤ b)
    → store_text text a m b ≡ m b
unfolding store_text store8
store_text-outside [] a m b o = refl
store_text-outside (c ∷ rest) a m b o =
    ground (arith, store_text-outside rest (a + 1) (store8 m a c) b)

store_text-at :
    (text : List ℕ) (a : ℕ) (m : Mem) (i : ℕ)
    → i < length text
    → store_text text a m (a + i) ≡ get_or text i 0
unfolding store_text store8
store_text-at [] a m i h = absurd (omega arith)
store_text-at (c ∷ rest) a m zero h =
    ground (arith, store_text-outside rest (a + 1) (store8 m a c) (a + 0))
store_text-at (c ∷ rest) a m (suc i) h =
    let shift : a + suc i ≡ a + 1 + i = omega arith in
    rw shift (store_text-at rest (a + 1) (store8 m a c) i (omega arith))

-- Where the newline is written: behind the text, or over its last character if that is the last but
-- one of the buffer.
abbrev newline_place : (buf n : ℕ) → ℕ
newline_place buf n = buf + (n + 7) - (if n + 7 == buf_size - 1 then 1 else 0)

put_newline-at :
    (buf n : ℕ) (m : Mem) (b : ℕ)
    → put_newline buf (n + 7) m b ≡ (
        if b == newline_place buf n + 1 then 0 else if b == newline_place buf n then b'\n' else m b)
unfolding put_newline store_text store8
put_newline-at buf n m b = refl

module _ (buf n : ℕ) (m0 m2 : Mem) (fits : n < buf_size - 7) (end : m2 (buf + 7 + n) ≡ 0)
    (prefix : (i : ℕ) → i < 7 → m2 (buf + i) ≡ get_or panic_prefix i 0)
    (outside : (b : ℕ) → (b < buf) ⊎ (buf + buf_size ≤ b) → m2 b ≡ m0 b) where
  put_newline-IsLine : IsLine buf m0 (put_newline buf (n + 7) m2)
  put_newline-IsLine =
      let at = newline_place buf n in
      let low : buf + 7 ≤ at = ground arith in
      let high : at + 1 < buf + buf_size = ground arith in
      record {
        size = at + 1 - buf;
        room = omega (arith, low, high);
        ended = ground (arith, put_newline-at buf n m2 (buf + (at + 1 - buf)));
        newline = ground (arith, put_newline-at buf n m2 (buf + (at + 1 - buf) - 1));
        prefix = λ i h. ground (arith, put_newline-at buf n m2 (buf + i), prefix i h);
        outside = λ b o. ground (arith, put_newline-at buf n m2 b, outside b o);
      }

  end_line-IsLine : IsLine buf m0 (end_line buf (n, m2))
  unfolding end_line
  end_line-IsLine = elim (Bool-cases (ltb 0 (n + 7) && m2 (buf + (n + 7) - 1) != b'\n')) [
    | inl open_line ↦ rw open_line put_newline-IsLine
    | inr closed ↦
        let same_end : buf + (n + 7) ≡ buf + 7 + n = omega arith in
        rw closed (record {
          size = n + 7;
          room = omega arith;
          ended = rw same_end end;
          newline = ground arith;
          prefix = prefix;
          outside = outside;
        })
  ]

-- The message of `panic` in its buffer of 160 bytes, for every format and arguments: a line that
-- begins with "PANIC: ", ends with a newline and a NUL within the buffer, and no byte outside the
-- buffer is written.
pub panic_message-IsLine :
    (buf : ℕ) (format : List ℕ) (args : ℕ → Slot) (m : Mem)
    → (m' : Mem) × (panic_message buf format args m ≡ some m') × IsLine buf m m'
unfolding panic_message
panic_message-IsLine buf format args m =
    let started = store_text panic_prefix buf m in
    let (n, m2, printed, is) =
      vsnprintf-IsPrinted (buf + 7) (buf_size - 7) format args started (omega arith) in
    (
      end_line buf (n, m2),
      rw printed refl,
      end_line-IsLine buf n m m2 is.room is.ended
          (λ i h. is.outside (buf + i) (omega arith) ∙ store_text-at panic_prefix buf m i h)
          (λ b o.
            is.outside b (omega arith) ∙ store_text-outside panic_prefix buf m b (omega arith)),
    )
