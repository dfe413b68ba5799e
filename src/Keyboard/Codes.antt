-- ===== src/Keyboard/Codes.antt =====
-- The codes that `keyboard_readc` returns.
use weensy_osvm.Base.{
  ℕ, ◌-◌, ◌<◌, ◌≤◌, ◌≡◌, ◌⊎◌, inl, inr, refl, Bool, true, false, ◌&&◌, ◌||◌, ◌==◌, ltb, leb,
  bit_and, bit_or, all-get_or, Bool-cases, arith,
}
use weensy_osvm.Base.Bits.{bit_and-le}
use weensy_osvm.X86.{has_flag, int_minus_one}
use weensy_osvm.Keymap.{key_shift, key_up, key_delete, ckey, keymap, KeyboardKey, complex_keymap}
use weensy_osvm.Keyboard.{
  Keyboard, key_at, complex_char, release, press, modifier_bit, scan, keyboard_readc,
  keyboard_status_ready,
}

-- What stands in `keymap`: a character, a `CKEY`, a special key of kernel.h, or a modifier key.
abbrev is_code : ℕ → Bool
is_code c = ltb c 0x96 || (leb key_up c && leb c key_delete) || (leb key_shift c && ltb c 0x100)

key_at_code : (code : ℕ) → is_code (key_at code) ≡ true
unfolding key_at
key_at_code code = all-get_or is_code keymap code 0 refl refl

abbrev is_ascii_key : KeyboardKey → Bool
is_ascii_key key =
    ltb key.plain 0x80 && ltb key.shift 0x80 && ltb key.control 0x80 && ltb key.both 0x80

complex_char-lt : (key modifiers : ℕ) → complex_char key modifiers < 0x80
unfolding complex_char
complex_char-lt key modifiers = ground (
  arith,
  all-get_or is_ascii_key complex_keymap key
      (record { plain = 0; shift = 0; control = 0; both = 0 }) refl refl,
)

-- An ASCII character, or a special key of kernel.h.
abbrev pub IsKey : ℕ → Type 0
IsKey c = (c < 0x80) ⊎ ((key_up ≤ c) × (c ≤ key_delete))

press-IsKey : (ch modifiers : ℕ) → is_code ch ≡ true → IsKey (press ch modifiers).0
unfolding press
press-IsKey ch modifiers h = ground (arith, complex_char-lt (ch - ckey 0) modifiers)

-- The static variables of `keyboard_readc` between two calls.
pub record IsKeyboard (kb : Keyboard) : Type 0 where
  pub modifiers_byte : kb.modifiers < 0x100
  pub escape : (kb.last_escape ≡ 0) ⊎ (kb.last_escape ≡ 0x80)

press-modifiers : (ch modifiers : ℕ) → modifiers < 0x100 → (press ch modifiers).1 < 0x100
unfolding press
press-modifiers ch modifiers h = ground arith

release-modifiers : (ch modifiers : ℕ) → modifiers < 0x100 → release ch modifiers < 0x100
unfolding release
release-modifiers ch modifiers h = ground (arith, bit_and-le modifiers (0xFF - modifier_bit ch))

abbrev released_key : (data_byte : ℕ) → Keyboard → ℕ
released_key data_byte kb = key_at (bit_or (bit_and data_byte 0x7F) kb.last_escape)

abbrev pressed_key : (data_byte : ℕ) → Keyboard → ℕ
pressed_key data_byte kb = key_at (bit_or data_byte kb.last_escape)

scan-IsKey :
    (data_byte : ℕ) (kb : Keyboard)
    → IsKeyboard kb
    → IsKey (scan data_byte kb).0 × IsKeyboard (scan data_byte kb).1
unfolding scan
scan-IsKey data_byte kb is = elim (Bool-cases (data_byte == 0xE0)) [
  | inl e ↦
      rw e (inl (omega arith), record { modifiers_byte = is.modifiers_byte; escape = inr refl })
  | inr e ↦ elim (Bool-cases (has_flag data_byte 0x80)) [
    | inl up ↦
        rw (e, up)
          (
            inl (omega arith),
            record {
              modifiers_byte =
                  release-modifiers (released_key data_byte kb) kb.modifiers is.modifiers_byte;
              escape = inl refl;
            },
          )
    | inr down ↦
        rw (e, down)
          (
            press-IsKey (pressed_key data_byte kb) kb.modifiers
                (key_at_code (bit_or data_byte kb.last_escape)),
            record {
              modifiers_byte =
                  press-modifiers (pressed_key data_byte kb) kb.modifiers is.modifiers_byte;
              escape = inl refl;
            },
          )
  ]
]

-- The call finds no byte, returns -1 and keeps its variables; or it finds one and returns a key.
abbrev pub Answers : (status : ℕ) → Keyboard → ℕ × Keyboard → Type 0
Answers status kb r =
    ((has_flag status keyboard_status_ready ≡ false) × (r ≡ (int_minus_one, kb)))
    ⊎ ((has_flag status keyboard_status_ready ≡ true) × IsKey r.0 × IsKeyboard r.1)

-- Where no byte is ready, `keyboard_readc` returns -1 and changes nothing; where one is, whatever
-- it is, the result is an ASCII character, 0 included, or a special key of kernel.h from KEY_UP to
-- KEY_DELETE, never the code of a modifier key or a `CKEY`, and the static variables stay a byte
-- of modifiers and an escape of 0 or 0x80.
pub keyboard_readc-IsKey :
    (status data_byte : ℕ) (kb : Keyboard)
    → IsKeyboard kb
    → Answers status kb (keyboard_readc status data_byte kb)
unfolding keyboard_readc
keyboard_readc-IsKey status data_byte kb is =
    elim (Bool-cases (has_flag status keyboard_status_ready)) [
      | inl ready ↦
          let found = scan-IsKey data_byte kb is in rw ready (inr (refl, found.0, found.1))
      | inr none ↦ rw none (inl (refl, refl))
    ]
