-- ===== src/Keyboard.antt =====
-- k-hardware.c: `keyboard_readc`. The bytes that it reads from the keyboard's status and data ports
-- are arguments, and its static variables are a record.
pub mod Codes
pub mod Modifiers
use weensy_osvm.Base.{
  ℕ, ◌+◌, ◌-◌, ◌^◌, Bool, not, ◌&&◌, ◌==◌, ◌!=◌, ltb, leb, if◌then◌else◌, bit_and, bit_or, bit_xor,
  get_or,
}
use weensy_osvm.X86.{u8, has_flag, int_minus_one}
use weensy_osvm.Keymap.{key_shift, key_capslock, ckey, keymap, KeyboardKey, complex_keymap}

abbrev pub mod_shift : ℕ
mod_shift = 1

abbrev pub mod_control : ℕ
mod_control = 2

abbrev pub mod_capslock : ℕ
mod_capslock = 8

abbrev pub keyboard_status_ready : ℕ
keyboard_status_ready = 1

pub record Keyboard : Type 0 where
  pub modifiers : ℕ
  pub last_escape : ℕ

unfoldable pub key_at : ℕ → ℕ
key_at code = get_or keymap code 0

-- `complex_keymap[key].map[modifiers & 3]`
unfoldable pub complex_char : (key modifiers : ℕ) → ℕ
complex_char key modifiers =
    let entry =
      get_or complex_keymap key (record { plain = 0; shift = 0; control = 0; both = 0 }) in
    let column = bit_and modifiers 3 in
    if column == 0
    then entry.plain
    else if column == 1
    then entry.shift
    else if column == 2
    then entry.control
    else entry.both

-- The bit of a modifier key, `1 << (ch - KEY_SHIFT)`.
abbrev pub modifier_bit : ℕ → ℕ
modifier_bit ch = 2 ^ (ch - key_shift)

-- The release of the key `ch`: the modifiers that are left.
unfoldable pub release : (ch modifiers : ℕ) → ℕ
release ch modifiers =
    if leb key_shift ch && ltb ch key_capslock
    then bit_and modifiers (0xFF - modifier_bit ch)
    else modifiers

-- `!(modifiers & MOD_SHIFT) != !(modifiers & MOD_CAPSLOCK)`
abbrev pub differ : Bool → Bool → Bool
differ a b = if a then not b else b

-- The press of the key `ch`: the character, and the modifiers.
unfoldable pub press : (ch modifiers : ℕ) → ℕ × ℕ
unfolding complex_char
press ch modifiers =
    if leb b'a' ch && leb ch b'z'
    then (
      (if has_flag modifiers mod_control
          then ch - 0x60
          else if differ (not (has_flag modifiers mod_shift))
              (not (has_flag modifiers mod_capslock))
          then ch - 0x20
          else ch),
      modifiers,
    )
    else if leb key_capslock ch
    then (0, u8 (bit_xor modifiers (modifier_bit ch)))
    else if leb key_shift ch
    then (0, u8 (bit_or modifiers (modifier_bit ch)))
    else if leb (ckey 0) ch && leb ch (ckey 21)
    then (complex_char (ch - ckey 0) modifiers, modifiers)
    else if ltb ch 0x80 && has_flag modifiers mod_control
    then (0, modifiers)
    else (ch, modifiers)

-- A byte of the data port.
unfoldable pub scan : (data_byte : ℕ) → Keyboard → ℕ × Keyboard
unfolding release press key_at
scan data_byte kb =
    if data_byte == 0xE0
    then (0, record kb { last_escape = 0x80 })
    else if has_flag data_byte 0x80
    then (
      0,
      record {
        modifiers = release (key_at (bit_or (bit_and data_byte 0x7F) kb.last_escape)) kb.modifiers;
        last_escape = 0;
      },
    )
    else let r = press (key_at (bit_or data_byte kb.last_escape)) kb.modifiers in
      (r.0, record { modifiers = r.1; last_escape = 0 })

-- The result is an `int`.
unfoldable pub keyboard_readc : (status data_byte : ℕ) → Keyboard → ℕ × Keyboard
unfolding scan
keyboard_readc status data_byte kb =
    if has_flag status keyboard_status_ready then scan data_byte kb else (int_minus_one, kb)
