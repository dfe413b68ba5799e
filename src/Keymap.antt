-- ===== src/Keymap.antt =====
-- k-hardware.c: the tables of `keyboard_readc`, from a key's scan code to its character or to the code
-- of a special key.
use weensy_osvm.Base.{ℕ, ◌+◌, List, [], ◌∷◌}

abbrev pub key_shift : ℕ
key_shift = 0xFA

abbrev pub key_control : ℕ
key_control = 0xFB

abbrev pub key_alt : ℕ
key_alt = 0xFC

abbrev pub key_capslock : ℕ
key_capslock = 0xFD

abbrev pub key_numlock : ℕ
key_numlock = 0xFE

abbrev pub key_scrolllock : ℕ
key_scrolllock = 0xFF

abbrev pub key_up : ℕ
key_up = 0xC0

abbrev pub key_right : ℕ
key_right = 0xC1

abbrev pub key_down : ℕ
key_down = 0xC2

abbrev pub key_left : ℕ
key_left = 0xC3

abbrev pub key_home : ℕ
key_home = 0xC4

abbrev pub key_end : ℕ
key_end = 0xC5

abbrev pub key_pageup : ℕ
key_pageup = 0xC6

abbrev pub key_pagedown : ℕ
key_pagedown = 0xC7

abbrev pub key_insert : ℕ
key_insert = 0xC8

abbrev pub key_delete : ℕ
key_delete = 0xC9

-- The index of a character that depends on Shift and Control, as a code.
abbrev pub ckey : ℕ → ℕ
ckey cn = 0x80 + cn

-- `keymap`, the 256 entries in rows of sixteen
abbrev pub keymap : List ℕ
keymap =
    0
    ∷ 0x1B
    ∷ ckey 0
    ∷ ckey 1
    ∷ ckey 2
    ∷ ckey 3
    ∷ ckey 4
    ∷ ckey 5
    ∷ ckey 6
    ∷ ckey 7
    ∷ ckey 8
    ∷ ckey 9
    ∷ ckey 10
    ∷ ckey 11
    ∷ 0x08
    ∷ b'\t'
    ∷ b'q'
    ∷ b'w'
    ∷ b'e'
    ∷ b'r'
    ∷ b't'
    ∷ b'y'
    ∷ b'u'
    ∷ b'i'
    ∷ b'o'
    ∷ b'p'
    ∷ ckey 12
    ∷ ckey 13
    ∷ ckey 14
    ∷ key_control
    ∷ b'a'
    ∷ b's'
    ∷ b'd'
    ∷ b'f'
    ∷ b'g'
    ∷ b'h'
    ∷ b'j'
    ∷ b'k'
    ∷ b'l'
    ∷ ckey 15
    ∷ ckey 16
    ∷ ckey 17
    ∷ key_shift
    ∷ ckey 18
    ∷ b'z'
    ∷ b'x'
    ∷ b'c'
    ∷ b'v'
    ∷ b'b'
    ∷ b'n'
    ∷ b'm'
    ∷ ckey 19
    ∷ ckey 20
    ∷ ckey 21
    ∷ key_shift
    ∷ b'*'
    ∷ key_alt
    ∷ b' '
    ∷ key_capslock
    ∷ 0
    ∷ 0
    ∷ 0
    ∷ 0
    ∷ 0
    ∷ 0
    ∷ 0
    ∷ 0
    ∷ 0
    ∷ 0
    ∷ key_numlock
    ∷ key_scrolllock
    ∷ b'7'
    ∷ b'8'
    ∷ b'9'
    ∷ b'-'
    ∷ b'4'
    ∷ b'5'
    ∷ b'6'
    ∷ b'+'
    ∷ b'1'
    ∷ b'2'
    ∷ b'3'
    ∷ b'0'
    ∷ b'.'
    ∷ 0
    ∷ 0
    ∷ 0
    ∷ 0
    ∷ 0
    ∷ 0
    ∷ 0
    ∷ 0
    ∷ 0
    ∷ 0
    ∷ 0
    ∷ 0
    ∷ 0
    ∷ 0
    ∷ 0
    ∷ 0
    ∷ 0
    ∷ 0
    ∷ 0
    ∷ 0
    ∷ 0
    ∷ 0
    ∷ 0
    ∷ 0
    ∷ 0
    ∷ 0
    ∷ 0
    ∷ 0
    ∷ 0
    ∷ 0
    ∷ 0
    ∷ 0
    ∷ 0
    ∷ 0
    ∷ 0
    ∷ 0
    ∷ 0
    ∷ 0
    ∷ 0
    ∷ 0
    ∷ 0
    ∷ 0
    ∷ 0
    ∷ 0
    ∷ 0
    ∷ 0
    ∷ 0
    ∷ 0
    ∷ 0
    ∷ 0
    ∷ 0
    ∷ 0
    ∷ 0
    ∷ 0
    ∷ 0
    ∷ 0
    ∷ 0
    ∷ 0
    ∷ 0
    ∷ 0
    ∷ 0
    ∷ 0
    ∷ 0
    ∷ 0
    ∷ 0
    ∷ 0
    ∷ 0
    ∷ 0
    ∷ 0
    ∷ 0
    ∷ 0
    ∷ 0
    ∷ ckey 14
    ∷ key_control
    ∷ 0
    ∷ 0
    ∷ 0
    ∷ 0
    ∷ 0
    ∷ 0
    ∷ 0
    ∷ 0
    ∷ 0
    ∷ 0
    ∷ 0
    ∷ 0
    ∷ 0
    ∷ 0
    ∷ 0
    ∷ 0
    ∷ 0
    ∷ 0
    ∷ 0
    ∷ 0
    ∷ 0
    ∷ 0
    ∷ 0
    ∷ b'/'
    ∷ 0
    ∷ 0
    ∷ key_alt
    ∷ 0
    ∷ 0
    ∷ 0
    ∷ 0
    ∷ 0
    ∷ 0
    ∷ 0
    ∷ 0
    ∷ 0
    ∷ 0
    ∷ 0
    ∷ 0
    ∷ 0
    ∷ 0
    ∷ key_home
    ∷ key_up
    ∷ key_pageup
    ∷ 0
    ∷ key_left
    ∷ 0
    ∷ key_right
    ∷ 0
    ∷ key_end
    ∷ key_down
    ∷ key_pagedown
    ∷ key_insert
    ∷ key_delete
    ∷ 0
    ∷ 0
    ∷ 0
    ∷ 0
    ∷ 0
    ∷ 0
    ∷ 0
    ∷ 0
    ∷ 0
    ∷ 0
    ∷ 0
    ∷ 0
    ∷ 0
    ∷ 0
    ∷ 0
    ∷ 0
    ∷ 0
    ∷ 0
    ∷ 0
    ∷ 0
    ∷ 0
    ∷ 0
    ∷ 0
    ∷ 0
    ∷ 0
    ∷ 0
    ∷ 0
    ∷ 0
    ∷ 0
    ∷ 0
    ∷ 0
    ∷ 0
    ∷ 0
    ∷ 0
    ∷ 0
    ∷ 0
    ∷ 0
    ∷ 0
    ∷ 0
    ∷ 0
    ∷ 0
    ∷ 0
    ∷ 0
    ∷ 0
    ∷ []

-- `keyboard_key`, the characters without a modifier, with Shift, with Control, and with both
pub record KeyboardKey : Type 0 where
  pub plain : ℕ
  pub shift : ℕ
  pub control : ℕ
  pub both : ℕ

abbrev pub complex_keymap : List KeyboardKey
complex_keymap =
    record { plain = b'1'; shift = b'!'; control = 0; both = 0 }
    ∷ record { plain = b'2'; shift = b'@'; control = 0; both = 0 }
    ∷ record { plain = b'3'; shift = b'#'; control = 0; both = 0 }
    ∷ record { plain = b'4'; shift = b'$'; control = 0; both = 0 }
    ∷ record { plain = b'5'; shift = b'%'; control = 0; both = 0 }
    ∷ record { plain = b'6'; shift = b'^'; control = 0; both = 0x1E }
    ∷ record { plain = b'7'; shift = b'&'; control = 0; both = 0 }
    ∷ record { plain = b'8'; shift = b'*'; control = 0; both = 0 }
    ∷ record { plain = b'9'; shift = b'('; control = 0; both = 0 }
    ∷ record { plain = b'0'; shift = b')'; control = 0; both = 0 }
    ∷ record { plain = b'-'; shift = b'_'; control = 0; both = 0x1F }
    ∷ record { plain = b'='; shift = b'+'; control = 0; both = 0 }
    ∷ record { plain = b'['; shift = b'{'; control = 0x1B; both = 0 }
    ∷ record { plain = b']'; shift = b'}'; control = 0x1D; both = 0 }
    ∷ record { plain = b'\n'; shift = b'\n'; control = b'\r'; both = b'\r' }
    ∷ record { plain = b';'; shift = b':'; control = 0; both = 0 }
    ∷ record { plain = b'\''; shift = b'"'; control = 0; both = 0 }
    ∷ record { plain = b'`'; shift = b'~'; control = 0; both = 0 }
    ∷ record { plain = b'\\'; shift = b'|'; control = 0x1C; both = 0 }
    ∷ record { plain = b','; shift = b'<'; control = 0; both = 0 }
    ∷ record { plain = b'.'; shift = b'>'; control = 0; both = 0 }
    ∷ record { plain = b'/'; shift = b'?'; control = 0; both = 0 }
    ∷ []
