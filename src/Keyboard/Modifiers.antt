-- ===== src/Keyboard/Modifiers.antt =====
-- The modifier keys of `keyboard_readc`: what a key pressed and released leaves.
use weensy_osvm.Base.{
  ℕ, ◌+◌, ◌-◌, ◌/◌, ◌%◌, ◌<◌, ◌≤◌, ◌≡◌, refl, ◌∙◌, Bool, true, false, not, ◌&&◌, ◌==◌, bit_and,
  all_below, all_below-lt, arith,
}
use weensy_osvm.Base.Bits.{bit_and_low, bit_and_high, bit_or-zero}
use weensy_osvm.X86.{has_flag}
use weensy_osvm.Keymap.{key_shift, key_capslock}
use weensy_osvm.Keyboard.{
  Keyboard, key_at, modifier_bit, differ, release, press, scan, keyboard_readc,
  keyboard_status_ready,
}

has_flag-128 : (x : ℕ) → has_flag x 0x80 ≡ (x / 128 % 2 == 1)
unfolding has_flag
has_flag-128 x = ground (arith, bit_and_high 7 x 1, bit_and_low 1 (x / 128))

-- A byte without the escape, for a key that is pressed.
scan-press :
    (code : ℕ) (kb : Keyboard)
    → code < 0x80
    → kb.last_escape ≡ 0
    → scan code kb ≡ (
      (press (key_at code) kb.modifiers).0,
      record { modifiers = (press (key_at code) kb.modifiers).1; last_escape = 0 },
    )
unfolding scan
scan-press code kb h e =
    let not_escape : (code == 0xE0) ≡ false = ground arith in
    let down : has_flag code 0x80 ≡ false = ground (arith, has_flag-128 code) in
    rw (not_escape, down, e, bit_or-zero code) refl

scan-release :
    (code : ℕ) (kb : Keyboard)
    → code < 0x60
    → kb.last_escape ≡ 0
    → scan (code + 0x80) kb
      ≡ (0, record { modifiers = release (key_at code) kb.modifiers; last_escape = 0 })
unfolding scan
scan-release code kb h e =
    let not_escape : (code + 0x80 == 0xE0) ≡ false = ground arith in
    let up : has_flag (code + 0x80) 0x80 ≡ true = ground (arith, has_flag-128 (code + 0x80)) in
    let low : bit_and (code + 0x80) 0x7F ≡ code = omega (arith, bit_and_low 7 (code + 0x80)) in
    rw (not_escape, up, low, e, bit_or-zero code) refl

test_parts :
    (a b : ℕ) (flag : Bool) (c d : ℕ)
    → (a == b && (flag && c == d)) ≡ true
    → (a ≡ b) × (flag ≡ true) × (c ≡ d)
test_parts a b flag c d h = ground arith

differ_lem : (a b : Bool) → differ a b ≡ true → a ≡ not b
differ_lem a b h = ground arith

-- The three facts of `press-release_bits`, as a test.
is_pressed_and_released : (ch modifiers : ℕ) → Bool
is_pressed_and_released ch modifiers =
    (press ch modifiers).0 == 0
    && (has_flag (press ch modifiers).1 (modifier_bit ch)
        && release ch (press ch modifiers).1 == bit_and modifiers (0xFF - modifier_bit ch))

all_pressed_and_released :
    all_below 3 (λ d. all_below 0x100 (is_pressed_and_released (key_shift + d))) ≡ true
unfolding is_pressed_and_released press release has_flag
all_pressed_and_released = refl

-- A key's bit is set, and then cleared; the other bits stay.
press-release_bits :
    (ch modifiers : ℕ)
    → key_shift ≤ ch
    → ch < key_capslock
    → modifiers < 0x100
    → ((press ch modifiers).0 ≡ 0)
      × (has_flag (press ch modifiers).1 (modifier_bit ch) ≡ true)
      × (release ch (press ch modifiers).1 ≡ bit_and modifiers (0xFF - modifier_bit ch))
unfolding is_pressed_and_released
press-release_bits ch modifiers l h m =
    let offset : key_shift + (ch - key_shift) ≡ ch = omega arith in
    let row =
      all_below-lt 3 (λ d. all_below 0x100 (is_pressed_and_released (key_shift + d)))
        (ch - key_shift) all_pressed_and_released (omega arith) in
    let test : is_pressed_and_released ch modifiers ≡ true =
      all_below-lt 0x100 (is_pressed_and_released ch) modifiers (rw (← offset) row) m in
    test_parts (press ch modifiers).0 0 (has_flag (press ch modifiers).1 (modifier_bit ch))
      (release ch (press ch modifiers).1) (bit_and modifiers (0xFF - modifier_bit ch)) test

-- A lock key that is pressed twice, as a test.
is_toggled_twice : (ch modifiers : ℕ) → Bool
is_toggled_twice ch modifiers =
    (press ch modifiers).0 == 0
    && (differ (has_flag (press ch modifiers).1 (modifier_bit ch))
          (has_flag modifiers (modifier_bit ch))
        && (press ch (press ch modifiers).1).1 == modifiers)

all_toggled_twice : all_below 3 (λ d. all_below 0x100 (is_toggled_twice (key_capslock + d))) ≡ true
unfolding is_toggled_twice press has_flag
all_toggled_twice = refl

-- The bit of a lock key changes, and changes back.
toggle_bits :
    (ch modifiers : ℕ)
    → key_capslock ≤ ch
    → ch < 0x100
    → modifiers < 0x100
    → ((press ch modifiers).0 ≡ 0)
      × ((press ch (press ch modifiers).1).1 ≡ modifiers)
      × (has_flag (press ch modifiers).1 (modifier_bit ch)
          ≡ not (has_flag modifiers (modifier_bit ch)))
unfolding is_toggled_twice has_flag
toggle_bits ch modifiers l h m =
    let offset : key_capslock + (ch - key_capslock) ≡ ch = omega arith in
    let row =
      all_below-lt 3 (λ d. all_below 0x100 (is_toggled_twice (key_capslock + d)))
        (ch - key_capslock) all_toggled_twice (omega arith) in
    let test : is_toggled_twice ch modifiers ≡ true =
      all_below-lt 0x100 (is_toggled_twice ch) modifiers (rw (← offset) row) m in
    let parts =
      test_parts (press ch modifiers).0 0
        (differ (has_flag (press ch modifiers).1 (modifier_bit ch))
          (has_flag modifiers (modifier_bit ch)))
        (press ch (press ch modifiers).1).1 modifiers test in
    (parts.0, parts.2, differ_lem _ _ parts.1)

keyboard_readc-scan :
    (status data_byte : ℕ) (kb : Keyboard)
    → has_flag status keyboard_status_ready ≡ true
    → keyboard_readc status data_byte kb ≡ scan data_byte kb
unfolding keyboard_readc
keyboard_readc-scan status data_byte kb ready = rw ready refl

pressed :
    (status code : ℕ) (kb : Keyboard)
    → has_flag status keyboard_status_ready ≡ true
    → code < 0x80
    → kb.last_escape ≡ 0
    → keyboard_readc status code kb ≡ (
      (press (key_at code) kb.modifiers).0,
      record { modifiers = (press (key_at code) kb.modifiers).1; last_escape = 0 },
    )
pressed status code kb ready c e = keyboard_readc-scan status code kb ready ∙ scan-press code kb c e

released :
    (status code : ℕ) (kb : Keyboard)
    → has_flag status keyboard_status_ready ≡ true
    → code < 0x60
    → kb.last_escape ≡ 0
    → keyboard_readc status (code + 0x80) kb
      ≡ (0, record { modifiers = release (key_at code) kb.modifiers; last_escape = 0 })
released status code kb ready c e =
    keyboard_readc-scan status (code + 0x80) kb ready ∙ scan-release code kb c e

-- Shift, Control or Alt, the key of the scan code `code`, pressed and then released: both calls
-- return 0, while the key is held its modifier bit is set, and behind the release that bit is
-- cleared and every other bit of `modifiers` is as it was.
pub keyboard_readc-held :
    (status code : ℕ) (kb : Keyboard)
    → has_flag status keyboard_status_ready ≡ true
    → code < 0x60
    → kb.modifiers < 0x100
    → kb.last_escape ≡ 0
    → key_shift ≤ key_at code
    → key_at code < key_capslock
    → let bit = modifier_bit (key_at code) in
      let down = keyboard_readc status code kb in
      let up = keyboard_readc status (code + 0x80) down.1 in
      (down.0 ≡ 0)
      × (has_flag down.1.modifiers bit ≡ true)
      × (up ≡ (0, record { modifiers = bit_and kb.modifiers (0xFF - bit); last_escape = 0 }))
keyboard_readc-held status code kb ready c m e l h =
    let bits = press-release_bits (key_at code) kb.modifiers l h m in
    let held : Keyboard = record {
      modifiers = (press (key_at code) kb.modifiers).1;
      last_escape = 0;
    } in
    let down = pressed status code kb ready (omega arith) e in
    let up = released status code held ready c refl in
    rw down (bits.0, bits.1, rw (up, bits.2) refl)

release_lock : (ch modifiers : ℕ) → key_capslock ≤ ch → release ch modifiers ≡ modifiers
unfolding release
release_lock ch modifiers l = ground arith

tapped :
    (status code : ℕ) (kb : Keyboard)
    → has_flag status keyboard_status_ready ≡ true
    → code < 0x60
    → kb.last_escape ≡ 0
    → key_capslock ≤ key_at code
    → (keyboard_readc status (code + 0x80) (keyboard_readc status code kb).1).1
      ≡ record { modifiers = (press (key_at code) kb.modifiers).1; last_escape = 0 }
tapped status code kb ready c e l =
    let held : Keyboard = record {
      modifiers = (press (key_at code) kb.modifiers).1;
      last_escape = 0;
    } in
    let down = pressed status code kb ready (omega arith) e in
    let up = released status code held ready c refl in
    rw (down, up, release_lock (key_at code) held.modifiers l) refl

-- Caps Lock, Num Lock or Scroll Lock, the key of the scan code `code`, pressed and released: its
-- modifier bit has changed; pressed and released once more, the keyboard's state is what it was.
pub keyboard_readc-locked :
    (status code : ℕ) (kb : Keyboard)
    → has_flag status keyboard_status_ready ≡ true
    → code < 0x60
    → kb.modifiers < 0x100
    → kb.last_escape ≡ 0
    → key_capslock ≤ key_at code
    → key_at code < 0x100
    → let bit = modifier_bit (key_at code) in
      let tap = λ (k : Keyboard).
        (keyboard_readc status (code + 0x80) (keyboard_readc status code k).1).1 in
      (has_flag (tap kb).modifiers bit ≡ not (has_flag kb.modifiers bit)) × (tap (tap kb) ≡ kb)
keyboard_readc-locked status code kb ready c m e l h =
    let bits = toggle_bits (key_at code) kb.modifiers l h m in
    let once = tapped status code kb ready c e l in
    let twice =
      tapped status code
        (record { modifiers = (press (key_at code) kb.modifiers).1; last_escape = 0 }) ready c refl
        l in
    rw once (bits.2, rw (twice, bits.1, ← e) refl)
