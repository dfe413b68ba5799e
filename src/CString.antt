-- ===== src/CString.antt =====
-- lib.c: the functions on strings in memory. A loop that stops at a character has fuel, which is
-- enough if it is more than the string's length; where it runs out, there is no result.
pub mod Length
pub mod Copy
pub mod Order
pub mod Search
use weensy_osvm.Base.{
  ℕ, zero, suc, ◌+◌, Bool, ◌&&◌, ◌==◌, ◌!=◌, ltb, if◌then◌else◌, Option, none, some,
}
use weensy_osvm.X86.{u8, int_minus_one}
use weensy_osvm.Memory.{Mem, store8}

-- `for (n = 0; *s != '\0'; ++s) ++n;`
pub strlen_loop : (fuel : ℕ) (m : Mem) (s n : ℕ) → Option ℕ
strlen_loop zero m s n = none
strlen_loop (suc fuel) m s n =
    let rest = strlen_loop fuel m (s + 1) (n + 1) in if m s != 0 then rest else some n

pub strlen : (fuel : ℕ) (m : Mem) (s : ℕ) → Option ℕ
unfolding strlen_loop
strlen fuel m s = strlen_loop fuel m s 0

-- `for (n = 0; n != maxlen && *s != '\0'; ++s) ++n;` with `left` = maxlen - n
pub strnlen_loop : (left : ℕ) (m : Mem) (s n : ℕ) → ℕ
strnlen_loop zero m s n = n
strnlen_loop (suc left) m s n =
    let rest = strnlen_loop left m (s + 1) (n + 1) in if m s != 0 then rest else n

pub strnlen : (m : Mem) (s maxlen : ℕ) → ℕ
unfolding strnlen_loop
strnlen m s maxlen = strnlen_loop maxlen m s 0

-- `do { *d++ = *src++; } while (d[-1]);` and the memory it leaves
pub strcpy : (fuel : ℕ) (m : Mem) (dst src : ℕ) → Option Mem
unfolding store8
strcpy zero m dst src = none
strcpy (suc fuel) m dst src =
    let copied = store8 m dst (m src) in
    let rest = strcpy fuel copied (dst + 1) (src + 1) in
    if copied dst != 0 then rest else some copied

-- The sign of the comparison of two characters, an `int`.
unfoldable pub order : ℕ → ℕ → ℕ
order a b = if ltb b a then 1 else if ltb a b then int_minus_one else 0

pub strcmp : (fuel : ℕ) (m : Mem) (a b : ℕ) → Option ℕ
unfolding order
strcmp zero m a b = none
strcmp (suc fuel) m a b =
    let rest = strcmp fuel m (a + 1) (b + 1) in
    if m a != 0 && m b != 0 && m a == m b then rest else some (order (m a) (m b))

-- The result is NULL, 0, where the character does not occur.
pub strchr : (fuel : ℕ) (m : Mem) (s c : ℕ) → Option ℕ
strchr zero m s c = none
strchr (suc fuel) m s c =
    let rest = strchr fuel m (s + 1) c in
    if m s != 0 && m s != u8 c then rest else if m s == u8 c then some s else some 0
