-- ===== src/Memory.antt =====
-- Physical memory as bytes, 64-bit loads and stores in little-endian order, and the byte loops of
-- lib.c (`memset`, `memcpy`, `memmove`).
pub mod Access
pub mod Blocks
use weensy_osvm.Base.{ℕ, zero, suc, ◌+◌, ◌*◌, ◌/◌, ◌%◌, Bool, ◌&&◌, ◌==◌, ltb, if◌then◌else◌}
use weensy_osvm.X86.{u8}

abbrev pub Mem : Type 0
Mem = ℕ → ℕ

unfoldable pub store8 : Mem → ℕ → ℕ → Mem
store8 m a v b = if b == a then v else m b

-- `n` bytes from address `a`, the lowest first.
pub load_bytes : ℕ → Mem → ℕ → ℕ
load_bytes zero m a = 0
load_bytes (suc n) m a = m a + 256 * load_bytes n m (a + 1)

pub store_bytes : ℕ → Mem → ℕ → ℕ → Mem
store_bytes zero m a v = m
store_bytes (suc n) m a v = store_bytes n (store8 m a (u8 v)) (a + 1) (v / 256)

unfoldable pub load64 : Mem → ℕ → ℕ
unfolding load_bytes
load64 m a = load_bytes 8 m a

unfoldable pub store64 : Mem → ℕ → ℕ → Mem
unfolding store_bytes store8
store64 m a v = store_bytes 8 m a v

-- `for (char* p = (char*) v; n > 0; ++p, --n) *p = c;`
unfoldable pub memset : Mem → ℕ → ℕ → ℕ → Mem
unfolding store8
memset m v c zero = m
memset m v c (suc n) = memset (store8 m v (u8 c)) (v + 1) c n

-- `for (char* d = (char*) dst; n > 0; --n, ++s, ++d) *d = *s;`
unfoldable pub memcpy : Mem → ℕ → ℕ → ℕ → Mem
unfolding store8
memcpy m dst src zero = m
memcpy m dst src (suc n) = memcpy (store8 m dst (m src)) (dst + 1) (src + 1) n

-- `while (n-- > 0) *--d = *--s;`, with `d` and `s` past the end of what is left
unfoldable pub memmove_down : Mem → ℕ → ℕ → ℕ → Mem
unfolding store8
memmove_down m dst src zero = m
memmove_down m dst src (suc n) = memmove_down (store8 m (dst + n) (m (src + n))) dst src n

unfoldable pub memmove : Mem → ℕ → ℕ → ℕ → Mem
unfolding memmove_down memcpy
memmove m dst src n =
    if ltb src dst && ltb dst (src + n) then memmove_down m dst src n else memcpy m dst src n
